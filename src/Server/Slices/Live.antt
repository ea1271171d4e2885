-- ===== src/Server/Slices/Live.antt =====
-- What a write of server/store.go does to the live state while it edits its clone.
use seshat_tasks.Prelude.{
  ℕ, suc, ◌≤◌, ◌<◌, Text, Map, ◌==◌, eqb, eqb_iff, get, put, false, Option, none, some, List, [],
  ◌∷◌, ◌≡◌, refl, sym, ap, subst, ◌∙◌, arith, Bool-cases, Option-cases, inl, inr,
}
use seshat_tasks.Prelude.Int.{ℤ, inc64}
use seshat_tasks.Task.{Task}
use seshat_tasks.Server.Content.{insert_at, remove_string}
use seshat_tasks.Server.Store.{with_children, place}
use seshat_tasks.Server.Store.Lists.{place-le-length}
use seshat_tasks.Server.Slices.{
  Slice, Heap, read, SharedTask, seen, seen_all, clone_state, edit_parent, insert_in_place,
  remove_in_place,
}
use seshat_tasks.Server.Slices.Arrays.{Fits, Edited}
use seshat_tasks.Server.Slices.Edits.{insert_in_place-Edited, remove_in_place-Edited}
use seshat_tasks.Server.Slices.Clones.{
  IsBelow, read-kept, seen-kept, seen_all-kept, Fresh, Cloned, clone_state-Cloned,
}

get-seen_all :
    (h : Heap) (k : Text) (ts : Map SharedTask)
    → get k (seen_all h ts) ≡ (elim (get k ts) [ none ↦ none | some t ↦ some (seen h t) ])
unfolding get seen_all
get-seen_all h k [] = refl
get-seen_all h k ((j, t) ∷ ts) = ground (arith, get-seen_all h k ts)

-- What is known of a task that is found among fresh ones.
abbrev Found : ℕ → Heap → SharedTask → Type 0
Found lo h p =
    (lo ≤ p.child_ids.base) × (p.child_ids.base < p.tags.base) × Fits h p.child_ids × Fits h p.tags

get-Fresh :
    (lo : ℕ) (h : Heap) (k : Text) (ts : Map SharedTask) (p : SharedTask)
    → Fresh lo h ts
    → get k ts ≡ some p
    → Found lo h p
unfolding get
get-Fresh lo h k [] p f e = absurd (cc e)
get-Fresh lo h k ((j, t) ∷ ts) p (a, b, c, d, f) e = elim (Bool-cases (k == j)) [
  | inl here ↦ let same : t ≡ p = ground arith in subst (Found lo h) same (a, b, c, d)
  | inr there ↦
      let (a', b', c', d') = get-Fresh (suc t.tags.base) h k ts p f (ground arith) in
      (omega arith, b', c', d')
]

-- A heap in which at most the array `b` has changed.
module _ (h h' : Heap) (b : ℕ)
    (frame : (c : ℕ) → c < h.next → eqb c b ≡ false → h'.array c ≡ h.array c) where
  apart : (s : Slice) → Fits h s → eqb s.base b ≡ false → h'.array s.base ≡ h.array s.base
  apart s fits other = frame s.base fits.0 other

  Fresh-kept :
      (lo : ℕ) (ts : Map SharedTask) → b < lo → Fresh lo h ts → seen_all h' ts ≡ seen_all h ts
  unfolding seen_all
  Fresh-kept lo [] below f = refl
  Fresh-kept lo ((k, t) ∷ ts) below (p, q, c, d, f) =
      rw
        (
          seen-kept h h' t (apart t.child_ids c (ground (arith, eqb_iff t.child_ids.base b)))
              (apart t.tags d (ground (arith, eqb_iff t.tags.base b))),
          Fresh-kept (suc t.tags.base) ts (omega arith) f,
        )
        refl

  -- Only the entry that is replaced may name that array.
  put-seen_all :
      (lo : ℕ) (k : Text) (ts : Map SharedTask) (p p' : SharedTask)
      → Fresh lo h ts
      → get k ts ≡ some p
      → p.child_ids.base ≡ b
      → seen_all h' (put k p' ts) ≡ put k (seen h' p') (seen_all h ts)
  unfolding get put seen_all
  put-seen_all lo k [] p p' f e same = absurd (cc e)
  put-seen_all lo k ((j, t) ∷ ts) p p' (a, q, c, d, f) e same = elim (Bool-cases (k == j)) [
    | inl here ↦
        let this : t ≡ p = ground arith in
        rw here
          (ap (λ m. (j, seen h' p') ∷ m) (Fresh-kept (suc t.tags.base) ts (ground (arith, this)) f))
    | inr there ↦
        let found : get k ts ≡ some p = ground arith in
        let (low, _, _, _) = get-Fresh (suc t.tags.base) h k ts p f found in
        rw
          (
            there,
            seen-kept h h' t (apart t.child_ids c (ground (arith, eqb_iff t.child_ids.base b)))
                (apart t.tags d (ground (arith, eqb_iff t.tags.base b))),
            put-seen_all (suc t.tags.base) k ts p p' f found same,
          )
          refl
  ]

-- What a call makes of its parent, in the model of the store: its new child list, and one more version.
abbrev pub parent_edited : (List Text → List Text) → ℤ → Text → Map Task → Map Task
parent_edited g now pid ts = elim (get pid ts) [
  | none ↦ ts
  | some p ↦ put pid (with_children now (g p.content.child_ids) p) ts
]

-- An edit that computes this of the values of a slice.
abbrev Computes : (Slice → Heap → Slice × Heap) → (List Text → List Text) → Type 0
Computes edit g = (s : Slice) (h : Heap) → Fits h s → Edited h s (g (read h s)) (edit s h)

-- After an edit of a clone the state reads as before, and the clone as the store's model says.
abbrev pub Separate :
    (ℕ → ℕ)
    → (Slice → Heap → Slice × Heap)
    → (List Text → List Text)
    → ℤ
    → Text
    → Map SharedTask
    → Heap
    → Type 0
Separate grow edit g now pid live h =
    let (cand, h1) = clone_state grow live h in
    let (cand', h2) = edit_parent edit now pid cand h1 in
    (seen_all h2 live ≡ seen_all h live)
    × (seen_all h2 cand' ≡ parent_edited g now pid (seen_all h live))

module _ (grow : ℕ → ℕ) (edit : Slice → Heap → Slice × Heap) (g : List Text → List Text)
    (computes : Computes edit g) (now : ℤ) (pid : Text) (live : Map SharedTask) (h : Heap)
    (below : IsBelow h.next live) where
  abbrev cand : Map SharedTask
  cand = (clone_state grow live h).0

  abbrev h1 : Heap
  h1 = (clone_state grow live h).1

  cloned : Cloned h live (clone_state grow live h)
  cloned = clone_state-Cloned grow live h below

  looked_up :
      get pid (seen_all h live) ≡ (elim (get pid cand) [ none ↦ none | some t ↦ some (seen h1 t) ])
  looked_up = ap (get pid) (sym cloned.same) ∙ get-seen_all h1 pid cand

  none_edited :
      get pid (seen_all h live) ≡ none → parent_edited g now pid (seen_all h live) ≡ seen_all h live
  none_edited absent = rw (absent, parent_edited) refl

  some_edited :
      (t : Task)
      → get pid (seen_all h live) ≡ some t
      → parent_edited g now pid (seen_all h live)
        ≡ put pid (with_children now (g t.content.child_ids) t) (seen_all h live)
  some_edited t found = rw (found, parent_edited) refl

  module _ (p : SharedTask) (found : get pid cand ≡ some p) where
    place_of : Found h.next h1 p
    place_of = get-Fresh h.next h1 pid cand p cloned.fresh found

    edited : Edited h1 p.child_ids (g (read h1 p.child_ids)) (edit p.child_ids h1)
    edited = let (_, _, fits, _) = place_of in computes p.child_ids h1 fits

    abbrev h2 : Heap
    h2 = (edit p.child_ids h1).1

    abbrev p' : SharedTask
    p' = record p {
      task = record p.task {
        meta = record p.task.meta { version = inc64 p.task.meta.version; updated_at = now };
      };
      child_ids = (edit p.child_ids h1).0;
    }

    live-kept : seen_all h2 live ≡ seen_all h live
    live-kept =
        let (low, _, _, _) = place_of in
        seen_all-kept h.next h h2 live below (λ c lt.
          edited.frame c (omega (arith, cloned.grown)) (ground (arith, eqb_iff c p.child_ids.base))
          ∙ cloned.frame c lt)

    seen-edited : seen h2 p' ≡ with_children now (g (read h1 p.child_ids)) (seen h1 p)
    unfolding seen with_children
    seen-edited =
        let (_, apart_tags, _, fits) = place_of in
        let tags_kept : h2.array p.tags.base ≡ h1.array p.tags.base =
          edited.frame p.tags.base fits.0 (ground (arith, eqb_iff p.tags.base p.child_ids.base)) in
        rw (edited.result, read-kept h1 h2 p.tags tags_kept) refl

    cand-edited :
        seen_all h2 (put pid p' cand)
        ≡ put pid (with_children now (g (read h1 p.child_ids)) (seen h1 p)) (seen_all h live)
    cand-edited =
        put-seen_all h1 h2 p.child_ids.base edited.frame h.next pid cand p p' cloned.fresh found
          refl
        ∙ rw (seen-edited, cloned.same) refl

  edit_parent-Separate : Separate grow edit g now pid live h
  unfolding edit_parent seen
  edit_parent-Separate = elim (Option-cases (get pid cand)) [
    | inl absent ↦
        rw (absent, edit_parent)
          (
            seen_all-kept h.next h h1 live below cloned.frame,
            cloned.same ∙ sym (none_edited (looked_up ∙ rw absent refl)),
          )
    | inr (p, found) ↦
        rw (found, edit_parent)
          (
            live-kept p found,
            cand-edited p found ∙ sym (some_edited (seen h1 p) (looked_up ∙ rw found refl)),
          )
  ]

-- The edits of the two calls.
abbrev pub inserting : (ℕ → ℕ) → Option ℤ → Text → Slice → Heap → Slice × Heap
inserting grow position id s h = insert_in_place grow (place position (read h s)) id s h

abbrev pub inserted : Option ℤ → Text → List Text → List Text
inserted position id ids = insert_at ids (place position ids) id

abbrev pub removed : Text → List Text → List Text
removed id ids = remove_string ids id

-- `Add` and `Delete` write into arrays, but never into those of the live state: of a state whose slices
-- are there, and however much `append` leaves to spare, after the clone and insertAt, or the clone
-- and removeString, on the child list of one task, the live state reads as before, and the clone
-- reads as the state with the new child list and one more version of that task.
pub edits-Separate :
    (grow : ℕ → ℕ) (position : Option ℤ) (id pid : Text) (now : ℤ) (live : Map SharedTask)
    (h : Heap)
    → IsBelow h.next live
    → Separate grow (inserting grow position id) (inserted position id) now pid live h
      × Separate grow (remove_in_place grow id) (removed id) now pid live h
edits-Separate grow position id pid now live h below = (
  edit_parent-Separate grow (inserting grow position id) (inserted position id)
      (λ s h' fits.
        insert_in_place-Edited grow (place position (read h' s)) id s h' fits
          (place-le-length position (read h' s)))
      now pid live h below,
  edit_parent-Separate grow (remove_in_place grow id) (removed id)
      (λ s h' fits. remove_in_place-Edited grow id s h' fits) now pid live h below,
)
