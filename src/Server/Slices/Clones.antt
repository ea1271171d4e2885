-- ===== src/Server/Slices/Clones.antt =====
-- cloneState of server/store.go: its copy has the values of the state, in arrays of its own.
use seshat_tasks.Prelude.{
  ℕ, suc, ◌+◌, ◌≤◌, ◌<◌, Text, Map, eqb_iff, length, length-append, take, take-append, List, [],
  ◌∷◌, ◌++◌, ◌≡◌, refl, sym, ap, subst, ◌∙◌, arith,
}
use seshat_tasks.Server.Slices.{
  Slice, Heap, read, zeros, alloc, SharedTask, seen, seen_all, clone_state,
}
use seshat_tasks.Server.Slices.Arrays.{Fits, array_self}

-- Every slice of the tasks names an array that is there.
abbrev pub IsBelow : ℕ → Map SharedTask → Type 0
IsBelow n [] = Unit {0}
IsBelow n ((k, t) ∷ ts) = (t.child_ids.base < n) × (t.tags.base < n) × IsBelow n ts

IsBelow-weaken : (n m : ℕ) (ts : Map SharedTask) → n ≤ m → IsBelow n ts → IsBelow m ts
IsBelow-weaken n m [] le below = tt
IsBelow-weaken n m ((k, t) ∷ ts) le (a, b, below) =
    (omega arith, omega arith, IsBelow-weaken n m ts le below)

pub read-kept : (h h' : Heap) (s : Slice) → h'.array s.base ≡ h.array s.base → read h' s ≡ read h s
read-kept h h' s same = ap (take s.len) same

pub seen-kept :
    (h h' : Heap) (t : SharedTask)
    → h'.array t.child_ids.base ≡ h.array t.child_ids.base
    → h'.array t.tags.base ≡ h.array t.tags.base
    → seen h' t ≡ seen h t
unfolding seen
seen-kept h h' t a b = rw (a, b) refl

pub seen_all-kept :
    (n : ℕ) (h h' : Heap) (ts : Map SharedTask)
    → IsBelow n ts
    → ((c : ℕ) → c < n → h'.array c ≡ h.array c)
    → seen_all h' ts ≡ seen_all h ts
unfolding seen_all
seen_all-kept n h h' [] below same = refl
seen_all-kept n h h' ((k, t) ∷ ts) (a, b, below) same =
    rw
      (
        seen-kept h h' t (same t.child_ids.base a) (same t.tags.base b),
        seen_all-kept n h h' ts below same,
      )
      refl

-- Tasks whose slices have arrays of their own, from `lo` on.
abbrev pub Fresh : ℕ → Heap → Map SharedTask → Type 0
Fresh lo h [] = Unit {0}
Fresh lo h ((k, t) ∷ ts) =
    (lo ≤ t.child_ids.base)
    × (t.child_ids.base < t.tags.base)
    × Fits h t.child_ids
    × Fits h t.tags
    × Fresh (suc t.tags.base) h ts

pub record Cloned (h : Heap) (ts : Map SharedTask) (made : Map SharedTask × Heap) : Type 0 where
  pub same : seen_all made.1 made.0 ≡ seen_all h ts
  pub fresh : Fresh h.next made.1 made.0
  pub grown : h.next ≤ made.1.next
  pub frame : (c : ℕ) → c < h.next → made.1.array c ≡ h.array c

module _ (grow : ℕ → ℕ) where
  cells-alloc :
      (xs : List Text) (h : Heap)
      → (alloc grow xs h).1.array h.next ≡ xs ++ zeros (grow (length xs))
  unfolding alloc
  cells-alloc xs h = array_self h.next _ (record h { next = h.next + 1 })

  read-alloc : (xs : List Text) (h : Heap) → read (alloc grow xs h).1 (alloc grow xs h).0 ≡ xs
  unfolding alloc
  read-alloc xs h = ap (take (length xs)) (cells-alloc xs h) ∙ take-append xs _

  alloc-frame :
      (xs : List Text) (h : Heap) (c : ℕ) → c < h.next → (alloc grow xs h).1.array c ≡ h.array c
  unfolding alloc
  alloc-frame xs h c below = ground (arith, eqb_iff c h.next)

  alloc_places :
      (xs : List Text) (h : Heap)
      → ((alloc grow xs h).0.base ≡ h.next) × ((alloc grow xs h).1.next ≡ h.next + 1)
  unfolding alloc
  alloc_places xs h = (refl, refl)

  alloc-Fits : (xs : List Text) (h : Heap) → Fits (alloc grow xs h).1 (alloc grow xs h).0
  unfolding alloc
  alloc-Fits xs h = (
    omega arith,
    subst (λ a. length xs ≤ length a) (sym (cells-alloc xs h))
        (omega (arith, length-append xs (zeros (grow (length xs))))),
  )

  Fits-kept :
      (h h' : Heap) (s : Slice)
      → Fits h s
      → h.next ≤ h'.next
      → h'.array s.base ≡ h.array s.base
      → Fits h' s
  Fits-kept h h' s (there, fits) grown same =
      (omega arith, subst (λ a. s.len ≤ length a) (sym same) fits)

  -- The copies of the two lists of one task.
  module _ (t : SharedTask) (h : Heap) where
    abbrev ids : Slice
    ids = (alloc grow (read h t.child_ids) h).0

    abbrev h1 : Heap
    h1 = (alloc grow (read h t.child_ids) h).1

    abbrev tags : Slice
    tags = (alloc grow (read h1 t.tags) h1).0

    abbrev h2 : Heap
    h2 = (alloc grow (read h1 t.tags) h1).1

    copies_places :
        (ids.base ≡ h.next)
        × (h1.next ≡ h.next + 1)
        × (tags.base ≡ h1.next)
        × (h2.next ≡ h1.next + 1)
    copies_places =
        let (a, b) = alloc_places (read h t.child_ids) h in
        let (c, d) = alloc_places (read h1 t.tags) h1 in (a, b, c, d)

    copies-frame : (c : ℕ) → c < h.next → h2.array c ≡ h.array c
    copies-frame c below =
        alloc-frame (read h1 t.tags) h1 c (omega (arith, copies_places))
        ∙ alloc-frame (read h t.child_ids) h c below

    module _ (h' : Heap) (grown : h2.next ≤ h'.next)
        (frame : (c : ℕ) → c < h2.next → h'.array c ≡ h2.array c) where
      ids-kept : h'.array ids.base ≡ h1.array ids.base
      ids-kept =
          frame ids.base (omega (arith, copies_places))
          ∙ alloc-frame (read h1 t.tags) h1 ids.base (omega (arith, copies_places))

      tags-kept : h'.array tags.base ≡ h2.array tags.base
      tags-kept = frame tags.base (omega (arith, copies_places))

      ids-Fits : Fits h' ids
      ids-Fits =
          Fits-kept h1 h' ids (alloc-Fits (read h t.child_ids) h) (omega (arith, copies_places))
            ids-kept

      tags-Fits : Fits h' tags
      tags-Fits = Fits-kept h2 h' tags (alloc-Fits (read h1 t.tags) h1) grown tags-kept

      seen-copy :
          t.tags.base < h.next → seen h' (record t { child_ids = ids; tags = tags }) ≡ seen h t
      unfolding seen
      seen-copy below =
          rw
            (
              read-kept h1 h' ids ids-kept ∙ read-alloc (read h t.child_ids) h,
              read-kept h2 h' tags tags-kept
                  ∙ read-alloc (read h1 t.tags) h1
                  ∙ read-kept h h1 t.tags (alloc-frame (read h t.child_ids) h t.tags.base below),
            )
            refl

  pub clone_state-Cloned :
      (ts : Map SharedTask) (h : Heap) → IsBelow h.next ts → Cloned h ts (clone_state grow ts h)
  unfolding clone_state seen_all
  clone_state-Cloned [] h below = record {
    same = refl;
    fresh = tt;
    grown = omega arith;
    frame = λ c p. refl;
  }
  clone_state-Cloned ((k, t) ∷ ts) h (a, b, below) =
      let places = copies_places t h in
      let c = clone_state-Cloned ts (h2 t h) (IsBelow-weaken h.next _ ts (omega arith) below) in
      let h' = (clone_state grow ts (h2 t h)).1 in
      let above : (h2 t h).next ≡ suc (tags t h).base = omega arith in
      record {
        same =
            rw
              (
                seen-copy t h h' c.grown c.frame b,
                c.same,
                seen_all-kept h.next h (h2 t h) ts below (copies-frame t h),
              )
              refl;
        fresh = (
          omega arith,
          omega arith,
          ids-Fits t h h' c.grown c.frame,
          tags-Fits t h h' c.grown c.frame,
          subst (λ lo. Fresh lo h' (clone_state grow ts (h2 t h)).0) above c.fresh,
        );
        grown = omega (arith, c.grown);
        frame = λ d p. c.frame d (omega arith) ∙ copies-frame t h d p;
      }
