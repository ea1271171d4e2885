-- ===== src/Server/Slices/Edits.antt =====
-- insertAt and removeString of server/store.go on slices: what they compute, and that they write into
-- no other array.
use mathlib.Core.List.{append_assoc, append-nil}
use seshat_tasks.Prelude.{
  ℕ, zero, suc, ◌+◌, ◌-◌, ◌≤◌, ◌<◌, Text, ◌==◌, eqb_iff, lt→ltb, length, take, drop, take-append,
  take-append-drop, List, [], ◌∷◌, ◌++◌, ◌≡◌, refl, sym, ap, subst, ◌∙◌, arith, Bool-cases, inl,
  inr,
}
use seshat_tasks.Server.Content.{insert_at, remove_string}
use seshat_tasks.Server.Slices.{
  Slice, Heap, read, set_array, set_at, copy_up, append, insert_in_place, keep_others,
  remove_in_place,
}
use seshat_tasks.Server.Slices.Arrays.{
  take-set_at, drop-set_at, drop-cell, copied, length-insert_at, length-read, Fits, Edited, Front,
  append-Front, array_self,
}

module _ (grow : ℕ → ℕ) where
  -- insertAt gives the values with the new one at its place.
  pub insert_in_place-Edited :
      (i : ℕ) (v : Text) (s : Slice) (h : Heap)
      → Fits h s
      → i ≤ length (read h s)
      → Edited h s (insert_at (read h s) i v) (insert_in_place grow i v s h)
  unfolding insert_in_place
  insert_in_place-Edited i v s h fits inside = record {
    result =
        ap (take s'.len) (array_self s'.base _ h' ∙ cells)
        ∙ ap (λ n. take n (insert_at xs i v ++ f.rest))
            (f.len ∙ sym (length-insert_at xs i v inside))
        ∙ take-append (insert_at xs i v) f.rest;
    grown = f.grown;
    frame = λ c below other. ground (
      arith,
      f.frame c below other,
      f.place,
      eqb_iff c s'.base,
      eqb_iff s'.base s.base,
      eqb_iff c s.base,
    );
  }
    where
      xs : List Text
      xs = read h s

      s' : Slice
      s' = (append grow s [] h).0

      h' : Heap
      h' = (append grow s [] h).1

      f : Front h s xs [] (append grow s [] h)
      f = append-Front grow h s [] fits

      cells :
          set_at (copy_up (h'.array s'.base) i (s'.len - i - 1)) i v ≡ insert_at xs i v ++ f.rest
      cells =
          ap (λ a. set_at (copy_up a i (s'.len - i - 1)) i v) f.cells
          ∙ ap (λ n. set_at (copy_up (xs ++ ([] ∷ f.rest)) i n) i v) (omega (arith, f.len))
          ∙ copied xs [] f.rest i v inside

  append-in_place :
      (out s : Slice) (y : Text) (h : Heap)
      → out.base ≡ s.base
      → out.len < length (h.array s.base)
      → append grow out y h
        ≡ (record out { len = out.len + 1 }, set_array s.base (set_at (h.array s.base) out.len y) h)
  unfolding append
  append-in_place out s y h base room = rw (base, lt→ltb _ _ room) refl

  -- A write into the array of a slice comes before an edit of the slice.
  Edited-after :
      (a : List Text) (h : Heap) (s : Slice) (values : List Text) (made : Slice × Heap)
      → Edited (set_array s.base a h) s values made
      → Edited h s values made
  Edited-after a h s values made e = record {
    result = e.result;
    grown = e.grown;
    frame = λ c below other. e.frame c below other ∙ rw other refl;
  }

  -- The loop: `kept` stands in front, and `left` is what it has not looked at.
  keep_others-Kept :
      (n i : ℕ) (v : Text) (s out : Slice) (h : Heap) (kept left rest : List Text)
      → out.base ≡ s.base
      → take out.len (h.array s.base) ≡ kept
      → out.len ≤ i
      → drop i (h.array s.base) ≡ left ++ rest
      → length left ≡ n
      → Edited h s (kept ++ remove_string left v) (keep_others grow n i v s out h)
  unfolding keep_others remove_string
  keep_others-Kept zero i v s out h kept [] rest base front low back count = record {
    result = ap (λ b. take out.len (h.array b)) base ∙ front ∙ sym (append-nil kept);
    grown = omega arith;
    frame = λ c below other. refl;
  }
  keep_others-Kept zero i v s out h kept (y ∷ left) rest base front low back count =
      absurd (omega arith)
  keep_others-Kept (suc n) i v s out h kept [] rest base front low back count = absurd (omega arith)
  keep_others-Kept (suc n) i v s out h kept (y ∷ left) rest base front low back count =
      let (below, here, next) = drop-cell (h.array s.base) i y (left ++ rest) back in
      elim (Bool-cases (y == v)) [
        | inl same ↦
            rw (here, same)
              (keep_others-Kept n (suc i) v s out h kept left rest base front (omega arith) next
                (omega arith))
        | inr other ↦
            let a = set_at (h.array s.base) out.len y in
            let one_more : out.len + 1 ≡ suc out.len = omega arith in
            let written = array_self s.base a h in
            rw (here, other, append-in_place out s y h base (omega arith))
              (Edited-after a h s _ _ (
                subst
                  (λ values. Edited (set_array s.base a h) s values (
                    keep_others grow n (suc i) v s (record out { len = out.len + 1 })
                      (set_array s.base a h)))
                  (append_assoc kept (y ∷ []) (remove_string left v))
                  (keep_others-Kept n (suc i) v s (record out { len = out.len + 1 })
                    (set_array s.base a h) (kept ++ (y ∷ [])) left rest base
                    (ap (take (out.len + 1)) written
                      ∙ ap (λ k. take k a) one_more
                      ∙ take-set_at (h.array s.base) out.len y (omega arith)
                      ∙ ap (λ l. l ++ (y ∷ [])) front)
                    (omega arith)
                    (ap (drop (suc i)) written
                      ∙ drop-set_at (h.array s.base) (suc i) out.len y (omega arith)
                      ∙ next)
                    (omega arith))))
      ]

  -- removeString gives the values without the given one.
  pub remove_in_place-Edited :
      (v : Text) (s : Slice) (h : Heap)
      → Fits h s
      → Edited h s (remove_string (read h s) v) (remove_in_place grow v s h)
  unfolding remove_in_place
  remove_in_place-Edited v s h fits =
      keep_others-Kept s.len 0 v s (record s { len = 0 }) h [] (read h s)
        (drop s.len (h.array s.base)) refl refl (omega arith)
        (sym (take-append-drop s.len (h.array s.base))) (length-read h s fits.1)
