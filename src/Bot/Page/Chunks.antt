-- ===== src/Bot/Page/Chunks.antt =====
-- The pages of client/bot/view.go as a division of the groups.
use mathlib.Core.List.{flatten, append_assoc}
use seshat_tasks.Prelude.{
  ℕ, zero, suc, ◌+◌, ◌≤◌, ◌<◌, length, length-append, take-append, drop-append, take, drop,
  get_elem?, true, false, some, List, [], ◌∷◌, ◌++◌, if◌then◌else◌, ◌≡◌, refl, sym, ap, subst, ◌∙◌,
  ◌⊎◌, arith, Bool-cases, inl, inr, All,
}
use seshat_tasks.Bot.View.{Group}
use seshat_tasks.Bot.Page.{
  starts_page, roots_after, rows_after, page_breaks_from, page_breaks, page_start, page_end, slice,
}
use seshat_tasks.Bot.Page.Bounds.{total, starts_page-pos}

total-append : (xs ys : List Group) → total (xs ++ ys) ≡ total xs + total ys
unfolding total
total-append [] ys = omega arith
total-append (x ∷ xs) ys = omega (arith, total-append xs ys)

-- The groups of each page, with those of the page that is being filled.
unfoldable pub chunks_from : ℕ → ℕ → ℕ → List Group → List Group → List (List Group)
chunks_from i roots rows open_chunk [] = open_chunk ∷ []
chunks_from i roots rows open_chunk (g ∷ gs) =
    let started =
      chunks_from (i + 1) (roots_after i roots rows g) (rows_after i roots rows g) (g ∷ []) gs in
    let stayed =
      chunks_from (i + 1) (roots_after i roots rows g) (rows_after i roots rows g)
        (open_chunk ++ (g ∷ [])) gs in
    if starts_page i roots rows g then open_chunk ∷ started else stayed

-- Where each of them starts.
unfoldable pub starts_of : ℕ → List (List Group) → List ℕ
starts_of s [] = []
starts_of s (c ∷ cs) = s ∷ starts_of (s + length c) cs

page_breaks_from-starts_of :
    (s roots rows : ℕ) (c : List Group) (gs : List Group)
    → s ∷ page_breaks_from (s + length c) roots rows gs
      ≡ starts_of s (chunks_from (s + length c) roots rows c gs)
unfolding page_breaks_from chunks_from starts_of
page_breaks_from-starts_of s roots rows c [] = refl
page_breaks_from-starts_of s roots rows c (g ∷ gs) =
    let i = s + length c in
    let roots' = roots_after i roots rows g in
    let rows' = rows_after i roots rows g in
    elim (Bool-cases (starts_page i roots rows g)) [
      | inl starts ↦
          rw starts (ap (λ bs. s ∷ bs) (page_breaks_from-starts_of i roots' rows' (g ∷ []) gs))
      | inr stays ↦
          let e : s + length (c ++ (g ∷ [])) ≡ i + 1 = omega (arith, length-append c (g ∷ [])) in
          rw stays (
            subst
              (λ j.
                s ∷ page_breaks_from j roots' rows' gs
                ≡ starts_of s (chunks_from j roots' rows' (c ++ (g ∷ [])) gs))
              e (page_breaks_from-starts_of s roots' rows' (c ++ (g ∷ [])) gs))
    ]

flatten-chunks_from :
    (i roots rows : ℕ) (c : List Group) (gs : List Group)
    → flatten (chunks_from i roots rows c gs) ≡ c ++ gs
unfolding chunks_from flatten
flatten-chunks_from i roots rows c [] = refl
flatten-chunks_from i roots rows c (g ∷ gs) =
    let roots' = roots_after i roots rows g in
    let rows' = rows_after i roots rows g in
    elim (Bool-cases (starts_page i roots rows g)) [
      | inl starts ↦
          rw starts (ap (λ x. c ++ x) (flatten-chunks_from (i + 1) roots' rows' (g ∷ []) gs))
      | inr stays ↦
          rw stays (
            flatten-chunks_from (i + 1) roots' rows' (c ++ (g ∷ [])) gs
            ∙ append_assoc c (g ∷ []) gs)
    ]

-- A page: at most 5 groups, of at most 25 rows in all, or one larger group alone.
abbrev pub IsPage : List Group → Type 0
IsPage c = (0 < length c) × (length c ≤ 5) × ((total c ≤ 25) ⊎ (length c ≡ 1))

-- The page that is being filled before group `i`, and the counters.
record Filling (i roots rows : ℕ) (c : List Group) : Type 0 where
  pub counted : length c ≤ roots
  pub bounded : roots ≤ 5
  pub fits : ((total c ≤ rows) × (rows ≤ 25)) ⊎ ((length c ≡ 1) × (roots ≡ 5))
  pub first : i ≡ 0 → (length c ≡ 0) × (roots ≡ 0) × (rows ≡ 0)
  pub later : 0 < i → 0 < length c

Filling-starts :
    (i roots rows : ℕ) (g : Group)
    → starts_page i roots rows g ≡ true
    → Filling (i + 1) (roots_after i roots rows g) (rows_after i roots rows g) (g ∷ [])
unfolding starts_page roots_after rows_after total
Filling-starts i roots rows g h = record {
  counted = ground arith;
  bounded = ground arith;
  fits = ground arith;
  first = λ e. absurd (omega arith);
  later = λ p. omega arith;
}

Filling-stays :
    (i roots rows : ℕ) (c : List Group) (g : Group)
    → Filling i roots rows c
    → starts_page i roots rows g ≡ false
    → Filling (i + 1) (roots_after i roots rows g) (rows_after i roots rows g) (c ++ (g ∷ []))
unfolding starts_page roots_after rows_after total
Filling-stays i roots rows c g f h = record {
  counted = ground (arith, f.counted, f.first, length-append c (g ∷ []));
  bounded = ground (arith, f.bounded, f.first);
  fits = ground (arith, f.fits, f.first, length-append c (g ∷ []), total-append c (g ∷ []));
  first = λ e. absurd (omega arith);
  later = λ p. omega (arith, length-append c (g ∷ []));
}

Filling-IsPage : (i roots rows : ℕ) (c : List Group) → Filling i roots rows c → 0 < i → IsPage c
Filling-IsPage i roots rows c f h =
    (f.later h, omega (arith, f.counted, f.bounded), ground (arith, f.fits))

chunks_from-IsPage :
    (i roots rows : ℕ) (c : List Group) (gs : List Group)
    → Filling i roots rows c
    → 0 < i + length gs
    → All IsPage (chunks_from i roots rows c gs)
unfolding chunks_from
chunks_from-IsPage i roots rows c [] f h = (Filling-IsPage i roots rows c f (omega arith), tt)
chunks_from-IsPage i roots rows c (g ∷ gs) f h =
    let roots' = roots_after i roots rows g in
    let rows' = rows_after i roots rows g in
    elim (Bool-cases (starts_page i roots rows g)) [
      | inl starts ↦ rw starts (
        Filling-IsPage i roots rows c f (starts_page-pos i roots rows g starts),
        chunks_from-IsPage (i + 1) roots' rows' (g ∷ []) gs (Filling-starts i roots rows g starts)
            (omega arith),
      )
      | inr stays ↦ rw stays (
          chunks_from-IsPage (i + 1) roots' rows' (c ++ (g ∷ [])) gs
            (Filling-stays i roots rows c g f stays) (omega arith))
    ]

length-flatten_one : (c : List Group) → length (flatten (c ∷ [])) ≡ length c
unfolding flatten
length-flatten_one c = omega (arith, length-append c [])

-- The slice that a page takes of some groups, when these pages start at group `s`.
unfoldable pub cut : ℕ → List (List Group) → ℕ → ℕ → List Group → List Group
cut s cs n count groups =
    slice (page_start (starts_of s cs) n) (page_end (starts_of s cs) n count) groups

end-first :
    (s : ℕ) (c : List Group) (cs : List (List Group))
    → page_end (starts_of s (c ∷ cs)) 0 (s + length (flatten (c ∷ cs))) ≡ s + length c
unfolding page_end starts_of
end-first s c [] = ground (arith, length-flatten_one c)
end-first s c (d ∷ cs) = ground arith

cut-first :
    (s : ℕ) (c : List Group) (cs : List (List Group)) (groups : List Group)
    → cut s (c ∷ cs) 0 (s + length (flatten (c ∷ cs))) groups ≡ take (length c) (drop s groups)
unfolding cut
cut-first s c cs groups =
    rw (end-first s c cs)
      (unfold page_start starts_of in ap (λ k. take k (drop s groups)) (omega arith))

end-next :
    (s n count : ℕ) (c d : List Group) (cs : List (List Group))
    → page_end (starts_of s (c ∷ d ∷ cs)) (suc n) count
      ≡ page_end (starts_of (s + length c) (d ∷ cs)) n count
unfolding page_end starts_of
end-next s n count c d cs = ground arith

cut-next :
    (s n count : ℕ) (c d : List Group) (cs : List (List Group)) (groups : List Group)
    → cut s (c ∷ d ∷ cs) (suc n) count groups ≡ cut (s + length c) (d ∷ cs) n count groups
unfolding cut page_start
cut-next s n count c d cs groups = rw (end-next s n count c d cs) (unfold starts_of in refl)

-- The slice of a page is its groups.
pub cut-chunk :
    (before : List Group) (cs : List (List Group)) (n : ℕ) (c : List Group)
    → get_elem? cs n ≡ some c
    → cut (length before) cs n (length before + length (flatten cs)) (before ++ flatten cs) ≡ c
unfolding flatten
cut-chunk before [] n c h = absurd (cc h)
cut-chunk before (d ∷ cs) zero c h =
    cut-first (length before) d cs (before ++ flatten (d ∷ cs))
    ∙ ap (take (length d)) (drop-append before (flatten (d ∷ cs)))
    ∙ take-append d (flatten cs)
    ∙ cc h
cut-chunk before (d ∷ []) (suc n) c h = absurd (cc h)
cut-chunk before (d ∷ e ∷ cs) (suc n) c h =
    let longer : length (before ++ d) ≡ length before + length d = length-append before d in
    let count : length before + length (flatten (d ∷ e ∷ cs))
        ≡ length (before ++ d) + length (flatten (e ∷ cs)) =
      omega (arith, length-append before d, length-append d (flatten (e ∷ cs))) in
    cut-next (length before) n _ d e cs (before ++ flatten (d ∷ e ∷ cs))
    ∙ rw (count, sym longer, sym (append_assoc before d (flatten (e ∷ cs))))
        (cut-chunk (before ++ d) (e ∷ cs) n c h)

-- The groups of each page of a listing.
unfoldable pub chunks : List Group → List (List Group)
chunks [] = []
chunks (g ∷ gs) = chunks_from 0 0 0 [] (g ∷ gs)

pub flatten-chunks : (groups : List Group) → flatten (chunks groups) ≡ groups
unfolding chunks flatten
flatten-chunks [] = refl
flatten-chunks (g ∷ gs) = flatten-chunks_from 0 0 0 [] (g ∷ gs)

empty : Filling 0 0 0 []
unfolding total
empty = record {
  counted = omega arith;
  bounded = omega arith;
  fits = inl (omega arith);
  first = λ e. (refl, refl, refl);
  later = λ p. absurd (omega arith);
}

pub chunks-IsPage : (groups : List Group) → All IsPage (chunks groups)
unfolding chunks
chunks-IsPage [] = tt
chunks-IsPage (g ∷ gs) = chunks_from-IsPage 0 0 0 [] (g ∷ gs) empty (omega arith)

pub page_breaks-starts_of : (groups : List Group) → page_breaks groups ≡ starts_of 0 (chunks groups)
unfolding chunks page_breaks starts_of
page_breaks-starts_of [] = refl
page_breaks-starts_of (g ∷ gs) = page_breaks_from-starts_of 0 0 0 [] (g ∷ gs)
