-- ===== src/Bot/Page/Roots.antt =====
-- How many groups stand between two page breaks.
use seshat_tasks.Prelude.{
  ℕ, suc, ◌+◌, ◌≤◌, length, true, false, List, [], ◌∷◌, ◌≡◌, ◌≢◌, refl, subst, arith, Bool-cases,
  inl, inr,
}
use seshat_tasks.Bot.View.{Group}
use seshat_tasks.Bot.Page.{starts_page, roots_after, rows_after, page_breaks_from, page_breaks}

-- After the break `prev`, each break of the list and then the end come at most 5 groups later.
pub Spaced : ℕ → ℕ → List ℕ → Type 0
Spaced prev end [] = end ≤ prev + 5
Spaced prev end (b ∷ bs) = (b ≤ prev + 5) × Spaced b end bs

-- What the counter of roots says about the groups since the last break.
record Counts (prev i roots : ℕ) : Type 0 where
  counted : i ≤ prev + roots
  bounded : roots ≤ 5
  first : i ≡ 0 → roots ≡ 0

Counts-starts :
    (i roots rows : ℕ) (g : Group)
    → starts_page i roots rows g ≡ true
    → Counts i (i + 1) (roots_after i roots rows g)
unfolding starts_page roots_after
Counts-starts i roots rows g h = record {
  counted = ground arith;
  bounded = ground arith;
  first = λ e. absurd (omega arith);
}

Counts-stays :
    (prev i roots rows : ℕ) (g : Group)
    → Counts prev i roots
    → starts_page i roots rows g ≡ false
    → Counts prev (i + 1) (roots_after i roots rows g)
unfolding starts_page roots_after
Counts-stays prev i roots rows g c h = record {
  counted = ground (arith, c.counted, c.first);
  bounded = ground (arith, c.bounded, c.first);
  first = λ e. absurd (omega arith);
}

page_breaks_from-Spaced :
    (prev i roots rows : ℕ) (gs : List Group)
    → Counts prev i roots
    → Spaced prev (i + length gs) (page_breaks_from i roots rows gs)
unfolding Spaced page_breaks_from
page_breaks_from-Spaced prev i roots rows [] c = omega (arith, c.counted, c.bounded)
page_breaks_from-Spaced prev i roots rows (g ∷ gs) c =
    let roots' = roots_after i roots rows g in
    let rows' = rows_after i roots rows g in
    let e : i + 1 + length gs ≡ i + suc (length gs) = omega arith in
    elim (Bool-cases (starts_page i roots rows g)) [
      | inl starts ↦ rw starts (
        omega (arith, c.counted, c.bounded),
        subst (λ end. Spaced i end (page_breaks_from (i + 1) roots' rows' gs)) e
            (page_breaks_from-Spaced i (i + 1) roots' rows' gs
              (Counts-starts i roots rows g starts)),
      )
      | inr stays ↦ rw stays (
          subst (λ end. Spaced prev end (page_breaks_from (i + 1) roots' rows' gs)) e
            (page_breaks_from-Spaced prev (i + 1) roots' rows' gs
              (Counts-stays prev i roots rows g c stays)))
    ]

-- For a list with a group in it: the first page starts at group 0, and from each break to the next
-- one, or to the end, there are at most 5 groups. So a page holds at most 5 roots.
pub page_breaks-Spaced :
    (groups : List Group)
    → groups ≢ []
    → (bs : List ℕ) × (page_breaks groups ≡ 0 ∷ bs) × Spaced 0 (length groups) bs
unfolding page_breaks
page_breaks-Spaced [] h = absurd (h refl)
page_breaks-Spaced (g ∷ gs) h =
    let e : 0 + length (g ∷ gs) ≡ length (g ∷ gs) = omega arith in
    (
      page_breaks_from 0 0 0 (g ∷ gs),
      refl,
      subst (λ end. Spaced 0 end (page_breaks_from 0 0 0 (g ∷ gs))) e
          (page_breaks_from-Spaced 0 0 0 0 (g ∷ gs)
            (record { counted = omega arith; bounded = omega arith; first = λ _. refl })),
    )
