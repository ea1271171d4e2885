-- ===== src/Bot/Page/Bounds.antt =====
-- What a page holds: within its limit, nothing lost without being counted, and never empty.
use Prim.Native.Nat.{max}
use native.Mathlib.Numerals.{add-one}
use seshat_tasks.Prelude.{
  ℕ, zero, suc, ◌+◌, ◌-◌, ◌≤◌, ◌<◌, length, length-append, length-take, take, ltb, Bool, true,
  false, List, [], ◌∷◌, ◌++◌, if◌then◌else◌, ◌≡◌, ◌≢◌, refl, subst, arith, ltb→lt, Bool-cases, inl,
  inr,
}
use seshat_tasks.Prelude.Int.{ℤ, pos, negsuc}
use seshat_tasks.Bot.View.{Row, Group}
use seshat_tasks.Bot.Page.{
  starts_page, roots_after, rows_after, page_breaks_from, page_breaks, fill_page, at_or, clamp_page,
  taken, dropped, page_start, page_end, slice, paginate,
}

-- The number of rows of some groups.
unfoldable pub total : List Group → ℕ
total [] = 0
total (g ∷ gs) = length g + total gs

taken_le : (rows : List Row) (g : Group) → length rows ≤ 25 → length (rows ++ taken rows g) ≤ 25
unfolding taken
taken_le rows g h = ground (
  arith,
  length-append rows g,
  length-append rows (take (25 - length rows) g),
  length-take (25 - length rows) g,
)

taken-dropped :
    (rows : List Row) (g : Group)
    → length rows ≤ 25
    → length (rows ++ taken rows g) + dropped rows g ≡ length rows + length g
unfolding taken dropped
taken-dropped rows g h = ground (
  arith,
  length-append rows g,
  length-append rows (take (25 - length rows) g),
  length-take (25 - length rows) g,
)

-- The rows and the overflow of a page add up to the rows of its groups, and the rows fit.
fill_page_bounds :
    (rows : List Row) (overflow : ℕ) (gs : List Group)
    → length rows ≤ 25
    → (length (fill_page rows overflow gs).0 ≤ 25)
      × (length rows ≤ length (fill_page rows overflow gs).0)
      × (length (fill_page rows overflow gs).0 + (fill_page rows overflow gs).1
          ≡ length rows + overflow + total gs)
unfolding fill_page total
fill_page_bounds rows overflow [] h = omega arith
fill_page_bounds rows overflow (g ∷ gs) h = omega (
  arith,
  taken-dropped rows g h,
  taken_le rows g h,
  length-append rows (taken rows g),
  fill_page_bounds (rows ++ taken rows g) (overflow + dropped rows g) gs (taken_le rows g h),
)

-- Breaks that rise, from `lo` on and below `hi`.
abbrev pub Rising : ℕ → ℕ → List ℕ → Type 0
Rising lo hi [] = Unit
Rising lo hi (b ∷ bs) = (lo ≤ b) × (b < hi) × Rising (suc b) hi bs

Rising-weaken : (lo lo' hi : ℕ) (bs : List ℕ) → lo' ≤ lo → Rising lo hi bs → Rising lo' hi bs
Rising-weaken lo lo' hi [] h r = tt
Rising-weaken lo lo' hi (b ∷ bs) h r = (omega arith, r.1, r.2)

pub starts_page-pos : (i roots rows : ℕ) (g : Group) → starts_page i roots rows g ≡ true → 0 < i
unfolding starts_page
starts_page-pos i roots rows g h = ground arith

Rising-if :
    (starts : Bool) (i lo hi : ℕ) (bs : List ℕ)
    → (starts ≡ true → 0 < i)
    → lo ≤ max i 1
    → i < hi
    → Rising (i + 1) hi bs
    → Rising lo hi (if starts then i ∷ bs else bs)
Rising-if true i lo hi bs p h r rest =
    (omega (arith, p refl), r, Rising-weaken (i + 1) (suc i) hi bs (omega arith) rest)
Rising-if false i lo hi bs p h r rest = Rising-weaken (i + 1) lo hi bs (omega arith) rest

page_breaks_from-Rising :
    (i roots rows lo : ℕ) (gs : List Group)
    → lo ≤ max i 1
    → Rising lo (i + length gs) (page_breaks_from i roots rows gs)
unfolding page_breaks_from
page_breaks_from-Rising i roots rows lo [] h = tt
page_breaks_from-Rising i roots rows lo (g ∷ gs) h =
    let e : i + 1 + length gs ≡ i + suc (length gs) = omega arith in
    let roots' = roots_after i roots rows g in
    let rows' = rows_after i roots rows g in
    Rising-if (starts_page i roots rows g) i lo (i + suc (length gs))
      (page_breaks_from (i + 1) roots' rows' gs) (starts_page-pos i roots rows g) h (omega arith)
      (subst (λ hi. Rising (i + 1) hi (page_breaks_from (i + 1) roots' rows' gs)) e
        (page_breaks_from-Rising (i + 1) roots' rows' (i + 1) gs (omega arith)))

-- For a list with a group in it, the breaks start at 0, rise strictly, and lie within the groups:
-- so the pages split the groups in order, and none of them is empty.
pub page_breaks-Rising :
    (groups : List Group)
    → groups ≢ []
    → (bs : List ℕ) × (page_breaks groups ≡ 0 ∷ bs) × Rising 1 (length groups) bs
unfolding page_breaks
page_breaks-Rising [] h = absurd (h refl)
page_breaks-Rising (g ∷ gs) h =
    let e : 0 + length (g ∷ gs) ≡ length (g ∷ gs) = omega arith in
    (
      page_breaks_from 0 0 0 (g ∷ gs),
      refl,
      subst (λ hi. Rising 1 hi (page_breaks_from 0 0 0 (g ∷ gs))) e
          (page_breaks_from-Rising 0 0 0 1 (g ∷ gs) (omega arith)),
    )

at_or-Rising :
    (lo hi n : ℕ) (bs : List ℕ)
    → Rising lo hi bs
    → n < length bs
    → (lo ≤ at_or 0 bs n) × (at_or 0 bs n < hi)
at_or-Rising lo hi n [] r h = absurd (omega arith)
at_or-Rising lo hi zero (b ∷ bs) r h = (r.0, r.1)
at_or-Rising lo hi (suc n) (b ∷ bs) r h =
    omega (arith, at_or-Rising (suc b) hi n bs r.2 (omega arith))

at_or-lt :
    (lo hi n : ℕ) (bs : List ℕ)
    → Rising lo hi bs
    → suc n < length bs
    → at_or 0 bs n < at_or 0 bs (suc n)
at_or-lt lo hi n [] r h = absurd (omega arith)
at_or-lt lo hi zero (b ∷ bs) r h = (at_or-Rising (suc b) hi 0 bs r.2 (omega arith)).0
at_or-lt lo hi (suc n) (b ∷ bs) r h = at_or-lt (suc b) hi n bs r.2 (omega arith)

pub clamp_page-lt : (page : ℤ) (count : ℕ) → 0 < count → clamp_page page count < count
unfolding clamp_page
clamp_page-lt (pos p) count h = ground arith
clamp_page-lt (negsuc p) count h = ground arith

not_empty : (groups : List Group) → groups ≢ [] → 0 < length groups
not_empty [] h = absurd (h refl)
not_empty (g ∷ gs) h = omega arith

slice_bounds :
    (count n : ℕ) (l : List ℕ)
    → Rising 0 count l
    → n < length l
    → (page_start l n < page_end l n count) × (page_end l n count ≤ count)
unfolding page_start page_end
slice_bounds count n l r h = rw add-one (elim (Bool-cases (ltb (suc n) (length l))) [
  | inl more ↦
      let more_breaks = ltb→lt (suc n) (length l) more in
      rw more
        (at_or-lt 0 count n l r more_breaks, le-of (at_or-Rising 0 count (suc n) l r more_breaks).1)
  | inr last ↦ rw last ((at_or-Rising 0 count n l r h).1, omega arith)
])
  where
    le-of : {a b : ℕ} → a < b → a ≤ b
    le-of p = omega arith

module _ (groups : List Group) (page : ℤ) (some_group : groups ≢ []) where
  abbrev breaks : List ℕ
  breaks = page_breaks groups

  breaks_facts : Rising 0 (length groups) breaks × (0 < length breaks)
  breaks_facts =
      let (bs, e, r) = page_breaks-Rising groups some_group in
      rw e ((omega arith, not_empty groups some_group, r), omega arith)

  abbrev number : ℕ
  number = clamp_page page (length breaks)

  abbrev shown : List Group
  shown = slice (page_start breaks number) (page_end breaks number (length groups)) groups

  pub paginate-eq : paginate groups page ≡ record {
    rows = (fill_page [] 0 shown).0;
    index = number;
    count = length breaks;
    overflow = (fill_page [] 0 shown).1;
  }
  unfolding paginate
  paginate-eq = let (_, p) = breaks_facts in ground arith

  -- Of a list with a group in it, any page asked for, even one out of range, is a page that is
  -- there. It shows a slice that is not empty and lies within the groups, in at most 25 rows, and
  -- counts every row of the slice that it does not show.
  pub paginate_bounds :
      ((paginate groups page).index < (paginate groups page).count)
      × (page_start breaks (paginate groups page).index
          < page_end breaks (paginate groups page).index (length groups))
      × (page_end breaks (paginate groups page).index (length groups) ≤ length groups)
      × (length (paginate groups page).rows ≤ 25)
      × (length (paginate groups page).rows + (paginate groups page).overflow
          ≡ total (
              slice
                (page_start breaks (paginate groups page).index)
                (page_end breaks (paginate groups page).index (length groups))
                groups))
  paginate_bounds =
      let (r, p) = breaks_facts in
      let below = clamp_page-lt page (length breaks) p in
      let (a, b) = slice_bounds (length groups) number breaks r below in
      let (c, _, d) = fill_page_bounds [] 0 shown (omega arith) in
      rw paginate-eq (below, a, b, c, omega (arith, d))
