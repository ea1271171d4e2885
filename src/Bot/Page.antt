-- ===== src/Bot/Page.antt =====
-- The pages of client/bot/view.go: where each page starts, and what one page shows.
pub mod Bounds
pub mod Roots
pub mod Chunks
pub mod Listing
use seshat_tasks.Prelude.{
  ℕ, zero, suc, ◌+◌, ◌-◌, ◌≤◌, ◌<◌, length, take, drop, ltb, leb, eqb, Bool, true, false, not, ◌&&◌,
  ◌||◌, Option, none, some, List, [], ◌∷◌, ◌++◌, if◌then◌else◌,
}
use seshat_tasks.Prelude.Int.{ℤ, pos, pos_part, ltb_ℤ, leb_ℤ}
use seshat_tasks.Bot.View.{Row, Group}

abbrev pub max_roots_per_page : ℕ
max_roots_per_page = 5

abbrev pub max_rows_per_page : ℕ
max_rows_per_page = 25

pub record Page : Type 0 where
  pub rows : List Row
  pub index : ℕ
  pub count : ℕ
  pub overflow : ℕ

abbrev pub empty_page : Page
empty_page = record { rows = []; index = 0; count = 0; overflow = 0 }

-- Whether group `i` starts a page, with `roots` groups and `rows` rows on the page so far.
unfoldable pub starts_page : ℕ → ℕ → ℕ → Group → Bool
starts_page i roots rows g =
    let oversized = ltb max_rows_per_page (length g) in
    let fits = leb (roots + 1) max_roots_per_page && leb (rows + length g) max_rows_per_page in
    ltb 0 i && (not fits || oversized)

-- The counters after group `i`. An oversized group leaves them full, so that the next group starts
-- a page.
unfoldable pub roots_after : ℕ → ℕ → ℕ → Group → ℕ
roots_after i roots rows g =
    if ltb max_rows_per_page (length g)
    then max_roots_per_page
    else (if starts_page i roots rows g then 0 else roots) + 1

unfoldable pub rows_after : ℕ → ℕ → ℕ → Group → ℕ
rows_after i roots rows g =
    if ltb max_rows_per_page (length g)
    then max_rows_per_page
    else (if starts_page i roots rows g then 0 else rows) + length g

-- The loop of `pageBreaks` over the groups from `i` on: the breaks that it appends.
unfoldable pub page_breaks_from : ℕ → ℕ → ℕ → List Group → List ℕ
page_breaks_from i roots rows [] = []
page_breaks_from i roots rows (g ∷ gs) =
    let rest =
      page_breaks_from (i + 1) (roots_after i roots rows g) (rows_after i roots rows g) gs in
    if starts_page i roots rows g then i ∷ rest else rest

unfoldable pub page_breaks : List Group → List ℕ
page_breaks [] = []
page_breaks (g ∷ gs) = 0 ∷ page_breaks_from 0 0 0 (g ∷ gs)

-- What a page with `rows` takes of a group, and how many rows of the group it drops.
unfoldable pub taken : List Row → Group → Group
taken rows g =
    if ltb max_rows_per_page (length rows + length g)
    then take (max_rows_per_page - length rows) g
    else g

unfoldable pub dropped : List Row → Group → ℕ
dropped rows g =
    if ltb max_rows_per_page (length rows + length g)
    then length g - (max_rows_per_page - length rows)
    else 0

-- The loop over the groups of a page: the rows shown, and the number of rows dropped.
unfoldable pub fill_page : List Row → ℕ → List Group → List Row × ℕ
fill_page rows overflow [] = (rows, overflow)
fill_page rows overflow (g ∷ gs) = fill_page (rows ++ taken rows g) (overflow + dropped rows g) gs

abbrev pub at_or : ℕ → List ℕ → ℕ → ℕ
at_or d [] i = d
at_or d (x ∷ xs) zero = x
at_or d (x ∷ xs) (suc i) = at_or d xs i

-- The page asked for, clamped to `[0, count)`; `count` is not 0.
unfoldable pub clamp_page : ℤ → ℕ → ℕ
clamp_page page count =
    if ltb_ℤ page (pos 0) then 0 else if leb_ℤ (pos count) page then count - 1 else pos_part page

-- The groups `[start, end)` of page `n`.
unfoldable pub page_start : List ℕ → ℕ → ℕ
page_start breaks n = at_or 0 breaks n

unfoldable pub page_end : List ℕ → ℕ → ℕ → ℕ
page_end breaks n count = if ltb (n + 1) (length breaks) then at_or 0 breaks (n + 1) else count

-- `groups[start:end]`
abbrev pub slice : ℕ → ℕ → List Group → List Group
slice start end groups = take (end - start) (drop start groups)

-- `Paginate`
unfoldable pub paginate : List Group → ℤ → Page
paginate groups page =
    let breaks = page_breaks groups in
    if eqb (length breaks) 0
    then empty_page
    else let n = clamp_page page (length breaks) in
      let shown = slice (page_start breaks n) (page_end breaks n (length groups)) groups in
      let (rows, overflow) = fill_page [] 0 shown in
      record { rows = rows; index = n; count = length breaks; overflow = overflow }
