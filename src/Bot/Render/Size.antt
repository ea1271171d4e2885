-- ===== src/Bot/Render/Size.antt =====
-- How long the text of `RenderPage` gets. Telegram refuses a message of more than 4096 characters, and
-- the budget of a page counts rows and not what they hold.
use seshat_tasks.Prelude.{
  ℕ, ◌+◌, ◌≤◌, Text, lit, length, length-append, eqb, ◌==◌, true, List, [], ◌∷◌, ◌++◌, All,
  All-weaken, if◌then◌else◌, ◌≡◌, arith, Bool-cases, inl, inr,
}
use seshat_tasks.Prelude.Int.{ℤ}
use seshat_tasks.Server.Http.{format_uint}
use seshat_tasks.Bot.Text.{repeat}
use seshat_tasks.Bot.View.{Row}
use seshat_tasks.Bot.Page.{Page}
use seshat_tasks.Bot.Render.{escape_html, status_glyph, row_line, row_lines, page_text, render_page}
use seshat_tasks.Bot.Render.Escape.{escape_html-length}

record AtLeast (n : ℕ) (s : Text) : Type 0 where
  pub long : n ≤ length s

after : {n : ℕ} (xs : Text) {ys : Text} → AtLeast n ys → AtLeast n (xs ++ ys)
after {n} xs {ys} h = record { long = omega (arith, length-append xs ys, h.long) }

before : {n : ℕ} {xs : Text} (ys : Text) → AtLeast n xs → AtLeast n (xs ++ ys)
before {n} {xs} ys h = record { long = omega (arith, length-append xs ys, h.long) }

-- The title of a row is in a text.
abbrev Fits : Text → Row → Type 0
Fits s r = AtLeast (length r.task.content.title) s

row_line-Fits : (i : ℕ) (r : Row) (now offset_min : ℤ) → Fits (row_line i r now offset_min) r
unfolding row_line
row_line-Fits i r now offset_min = after (format_uint 20 (i + 1)) (
    after (lit ". ") (
      after (repeat (lit "  ") r.depth) (
        after (status_glyph r.task.content.status) (
          after (lit " ") (before _ (record { long = escape_html-length r.task.content.title }))))))

row_lines-Fits :
    (i : ℕ) (rs : List Row) (now offset_min : ℤ) → All (Fits (row_lines i rs now offset_min)) rs
unfolding row_lines
row_lines-Fits i [] now offset_min = tt
row_lines-Fits i (r ∷ rs) now offset_min = (
  before _ (row_line-Fits i r now offset_min),
  All-weaken rs (λ r' h. after (row_line i r now offset_min) h)
      (row_lines-Fits (i + 1) rs now offset_min),
)

page_text-Fits :
    (p : Page) (query : Text) (overflow : ℕ) (now offset_min : ℤ)
    → All (Fits (page_text p query overflow now offset_min)) p.rows
unfolding page_text
page_text-Fits p query overflow now offset_min =
    All-weaken p.rows
      (λ r h.
        after
          (if query == []
            then []
            else lit "Matches for <b>" ++ (escape_html query ++ lit "</b>\n\n"))
          (before _ h))
      (row_lines-Fits 0 p.rows now offset_min)

no_rows : (P : Row → Type 0) (rs : List Row) → eqb (length rs) 0 ≡ true → All P rs
no_rows P [] h = tt
no_rows P (r ∷ rs) h = absurd (ground arith)

-- The text of a listing is at least as long as the title of each of its rows, however long: a page
-- with one task is over any limit that the title of the task is over.
pub render_page-length :
    (p : Page) (query : Text) (overflow : ℕ) (now offset_min : ℤ)
    → All
        (λ r. length r.task.content.title ≤ length (render_page p query overflow now offset_min).0)
        p.rows
unfolding render_page
render_page-length p query overflow now offset_min = elim (Bool-cases (eqb (length p.rows) 0)) [
  | inl none ↦ no_rows _ p.rows none
  | inr rows ↦
      rw rows (All-weaken p.rows (λ r h. h.long) (page_text-Fits p query overflow now offset_min))
]
