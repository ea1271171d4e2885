-- ===== src/Bot/Render/Messages.antt =====
-- The texts of client/bot/render.go, as a reader of HTML sees them.
use seshat_tasks.Prelude.{
  ℕ, ◌+◌, ltb, length, Text, lit, utf8, ◌==◌, true, Option, none, some, List, [], ◌∷◌, ◌++◌,
  if◌then◌else◌, ◌≡◌, refl, subst, eqb, Bool-cases, inl, inr,
}
use mathlib.Core.List.{append-nil}
use seshat_tasks.Prelude.Int.{ℤ}
use seshat_tasks.Task.{Task}
use seshat_tasks.Server.Http.{format_uint}
use seshat_tasks.Bot.View.{Index, Row, parent_of}
use seshat_tasks.Bot.Page.{Page}
use seshat_tasks.Bot.Text.{repeat}
use seshat_tasks.Bot.Render.{format_due, escape_html, row_line, row_lines, page_text, render_page}
use seshat_tasks.Bot.Render.Card.{card_line, card_text, delete_confirm_text}
use seshat_tasks.Bot.Render.Reader.{
  read_html, Shows, Shows-append, Shows-escape, is_plain, Shows-plain, Shows-if, Shows-read,
}
use seshat_tasks.Bot.Render.Fixed.{
  bold_opens, bold_ends, parent_opens, parent_ends, code_opens, code_ends, subtasks_open,
  delete_opens, delete_ends, matches_open, matches_end, beside_opens, beside_ends, and_opens,
  more_ends, tui_ends, none_opens, none_ends,
}
use seshat_tasks.Bot.Render.Plain.{format_uint_plain, glyph_plain, repeat_plain, due_plain}
use seshat_tasks.Bot.Render.Shown.{
  shown_line, shown_lines, shown_nothing, shown_listing, shown_page, shown_card, shown_question,
}

newline : {tags : List Text} → Shows tags tags (lit "\n") (lit "\n")
unfolding lit utf8 is_plain
newline = Shows-plain (lit "\n") refl

Shows-nil : {tags : List Text} → Shows tags tags [] []
unfolding is_plain
Shows-nil = Shows-plain [] refl

number : {tags : List Text} (n : ℕ) → Shows tags tags (format_uint 20 n) (format_uint 20 n)
number n = Shows-plain (format_uint 20 n) (format_uint_plain 20 n)

fixed_plain :
    (is_plain (lit "status    ") ≡ true)
    × (is_plain (lit "priority  ") ≡ true)
    × (is_plain (lit "due       ") ≡ true)
    × (is_plain (lit "tags      ") ≡ true)
unfolding lit utf8 is_plain
fixed_plain = (refl, refl, refl, refl)

Shows-line :
    {tags : List Text} (name value : Text)
    → is_plain name ≡ true
    → Shows tags tags (card_line name value) (name ++ (value ++ lit "\n"))
unfolding card_line
Shows-line name value plain =
    Shows-append (Shows-plain name plain)
      (Shows-append code_opens (Shows-append (Shows-escape value) code_ends))

card_text-Shows :
    (t : Task) (ix : Index) (now offset_min : ℤ)
    → Shows [] [] (card_text t ix now offset_min) (shown_card t ix now offset_min)
unfolding card_text
card_text-Shows t ix now offset_min =
    let c = t.content in
    Shows-append (Shows-plain _ (glyph_plain c.status)) (
      Shows-append bold_opens (
        Shows-append (Shows-escape c.title) (
          Shows-append bold_ends (
            Shows-append (in_parent (parent_of ix t.id)) (
              Shows-append
                (Shows-if (c.description == []) Shows-nil
                  (Shows-append newline (Shows-append (Shows-escape c.description) newline)))
                (Shows-append newline (
                  Shows-append (Shows-line (lit "status    ") c.status (fixed_plain.0)) (
                    Shows-append (Shows-line (lit "priority  ") c.priority (fixed_plain.1)) (
                      Shows-append (Shows-line (lit "due       ") _ (fixed_plain.2)) (
                        Shows-append (Shows-line (lit "tags      ") _ (fixed_plain.3)) (
                          Shows-if (ltb 0 (length c.child_ids))
                            (Shows-append subtasks_open
                              (Shows-append (number (length c.child_ids)) code_ends))
                            Shows-nil)))))))))))
  where
    in_parent :
        (p : Option Task)
        → Shows [] []
            (elim p [
              | none ↦ []
              | some p ↦ lit "<i>in " ++ (escape_html p.content.title ++ lit "</i>\n")
            ])
            (elim p [ none ↦ [] | some p ↦ lit "in " ++ (p.content.title ++ lit "\n") ])
    in_parent none = Shows-nil
    in_parent (some p) =
        Shows-append parent_opens (Shows-append (Shows-escape p.content.title) parent_ends)

question-Shows : (t : Task) → Shows [] [] (delete_confirm_text t) (shown_question t)
unfolding delete_confirm_text
question-Shows t = Shows-append delete_opens (
    Shows-append (Shows-escape t.content.title) (
      Shows-append delete_ends (
        Shows-if (ltb 0 (length t.content.child_ids))
          (Shows-append (Shows-plain (lit "\n\nIts ") (unfold lit utf8 is_plain in refl)) (
            Shows-append (number (length t.content.child_ids)) (
              Shows-plain (lit " subtask(s) will become top-level tasks.")
                (unfold lit utf8 is_plain in refl))))
          Shows-nil)))

row_line-Shows :
    (i : ℕ) (r : Row) (now offset_min : ℤ)
    → Shows [] [] (row_line i r now offset_min) (shown_line i r now offset_min)
unfolding row_line
row_line-Shows i r now offset_min =
    let due = format_due r.task.content.due_at now offset_min in
    Shows-append (number (i + 1)) (
      Shows-append (Shows-plain (lit ". ") (unfold lit utf8 is_plain in refl)) (
        Shows-append
          (Shows-plain (repeat (lit "  ") r.depth)
            (repeat_plain (lit "  ") r.depth (unfold lit utf8 is_plain in refl)))
          (Shows-append (Shows-plain _ (glyph_plain r.task.content.status)) (
            Shows-append (Shows-plain (lit " ") (unfold lit utf8 is_plain in refl)) (
              Shows-append (Shows-escape r.task.content.title) (
                Shows-append (Shows-if (r.parent_title == []) Shows-nil beside_parent) (
                  Shows-append
                    (Shows-if (due == []) Shows-nil (
                      Shows-append (Shows-plain (lit "  ⏰ ") (unfold lit utf8 is_plain in refl))
                        (Shows-plain due (due_plain r.task.content.due_at now offset_min))))
                    newline)))))))
  where
    beside_parent :
        Shows [] []
          (lit " <i>in " ++ (escape_html r.parent_title ++ lit "</i>"))
          (lit " in " ++ r.parent_title)
    beside_parent =
        subst
          (λ s.
            Shows [] [] (lit " <i>in " ++ (escape_html r.parent_title ++ lit "</i>"))
              (lit " in " ++ s))
          (append-nil r.parent_title)
          (Shows-append beside_opens (Shows-append (Shows-escape r.parent_title) beside_ends))

row_lines-Shows :
    (i : ℕ) (rs : List Row) (now offset_min : ℤ)
    → Shows [] [] (row_lines i rs now offset_min) (shown_lines i rs now offset_min)
unfolding row_lines
row_lines-Shows i [] now offset_min = Shows-nil
row_lines-Shows i (r ∷ rs) now offset_min =
    Shows-append (row_line-Shows i r now offset_min) (row_lines-Shows (i + 1) rs now offset_min)

listing-Shows :
    (p : Page) (query : Text) (overflow : ℕ) (now offset_min : ℤ)
    → Shows [] []
        (page_text p query overflow now offset_min)
        (shown_listing p query overflow now offset_min)
unfolding page_text
listing-Shows p query overflow now offset_min =
    Shows-append
      (Shows-if (query == []) Shows-nil
        (Shows-append matches_open (Shows-append (Shows-escape query) matches_end)))
      (Shows-append (row_lines-Shows 0 p.rows now offset_min) (
        Shows-append
          (Shows-if (ltb 0 p.overflow)
            (Shows-append and_opens (Shows-append (number p.overflow) more_ends)) Shows-nil)
          (Shows-if (ltb 0 overflow)
            (Shows-append and_opens (Shows-append (number overflow) tui_ends)) Shows-nil)))

nothing-Shows :
    (query : Text)
    → Shows [] []
        (if query == []
          then lit "Nothing open."
          else lit "No open task matches <b>" ++ (escape_html query ++ lit "</b>."))
        (shown_nothing query)
nothing-Shows query =
    Shows-if (query == []) (Shows-plain (lit "Nothing open.") (unfold lit utf8 is_plain in refl))
      (Shows-append none_opens (Shows-append (Shows-escape query) none_ends))

page-Shows :
    (p : Page) (query : Text) (overflow : ℕ) (now offset_min : ℤ)
    → Shows [] []
        (render_page p query overflow now offset_min).0
        (shown_page p query overflow now offset_min)
unfolding render_page
page-Shows p query overflow now offset_min = elim (Bool-cases (eqb (length p.rows) 0)) [
  | inl bare ↦ rw bare (nothing-Shows query)
  | inr filled ↦ rw filled (listing-Shows p query overflow now offset_min)
]

-- What a user types can neither add markup to a listing, a card or the question before a delete, nor
-- change what is read there. For every task, index, page, query and time, a reader that knows the
-- tags b, i and code and the four entities, and refuses every other markup and every tag that is not
-- closed in order, accepts the text, and what it shows is the text without markup, with the titles,
-- the description, the tags and the query byte for byte as they are.
pub render-read_html :
    (t : Task) (ix : Index) (p : Page) (query : Text) (overflow : ℕ) (now offset_min : ℤ)
    → (read_html (card_text t ix now offset_min) ≡ (shown_card t ix now offset_min, true))
      × (read_html (render_page p query overflow now offset_min).0
          ≡ (shown_page p query overflow now offset_min, true))
      × (read_html (delete_confirm_text t) ≡ (shown_question t, true))
render-read_html t ix p query overflow now offset_min = (
  Shows-read (card_text-Shows t ix now offset_min),
  Shows-read (page-Shows p query overflow now offset_min),
  Shows-read (question-Shows t),
)
