-- ===== src/Bot/Render/Shown.antt =====
-- What a person is to read in a listing, in a card, and in the question before a delete: the texts of
-- client/bot/render.go without markup, and with the titles and descriptions as they were typed.
use seshat_tasks.Prelude.{
  ℕ, ◌+◌, ltb, length, Text, lit, ◌==◌, none, some, List, [], ◌∷◌, ◌++◌, if◌then◌else◌, eqb,
}
use seshat_tasks.Prelude.Int.{ℤ}
use seshat_tasks.Task.{Task}
use seshat_tasks.Server.Http.{format_uint}
use seshat_tasks.Bot.View.{Index, Row, parent_of}
use seshat_tasks.Bot.Page.{Page}
use seshat_tasks.Bot.Text.{join, repeat}
use seshat_tasks.Bot.Render.{format_due, status_glyph}
use seshat_tasks.Bot.Render.Card.{card_due}

-- A line of a listing: its number, its depth, its glyph, its title, and where they are known its
-- parent and when it is due.
abbrev pub shown_line : ℕ → Row → ℤ → ℤ → Text
shown_line i r now offset_min =
    let due = format_due r.task.content.due_at now offset_min in
    format_uint 20 (i + 1)
    ++ (lit ". "
        ++ (repeat (lit "  ") r.depth
            ++ (status_glyph r.task.content.status
                ++ (lit " "
                    ++ (r.task.content.title
                        ++ ((if r.parent_title == [] then [] else lit " in " ++ r.parent_title)
                            ++ ((if due == [] then [] else lit "  ⏰ " ++ due) ++ lit "\n")))))))

abbrev pub shown_lines : ℕ → List Row → ℤ → ℤ → Text
shown_lines i [] now offset_min = []
shown_lines i (r ∷ rs) now offset_min =
    shown_line i r now offset_min ++ shown_lines (i + 1) rs now offset_min

abbrev pub shown_nothing : Text → Text
shown_nothing query =
    if query == [] then lit "Nothing open." else lit "No open task matches " ++ (query ++ lit ".")

abbrev pub shown_listing : Page → Text → ℕ → ℤ → ℤ → Text
shown_listing p query overflow now offset_min =
    (if query == [] then [] else lit "Matches for " ++ (query ++ lit "\n\n"))
    ++ (shown_lines 0 p.rows now offset_min
        ++ ((if ltb 0 p.overflow
              then lit "\n…and " ++ (format_uint 20 p.overflow ++ lit " more subtasks\n")
              else [])
            ++ (if ltb 0 overflow
                then lit "\n…and " ++ (format_uint 20 overflow ++ lit " more — use the TUI\n")
                else [])))

abbrev pub shown_page : Page → Text → ℕ → ℤ → ℤ → Text
shown_page p query overflow now offset_min =
    if eqb (length p.rows) 0
    then shown_nothing query
    else shown_listing p query overflow now offset_min

abbrev pub shown_card : Task → Index → ℤ → ℤ → Text
shown_card t ix now offset_min =
    let c = t.content in
    status_glyph c.status
    ++ (lit " "
        ++ (c.title
            ++ (lit "\n"
                ++ (elim (parent_of ix t.id) [
                  | none ↦ []
                  | some p ↦ lit "in " ++ (p.content.title ++ lit "\n")
                ]
                    ++ ((if c.description == []
                          then []
                          else lit "\n" ++ (c.description ++ lit "\n"))
                        ++ (lit "\n"
                            ++ ((lit "status    " ++ (c.status ++ lit "\n"))
                                ++ ((lit "priority  " ++ (c.priority ++ lit "\n"))
                                    ++ ((lit "due       "
                                          ++ (card_due c.due_at now offset_min ++ lit "\n"))
                                        ++ ((lit "tags      "
                                              ++ ((if ltb 0 (length c.tags)
                                                    then join (lit ", ") c.tags
                                                    else lit "—")
                                                  ++ lit "\n"))
                                            ++ (if ltb 0 (length c.child_ids)
                                                then lit "subtasks  "
                                                  ++ (format_uint 20 (length c.child_ids)
                                                      ++ lit "\n")
                                                else [])))))))))))

abbrev pub shown_question : Task → Text
shown_question t =
    lit "Delete "
    ++ (t.content.title
        ++ (lit "?"
            ++ (if ltb 0 (length t.content.child_ids)
                then lit "\n\nIts "
                  ++ (format_uint 20 (length t.content.child_ids)
                      ++ lit " subtask(s) will become top-level tasks.")
                else [])))
