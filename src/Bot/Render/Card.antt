-- ===== src/Bot/Render/Card.antt =====
-- The card of one task, the pickers and the question before a delete, of client/bot/render.go.
use seshat_tasks.Prelude.{
  ltb, length, Text, lit, ◌==◌, Bool, Option, none, some, List, [], ◌∷◌, ◌++◌, if◌then◌else◌,
}
use seshat_tasks.Prelude.Int.{ℤ}
use seshat_tasks.Task.{
  Task, status_todo, status_in_progress, status_done, status_cancelled, priority_none, priority_low,
  priority_medium, priority_high,
}
use seshat_tasks.Server.Http.{format_uint}
use seshat_tasks.Bot.View.{Index, parent_of}
use seshat_tasks.Bot.Text.{join}
use seshat_tasks.Bot.Registry.{
  ActionKind, open_task, back, pick_status, pick_priority, pick_due, set_status, set_priority,
  set_due, done, prompt_field, clear_tags, confirm_delete, do_delete, Action,
}
use seshat_tasks.Bot.Render.{
  Button, Keyboard, escape_html, format_date, format_due, status_glyph, fill_rows, action_of,
}

pub record Origin : Type 0 where
  pub has_list : Bool
  pub page : ℤ
  pub query : Text

-- `Origin.act`
unfoldable pub act : Origin → ActionKind → Text → Text → Action
act o kind task_id arg = record (action_of kind) {
  task_id = task_id;
  arg = arg;
  page = o.page;
  query = o.query;
  has_list = o.has_list;
}

unfoldable pub card_due : Option ℤ → ℤ → ℤ → Text
card_due none now offset_min = lit "—"
card_due (some due) now offset_min =
    let rel = format_due (some due) now offset_min in
    format_date due offset_min ++ (if rel == [] then [] else lit " (" ++ (rel ++ lit ")"))

-- A line of a card with its value in a code span.
unfoldable pub card_line : Text → Text → Text
card_line name value = name ++ (lit "<code>" ++ (escape_html value ++ lit "</code>\n"))

-- `CardText`
unfoldable pub card_text : Task → Index → ℤ → ℤ → Text
card_text t ix now offset_min =
    let c = t.content in
    status_glyph c.status
    ++ (lit " <b>"
        ++ (escape_html c.title
            ++ (lit "</b>\n"
                ++ (elim (parent_of ix t.id) [
                  | none ↦ []
                  | some p ↦ lit "<i>in " ++ (escape_html p.content.title ++ lit "</i>\n")
                ]
                    ++ ((if c.description == []
                          then []
                          else lit "\n" ++ (escape_html c.description ++ lit "\n"))
                        ++ (lit "\n"
                            ++ (card_line (lit "status    ") c.status
                                ++ (card_line (lit "priority  ") c.priority
                                    ++ (card_line (lit "due       ")
                                          (card_due c.due_at now offset_min)
                                        ++ (card_line (lit "tags      ") (
                                              if ltb 0 (length c.tags)
                                              then join (lit ", ") c.tags
                                              else lit "—")
                                            ++ (if ltb 0 (length c.child_ids)
                                                then lit "subtasks  <code>"
                                                  ++ (format_uint 20 (length c.child_ids)
                                                      ++ lit "</code>\n")
                                                else [])))))))))))

abbrev pub button : Text → Action → Button
button label action = record { label = label; action = action }

-- `CardKeyboard`
unfoldable pub card_keyboard : Task → Origin → Keyboard
card_keyboard t o =
    let id = t.id in
    (button (lit "✓ Done") (act o done id [])
      ∷ (button (lit "Status") (act o pick_status id [])
          ∷ (button (lit "Priority") (act o pick_priority id []) ∷ [])))
    ∷ ((button (lit "Due") (act o pick_due id [])
          ∷ (button (lit "Tags") (act o prompt_field id (lit "tags"))
              ∷ (button (lit "Clear tags") (act o clear_tags id []) ∷ [])))
        ∷ ((button (lit "✎ Title") (act o prompt_field id (lit "title"))
              ∷ (button (lit "✎ Description") (act o prompt_field id (lit "description")) ∷ []))
            ∷ ((button (lit "🗑 Delete") (act o confirm_delete id [])
                  ∷ (if o.has_list then button (lit "◀ Back") (act o back id []) ∷ [] else []))
                ∷ [])))

unfoldable pub option_buttons : ActionKind → Text → Origin → List (Text × Text) → List Button
option_buttons kind task_id o [] = []
option_buttons kind task_id o ((label, arg) ∷ opts) =
    button label (act o kind task_id arg) ∷ option_buttons kind task_id o opts

-- `pickerKeyboard`
unfoldable pub picker_keyboard : ActionKind → Text → Origin → List (Text × Text) → Keyboard
picker_keyboard kind task_id o opts =
    fill_rows 3 [] (option_buttons kind task_id o opts)
    ++ ((button (lit "◀") (act o open_task task_id []) ∷ []) ∷ [])

abbrev pub status_options : List (Text × Text)
status_options =
    (lit "○ todo", status_todo)
    ∷ ((lit "◐ in progress", status_in_progress)
        ∷ ((lit "✓ done", status_done) ∷ ((lit "✗ cancelled", status_cancelled) ∷ [])))

unfoldable pub status_picker : Text → Origin → Keyboard
status_picker task_id o = picker_keyboard set_status task_id o status_options

abbrev pub priority_options : List (Text × Text)
priority_options =
    (lit "none", priority_none)
    ∷ ((lit "low", priority_low)
        ∷ ((lit "medium", priority_medium) ∷ ((lit "high", priority_high) ∷ [])))

unfoldable pub priority_picker : Text → Origin → Keyboard
priority_picker task_id o = picker_keyboard set_priority task_id o priority_options

abbrev pub due_options : List (Text × Text)
due_options =
    (lit "Today", lit "today")
    ∷ ((lit "Tomorrow", lit "tomorrow")
        ∷ ((lit "+3 days", lit "+3d")
            ∷ ((lit "+1 week", lit "+1w") ∷ ((lit "Clear", lit "clear") ∷ []))))

unfoldable pub due_picker : Text → Origin → Keyboard
due_picker task_id o = picker_keyboard set_due task_id o due_options

-- `DeleteConfirmText` and `DeleteConfirmKeyboard`
unfoldable pub delete_confirm_text : Task → Text
delete_confirm_text t =
    lit "Delete <b>"
    ++ (escape_html t.content.title
        ++ (lit "</b>?"
            ++ (if ltb 0 (length t.content.child_ids)
                then lit "\n\nIts "
                  ++ (format_uint 20 (length t.content.child_ids)
                      ++ lit " subtask(s) will become top-level tasks.")
                else [])))

unfoldable pub delete_confirm_keyboard : Text → Origin → Keyboard
delete_confirm_keyboard task_id o =
    (button (lit "Yes, delete") (act o do_delete task_id [])
      ∷ (button (lit "Cancel") (act o open_task task_id []) ∷ []))
    ∷ []
