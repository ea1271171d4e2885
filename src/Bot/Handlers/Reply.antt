-- ===== src/Bot/Handlers/Reply.antt =====
-- Free text in client/bot/handlers.go: the prompt for a field, the reply to it, and what happens
-- where the task has changed in between.
use seshat_tasks.Prelude.{
  Text, lit, ◌==◌, ltb, length, Bool, true, false, ◌&&◌, Option, none, some, [], ◌∷◌, ◌++◌,
  if◌then◌else◌,
}
use seshat_tasks.Prelude.Int.{ℤ, pos}
use seshat_tasks.Task.{Content, Task}
use seshat_tasks.Bot.Text.{trim_space, join}
use seshat_tasks.Bot.Parse.{text_patch}
use seshat_tasks.Bot.Registry.{ActionKind, overwrite, keep_theirs, Action}
use seshat_tasks.Bot.Render.{Keyboard, escape_html}
use seshat_tasks.Bot.Render.Card.{act, button}
use seshat_tasks.Bot.Effect.{
  api, task_gone, other, Outcome, ok, failed, Outside, M, ◌>>=◌, ◌>>◌, pure, attempt,
}
use seshat_tasks.Bot.Sender.{prompt, delete_message, recall_prompt, remember_prompt}
use seshat_tasks.Bot.Handlers.{
  msg_task_gone, origin_of, say, report, report_internal, or_report, with_task, open_card, capture,
}
use seshat_tasks.Bot.Handlers.Edit.{Patch, is_conflict, apply_edit, commit_patch}

-- `promptCopy`
unfoldable pub prompt_copy : Text → Option Text
prompt_copy field =
    if field == lit "title"
    then some (lit "Send me the new title.")
    else if field == lit "description"
    then some (lit "Send me the new description.")
    else if field == lit "tags"
    then some (lit "Send me the tags, comma-separated.")
    else none

-- The text of a prompt, which shows the tags that there are.
unfoldable pub prompt_text : Text → Text → Task → Text
prompt_text field copy t =
    if field == lit "tags" && ltb 0 (length t.content.tags)
    then copy ++ (lit "\n\nCurrently: " ++ escape_html (join (lit ", ") t.content.tags))
    else copy

unfoldable pub theirs : Text → Content → Text
theirs field c =
    if field == lit "title"
    then c.title
    else if field == lit "description"
    then c.description
    else if field == lit "tags"
    then join (lit ", ") c.tags
    else []

unfoldable pub conflict_text : Text → Text → Text
conflict_text old typed =
    lit "That task changed while you were typing.\n\n<b>Theirs:</b>\n"
    ++ (escape_html old ++ (lit "\n\n<b>Yours:</b>\n" ++ escape_html typed))

unfoldable pub conflict_keyboard : Action → Text → Keyboard
conflict_keyboard a typed =
    (button (lit "Overwrite")
        (record (act (origin_of a) overwrite a.task_id a.arg) { text = typed })
      ∷ (button (lit "Keep theirs") (act (origin_of a) keep_theirs a.task_id []) ∷ []))
    ∷ []

module _ {E : Type 0} (out : Outside E) (offset_min : ℤ) where
  -- `PromptField` pins the version of the task as of now.
  unfoldable pub prompt_field : ℤ → Text → Action → M E (Unit {0})
  prompt_field chat token a = elim (prompt_copy a.arg) [
    | none ↦ report_internal out offset_min chat
    | some copy ↦
        with_task out offset_min chat token a.task_id (say out offset_min chat msg_task_gone [])
          λ t ix.
            or_report out offset_min chat (prompt out chat (prompt_text a.arg copy t))
              λ id. remember_prompt (record a { expected_version = t.meta.version }) id
  ]

  unfoldable pub show_conflict : ℤ → Text → Action → Text → M E (Unit {0})
  show_conflict chat token a typed =
      with_task out offset_min chat token a.task_id (say out offset_min chat msg_task_gone [])
        λ t ix.
          say out offset_min chat (conflict_text (theirs a.arg t.content) typed)
            (conflict_keyboard a typed)

  -- How the edit of a reply ends.
  unfoldable pub after_reply : ℤ → Text → Action → Text → Outcome Task → M E (Unit {0})
  after_reply chat token a value (ok t) =
      open_card out offset_min chat (pos 0) token a.task_id (origin_of a)
  after_reply chat token a value (failed task_gone) = say out offset_min chat msg_task_gone []
  after_reply chat token a value (failed (api status message)) =
      if is_conflict (api status message)
      then show_conflict chat token a value
      else report out offset_min chat (api status message)
  after_reply chat token a value (failed (other message)) =
      report out offset_min chat (other message)

  unfoldable pub edit_by_reply : ℤ → ℤ → Text → Action → Text → Patch → M E (Unit {0})
  edit_by_reply chat prompt_id token a value patch = do
    attempt (delete_message out chat prompt_id)
    r ← attempt (apply_edit out token a.task_id a.expected_version patch)
    after_reply chat token a value r

  -- A reply to a prompt that the registry has.
  unfoldable pub reply_found : ℤ → ℤ → Text → Text → Action → M E (Unit {0})
  reply_found chat prompt_id token text a =
      if a.arg == lit "title" && trim_space text == []
      then say out offset_min chat (lit "A task needs a title.") []
      else elim (text_patch a.arg (trim_space text)) [
        | none ↦ report_internal out offset_min chat
        | some patch ↦ edit_by_reply chat prompt_id token a (trim_space text) patch
      ]

  -- `HandleReply`
  unfoldable pub handle_reply : ℤ → ℤ → Text → Text → M E (Unit {0})
  handle_reply chat prompt_id token text = do
    found ← recall_prompt prompt_id
    elim found [
      | none ↦
          capture out offset_min chat token text (
            lit
              "I couldn't match that to an open edit prompt, so I added it as a new task instead.")
      | some a ↦ reply_found chat prompt_id token text a
    ]

  -- What the button to overwrite does: the text that was kept, on the version of now.
  unfoldable pub overwrite_by : ℤ → ℤ → Text → Action → M E (Unit {0})
  overwrite_by chat edited_id token a = elim (text_patch a.arg a.text) [
    | none ↦ report_internal out offset_min chat
    | some patch ↦ commit_patch out offset_min chat edited_id token a patch
  ]

  -- `ResolveConflict`, with the kind that it looks at.
  unfoldable pub resolve_conflict_of : ActionKind → ℤ → ℤ → Text → Action → M E (Unit {0})
  resolve_conflict_of keep_theirs chat edited_id token a =
      open_card out offset_min chat edited_id token a.task_id (origin_of a)
  resolve_conflict_of _ chat edited_id token a = overwrite_by chat edited_id token a

  abbrev pub resolve_conflict : ℤ → ℤ → Text → Action → M E (Unit {0})
  resolve_conflict chat edited_id token a = resolve_conflict_of a.kind chat edited_id token a

-- `IsPrompt`
unfoldable pub is_prompt : {E : Type 0} → ℤ → M E Bool
is_prompt id = do found ← recall_prompt id; pure (elim found [ none ↦ false | some _ ↦ true ])
