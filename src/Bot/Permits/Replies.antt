-- ===== src/Bot/Permits/Replies.antt =====
-- What the prompts, the replies and the taps of client/bot/handlers.go let out.
use seshat_tasks.Prelude.{Text, []}
use seshat_tasks.Prelude.Int.{ℤ, pos}
use seshat_tasks.Task.{Task}
use seshat_tasks.Bot.Text.{trim_space}
use seshat_tasks.Bot.Parse.{text_patch}
use seshat_tasks.Bot.Registry.{
  ActionKind, noop, page, open_task, back, pick_status, pick_priority, pick_due, set_status,
  set_priority, set_due, done, clear_tags, confirm_delete, do_delete, overwrite, keep_theirs,
  Action, get, get_by_prompt, put_prompt,
}
use seshat_tasks.Bot.Registry as Registry
use seshat_tasks.Bot.Effect.{api, task_gone, other, Outcome, ok, failed, Outside}
use seshat_tasks.Bot.Effect.Emits.{
  Policy, Emits, pure-Emits, bind-Emits, attempt-Emits, if-Emits, option-Emits,
}
use seshat_tasks.Bot.Sender.{press, recall_prompt, remember_prompt}
use seshat_tasks.Bot.Permits.{Reads, Permits, prompt-Emits, delete_message-Emits}
use seshat_tasks.Bot.Permits.Handlers.{
  say-Emits, report-Emits, report_internal-Emits, or_report-Emits, with_task-Emits, open_card-Emits,
  capture-Emits, show_list-Emits, show_picker-Emits, ask_delete-Emits, delete_task-Emits,
}
use seshat_tasks.Bot.Permits.Edits.{
  AllowsEdit, apply_edit-Emits, commit_patch-Emits, set_field-Emits, mark_done-Emits,
}
use seshat_tasks.Bot.Handlers.Edit.{Patch}
use seshat_tasks.Bot.Handlers.Reply.{
  prompt_copy, prompt_field, show_conflict, after_reply, edit_by_reply, reply_found, handle_reply,
  overwrite_by, resolve_conflict_of,
}
use seshat_tasks.Bot.Handlers.Callback.{route_kind}

-- The steps that only change the registry.
module _ {E : Type 0} {out : Outside E} (P : Policy out) where
  pub press-Emits : (token : Text) → Emits P (press token)
  unfolding press
  press-Emits token = record { step = λ w. P.recall w (get token w.registry).1 }

  recall_prompt-Emits : (id : ℤ) → Emits P (recall_prompt id)
  unfolding recall_prompt
  recall_prompt-Emits id = record { step = λ w. P.recall w (get_by_prompt id w.registry).1 }

  remember_prompt-Emits : (a : Action) (id : ℤ) → Emits P (remember_prompt a id)
  unfolding remember_prompt
  remember_prompt-Emits a id = record { step = λ w. P.recall w (put_prompt a id w.registry) }

module _ {E : Type 0} (out : Outside E) (offset_min : ℤ) (P : Policy out) (chat : ℤ) (token : Text)
    (reads : Reads out P chat token) where
  prompt_field-Emits : (a : Action) → Emits P (prompt_field out offset_min chat token a)
  unfolding prompt_field
  prompt_field-Emits a =
      option-Emits P (prompt_copy a.arg) (report_internal-Emits out offset_min P chat token reads)
        λ copy.
          with_task-Emits out offset_min P chat token reads a.task_id
            (say-Emits out offset_min P chat token reads _ [])
            λ t ix.
              or_report-Emits out offset_min P chat token reads
                (prompt-Emits out P chat token reads _) (remember_prompt-Emits P _)

  show_conflict-Emits :
      (a : Action) (typed : Text) → Emits P (show_conflict out offset_min chat token a typed)
  unfolding show_conflict
  show_conflict-Emits a typed =
      with_task-Emits out offset_min P chat token reads a.task_id
        (say-Emits out offset_min P chat token reads _ [])
        (λ t ix. say-Emits out offset_min P chat token reads _ _)

  after_reply-Emits :
      (a : Action) (value : Text) (r : Outcome Task)
      → Emits P (after_reply out offset_min chat token a value r)
  unfolding after_reply
  after_reply-Emits a value (ok t) = open_card-Emits out offset_min P chat token reads (pos 0) _ _
  after_reply-Emits a value (failed task_gone) = say-Emits out offset_min P chat token reads _ []
  after_reply-Emits a value (failed (api status message)) =
      if-Emits P _ (show_conflict-Emits a value) (report-Emits out offset_min P chat token reads _)
  after_reply-Emits a value (failed (other message)) =
      report-Emits out offset_min P chat token reads _

  pub edit_by_reply-Emits :
      (id : ℤ) (a : Action) (value : Text) (patch : Patch)
      → AllowsEdit out P token a.task_id a.expected_version patch
      → Emits P (edit_by_reply out offset_min chat id token a value patch)
  unfolding edit_by_reply
  edit_by_reply-Emits id a value patch h =
      bind-Emits P (attempt-Emits P (delete_message-Emits out P chat token reads id)) λ _.
        bind-Emits P
          (attempt-Emits P
            (apply_edit-Emits out P token chat reads a.task_id a.expected_version patch h))
          (after_reply-Emits a value)

  -- A reply to a prompt that the registry has.
  pub reply_found-Emits :
      (id : ℤ) (text : Text) (a : Action)
      → ((patch : Patch) → AllowsEdit out P token a.task_id a.expected_version patch)
      → Emits P (reply_found out offset_min chat id token text a)
  unfolding reply_found
  reply_found-Emits id text a h = if-Emits P _ (say-Emits out offset_min P chat token reads _ []) (
      option-Emits P (text_patch a.arg (trim_space text))
        (report_internal-Emits out offset_min P chat token reads)
        (λ patch. edit_by_reply-Emits id a (trim_space text) patch (h patch)))

module _ {E : Type 0} (out : Outside E) (offset_min : ℤ) (P : Policy out) (chat : ℤ) (token : Text)
    (permits : Permits out P chat token) where
  pub handle_reply-Emits :
      (id : ℤ) (text : Text) → Emits P (handle_reply out offset_min chat id token text)
  unfolding handle_reply
  handle_reply-Emits id text = bind-Emits P (recall_prompt-Emits P id) λ found.
      option-Emits P found (capture-Emits out offset_min P chat token permits text _) λ a.
        reply_found-Emits out offset_min P chat token permits.reads id text a
          (λ patch t. permits.writes _ _)

  overwrite-Emits : (id : ℤ) (a : Action) → Emits P (overwrite_by out offset_min chat id token a)
  unfolding overwrite_by
  overwrite-Emits id a =
      option-Emits P (text_patch a.arg a.text)
        (report_internal-Emits out offset_min P chat token permits.reads)
        (λ patch. commit_patch-Emits out offset_min P chat token permits id a patch)

  resolve_conflict-Emits :
      (k : ActionKind) (id : ℤ) (a : Action)
      → Emits P (resolve_conflict_of out offset_min k chat id token a)
  unfolding resolve_conflict_of
  resolve_conflict-Emits keep_theirs id a =
      open_card-Emits out offset_min P chat token permits.reads id _ _
  resolve_conflict-Emits _ id a = overwrite-Emits id a

  pub route_kind-Emits :
      (k : ActionKind) (id : ℤ) (a : Action) → Emits P (route_kind out offset_min k chat id token a)
  unfolding route_kind
  route_kind-Emits noop id a = pure-Emits P tt
  route_kind-Emits page id a = show_list-Emits out offset_min P chat token permits.reads id _ _
  route_kind-Emits open_task id a = open_card-Emits out offset_min P chat token permits.reads id _ _
  route_kind-Emits back id a = show_list-Emits out offset_min P chat token permits.reads id _ _
  route_kind-Emits pick_status id a =
      show_picker-Emits out offset_min P chat token permits.reads id a _
  route_kind-Emits pick_priority id a =
      show_picker-Emits out offset_min P chat token permits.reads id a _
  route_kind-Emits pick_due id a =
      show_picker-Emits out offset_min P chat token permits.reads id a _
  route_kind-Emits set_status id a = set_field-Emits out offset_min P chat token permits _ id a
  route_kind-Emits set_priority id a = set_field-Emits out offset_min P chat token permits _ id a
  route_kind-Emits set_due id a = set_field-Emits out offset_min P chat token permits _ id a
  route_kind-Emits clear_tags id a = set_field-Emits out offset_min P chat token permits _ id a
  route_kind-Emits done id a = mark_done-Emits out offset_min P chat token permits id a
  route_kind-Emits Registry.prompt_field id a =
      prompt_field-Emits out offset_min P chat token permits.reads a
  route_kind-Emits confirm_delete id a =
      ask_delete-Emits out offset_min P chat token permits.reads id a
  route_kind-Emits do_delete id a = delete_task-Emits out offset_min P chat token permits id a
  route_kind-Emits overwrite id a = resolve_conflict-Emits _ id a
  route_kind-Emits keep_theirs id a = resolve_conflict-Emits _ id a
