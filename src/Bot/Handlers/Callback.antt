-- ===== src/Bot/Handlers/Callback.antt =====
-- `HandleCallback` of client/bot/handlers.go: what a tap on a button does.
pub mod Answered
use seshat_tasks.Prelude.{Text, lit, Option, none, some, List, [], ◌∷◌}
use seshat_tasks.Prelude.Int.{ℤ}
use seshat_tasks.Bot.Registry.{
  ActionKind, noop, page, open_task, back, pick_status, pick_priority, pick_due, set_status,
  set_priority, set_due, done, clear_tags, confirm_delete, do_delete, overwrite, keep_theirs,
  Action,
}
use seshat_tasks.Bot.Registry as Registry
use seshat_tasks.Bot.Render.Card.{status_picker, priority_picker, due_picker}
use seshat_tasks.Bot.Effect.{Outcome, ok, failed, Outside, M, ◌>>=◌, ◌>>◌, pure, attempt}
use seshat_tasks.Bot.Sender.{press, answer}
use seshat_tasks.Bot.Handlers.{
  origin_of, show_list, open_card, show_picker, ask_delete, delete_task,
}
use seshat_tasks.Bot.Handlers.Edit.{set_field, mark_done}
use seshat_tasks.Bot.Handlers.Reply.{prompt_field, resolve_conflict}

module _ {E : Type 0} (out : Outside E) (offset_min : ℤ) where
  -- The switch over the kind of the action. Every kind has its case.
  unfoldable pub route_kind : ActionKind → ℤ → ℤ → Text → Action → M E (Unit {0})
  route_kind noop chat message token a = pure tt
  route_kind page chat message token a = show_list out offset_min chat message token a.query a.page
  route_kind open_task chat message token a =
      open_card out offset_min chat message token a.task_id (origin_of a)
  route_kind back chat message token a = show_list out offset_min chat message token a.query a.page
  route_kind pick_status chat message token a =
      show_picker out offset_min chat message token a (status_picker a.task_id (origin_of a))
  route_kind pick_priority chat message token a =
      show_picker out offset_min chat message token a (priority_picker a.task_id (origin_of a))
  route_kind pick_due chat message token a =
      show_picker out offset_min chat message token a (due_picker a.task_id (origin_of a))
  route_kind set_status chat message token a = set_field out offset_min chat message token a
  route_kind set_priority chat message token a = set_field out offset_min chat message token a
  route_kind set_due chat message token a = set_field out offset_min chat message token a
  route_kind clear_tags chat message token a = set_field out offset_min chat message token a
  route_kind done chat message token a = mark_done out offset_min chat message token a
  route_kind Registry.prompt_field chat message token a = prompt_field out offset_min chat token a
  route_kind confirm_delete chat message token a = ask_delete out offset_min chat message token a
  route_kind do_delete chat message token a = delete_task out offset_min chat message token a
  route_kind overwrite chat message token a = resolve_conflict out offset_min chat message token a
  route_kind keep_theirs chat message token a = resolve_conflict out offset_min chat message token a

  abbrev pub route_action : ℤ → ℤ → Text → Action → M E (Unit {0})
  route_action chat message token a = route_kind a.kind chat message token a

  unfoldable pub handle_found : ℤ → ℤ → Text → Text → Option Action → M E (Unit {0})
  handle_found chat message callback token none =
      answer out callback (lit "That button has expired — send /list again")
  handle_found chat message callback token (some a) = do
    attempt (answer out callback [])
    route_action chat message token a

  -- `HandleCallback`
  unfoldable pub handle_callback : ℤ → ℤ → Text → Text → Text → M E (Unit {0})
  handle_callback chat message callback token pressed = do
    found ← press pressed
    handle_found chat message callback token found
