-- ===== src/Bot/Permits/Handlers.antt =====
-- What the handlers of client/bot/handlers.go for lists, cards, pickers and deletions let out.
use seshat_tasks.Prelude.{Text, eqb, [], if◌then◌else◌}
use seshat_tasks.Prelude.Int.{ℤ}
use seshat_tasks.Task.{Task}
use seshat_tasks.Bot.View.{Index, build_index, get_task}
use seshat_tasks.Bot.Parse.{parse_capture}
use seshat_tasks.Bot.Registry.{Action}
use seshat_tasks.Bot.Render.{Keyboard}
use seshat_tasks.Bot.Render.Card.{Origin}
use seshat_tasks.Bot.Effect.{Failure, api, task_gone, other, Outside, M}
use seshat_tasks.Bot.Effect.Emits.{
  Policy, Emits, pure-Emits, bind-Emits, attempt-Emits, if-Emits, option-Emits, outcome-Emits,
  read_clock-Emits,
}
use seshat_tasks.Bot.Permits.{
  Reads, Permits, client_get-Emits, client_add-Emits, client_delete-Emits, send-Emits, edit-Emits,
}
use seshat_tasks.Bot.Handlers.{
  msg_task_gone, say, report, report_internal, handle_start, deliver, or_report, capture, show_list,
  with_task, open_card, show_picker, ask_delete, delete_task,
}

module _ {E : Type 0} (out : Outside E) (offset_min : ℤ) (P : Policy out) (chat : ℤ) (token : Text)
    (reads : Reads out P chat token) where
  pub say-Emits : (text : Text) (kb : Keyboard) → Emits P (say out offset_min chat text kb)
  unfolding say
  say-Emits text kb =
      bind-Emits P (send-Emits out P chat token reads text kb) (λ _. pure-Emits P tt)

  pub report-Emits : (e : Failure) → Emits P (report out offset_min chat e)
  unfolding report
  report-Emits e = say-Emits _ []

  pub report_internal-Emits : Emits P (report_internal out offset_min chat)
  unfolding report_internal
  report_internal-Emits = say-Emits _ []

  pub handle_start-Emits : Emits P (handle_start out offset_min chat)
  unfolding handle_start
  handle_start-Emits = say-Emits _ []

  pub deliver-Emits :
      (id : ℤ) (text : Text) (kb : Keyboard) → Emits P (deliver out offset_min chat id text kb)
  unfolding deliver
  deliver-Emits id text kb =
      if-Emits P _ (edit-Emits out P chat token reads id text kb) (say-Emits text kb)

  pub or_report-Emits :
      {A : Type 0} {step : M E A} {rest : A → M E (Unit {0})}
      → Emits P step
      → ((a : A) → Emits P (rest a))
      → Emits P (or_report out offset_min chat step rest)
  unfolding or_report
  or_report-Emits hm hr = bind-Emits P (attempt-Emits P hm) (λ r. outcome-Emits P r hr report-Emits)

  pub with_task-Emits :
      (id : Text) {gone : M E (Unit {0})} {found : Task → Index → M E (Unit {0})}
      → Emits P gone
      → ((t : Task) (ix : Index) → Emits P (found t ix))
      → Emits P (with_task out offset_min chat token id gone found)
  unfolding with_task
  with_task-Emits id hg hf =
      or_report-Emits (client_get-Emits out P chat token reads)
        λ tasks. option-Emits P (get_task (build_index tasks) id) hg (λ t. hf t (build_index tasks))

  pub show_list-Emits :
      (id : ℤ) (query : Text) (page : ℤ)
      → Emits P (show_list out offset_min chat id token query page)
  unfolding show_list
  show_list-Emits id query page =
      or_report-Emits (client_get-Emits out P chat token reads)
        λ tasks. bind-Emits P (read_clock-Emits P) (λ now. deliver-Emits id _ _)

  pub open_card-Emits :
      (id : ℤ) (task_id : Text) (o : Origin)
      → Emits P (open_card out offset_min chat id token task_id o)
  unfolding open_card
  open_card-Emits id task_id o =
      with_task-Emits task_id (deliver-Emits id _ [])
        λ t ix. bind-Emits P (read_clock-Emits P) (λ now. deliver-Emits id _ _)

  pub show_picker-Emits :
      (id : ℤ) (a : Action) (kb : Keyboard)
      → Emits P (show_picker out offset_min chat id token a kb)
  unfolding show_picker
  show_picker-Emits id a kb =
      with_task-Emits a.task_id (deliver-Emits id _ [])
        λ t ix. bind-Emits P (read_clock-Emits P) (λ now. deliver-Emits id _ _)

  pub ask_delete-Emits : (id : ℤ) (a : Action) → Emits P (ask_delete out offset_min chat id token a)
  unfolding ask_delete
  ask_delete-Emits id a =
      with_task-Emits a.task_id (deliver-Emits id _ []) (λ t ix. deliver-Emits id _ _)

  delete_failed-Emits :
      (id : ℤ) (e : Failure)
      → Emits P (elim e [
        | api status message ↦
            if eqb status 404
            then deliver out offset_min chat id msg_task_gone []
            else report out offset_min chat (api status message)
        | task_gone ↦ report out offset_min chat task_gone
        | other message ↦ report out offset_min chat (other message)
      ])
  delete_failed-Emits id (api status message) =
      if-Emits P _ (deliver-Emits id _ []) (report-Emits _)
  delete_failed-Emits id task_gone = report-Emits _
  delete_failed-Emits id (other message) = report-Emits _

module _ {E : Type 0} (out : Outside E) (offset_min : ℤ) (P : Policy out) (chat : ℤ) (token : Text)
    (permits : Permits out P chat token) where
  pub capture-Emits : (text note : Text) → Emits P (capture out offset_min chat token text note)
  unfolding capture
  capture-Emits text note =
      option-Emits P (parse_capture text) (say-Emits out offset_min P chat token permits.reads _ [])
        λ td.
          or_report-Emits out offset_min P chat token permits.reads
            (client_add-Emits out P chat token permits _)
            λ created.
              bind-Emits P (read_clock-Emits P)
                (λ now. say-Emits out offset_min P chat token permits.reads _ _)

  pub delete_task-Emits :
      (id : ℤ) (a : Action) → Emits P (delete_task out offset_min chat id token a)
  unfolding delete_task
  delete_task-Emits id a =
      bind-Emits P (attempt-Emits P (client_delete-Emits out P chat token permits a.task_id)) (λ r.
        outcome-Emits P r
          (λ _. show_list-Emits out offset_min P chat token permits.reads id a.query a.page)
          (delete_failed-Emits out offset_min P chat token permits.reads id))
