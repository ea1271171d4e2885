-- ===== src/Bot/Handlers.antt =====
-- client/bot/handlers.go: what the bot does for a message, a reply or a tap on a button. A handler
-- returns the error that its source returns; `log.Printf` is left out.
pub mod Edit
pub mod Reply
pub mod Callback
use seshat_tasks.Prelude.{
  ℕ, Text, lit, ◌==◌, eqb, ltb, length, Bool, true, false, not, ◌&&◌, Option, none, some, List, [],
  ◌∷◌, ◌++◌, if◌then◌else◌,
}
use seshat_tasks.Prelude.Int.{ℤ, pos, eqb_ℤ}
use seshat_tasks.Task.{status_todo, priority_none, Content, Task, AddRequest}
use seshat_tasks.Bot.View.{Index, build_index, get_task, Group, list_groups}
use seshat_tasks.Bot.Page.{paginate}
use seshat_tasks.Bot.Find.{find_groups}
use seshat_tasks.Bot.Registry.{Action}
use seshat_tasks.Bot.Parse.{parse_capture}
use seshat_tasks.Bot.Render.{Keyboard, escape_html, render_page}
use seshat_tasks.Bot.Render.Card.{
  Origin, card_text, card_keyboard, delete_confirm_text, delete_confirm_keyboard,
}
use seshat_tasks.Bot.Effect.{
  Failure, api, task_gone, other, Outcome, ok, failed, Outside, M, ◌>>=◌, ◌>>◌, pure, fail, attempt,
  read_clock,
}
use seshat_tasks.Bot.Client.{client_get, client_add, client_delete}
use seshat_tasks.Bot.Sender.{send, edit}

abbrev pub msg_task_gone : Text
msg_task_gone = lit "That task no longer exists — it may have been deleted elsewhere."

abbrev pub msg_internal_error : Text
msg_internal_error = lit "Something went wrong on my side — try again."

abbrev pub help_text : Text
help_text =
    lit
      "Send me any message and it becomes a task — the first line is the title, anything after it is the description.\n\n/list — your open tasks, five at a time\n/find &lt;text&gt; — search open task titles\n/help — this message"

-- `userMessage`
unfoldable pub user_message : Failure → Text
user_message (api status message) =
    if eqb status 403
    then lit "seshat rejected the token — check the bot's config."
    else if eqb status 429
    then lit "seshat is rate-limiting — try again in a moment."
    else if eqb status 404
    then msg_task_gone
    else if eqb status 409
    then lit "That task changed underneath me — reopen it."
    else escape_html message
user_message task_gone = lit "Can't reach seshat right now."
user_message (other _) = lit "Can't reach seshat right now."

unfoldable pub origin_of : Action → Origin
origin_of a = record { has_list = a.has_list; page = a.page; query = a.query }

-- `Bot`: the outside, and the offset of the configuration.
module _ {E : Type 0} (out : Outside E) (offset_min : ℤ) where
  -- `Send`, of which only the error is kept.
  unfoldable pub say : ℤ → Text → Keyboard → M E (Unit {0})
  say chat text kb = do send out chat text kb; pure tt

  unfoldable pub report : ℤ → Failure → M E (Unit {0})
  report chat e = say chat (user_message e) []

  unfoldable pub report_internal : ℤ → M E (Unit {0})
  report_internal chat = say chat msg_internal_error []

  unfoldable pub handle_start : ℤ → M E (Unit {0})
  handle_start chat = say chat help_text []

  -- `deliver`
  unfoldable pub deliver : ℤ → ℤ → Text → Keyboard → M E (Unit {0})
  deliver chat edited_id text kb =
      if not (eqb_ℤ edited_id (pos 0)) then edit out chat edited_id text kb else say chat text kb

  -- `if err != nil { return b.fail(...) }` after a step.
  unfoldable pub or_report : {A : Type 0} → ℤ → M E A → (A → M E (Unit {0})) → M E (Unit {0})
  or_report chat step rest = do
    r ← attempt step
    elim r [ ok a ↦ rest a | failed e ↦ report chat e ]

  abbrev pub captured : Text → Text → AddRequest
  captured title description = record {
    content = record {
      title = title;
      description = description;
      status = status_todo;
      priority = priority_none;
      child_ids = [];
      tags = [];
      due_at = none;
      scheduled_at = none;
    };
    parent_id = none;
    position = none;
  }

  unfoldable pub capture : ℤ → Text → Text → Text → M E (Unit {0})
  capture chat token text note = elim (parse_capture text) [
    | none ↦ say chat (lit "A task needs a title.") []
    | some (title, description) ↦
        or_report chat (client_add out token (captured title description)) λ created. do
          now ← read_clock out
          let body = card_text created (build_index (created ∷ [])) now offset_min
          say chat
              (if note == []
                then body
                else lit "<i>" ++ (escape_html note ++ (lit "</i>\n\n" ++ body)))
              (card_keyboard created (record { has_list = false; page = pos 0; query = [] }))
  ]

  -- The groups of a listing, and how many results it drops.
  unfoldable pub listing : List Task → Text → ℤ → List Group × ℕ
  listing tasks query now =
      if query == []
      then (list_groups tasks (build_index tasks) now, 0)
      else find_groups out.to_lower tasks (build_index tasks) query now

  unfoldable pub show_list : ℤ → ℤ → Text → Text → ℤ → M E (Unit {0})
  show_list chat edited_id token query page = or_report chat (client_get out token) λ tasks. do
    now ← read_clock out
    let found = listing tasks query now
    let shown = render_page (paginate found.0 page) query found.1 now offset_min
    deliver chat edited_id shown.0 shown.1

  -- What several handlers do first: fetch the tasks and look for one.
  unfoldable pub with_task :
      ℤ → Text → Text → M E (Unit {0}) → (Task → Index → M E (Unit {0})) → M E (Unit {0})
  with_task chat token task_id gone found = or_report chat (client_get out token) λ tasks.
      elim (get_task (build_index tasks) task_id) [
        | none ↦ gone
        | some t ↦ found t (build_index tasks)
      ]

  unfoldable pub open_card : ℤ → ℤ → Text → Text → Origin → M E (Unit {0})
  open_card chat edited_id token task_id o =
      with_task chat token task_id (deliver chat edited_id msg_task_gone []) λ t ix. do
        now ← read_clock out
        deliver chat edited_id (card_text t ix now offset_min) (card_keyboard t o)

  -- `showPicker`
  unfoldable pub show_picker : ℤ → ℤ → Text → Action → Keyboard → M E (Unit {0})
  show_picker chat message token a kb =
      with_task chat token a.task_id (deliver chat message msg_task_gone [])
        λ t ix. do now ← read_clock out; deliver chat message (card_text t ix now offset_min) kb

  unfoldable pub ask_delete : ℤ → ℤ → Text → Action → M E (Unit {0})
  ask_delete chat edited_id token a =
      with_task chat token a.task_id (deliver chat edited_id msg_task_gone []) λ t ix.
        deliver chat edited_id (delete_confirm_text t)
          (delete_confirm_keyboard a.task_id (origin_of a))

  -- `DoDelete`
  unfoldable pub delete_task : ℤ → ℤ → Text → Action → M E (Unit {0})
  delete_task chat edited_id token a = do
    r ← attempt (client_delete out token a.task_id)
    elim r [
      | ok _ ↦ show_list chat edited_id token a.query a.page
      | failed e ↦ elim e [
        | api status message ↦
            if eqb status 404
            then deliver chat edited_id msg_task_gone []
            else report chat (api status message)
        | task_gone ↦ report chat task_gone
        | other message ↦ report chat (other message)
      ]
    ]
