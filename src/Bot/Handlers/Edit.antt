-- ===== src/Bot/Handlers/Edit.antt =====
-- The read-modify-write cycle of client/bot/handlers.go, and the handlers that pick a field.
use seshat_tasks.Prelude.{
  ℕ, Text, lit, eqb, Bool, false, not, Option, none, some, List, [], ◌∷◌, if◌then◌else◌,
}
use seshat_tasks.Prelude.Int.{ℤ}
use seshat_tasks.Task.{status_done, valid_status, valid_priority, Content, Task, UpdateOp}
use seshat_tasks.Bot.View.{build_index, get_task}
use seshat_tasks.Bot.Due.{due_from_keyword}
use seshat_tasks.Bot.Registry.{ActionKind, set_status, set_priority, set_due, clear_tags, Action}
use seshat_tasks.Bot.Effect.{
  Failure, api, task_gone, other, Outcome, ok, failed, Outside, M, ◌>>=◌, pure, fail, attempt,
  read_clock,
}
use seshat_tasks.Bot.Client.{client_get, client_update}
use seshat_tasks.Bot.Handlers.{
  msg_task_gone, origin_of, report, report_internal, deliver, open_card, show_list,
}

abbrev pub Patch : Type 0
Patch = Content → Content

-- `errors.As(err, &ae) && ae.Status == http.StatusConflict`
unfoldable pub is_conflict : Failure → Bool
is_conflict (api status message) = eqb status 409
is_conflict task_gone = false
is_conflict (other message) = false

module _ {E : Type 0} (out : Outside E) where
  abbrev pub edit_op : Task → Text → ℕ → Patch → UpdateOp
  edit_op t task_id pinned patch = record {
    id = task_id;
    content = patch t.content;
    expected_version = if not (eqb pinned 0) then pinned else t.meta.version;
  }

  abbrev pub first_updated : List Task → M E Task
  first_updated [] = fail task_gone
  first_updated (t ∷ ts) = pure t

  abbrev pub edit_found : Text → Text → ℕ → Patch → Option Task → M E Task
  edit_found token task_id pinned patch none = fail task_gone
  edit_found token task_id pinned patch (some t) = do
    updated ← client_update out token (edit_op t task_id pinned patch ∷ [])
    first_updated updated

  -- `attempt` inside `applyEdit`
  unfoldable pub edit_once : Text → Text → ℕ → Patch → M E Task
  edit_once token task_id pinned patch = do
    tasks ← client_get out token
    edit_found token task_id pinned patch (get_task (build_index tasks) task_id)

  -- `applyEdit`: a version that is not 0 is pinned, and then there is no second attempt.
  unfoldable pub apply_edit : Text → Text → ℕ → Patch → M E Task
  apply_edit token task_id pinned patch = do
    r ← attempt (edit_once token task_id pinned patch)
    elim r [
      | ok t ↦ pure t
      | failed e ↦
          if not (eqb pinned 0)
          then fail e
          else if is_conflict e
          then edit_once token task_id pinned patch
          else fail e
    ]

module _ {E : Type 0} (out : Outside E) (offset_min : ℤ) where
  -- `afterMutation`
  unfoldable pub after_mutation : ℤ → ℤ → Text → Action → Outcome Task → M E (Unit {0})
  after_mutation chat edited_id token a (ok t) =
      open_card out offset_min chat edited_id token a.task_id (origin_of a)
  after_mutation chat edited_id token a (failed task_gone) =
      deliver out offset_min chat edited_id msg_task_gone []
  after_mutation chat edited_id token a (failed (api status message)) =
      report out offset_min chat (api status message)
  after_mutation chat edited_id token a (failed (other message)) =
      report out offset_min chat (other message)

  unfoldable pub commit_patch : ℤ → ℤ → Text → Action → Patch → M E (Unit {0})
  commit_patch chat edited_id token a patch = do
    r ← attempt (apply_edit out token a.task_id 0 patch)
    after_mutation chat edited_id token a r

  unfoldable pub set_due_field : ℤ → ℤ → Text → Action → M E (Unit {0})
  set_due_field chat edited_id token a = do
    now ← read_clock out
    elim (due_from_keyword a.arg now offset_min) [
      | none ↦ report_internal out offset_min chat
      | some due ↦ commit_patch chat edited_id token a (λ c. record c { due_at = due })
    ]

  -- `SetField`, with the kind that it switches over.
  unfoldable pub set_field_of : ActionKind → ℤ → ℤ → Text → Action → M E (Unit {0})
  set_field_of set_status chat edited_id token a =
      if not (valid_status a.arg)
      then report out offset_min chat (api 400 (lit "unknown status"))
      else commit_patch chat edited_id token a (λ c. record c { status = a.arg })
  set_field_of set_priority chat edited_id token a =
      if not (valid_priority a.arg)
      then report out offset_min chat (api 400 (lit "unknown priority"))
      else commit_patch chat edited_id token a (λ c. record c { priority = a.arg })
  set_field_of set_due chat edited_id token a = set_due_field chat edited_id token a
  set_field_of clear_tags chat edited_id token a =
      commit_patch chat edited_id token a (λ c. record c { tags = [] })
  set_field_of _ chat edited_id token a = report_internal out offset_min chat

  abbrev pub set_field : ℤ → ℤ → Text → Action → M E (Unit {0})
  set_field chat edited_id token a = set_field_of a.kind chat edited_id token a

  -- `Done`
  unfoldable pub mark_done : ℤ → ℤ → Text → Action → M E (Unit {0})
  mark_done chat edited_id token a = do
    r ← attempt (apply_edit out token a.task_id 0 (λ c. record c { status = status_done }))
    elim r [
      | ok t ↦ show_list out offset_min chat edited_id token a.query a.page
      | failed e ↦ elim e [
        | task_gone ↦ deliver out offset_min chat edited_id msg_task_gone []
        | api status message ↦ report out offset_min chat (api status message)
        | other message ↦ report out offset_min chat (other message)
      ]
    ]
