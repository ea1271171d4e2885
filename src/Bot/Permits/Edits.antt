-- ===== src/Bot/Permits/Edits.antt =====
-- What the read-modify-write cycle of client/bot/handlers.go lets out.
use seshat_tasks.Prelude.{ℕ, Text, lit, Option, none, some, List, [], ◌∷◌}
use seshat_tasks.Prelude.Int.{ℤ}
use seshat_tasks.Task.{Task}
use seshat_tasks.Bot.Client.{exchange, request_to}
use seshat_tasks.Bot.Due.{due_from_keyword}
use seshat_tasks.Bot.Registry.{ActionKind, set_status, set_priority, set_due, clear_tags, Action}
use seshat_tasks.Bot.Effect.{Failure, api, task_gone, other, Outcome, ok, failed, Outside}
use seshat_tasks.Bot.Effect.Emits.{
  Policy, Emits, pure-Emits, fail-Emits, bind-Emits, attempt-Emits, if-Emits, option-Emits,
  outcome-Emits, read_clock-Emits,
}
use seshat_tasks.Bot.Permits.{Permits, Reads, client_get-Emits, client_update-Emits}
use seshat_tasks.Bot.Permits.Handlers.{
  report-Emits, report_internal-Emits, deliver-Emits, show_list-Emits, open_card-Emits,
}
use seshat_tasks.Bot.Handlers.{msg_task_gone, report, report_internal, deliver}
use seshat_tasks.Bot.Handlers.Edit.{
  Patch, edit_op, edit_found, first_updated, edit_once, apply_edit, after_mutation, commit_patch,
  set_due_field, set_field_of, mark_done,
}

module _ {E : Type 0} (out : Outside E) (P : Policy out) (token : Text) where
  first_updated-Emits : (ts : List Task) → Emits {E = E} P (first_updated out ts)
  first_updated-Emits [] = fail-Emits P task_gone
  first_updated-Emits (t ∷ ts) = pure-Emits P t

  -- The policy has to allow the one update that the cycle asks for, whichever task it finds.
  abbrev pub AllowsEdit : Text → ℕ → Patch → Type 0
  AllowsEdit id pinned patch =
      (t : Task)
      → Emits P (
          exchange out (
            request_to (lit "/api/tasks/update") token
              (out.encode_update (edit_op out t id pinned patch ∷ []))))

  edit_found-Emits :
      (id : Text) (pinned : ℕ) (patch : Patch) (found : Option Task)
      → AllowsEdit id pinned patch
      → Emits P (edit_found out token id pinned patch found)
  edit_found-Emits id pinned patch none h = fail-Emits P task_gone
  edit_found-Emits id pinned patch (some t) h =
      bind-Emits P (client_update-Emits out P token _ (h t)) first_updated-Emits

  module _ (chat : ℤ) (reads : Reads out P chat token) where
    edit_once-Emits :
        (id : Text) (pinned : ℕ) (patch : Patch)
        → AllowsEdit id pinned patch
        → Emits P (edit_once out token id pinned patch)
    unfolding edit_once
    edit_once-Emits id pinned patch h =
        bind-Emits P (client_get-Emits out P chat token reads)
          (λ tasks. edit_found-Emits id pinned patch _ h)

    pub apply_edit-Emits :
        (id : Text) (pinned : ℕ) (patch : Patch)
        → AllowsEdit id pinned patch
        → Emits P (apply_edit out token id pinned patch)
    unfolding apply_edit
    apply_edit-Emits id pinned patch h =
        bind-Emits P (attempt-Emits P (edit_once-Emits id pinned patch h)) λ r.
          outcome-Emits P r (pure-Emits P) λ e.
            if-Emits P _ (fail-Emits P e)
              (if-Emits P _ (edit_once-Emits id pinned patch h) (fail-Emits P e))

module _ {E : Type 0} (out : Outside E) (offset_min : ℤ) (P : Policy out) (chat : ℤ) (token : Text)
    (permits : Permits out P chat token) where
  internal-Emits : Emits P (report_internal out offset_min chat)
  internal-Emits = report_internal-Emits out offset_min P chat token permits.reads

  after_mutation-Emits :
      (id : ℤ) (a : Action) (r : Outcome Task)
      → Emits P (after_mutation out offset_min chat id token a r)
  unfolding after_mutation
  after_mutation-Emits id a (ok t) =
      open_card-Emits out offset_min P chat token permits.reads id _ _
  after_mutation-Emits id a (failed task_gone) =
      deliver-Emits out offset_min P chat token permits.reads id _ []
  after_mutation-Emits id a (failed (api status message)) =
      report-Emits out offset_min P chat token permits.reads _
  after_mutation-Emits id a (failed (other message)) =
      report-Emits out offset_min P chat token permits.reads _

  pub commit_patch-Emits :
      (id : ℤ) (a : Action) (patch : Patch)
      → Emits P (commit_patch out offset_min chat id token a patch)
  unfolding commit_patch
  commit_patch-Emits id a patch =
      bind-Emits P
        (attempt-Emits P (
          apply_edit-Emits out P token chat permits.reads a.task_id 0 patch
            (λ t. permits.writes _ _)))
        (after_mutation-Emits id a)

  set_due_field-Emits :
      (id : ℤ) (a : Action) → Emits P (set_due_field out offset_min chat id token a)
  unfolding set_due_field
  set_due_field-Emits id a = bind-Emits P (read_clock-Emits P) λ now.
      option-Emits P (due_from_keyword a.arg now offset_min) internal-Emits
        (λ due. commit_patch-Emits id a _)

  pub set_field-Emits :
      (k : ActionKind) (id : ℤ) (a : Action)
      → Emits P (set_field_of out offset_min k chat id token a)
  unfolding set_field_of
  set_field-Emits set_status id a =
      if-Emits P _ (report-Emits out offset_min P chat token permits.reads _)
        (commit_patch-Emits id a _)
  set_field-Emits set_priority id a =
      if-Emits P _ (report-Emits out offset_min P chat token permits.reads _)
        (commit_patch-Emits id a _)
  set_field-Emits set_due id a = set_due_field-Emits id a
  set_field-Emits clear_tags id a = commit_patch-Emits id a _
  set_field-Emits _ id a = internal-Emits

  mark_failed-Emits :
      (id : ℤ) (e : Failure)
      → Emits P (elim e [
        | task_gone ↦ deliver out offset_min chat id msg_task_gone []
        | api status message ↦ report out offset_min chat (api status message)
        | other message ↦ report out offset_min chat (other message)
      ])
  mark_failed-Emits id (api status message) =
      report-Emits out offset_min P chat token permits.reads _
  mark_failed-Emits id task_gone = deliver-Emits out offset_min P chat token permits.reads id _ []
  mark_failed-Emits id (other message) = report-Emits out offset_min P chat token permits.reads _

  pub mark_done-Emits : (id : ℤ) (a : Action) → Emits P (mark_done out offset_min chat id token a)
  unfolding mark_done
  mark_done-Emits id a =
      bind-Emits P
        (attempt-Emits P
          (apply_edit-Emits out P token chat permits.reads a.task_id 0 _ (λ t. permits.writes _ _)))
        λ r.
          outcome-Emits P r
            (λ t. show_list-Emits out offset_min P chat token permits.reads id a.query a.page)
            (mark_failed-Emits id)
