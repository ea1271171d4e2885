-- ===== src/Server/Store/Update.antt =====
-- `Update`: all of a batch or nothing, each task once, and never over a version that moved on.
use seshat_tasks.Prelude.{
  ℕ, ◌^◌, ◌<◌, Text, ◌==◌, eq_iff, elem, elem-cons, eqb, get, put, get-put, true, false, not,
  Option, none, some, List, [], ◌∷◌, if◌then◌else◌, ◌≡◌, refl, ap, ◌∙◌, arith, Bool-cases, inl, inr,
}
use seshat_tasks.Prelude.Int.{ℤ, inc64, inc64-ne}
use seshat_tasks.Task.{Task, Tasks, State, UpdateOp, task_at}
use seshat_tasks.Server.Error.{ok, err, conflict, require, >>=-eq-ok, require-eq-ok}
use seshat_tasks.Server.Content.{validate_content, apply_completion}
use seshat_tasks.Server.Store.{
  Env, Store, check_ops, check_existence, conflicts, updated_task, apply_ops, update_candidate,
  updated_tasks, update, commit_result,
}
use seshat_tasks.Server.Store.Commit.{Returned, commit_result-Returned}
use seshat_tasks.Server.Store.Candidate.{Updated, update_candidate-Updated}
use seshat_tasks.Server.Store.Written.{edited}
use seshat_tasks.Server.Store.Lists.{task_at-put}
use seshat_tasks.Server.Store.Delete.{task_at-get, has-get}

-- The first op of a batch for an id.
unfoldable pub op_for : Text → List UpdateOp → Option UpdateOp
op_for id [] = none
op_for id (op ∷ ops) = if id == op.id then some op else op_for id ops

-- What a read of a key gives after a batch.
unfoldable pub updated_view : ℤ → List UpdateOp → Tasks → Text → Option Task
updated_view now ops ts j = elim (op_for j ops) [
  | none ↦ get j ts
  | some op ↦ some (updated_task now op (task_at ts j))
]

-- The same, with the task of an op written out.
unfoldable pub edited_view : ℤ → List UpdateOp → Tasks → Text → Option Task
edited_view now ops ts j = elim (op_for j ops) [
  | none ↦ get j ts
  | some op ↦ some (edited now op (task_at ts j))
]

-- A batch that passes its first loop names no id twice, and none of `seen`.
abbrev Unseen : List Text → List UpdateOp → Type 0
Unseen seen ops = (j : Text) → elem j seen ≡ true → op_for j ops ≡ none

check_ops-Unseen :
    (seen : List Text) (ops : List UpdateOp) → check_ops seen ops ≡ ok tt → Unseen seen ops
unfolding check_ops op_for
check_ops-Unseen seen [] h j m = refl
check_ops-Unseen seen (op ∷ ops) h j m =
    let (_, _, h1) = >>=-eq-ok (validate_content op.content) _ h in
    let (_, new, h2) = >>=-eq-ok (require (not (elem op.id seen)) _) _ h1 in
    let n = require-eq-ok _ _ new in
    ground (arith, check_ops-Unseen (op.id ∷ seen) ops h2 j, elem-cons j op.id seen, eq_iff j op.id)

pub get-apply_ops :
    (now : ℤ) (seen : List Text) (ops : List UpdateOp) (ts : Tasks) (j : Text)
    → check_ops seen ops ≡ ok tt
    → get j (apply_ops now ops ts) ≡ updated_view now ops ts j
unfolding check_ops apply_ops updated_view op_for
get-apply_ops now seen [] ts j h = refl
get-apply_ops now seen (op ∷ ops) ts j h =
    let (_, _, h1) = >>=-eq-ok (validate_content op.content) _ h in
    let (_, _, h2) = >>=-eq-ok (require (not (elem op.id seen)) _) _ h1 in
    let t = updated_task now op (task_at ts op.id) in
    let later = check_ops-Unseen (op.id ∷ seen) ops h2 in
    get-apply_ops now (op.id ∷ seen) ops (put op.id t ts) j h2
    ∙ ground (
      arith,
      get-put op.id j t ts,
      task_at-put op.id j t ts,
      eq_iff j op.id,
      later j,
      elem-cons j op.id seen,
    )

-- No conflict: every op names the version that its task has.
current :
    (ts : Tasks) (ops : List UpdateOp) (j : Text) (op : UpdateOp)
    → conflicts ts ops ≡ []
    → op_for j ops ≡ some op
    → (task_at ts j).meta.version ≡ op.expected_version
unfolding conflicts op_for
current ts [] j op h e = absurd (ground arith)
current ts (o ∷ ops) j op h e = elim (Bool-cases (j == o.id)) [
  | inl same ↦ ground (arith, eq_iff j o.id)
  | inr other ↦ current ts ops j op (ground arith) (ground arith)
]

pub updated_version :
    (now : ℤ) (op : UpdateOp) (t : Task)
    → (updated_task now op t).meta.version ≡ inc64 t.meta.version
unfolding updated_task apply_completion
updated_version now op t = ground arith

module _ (env : Env) (ops : List UpdateOp) (st : Store) (answers : List Task) (v : ℕ) (st' : Store)
    (h : update env ops st ≡ (ok (answers, v), st')) where
  abbrev answer : State → List Task × ℕ
  answer s = (updated_tasks s.tasks ops, s.state_version)

  returned : Returned env (update_candidate env ops st.state) answer (answers, v) st'
  unfolding update
  returned =
      commit_result-Returned env (update_candidate env ops st.state) answer st (answers, v) st' h

  made : Updated env ops st.state returned.cand
  made = update_candidate-Updated env ops st.state returned.cand returned.made

  tasks-update : st'.state.tasks ≡ apply_ops env.now ops st.state.tasks
  tasks-update =
      ap (λ (s : Store). s.state.tasks) returned.store ∙ ap (λ (s : State). s.tasks) made.result

  get-update : (j : Text) → get j st'.state.tasks ≡ updated_view env.now ops st.state.tasks j
  get-update j =
      ap (get j) tasks-update ∙ get-apply_ops env.now [] ops st.state.tasks j made.checked

  -- Each op of a batch that returns named the version that its task had.
  pub update-current :
      (j : Text) (op : UpdateOp)
      → op_for j ops ≡ some op
      → (task_at st.state.tasks j).meta.version ≡ op.expected_version
  update-current j op e = current st.state.tasks ops j op made.unconflicted e

  -- No update is lost: once a batch has changed a task, an update of it with valid content that still
  -- expects the version from before (below 2 ^ 64) is refused with the task as it now is, and changes
  -- nothing.
  pub update-stale :
      (env' : Env) (op later : UpdateOp)
      → op_for later.id ops ≡ some op
      → later.expected_version ≡ op.expected_version
      → op.expected_version < 2 ^ 64
      → validate_content later.content ≡ ok tt
      → update env' (later ∷ []) st' ≡ (err (conflict (task_at st'.state.tasks later.id ∷ [])), st')
  unfolding update update_candidate check_ops check_existence conflicts
  update-stale env' op later e same small good =
      let now_there = get-update later.id ∙ named in
      rw
        (
          good,
          has-get st'.state.tasks later.id _ now_there,
          moved (task_at-get st'.state.tasks later.id _ now_there),
        )
        (unfold elem commit_result in refl)
    where
      t : Task
      t = task_at st.state.tasks later.id

      named : updated_view env.now ops st.state.tasks later.id ≡ some (updated_task env.now op t)
      named = unfold updated_view in (ground arith)

      moved :
          task_at st'.state.tasks later.id ≡ updated_task env.now op t
          → eqb (task_at st'.state.tasks later.id).meta.version later.expected_version ≡ false
      moved q = ground (
        arith,
        q,
        updated_version env.now op t,
        update-current later.id op e,
        same,
        inc64-ne op.expected_version small,
      )
