-- ===== src/Server/Store/Completion.antt =====
-- `completed_at` is set exactly on the tasks whose status is terminal.
use seshat_tasks.Prelude.{
  Text, ◌==◌, get, put, remove, get-put, get-remove, Bool, true, false, Option, none, some, List,
  [], ◌∷◌, ◌≡◌, refl, subst, arith, Bool-cases, Option-cases, inl, inr, lit,
}
use seshat_tasks.Prelude.Int.{ℤ}
use seshat_tasks.Task.{
  status_todo, Content, Task, Tasks, State, AddRequest, UpdateOp, terminal, task_at, empty_task,
}
use seshat_tasks.Server.Error.{Result, ok}
use seshat_tasks.Server.Content.{apply_completion}
use seshat_tasks.Server.Store.{
  Env, Store, new_task, with_children, updated_task, apply_ops, unlink, add, update, delete,
  add_candidate, update_candidate, delete_candidate, commit_result,
}
use seshat_tasks.Server.Store.Commit.{commit_result-cases}
use seshat_tasks.Server.Store.Candidate.{
  Added, add_candidate-Added, update_candidate-Updated, delete_candidate-Deleted,
}
use seshat_tasks.Server.Store.Calls.{Call, adds, updates, deletes, after, run}

abbrev is_set : Option ℤ → Bool
is_set none = false
is_set (some t) = true

-- A task is completed at some time exactly if its status is terminal.
abbrev pub Agrees : Task → Type 0
Agrees t = is_set t.meta.completed_at ≡ terminal t.content.status

abbrev pub AllAgree : Tasks → Type 0
AllAgree ts = (k : Text) (t : Task) → get k ts ≡ some t → Agrees t

terminal-todo : terminal status_todo ≡ false
unfolding terminal lit ◌==◌
terminal-todo = refl

new_task-Agrees : (env : Env) (c : Content) → Agrees (new_task env c)
unfolding new_task apply_completion
new_task-Agrees env c = ground (arith, terminal-todo)

with_children-Agrees :
    (now : ℤ) (ids : List Text) (t : Task) → Agrees t → Agrees (with_children now ids t)
unfolding with_children
with_children-Agrees now ids t h = h

updated_task-Agrees :
    (now : ℤ) (op : UpdateOp) (t : Task) → Agrees t → Agrees (updated_task now op t)
unfolding updated_task apply_completion
updated_task-Agrees now op t h = ground arith

empty_task-Agrees : Agrees empty_task
unfolding terminal lit ◌==◌
empty_task-Agrees = refl

task_at-Agrees : (ts : Tasks) (k : Text) → AllAgree ts → Agrees (task_at ts k)
unfolding task_at
task_at-Agrees ts k h = elim (Option-cases (get k ts)) [
  | inl e ↦ rw (e, task_at) empty_task-Agrees
  | inr (t, e) ↦ rw (e, task_at) (h k t e)
]

put-AllAgree : (k : Text) (t : Task) (ts : Tasks) → Agrees t → AllAgree ts → AllAgree (put k t ts)
put-AllAgree k t ts a h = λ j u e. elim (Bool-cases (j == k)) [
  | inl same ↦ let q : t ≡ u = ground (arith, get-put k j t ts) in subst Agrees q a
  | inr other ↦ h j u (ground (arith, get-put k j t ts))
]

remove-AllAgree : (k : Text) (ts : Tasks) → AllAgree ts → AllAgree (remove k ts)
remove-AllAgree k ts h = λ j u e. h j u (ground (arith, get-remove k j ts))

apply_ops-AllAgree :
    (now : ℤ) (ops : List UpdateOp) (ts : Tasks) → AllAgree ts → AllAgree (apply_ops now ops ts)
unfolding apply_ops
apply_ops-AllAgree now [] ts h = h
apply_ops-AllAgree now (op ∷ ops) ts h =
    let t = updated_task now op (task_at ts op.id) in
    apply_ops-AllAgree now ops (put op.id t ts) (
      put-AllAgree op.id t ts
        (updated_task-Agrees now op (task_at ts op.id) (task_at-Agrees ts op.id h)) h)

Added-AllAgree :
    (env : Env) (req : AddRequest) (s cand : State)
    → Added env req s cand
    → AllAgree s.tasks
    → AllAgree cand.tasks
Added-AllAgree env req s cand a h = rw (a.result) (elim a.linked [
  | inl (_, e) ↦ rw e with_new
  | inr (pid, p, _, g, e) ↦
      rw e (put-AllAgree pid _ _ (with_children-Agrees env.now _ p (with_new pid p g)) with_new)
])
  where
    with_new : AllAgree (put env.new_id (new_task env req.content) s.tasks)
    with_new =
        put-AllAgree env.new_id (new_task env req.content) s.tasks (new_task-Agrees env req.content)
          h

unlink-AllAgree :
    (env : Env) (st : Store) (id : Text)
    → AllAgree st.state.tasks
    → AllAgree (unlink env st.parent id st.state.tasks)
unfolding unlink
unlink-AllAgree env st id h = elim (Option-cases (get id st.parent)) [
  | inl e ↦ rw (e, unlink) h
  | inr (pid, e) ↦
      rw (e, unlink)
        (put-AllAgree pid _ st.state.tasks
          (with_children-Agrees env.now _ (task_at st.state.tasks pid)
            (task_at-Agrees st.state.tasks pid h))
          h)
]

commit_result-AllAgree :
    {A : Type 0} (env : Env) (r : Result State) (answer : State → A) (st : Store)
    → ((cand : State) → r ≡ ok cand → AllAgree cand.tasks)
    → AllAgree st.state.tasks
    → AllAgree (commit_result env r answer st).1.state.tasks
commit_result-AllAgree env r answer st made h = elim (commit_result-cases env r answer st) [
  | inl w ↦ rw (w.replied) (made w.cand w.made)
  | inr (_, e) ↦ rw e h
]

after-AllAgree :
    (call : Call) (st : Store) → AllAgree st.state.tasks → AllAgree (after call st).state.tasks
unfolding after add update delete
after-AllAgree (adds env req) st h =
    commit_result-AllAgree env (add_candidate env req st.state) _ st
      (λ cand e.
        Added-AllAgree env req st.state cand (add_candidate-Added env req st.state cand e) h)
      h
after-AllAgree (updates env ops) st h =
    commit_result-AllAgree env (update_candidate env ops st.state) _ st
      (λ cand e.
        rw ((update_candidate-Updated env ops st.state cand e).result)
          (apply_ops-AllAgree env.now ops st.state.tasks h))
      h
after-AllAgree (deletes env id) st h =
    commit_result-AllAgree env (delete_candidate env id st) _ st
      (λ cand e.
        rw ((delete_candidate-Deleted env id st cand e).result)
          (remove-AllAgree id _ (unlink-AllAgree env st id h)))
      h

-- From a store in which `completed_at` is set on exactly the tasks that are done or cancelled, it
-- stays so, whatever is called and however each write ends.
pub run-AllAgree :
    (calls : List Call) (st : Store) → AllAgree st.state.tasks → AllAgree (run calls st).state.tasks
unfolding run
run-AllAgree [] st h = h
run-AllAgree (call ∷ calls) st h = run-AllAgree calls (after call st) (after-AllAgree call st h)
