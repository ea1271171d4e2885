-- ===== src/Server/Store/Sound.antt =====
-- The invariant of the store, kept by every write.
use seshat_tasks.Prelude.{
  Text, ◌==◌, eq_iff, get, put, remove, get-put, get-remove, put-Distinct, remove-Distinct, true,
  some, List, [], ◌∷◌, ◌≡◌, refl, ◌↔◌, inl, inr, arith, Distinct, keys, All, Option-cases, ◌∙◌,
  ◌||◌,
}
use seshat_tasks.Prelude.Int.{ℤ}
use seshat_tasks.Task.{Task, Tasks, State, AddRequest, UpdateOp, task_at, has, Edge}
use seshat_tasks.Server.Error.{Result, ok, require, >>=-eq-ok, require-eq-ok}
use seshat_tasks.Server.Validate.{validate_state}
use seshat_tasks.Server.Validate.Graph.{IsForest, has-parent}
use seshat_tasks.Server.Validate.Forest.{validate_state-IsForest}
use seshat_tasks.Server.Store.{
  Env, Store, new_task, with_children, add_candidate, add, check_existence, updated_task, apply_ops,
  update_candidate, update, unlink, delete_candidate, delete, commit_result,
}
use seshat_tasks.Server.Store.Index.{Named, rebuild_index-Edge}
use seshat_tasks.Server.Store.Commit.{commit_result-cases, stored}
use seshat_tasks.Server.Store.Candidate.{
  Added, add_candidate-Added, Updated, update_candidate-Updated, Deleted, delete_candidate-Deleted,
}

-- The tasks form a forest, each under its own id, and the index holds exactly their parents.
pub record IsSound (st : Store) : Type 0 where
  pub distinct : Distinct (keys st.state.tasks)
  pub named : Named st.state.tasks
  pub forest : IsForest st.state.tasks
  pub indexed : (c p : Text) → (get c st.parent ≡ some p) ↔ Edge st.state.tasks p c

pub record IsKeyed (ts : Tasks) : Type 0 where
  pub distinct : Distinct (keys ts)
  pub named : Named ts

put-IsKeyed : (k : Text) (t : Task) (ts : Tasks) → t.id ≡ k → IsKeyed ts → IsKeyed (put k t ts)
put-IsKeyed k t ts e h = record {
  distinct = put-Distinct k t ts h.distinct;
  named = λ j u g. ground (arith, get-put k j t ts, eq_iff j k, h.named j u);
}

remove-IsKeyed : (k : Text) (ts : Tasks) → IsKeyed ts → IsKeyed (remove k ts)
remove-IsKeyed k ts h = record {
  distinct = remove-Distinct k ts h.distinct;
  named = λ j u g. ground (arith, get-remove k j ts, h.named j u);
}

pub task_at-Named : (ts : Tasks) (k : Text) → Named ts → has ts k ≡ true → (task_at ts k).id ≡ k
unfolding task_at has
task_at-Named ts k n h = elim (Option-cases (get k ts)) [
  | inl e ↦ absurd (ground arith)
  | inr (t, e) ↦ rw (e, task_at) (n k t e)
]

new_task-id : (env : Env) (req : AddRequest) → (new_task env req.content).id ≡ env.new_id
unfolding new_task
new_task-id env req = refl

with_children-id : (now : ℤ) (ids : List Text) (p : Task) → (with_children now ids p).id ≡ p.id
unfolding with_children
with_children-id now ids p = refl

updated_task-id : (now : ℤ) (op : UpdateOp) (t : Task) → (updated_task now op t).id ≡ t.id
unfolding updated_task
updated_task-id now op t = refl

pub Added-IsKeyed :
    {env : Env} {req : AddRequest} {s cand : State}
    → Added env req s cand
    → IsKeyed s.tasks
    → IsKeyed cand.tasks
Added-IsKeyed {env} {req} {s} a h = rw (a.result) (elim a.linked [
  | inl (_, e) ↦ rw e with_new
  | inr (pid, p, _, g, e) ↦
      rw e (put-IsKeyed pid _ _ (with_children-id env.now _ p ∙ with_new.named pid p g) with_new)
])
  where
    with_new : IsKeyed (put env.new_id (new_task env req.content) s.tasks)
    with_new = put-IsKeyed env.new_id _ s.tasks (new_task-id env req) h

pub check_existence-has :
    (ts : Tasks) (ops : List UpdateOp)
    → check_existence ts ops ≡ ok tt
    → All (λ op. has ts op.id ≡ true) ops
unfolding check_existence
check_existence-has ts [] e = tt
check_existence-has ts (op ∷ ops) e =
    let (_, here, rest) = >>=-eq-ok (require (has ts op.id) _) _ e in
    (require-eq-ok _ _ here, check_existence-has ts ops rest)

pub has-put : (k j : Text) (t : Task) (ts : Tasks) → has (put k t ts) j ≡ (j == k || has ts j)
unfolding has
has-put k j t ts = ground (arith, get-put k j t ts)

All-has-put :
    (k : Text) (t : Task) (ts : Tasks) (ops : List UpdateOp)
    → All (λ op. has ts op.id ≡ true) ops
    → All (λ op. has (put k t ts) op.id ≡ true) ops
All-has-put k t ts [] a = tt
All-has-put k t ts (op ∷ ops) a =
    (ground (arith, has-put k op.id t ts, a.0), All-has-put k t ts ops a.1)

apply_ops-IsKeyed :
    (now : ℤ) (ops : List UpdateOp) (ts : Tasks)
    → All (λ op. has ts op.id ≡ true) ops
    → IsKeyed ts
    → IsKeyed (apply_ops now ops ts)
unfolding apply_ops
apply_ops-IsKeyed now [] ts a h = h
apply_ops-IsKeyed now (op ∷ ops) ts a h =
    let t = updated_task now op (task_at ts op.id) in
    apply_ops-IsKeyed now ops (put op.id t ts) (All-has-put op.id t ts ops a.1) (
      put-IsKeyed op.id t ts
        (updated_task-id now op (task_at ts op.id) ∙ task_at-Named ts op.id h.named a.0) h)

pub Updated-IsKeyed :
    {env : Env} {ops : List UpdateOp} {s cand : State}
    → Updated env ops s cand
    → IsKeyed s.tasks
    → IsKeyed cand.tasks
Updated-IsKeyed {env} {ops} {s} u h =
    rw (u.result)
      (apply_ops-IsKeyed env.now ops s.tasks (check_existence-has s.tasks ops u.existing) h)

pub sound-IsKeyed : {st : Store} → IsSound st → IsKeyed st.state.tasks
sound-IsKeyed h = record { distinct = h.distinct; named = h.named }

unlink-IsKeyed :
    (env : Env) (st : Store) (id : Text)
    → IsSound st
    → IsKeyed (unlink env st.parent id st.state.tasks)
unfolding unlink
unlink-IsKeyed env st id h = elim (Option-cases (get id st.parent)) [
  | inl e ↦ rw (e, unlink) (sound-IsKeyed h)
  | inr (pid, e) ↦
      rw (e, unlink)
        (put-IsKeyed pid _ st.state.tasks
          (with_children-id env.now _ _
            ∙ task_at-Named st.state.tasks pid h.named
                (has-parent st.state.tasks pid id ((h.indexed id pid).0 e)))
          (sound-IsKeyed h))
]

pub Deleted-IsKeyed :
    {env : Env} {id : Text} {st : Store} {cand : State}
    → Deleted env id st cand
    → IsSound st
    → IsKeyed cand.tasks
Deleted-IsKeyed {env} {id} {st} d h =
    rw (d.result) (remove-IsKeyed id _ (unlink-IsKeyed env st id h))

-- A state with every task under its own id that validation passes makes a sound store.
stored-IsSound :
    (cand : State) → IsKeyed cand.tasks → validate_state cand ≡ ok tt → IsSound (stored cand)
stored-IsSound cand k v =
    let f = validate_state-IsForest cand k.distinct v in
    record {
      distinct = k.distinct;
      named = k.named;
      forest = f;
      indexed = λ c p. rebuild_index-Edge cand.tasks c p k.distinct k.named f.single;
    }

commit_result-IsSound :
    {A : Type 0} (env : Env) (r : Result State) (answer : State → A) (st : Store)
    → ((cand : State) → r ≡ ok cand → IsKeyed cand.tasks)
    → IsSound st
    → IsSound (commit_result env r answer st).1
commit_result-IsSound env r answer st keyed h = elim (commit_result-cases env r answer st) [
  | inl w ↦ rw (w.replied) (stored-IsSound w.cand (keyed w.cand w.made) w.valid)
  | inr (e, refused) ↦ rw refused h
]

pub add-IsSound :
    (env : Env) (req : AddRequest) (st : Store) → IsSound st → IsSound (add env req st).1
unfolding add
add-IsSound env req st h =
    commit_result-IsSound env (add_candidate env req st.state) _ st
      (λ cand made.
        Added-IsKeyed (add_candidate-Added env req st.state cand made) (sound-IsKeyed h))
      h

pub update-IsSound :
    (env : Env) (ops : List UpdateOp) (st : Store) → IsSound st → IsSound (update env ops st).1
unfolding update
update-IsSound env ops st h =
    commit_result-IsSound env (update_candidate env ops st.state) _ st
      (λ cand made.
        Updated-IsKeyed (update_candidate-Updated env ops st.state cand made) (sound-IsKeyed h))
      h

pub delete-IsSound :
    (env : Env) (id : Text) (st : Store) → IsSound st → IsSound (delete env id st).1
unfolding delete
delete-IsSound env id st h =
    commit_result-IsSound env (delete_candidate env id st) _ st
      (λ cand made. Deleted-IsKeyed (delete_candidate-Deleted env id st cand made) h) h
