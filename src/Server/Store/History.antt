-- ===== src/Server/Store/History.antt =====
-- What becomes of one task in server/store.go while calls of other clients come.
use seshat_tasks.Prelude.{
  ℕ, suc, ◌+◌, ◌≤◌, ◌<◌, ◌^◌, Text, ◌==◌, eq_iff, elem, get, put, get-put, Option, none, some, List,
  [], ◌∷◌, ◌≡◌, ◌≢◌, refl, ◌∙◌, ◌⊎◌, inl, inr, Bool-cases, Option-cases, arith,
}
use seshat_tasks.Prelude.Int.{inc64}
use seshat_tasks.Task.{Task, Tasks, State, AddRequest, UpdateOp, has}
use seshat_tasks.Server.Error.{Result, ok}
use seshat_tasks.Server.Content.{insert_at}
use seshat_tasks.Server.Store.{
  Env, Store, with_children, new_task, place, check_existence, add_candidate, update_candidate,
  delete_candidate, add, update, delete, commit_result,
}
use seshat_tasks.Server.Store.Commit.{commit_result-cases}
use seshat_tasks.Server.Store.Candidate.{
  Linked, add_candidate-Added, Updated, update_candidate-Updated, Deleted, delete_candidate-Deleted,
}
use seshat_tasks.Server.Store.Sound.{IsSound}
use seshat_tasks.Server.Store.Delete.{task_at-get, unlinked, kept, get-left}
use seshat_tasks.Server.Store.Update.{op_for, updated_view, updated_version, get-apply_ops}
use seshat_tasks.Server.Store.Calls.{Call, adds, updates, deletes, env_of, after}

-- One call later a task is gone, or the same, or has its version counted up; what is gone stays gone.
abbrev pub Next : Option Task → Option Task → Type 0
Next none o = o ≡ none
Next (some t) none = Unit {0}
Next (some t) (some t') = (t' ≡ t) ⊎ (t'.meta.version ≡ inc64 t.meta.version)

pub Next-refl : (o : Option Task) → Next o o
Next-refl none = refl
Next-refl (some t) = inl refl

counted_up :
    (env : Env) (ids : List Text) (t : Task)
    → (with_children env.now ids t).meta.version ≡ inc64 t.meta.version
unfolding with_children
counted_up env ids t = refl

get-Linked :
    (env : Env) (req : AddRequest) (ts tasks : Tasks) (t : Task) (id : Text)
    → env.new_id ≢ id
    → Linked env req (put env.new_id t ts) tasks
    → Next (get id ts) (get id tasks)
get-Linked env req ts tasks t id other (inl (root, e)) = rw (e, old) (Next-refl (get id ts))
  where
    old : get id (put env.new_id t ts) ≡ get id ts
    old = ground (arith, get-put env.new_id id t ts, eq_iff id env.new_id)
get-Linked env req ts tasks t id other (inr (pid, p, e, g, r)) = elim (Bool-cases (id == pid)) [
  | inl same ↦
      let here : get id ts ≡ some p =
        ground (arith, get-put env.new_id id t ts, eq_iff id env.new_id, eq_iff id pid) in
      rw (r, here, get-put pid id _ (put env.new_id t ts), same) (inr (counted_up env _ p))
  | inr ne ↦
      let kept : get id tasks ≡ get id ts = rw r (
        ground (
          arith,
          get-put pid id
              (with_children env.now
                (insert_at p.content.child_ids (place req.position p.content.child_ids) env.new_id)
                p)
              (put env.new_id t ts),
          get-put env.new_id id t ts,
          eq_iff id env.new_id,
        )) in
      rw kept (Next-refl (get id ts))
]

named_exist :
    (ts : Tasks) (ops : List UpdateOp) (j : Text) (op : UpdateOp)
    → check_existence ts ops ≡ ok tt
    → op_for j ops ≡ some op
    → get j ts ≢ none
unfolding check_existence op_for has
named_exist ts [] j op h e = absurd (ground arith)
named_exist ts (o ∷ ops) j op h e = ground (arith, eq_iff j o.id, named_exist ts ops j op)

Updated-Next :
    (env : Env) (ops : List UpdateOp) (s cand : State) (id : Text)
    → Updated env ops s cand
    → Next (get id s.tasks) (get id cand.tasks)
unfolding updated_view
Updated-Next env ops s cand id u =
    rw (u.result, get-apply_ops env.now [] ops s.tasks id u.checked)
      (elim (Option-cases (op_for id ops)) [
        | inl absent ↦ rw (absent, updated_view) (Next-refl (get id s.tasks))
        | inr (op, named) ↦ elim (Option-cases (get id s.tasks)) [
          | inl gone ↦ absurd (named_exist s.tasks ops id op u.existing named gone)
          | inr (t, there) ↦
              rw (named, updated_view, there, task_at-get s.tasks id t there)
                (inr (updated_version env.now op t))
        ]
      ])

unlinked_version : (env : Env) (gone : Text) (t : Task) → Next (some t) (some (unlinked env gone t))
unfolding unlinked
unlinked_version env gone t = elim (Bool-cases (elem gone t.content.child_ids)) [
  | inl listed ↦ rw listed (inr (counted_up env _ t))
  | inr other ↦ rw other (inl refl)
]

Deleted-Next :
    (env : Env) (gone : Text) (st : Store) (cand : State) (id : Text)
    → IsSound st
    → Deleted env gone st cand
    → Next (get id st.state.tasks) (get id cand.tasks)
unfolding kept
Deleted-Next env gone st cand id sound d =
    rw (d.result, get-left env gone st sound id)
      (elim (Bool-cases (id == gone)) [
        | inl same ↦ elim (Option-cases (get id st.state.tasks)) [
          | inl absent ↦ rw (same, absent) refl
          | inr (t, there) ↦ rw (same, there) tt
        ]
        | inr other ↦ elim (Option-cases (get id st.state.tasks)) [
          | inl absent ↦ rw (other, absent) refl
          | inr (t, there) ↦ rw (other, there) (unlinked_version env gone t)
        ]
      ])

commit_result-Next :
    {A : Type 0} (env : Env) (r : Result State) (answer : State → A) (st : Store) (id : Text)
    → ((cand : State) → r ≡ ok cand → Next (get id st.state.tasks) (get id cand.tasks))
    → Next (get id st.state.tasks) (get id (commit_result env r answer st).1.state.tasks)
commit_result-Next env r answer st id made = elim (commit_result-cases env r answer st) [
  | inl w ↦ rw (w.replied) (made w.cand w.made)
  | inr (_, e) ↦ rw e (Next-refl (get id st.state.tasks))
]

-- One call over a sound store, that makes no new task of this id.
pub after-Next :
    (call : Call) (st : Store) (id : Text)
    → IsSound st
    → (env_of call).new_id ≢ id
    → Next (get id st.state.tasks) (get id (after call st).state.tasks)
unfolding after add update delete
after-Next (adds env req) st id sound other =
    commit_result-Next env (add_candidate env req st.state) _ st id λ cand e.
      let a = add_candidate-Added env req st.state cand e in
      rw a.result
        (get-Linked env req st.state.tasks a.tasks (new_task env req.content) id other a.linked)
after-Next (updates env ops) st id sound other =
    commit_result-Next env (update_candidate env ops st.state) _ st id λ cand e.
      Updated-Next env ops st.state cand id (update_candidate-Updated env ops st.state cand e)
after-Next (deletes env gone) st id sound other =
    commit_result-Next env (delete_candidate env gone st) _ st id
      λ cand e. Deleted-Next env gone st cand id sound (delete_candidate-Deleted env gone st cand e)

-- At most `n` calls later a task is gone, or the same, or has a later version.
abbrev pub Later : ℕ → Task → Option Task → Type 0
Later n t none = Unit {0}
Later n t (some t') =
    (t' ≡ t) ⊎ ((t.meta.version < t'.meta.version) × (t'.meta.version ≤ t.meta.version + n))

pub Later-refl : (n : ℕ) (t : Task) → Later n t (some t)
Later-refl n t = inl refl

inc64_small : (v : ℕ) → v + 1 < 2 ^ 64 → inc64 v ≡ v + 1
unfolding inc64
inc64_small v h = ground arith

-- While versions stay below 2 ^ 64, the calls add up.
pub Later-Next :
    (n : ℕ) (t : Task) (o o' : Option Task)
    → t.meta.version + suc n < 2 ^ 64
    → Later n t o
    → Next o o'
    → Later (suc n) t o'
Later-Next n t none none small l x = tt
Later-Next n t none (some t') small l x = absurd (cc x)
Later-Next n t (some u) none small l x = tt
Later-Next n t (some u) (some t') small (inl same) (inl still) = inl (still ∙ same)
Later-Next n t (some u) (some t') small (inl same) (inr up) =
    inr (ground (arith, inc64_small t.meta.version, same, up))
Later-Next n t (some u) (some t') small (inr l) (inl still) = inr (ground arith)
Later-Next n t (some u) (some t') small (inr l) (inr up) =
    inr (omega (arith, inc64_small u.meta.version, up, l.0, l.1))
