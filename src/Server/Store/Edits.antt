-- ===== src/Server/Store/Edits.antt =====
-- An update of server/store.go that leaves the children of a task as they are, as every edit of the
-- bot does.
use seshat_tasks.Prelude.{
  ℕ, Text, eq_iff, eqb_iff, eq_refl, get, put, get-put, none, some, true, List, [], ◌∷◌, ◌≡◌, refl,
  subst, arith, elem, Distinct, keys,
}
use seshat_tasks.Prelude.Int.{inc64}
use seshat_tasks.Task.{Task, Tasks, State, UpdateOp, children, Edge}
use seshat_tasks.Server.Error.{ok}
use seshat_tasks.Server.Content.{validate_content}
use seshat_tasks.Server.Validate.Graph.{IsForest}
use seshat_tasks.Server.Validate.Forest.{forest-valid}
use seshat_tasks.Server.Validate.Parents.{single-OneParent, sub-IsForest}
use seshat_tasks.Server.Store.{
  Env, Store, update, update_candidate, updated_task, updated_tasks, apply_ops, check_ops,
  check_existence, conflicts,
}
use seshat_tasks.Server.Store.Commit.{commit_result-valid, stored}
use seshat_tasks.Server.Store.Candidate.{update_candidate-Updated}
use seshat_tasks.Server.Store.Sound.{IsSound, sound-IsKeyed, Updated-IsKeyed, has-put}
use seshat_tasks.Server.Store.Lists.{task_at-put}
use seshat_tasks.Server.Store.Delete.{task_at-get, has-get}

module _ (env : Env) (op : UpdateOp) (st : Store) (t : Task)
    (there : get op.id st.state.tasks ≡ some t) where
  abbrev ts : Tasks
  ts = st.state.tasks

  abbrev pub changed : Task
  changed = updated_task env.now op t

  abbrev pub edited : State
  edited = record st.state { tasks = put op.id changed ts }

  candidate :
      t.meta.version ≡ op.expected_version
      → validate_content op.content ≡ ok tt
      → update_candidate env (op ∷ []) st.state ≡ ok edited
  unfolding update_candidate check_ops check_existence conflicts apply_ops elem
  candidate current good =
      rw
        (
          good,
          has-get ts op.id t there,
          task_at-get ts op.id t there,
          (eqb_iff t.meta.version op.expected_version).1 current,
        )
        refl

  children-edited :
      op.content.child_ids ≡ t.content.child_ids
      → (j : Text) → children edited.tasks j ≡ children ts j
  unfolding updated_task
  children-edited same j =
      ground (arith, task_at-put op.id j changed ts, eq_iff j op.id, task_at-get ts op.id t there)

  -- The edges stay, and so the forest does.
  edited-IsForest :
      IsSound st
      → Distinct (keys edited.tasks)
      → op.content.child_ids ≡ t.content.child_ids
      → IsForest edited.tasks
  unfolding elem
  edited-IsForest sound d same =
      sub-IsForest ts edited.tasks sound.distinct d sound.forest sub
        (λ p.
          rw (children-edited same p)
            ((single-OneParent ts sound.distinct sound.forest.single).once p))
        (λ p c e. ground (arith, has-put op.id c changed ts, sound.forest.known p c (sub p c e)))
    where
      sub : (p c : Text) → Edge edited.tasks p c → Edge ts p c
      sub p c e = subst (λ ids. elem c ids ≡ true) (children-edited same p) e

  -- An update of a task of a sound store, to valid content with the same children, that expects the
  -- version of now, goes through where the file can be written.
  pub update-edited :
      IsSound st
      → t.meta.version ≡ op.expected_version
      → validate_content op.content ≡ ok tt
      → op.content.child_ids ≡ t.content.child_ids
      → env.save_error ≡ none
      → update env (op ∷ []) st ≡ (ok (changed ∷ [], inc64 st.state.state_version), stored edited)
  unfolding update updated_tasks
  update-edited sound current good same saved =
      let made = candidate current good in
      let keyed =
        Updated-IsKeyed (update_candidate-Updated env (op ∷ []) st.state edited made)
          (sound-IsKeyed sound) in
      rw
        (
          made,
          commit_result-valid {A = List Task × ℕ} env edited
              (λ s. (updated_tasks s.tasks (op ∷ []), s.state_version)) st
              (forest-valid edited keyed.distinct (edited-IsForest sound keyed.distinct same)),
          saved,
        )
        (rw (task_at-put op.id op.id changed ts, eq_refl op.id) refl)

  -- What stands under the id then.
  pub get-edited : get op.id edited.tasks ≡ some changed
  get-edited = ground (arith, get-put op.id op.id changed ts, eq_refl op.id)
