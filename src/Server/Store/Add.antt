-- ===== src/Server/Store/Add.antt =====
-- `Add`: what it leaves, and that with a fresh id it never breaks the forest.
use mathlib.Core.Option
use seshat_tasks.Prelude.{
  ℕ, Text, ◌==◌, eq_iff, eq_refl, length, take, drop, get, put, get-put, Bool, true, false, Option,
  none, some, ◌∷◌, ◌++◌, if◌then◌else◌, ◌≡◌, ◌≢◌, ap, ◌∙◌, arith, Bool-cases, inl, inr, ◌⊎◌,
}
use seshat_tasks.Prelude.Int.{inc64}
use seshat_tasks.Task.{Task, Tasks, State, AddRequest, task_at, has}
use seshat_tasks.Server.Error.{ok}
use seshat_tasks.Server.Content.{insert_at}
use seshat_tasks.Server.Store.{Env, Store, new_task, with_children, place, add_candidate, add}
use seshat_tasks.Server.Store.Commit.{commit_result-Returned}
use seshat_tasks.Server.Store.Candidate.{Linked, add_candidate-Added}
use seshat_tasks.Server.Store.Sound.{IsSound}
use seshat_tasks.Server.Store.Lists.{insert_at-take-drop, place-le-length}
use seshat_tasks.Server.Store.Written.{
  first_task, relisted, asked_place, new_task-first_task, with_children-relisted, place-asked_place,
}
use seshat_tasks.Server.Store.Delete.{task_at-get}

module _ (env : Env) (req : AddRequest) where
  -- The parent with the new id in its child list, at the place asked for.
  pub extended : Task → Task
  extended p =
      let ids = p.content.child_ids in
      let i = asked_place req.position (length ids) in
      relisted env.now (take i ids ++ (env.new_id ∷ drop i ids)) p

  pub names_parent : Text → Bool
  names_parent j = elim req.parent_id [ none ↦ false | some pid ↦ j == pid ]

  -- What a read of a key gives after the add.
  pub added_view : Tasks → Text → Option Task
  added_view ts j =
      if j == env.new_id
      then some (first_task env req.content)
      else if names_parent j
      then Option.map extended (get j ts)
      else get j ts

  insert-extended :
      (p : Task)
      → with_children env.now
          (insert_at p.content.child_ids (place req.position p.content.child_ids) env.new_id)
          p
        ≡ extended p
  unfolding extended
  insert-extended p =
      let ids = p.content.child_ids in
      with_children-relisted env.now (insert_at ids (place req.position ids) env.new_id) p
      ∙ ap (λ l. relisted env.now l p)
          (insert_at-take-drop ids (place req.position ids) env.new_id
            (place-le-length req.position ids))
      ∙ ap (λ i. relisted env.now (take i ids ++ (env.new_id ∷ drop i ids)) p)
          (place-asked_place req.position ids)

module _ (env : Env) (req : AddRequest) (st : Store) (sound : IsSound st)
    (fresh : has st.state.tasks env.new_id ≡ false)
    (unguessed : req.parent_id ≢ some env.new_id) where
  abbrev ts : Tasks
  ts = st.state.tasks

  abbrev made : Task
  made = new_task env req.content

  abbrev answer : State → Task × ℕ
  answer s = (task_at s.tasks env.new_id, s.state_version)

  -- The parent is an old task.
  old_parent :
      (pid : Text) (p : Task)
      → req.parent_id ≡ some pid
      → get pid (put env.new_id made ts) ≡ some p
      → ((pid == env.new_id) ≡ false) × (get pid ts ≡ some p)
  old_parent pid p e g =
      let other : (pid == env.new_id) ≡ false = ne (Bool-cases (pid == env.new_id)) in
      (other, ground (arith, get-put env.new_id pid made ts))
    where
      ne :
          ((pid == env.new_id) ≡ true) ⊎ ((pid == env.new_id) ≡ false) → (pid == env.new_id) ≡ false
      ne (inr n) = n
      ne (inl y) = absurd (unguessed (e ∙ ap (some) ((eq_iff pid env.new_id).0 y)))

  get-Linked :
      (m : Tasks)
      → Linked env req (put env.new_id made ts) m
      → (j : Text) → get j m ≡ added_view env req ts j
  unfolding added_view names_parent
  get-Linked m (inl (root, e)) j =
      rw (e, root)
        (ground (arith, get-put env.new_id j made ts, new_task-first_task env req.content))
  get-Linked m (inr (pid, p, e, g, r)) j =
      let (other, old) = old_parent pid p e g in
      let q =
        with_children env.now
          (insert_at p.content.child_ids (place req.position p.content.child_ids) env.new_id) p in
      rw (r, e)
        (ground (
          arith,
          get-put pid j q (put env.new_id made ts),
          get-put env.new_id j made ts,
          eq_iff j pid,
          eq_iff j env.new_id,
          eq_iff pid env.new_id,
          insert-extended env req p,
          old,
          other,
          new_task-first_task env req.content,
        ))

  -- Over a sound store, with a fresh id that the request does not name as the parent, after an add
  -- that returns: the new task stands under its id with the content asked for, no children, version
  -- 1, the time of the add as that of its creation and last change, and as completion time if its
  -- status is done or cancelled; the answer is this task and the state version one higher. Its parent
  -- (if any) lists it at the position asked for (at the end if none is given or it is past the end,
  -- at the start if it is negative) among its children in their order, with a version one higher
  -- (modulo 2 ^ 64) and the time of the add as that of its last change; every other task is as before,
  -- and the file holds the state.
  pub add-view :
      (t : Task) (v : ℕ) (st' : Store)
      → add env req st ≡ (ok (t, v), st')
      → (t ≡ first_task env req.content)
        × (v ≡ inc64 st.state.state_version)
        × (st'.file ≡ st'.state)
        × ((j : Text) → get j st'.state.tasks ≡ added_view env req st.state.tasks j)
  unfolding add
  add-view t v st' h =
      let r = commit_result-Returned env (add_candidate env req st.state) answer st (t, v) st' h in
      let a = add_candidate-Added env req st.state r.cand r.made in
      let view =
        λ (j : Text). ap (λ (s : State). get j s.tasks) a.result ∙ get-Linked a.tasks a.linked j in
      (
        ap (λ (x : Task × ℕ). x.0) r.value
            ∙ task_at-get r.cand.tasks env.new_id (first_task env req.content)
                (view env.new_id ∙ mine),
        ap (λ (x : Task × ℕ). x.1) r.value ∙ ap (λ (s : State). inc64 s.state_version) a.result,
        cc (r.store),
        λ j. ap (λ (s : Store). get j s.state.tasks) r.store ∙ view j,
      )
    where
      mine : added_view env req ts env.new_id ≡ some (first_task env req.content)
      mine = unfold added_view in (rw eq_refl)
