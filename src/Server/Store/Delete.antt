-- ===== src/Server/Store/Delete.antt =====
-- `Delete`: what it leaves, and that it always can.
use seshat_tasks.Prelude.{
  ℕ, Text, ◌==◌, eq_iff, elem, get, remove, get-put, get-remove, true, false, not, ◌&&◌, Option,
  none, some, [], if◌then◌else◌, ◌≡◌, ◌≢◌, refl, ap, sym, subst, ◌∙◌, arith, Distinct, keys,
  Bool-cases, Option-cases, inl, inr,
}
use seshat_tasks.Task.{Task, Tasks, State, task_at, has, children, Edge}
use seshat_tasks.Server.Error.{ok, err, not_found}
use seshat_tasks.Server.Content.{remove_string}
use seshat_tasks.Server.Validate.Graph.{IsForest, has-parent}
use seshat_tasks.Server.Validate.Forest.{forest-valid}
use seshat_tasks.Server.Validate.Parents.{single-OneParent, sub-IsForest}
use seshat_tasks.Server.Store.{
  Env, Store, Reply, with_children, unlink, delete_candidate, delete, commit_result,
}
use seshat_tasks.Server.Store.Commit.{
  saved_or_not, commit_result-valid, Returned, commit_result-Returned,
}
use seshat_tasks.Server.Store.Candidate.{delete_candidate-Deleted}
use seshat_tasks.Server.Store.Sound.{IsSound, IsKeyed, Deleted-IsKeyed, delete-IsSound}
use seshat_tasks.Server.Store.Written.{released, with_children-relisted, remove_string-others}
use seshat_tasks.Server.Store.Lists.{
  elem-remove_string, remove_string-Distinct, remove_string_absent, remove_string-nil,
}

pub task_at-get : (ts : Tasks) (k : Text) (t : Task) → get k ts ≡ some t → task_at ts k ≡ t
unfolding task_at
task_at-get ts k t e = ground arith

pub has-get : (ts : Tasks) (k : Text) (t : Task) → get k ts ≡ some t → has ts k ≡ true
unfolding has
has-get ts k t e = ground arith

has-none : (ts : Tasks) (k : Text) → get k ts ≡ none → has ts k ≡ false
unfolding has
has-none ts k e = ground arith

module _ (env : Env) (id : Text) where
  -- A task after the id is taken out of its child list, where it stands there.
  unfoldable pub unlinked : Task → Task
  unlinked t =
      if elem id t.content.child_ids
      then with_children env.now (remove_string t.content.child_ids id) t
      else t

  -- What a read of the key gives afterwards.
  unfoldable pub kept : Option Task → Option Task
  kept none = none
  kept (some t) = some (unlinked t)

kept-released : (env : Env) (id : Text) (o : Option Task) → kept env id o ≡ released env.now id o
unfolding kept unlinked released
kept-released env id none = refl
kept-released env id (some t) = ground (
  arith,
  with_children-relisted env.now (remove_string t.content.child_ids id) t,
  remove_string-others t.content.child_ids id,
)

module _ (env : Env) (id : Text) (st : Store) (sound : IsSound st) where
  abbrev ts : Tasks
  ts = st.state.tasks

  listed :
      (j : Text) (t : Task)
      → get j ts ≡ some t
      → elem id t.content.child_ids ≡ true
      → get id st.parent ≡ some j
  listed j t e m =
      (sound.indexed id j).1
        (subst (λ (u : Task). elem id u.content.child_ids ≡ true) (sym (task_at-get ts j t e)) m)

  get-unlink-root :
      (j : Text)
      → get id st.parent ≡ none
      → get j (unlink env st.parent id ts) ≡ kept env id (get j ts)
  unfolding unlink kept unlinked
  get-unlink-root j root = elim (Option-cases (get j ts)) [
    | inl e ↦ ground arith
    | inr (t, e) ↦ ground (arith, listed j t e)
  ]

  get-unlink-child :
      (j pid : Text)
      → get id st.parent ≡ some pid
      → get j (unlink env st.parent id ts) ≡ kept env id (get j ts)
  unfolding unlink kept unlinked
  get-unlink-child j pid e = elim (Option-cases (get j ts)) [
    | inl g ↦ ground (
      arith,
      get-put pid j (with_children env.now (remove_string (children ts pid) id) (task_at ts pid))
          ts,
      eq_iff j pid,
      parent_is_task pid e,
    )
    | inr (t, g) ↦ ground (
      arith,
      get-put pid j (with_children env.now (remove_string (children ts pid) id) (task_at ts pid))
          ts,
      eq_iff j pid,
      listed j t g,
      task_at-get ts j t g,
      (sound.indexed id pid).0 e,
    )
  ]
    where
      parent_is_task : (p : Text) → get id st.parent ≡ some p → get p ts ≢ none
      parent_is_task p h n =
          ground (arith, has-parent ts p id ((sound.indexed id p).0 h), has-none ts p n)

  get-unlink : (j : Text) → get j (unlink env st.parent id ts) ≡ kept env id (get j ts)
  get-unlink j = elim (Option-cases (get id st.parent)) [
    | inl root ↦ get-unlink-root j root
    | inr (pid, e) ↦ get-unlink-child j pid e
  ]

  abbrev left : Tasks
  left = remove id (unlink env st.parent id ts)

  pub get-left : (j : Text) → get j left ≡ (if j == id then none else kept env id (get j ts))
  get-left j = ground (arith, get-remove id j (unlink env st.parent id ts), get-unlink j)

  children-unlinked :
      (t : Task) → (unlinked env id t).content.child_ids ≡ remove_string t.content.child_ids id
  unfolding unlinked with_children
  children-unlinked t = ground (arith, remove_string_absent t.content.child_ids id)

  children-left :
      (j : Text) → children left j ≡ (if j == id then [] else remove_string (children ts j) id)
  unfolding task_at kept
  children-left j = elim (Option-cases (get j ts)) [
    | inl g ↦ ground (arith, get-left j, remove_string-nil id)
    | inr (t, g) ↦ ground (arith, get-left j, children-unlinked t)
  ]

  has-left : (j : Text) → has left j ≡ (not (j == id) && has ts j)
  unfolding has kept
  has-left j = ground (arith, get-left j)

  sub-left : (p c : Text) → Edge left p c → Edge ts p c × ((c == id) ≡ false)
  unfolding elem
  sub-left p c e = (
    ground (arith, children-left p, elem-remove_string (children ts p) id c),
    ground (arith, children-left p, elem-remove_string (children ts p) id c),
  )

  left-IsForest : Distinct (keys left) → IsForest left
  left-IsForest d =
      sub-IsForest ts left sound.distinct d sound.forest (λ p c e. (sub-left p c e).0)
        (λ p. rw children-left (once p))
        (λ p c e.
          ground (arith, has-left c, sub-left p c e, sound.forest.known p c (sub-left p c e).0))
    where
      once : (p : Text) → Distinct (if p == id then [] else remove_string (children ts p) id)
      once p = elim (Bool-cases (p == id)) [
        | inl e ↦ rw e tt
        | inr n ↦ rw n (
            remove_string-Distinct (children ts p) id
              ((single-OneParent ts sound.distinct sound.forest.single).once p))
      ]

  left-IsKeyed : has ts id ≡ true → IsKeyed left
  left-IsKeyed h =
      Deleted-IsKeyed {env = env} {cand = record st.state { tasks = left }}
        (record { existing = h; result = refl }) sound

  -- Over a sound store a delete is refused only where the id is no task or the file cannot be
  -- written: taking a task out always leaves a forest.
  pub delete-outcome : delete env id st ≡ (
      if has st.state.tasks id
      then saved_or_not env (record st.state { tasks = left }) (λ s. s.state_version) st
      else (err not_found, st))
  unfolding delete delete_candidate
  delete-outcome = elim (Bool-cases (has st.state.tasks id)) [
    | inr gone ↦ rw gone (unfold commit_result in refl)
    | inl here ↦
        let d = (left-IsKeyed here).distinct in
        rw here (
          commit_result-valid env (record st.state { tasks = left }) (λ s. s.state_version) st
            (forest-valid (record st.state { tasks = left }) d (left-IsForest d)))
  ]

  module _ (v : ℕ) (st' : Store) (h : delete env id st ≡ (ok v, st')) where
    delete-Returned : Returned env (delete_candidate env id st) (λ s. s.state_version) v st'
    unfolding delete
    delete-Returned =
        commit_result-Returned env (delete_candidate env id st) (λ s. s.state_version) st v st' h

    delete-tasks : st'.state.tasks ≡ left
    delete-tasks =
        let r = delete-Returned in
        ap (λ (s : Store). s.state.tasks) r.store
        ∙ ap (λ (s : State). s.tasks) (delete_candidate-Deleted env id st r.cand r.made).result

    -- Over a sound store, after a delete that returns, the id is gone. A task that listed it lists
    -- its other children in their order, with a version one higher (modulo 2 ^ 64) and the time of the
    -- delete as that of its last change, and is otherwise as before; every other task is as before.
    -- The former children of the id are roots, and the file holds the state.
    pub delete-view :
        ((j : Text)
          → get j st'.state.tasks
            ≡ (if j == id then none else released env.now id (get j st.state.tasks)))
        × ((c : Text) → Edge st.state.tasks id c → get c st'.parent ≡ none)
        × (st'.file ≡ st'.state)
    delete-view = (
      λ j.
          ap (get j) delete-tasks
          ∙ get-left j
          ∙ ap (λ o. if j == id then none else o) (kept-released env id (get j ts)),
      λ c e. orphan c e (get c st'.parent) refl,
      cc (delete-Returned.store),
    )
      where
        after : IsSound st'
        after = subst IsSound (ap (λ (r : Reply ℕ). r.1) h) (delete-IsSound env id st sound)

        orphan :
            (c : Text)
            → Edge ts id c
            → (o : Option Text) → get c st'.parent ≡ o
            → get c st'.parent ≡ none
        orphan c e none p = p
        orphan c e (some q) p =
            let edge : Edge left q c =
              subst (λ (m : Tasks). Edge m q c) delete-tasks ((after.indexed c q).0 p) in
            let same : q ≡ id =
              (single-OneParent ts sound.distinct sound.forest.single).unique q id c
                (sub-left q c edge).0 e in
            absurd (gone c q same edge)
          where
            gone : (c q : Text) → q ≡ id → Edge left q c → ⊥
            gone c q same edge = unfold elem in (ground (arith, children-left q, eq_iff q id))
