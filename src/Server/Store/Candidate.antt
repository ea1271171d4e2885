-- ===== src/Server/Store/Candidate.antt =====
-- When each write has a candidate, and what it is.
use seshat_tasks.Prelude.{
  Text, length, eqb, ltb, get, put, remove, true, not, none, some, List, [], ◌∷◌, ◌≡◌, refl, sym,
  ◌⊎◌, inl, inr, arith, Option-cases,
}
use seshat_tasks.Task.{Task, Tasks, State, AddRequest, UpdateOp, has}
use seshat_tasks.Server.Error.{ok, require, >>=-eq-ok, require-eq-ok, ok-injective}
use seshat_tasks.Server.Content.{validate_content, insert_at}
use seshat_tasks.Server.Store.{
  Env, Store, new_task, with_children, place, link_parent, add_candidate, check_ops,
  check_existence, conflicts, apply_ops, update_candidate, unlink, delete_candidate,
}

-- The parent of an add: none, or a task that is there, with its new child list.
abbrev pub Linked : Env → AddRequest → Tasks → Tasks → Type 0
Linked env req cand tasks =
    ((req.parent_id ≡ none) × (tasks ≡ cand))
    ⊎ ((pid : Text) × (p : Task) × (req.parent_id ≡ some pid)
        × (get pid cand ≡ some p)
        × (tasks
            ≡ put pid
                (with_children env.now
                  (insert_at p.content.child_ids (place req.position p.content.child_ids)
                    env.new_id)
                  p)
                cand))

link_parent-Linked :
    (env : Env) (req : AddRequest) (cand tasks : Tasks)
    → link_parent env req cand ≡ ok tasks
    → Linked env req cand tasks
unfolding link_parent
link_parent-Linked env req cand tasks h = elim (Option-cases req.parent_id) [
  | inl root ↦ inl (root, ground arith)
  | inr (pid, e) ↦ elim (Option-cases (get pid cand)) [
    | inl gone ↦ absurd (ground arith)
    | inr (p, g) ↦ inr (pid, p, e, g, ground arith)
  ]
]

pub record Added (env : Env) (req : AddRequest) (s cand : State) : Type 0 where
  pub content_ok : validate_content req.content ≡ ok tt
  pub no_children : req.content.child_ids ≡ []
  pub tasks : Tasks
  pub linked : Linked env req (put env.new_id (new_task env req.content) s.tasks) tasks
  pub result : cand ≡ record s { tasks = tasks }

no_length : (xs : List Text) → not (ltb 0 (length xs)) ≡ true → xs ≡ []
no_length [] h = refl
no_length (x ∷ xs) h = absurd (ground arith)

pub add_candidate-Added :
    (env : Env) (req : AddRequest) (s cand : State)
    → add_candidate env req s ≡ ok cand
    → Added env req s cand
unfolding add_candidate
add_candidate-Added env req s cand h =
    let (_, content, h1) = >>=-eq-ok (validate_content req.content) _ h in
    let (_, empty, h2) = >>=-eq-ok (require (not (ltb 0 (length req.content.child_ids))) _) _ h1 in
    let (tasks, linked, h3) =
      >>=-eq-ok (link_parent env req (put env.new_id (new_task env req.content) s.tasks)) _ h2 in
    record {
      content_ok = content;
      no_children = no_length req.content.child_ids (require-eq-ok _ _ empty);
      tasks = tasks;
      linked = link_parent-Linked env req _ tasks linked;
      result = sym (ok-injective h3);
    }

pub record Updated (env : Env) (ops : List UpdateOp) (s cand : State) : Type 0 where
  pub checked : check_ops [] ops ≡ ok tt
  pub existing : check_existence s.tasks ops ≡ ok tt
  pub unconflicted : conflicts s.tasks ops ≡ []
  pub result : cand ≡ record s { tasks = apply_ops env.now ops s.tasks }

no_conflicts : (ts : List Task) → eqb (length ts) 0 ≡ true → ts ≡ []
no_conflicts [] h = refl
no_conflicts (t ∷ ts) h = absurd (ground arith)

pub update_candidate-Updated :
    (env : Env) (ops : List UpdateOp) (s cand : State)
    → update_candidate env ops s ≡ ok cand
    → Updated env ops s cand
unfolding update_candidate
update_candidate-Updated env ops s cand h =
    let (_, checked, h1) = >>=-eq-ok (check_ops [] ops) _ h in
    let (_, existing, h2) = >>=-eq-ok (check_existence s.tasks ops) _ h1 in
    let (_, none_wrong, h3) = >>=-eq-ok (require (eqb (length (conflicts s.tasks ops)) 0) _) _ h2 in
    record {
      checked = checked;
      existing = existing;
      unconflicted = no_conflicts (conflicts s.tasks ops) (require-eq-ok _ _ none_wrong);
      result = sym (ok-injective h3);
    }

pub record Deleted (env : Env) (id : Text) (st : Store) (cand : State) : Type 0 where
  pub existing : has st.state.tasks id ≡ true
  pub result : cand ≡ record st.state { tasks = remove id (unlink env st.parent id st.state.tasks) }

pub delete_candidate-Deleted :
    (env : Env) (id : Text) (st : Store) (cand : State)
    → delete_candidate env id st ≡ ok cand
    → Deleted env id st cand
unfolding delete_candidate
delete_candidate-Deleted env id st cand h =
    let (_, existing, h1) = >>=-eq-ok (require (has st.state.tasks id) _) _ h in
    record { existing = require-eq-ok _ _ existing; result = sym (ok-injective h1) }
