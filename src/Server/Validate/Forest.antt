-- ===== src/Server/Validate/Forest.antt =====
-- What the validation decides: whether the tasks form a forest.
use seshat_tasks.Prelude.{
  suc, Text, lit, ◌==◌, eq_iff, eq_refl, elem, elem-append, true, false, [], ◌∷◌, keys, length, ◌≡◌,
  refl, ◌⊎◌, get, inl, inr, arith, Bool-cases, Distinct, if◌then◌else◌,
}
use seshat_tasks.Task.{Task, Tasks, State, task_at, has, Edge}
use seshat_tasks.Server.Error.{Result, ok, err, violates, InvariantError}
use seshat_tasks.Server.Validate.{check_tasks, visit_all, color_of, validate_state}
use seshat_tasks.Server.Validate.Graph.{
  all_children, IsForest, Below-first, has-parent, has-keys, keys-has,
}
use seshat_tasks.Server.Validate.Search.{Colored, Ordered-acyclic}
use seshat_tasks.Server.Validate.Visit.{Verdict, all_finished, cycle_found, visit_all-Verdict}
use seshat_tasks.Server.Validate.Containers.{check_tasks_verdict, check_tasks_complete}

pub Edge-all_children : (ts : Tasks) (p c : Text) → Edge ts p c → elem c (all_children ts) ≡ true
unfolding task_at get
Edge-all_children [] p c e = unfold elem in absurd (ground arith)
Edge-all_children ((k, t) ∷ ts) p c e =
    ground (arith, elem-append c t.content.child_ids (all_children ts), Edge-all_children ts p c)

pub task_at-cons :
    (k p : Text) (t : Task) (ts : Tasks)
    → task_at ((k, t) ∷ ts) p ≡ (if p == k then t else task_at ts p)
unfolding task_at get
task_at-cons k p t ts = ground arith

-- With every key once, each entry is what a read of its key gives.
pub all_children-Edge :
    (ts : Tasks) (c : Text)
    → Distinct (keys ts)
    → elem c (all_children ts) ≡ true
    → (p : Text) × Edge ts p c
all_children-Edge [] c d m = absurd (unfold elem in ground arith)
all_children-Edge ((k, t) ∷ ts) c d m = elim (Bool-cases (elem c t.content.child_ids)) [
  | inl here ↦ (k, ground (arith, task_at-cons k k t ts, eq_refl k))
  | inr there ↦
      let (p, e) =
        all_children-Edge ts c d.1
          (ground (arith, elem-append c t.content.child_ids (all_children ts))) in
      (p, ground (arith, task_at-cons k p t ts, other p (has-keys ts p (has-parent ts p c e))))
]
  where
    other : (p : Text) → elem p (keys ts) ≡ true → (p == k) ≡ false
    other p m = ground (arith, eq_iff p k, d.0)

start-Colored : (ts : Tasks) → Colored ts [] [] []
unfolding color_of get elem
start-Colored ts = record { agrees = λ x. refl; apart = λ x h. refl; ordered = tt }

-- The result is a pass and `P` holds, or it is a violation and `P` fails.
abbrev pub Decides : Type 0 → Result (Unit {0}) → Type 0
Decides P r = ((r ≡ ok tt) × P) ⊎ ((e : InvariantError) × (r ≡ err (violates e)) × (¬ P))

module _ (ts : Tasks) (d : Distinct (keys ts)) where
  abbrev search : Result (Unit {0})
  search = visit_all (suc (length (keys ts))) ts (keys ts) []

  search-Verdict : ((p c : Text) → Edge ts p c → has ts c ≡ true) → Verdict ts [] (keys ts) search
  search-Verdict known =
      visit_all-Verdict ts known (suc (length (keys ts))) (omega arith) (keys ts) [] []
        (keys-has ts) (start-Colored ts)

  search-Decides :
      Distinct (all_children ts)
      → ((p c : Text) → Edge ts p c → has ts c ≡ true)
      → Verdict ts [] (keys ts) search
      → Decides (IsForest ts) search
  search-Decides single known (all_finished done r o _ all) = inl (
    r,
    record {
      single = single;
      known = known;
      acyclic = λ x b.
          let (c, e) = Below-first b in
          Ordered-acyclic ts x done o (all x (has-keys ts x (has-parent ts x c e))) b;
    },
  )
  search-Decides single known (cycle_found p c r e b) =
      inr (record { invariant = lit "cycle"; ids = p ∷ c ∷ [] }, r, λ f. f.acyclic c b)

  forest-lists : IsForest ts → (e : InvariantError) → check_tasks ts [] ts ≡ err (violates e) → ⊥
  forest-lists f e r = cc (
    r,
    check_tasks_complete ts f.single
        (λ a m. let (p, edge) = all_children-Edge ts a d m in f.known p a edge),
  )

-- Of a state whose tasks have distinct keys: validation passes exactly when its tasks form a
-- forest, and reports a violation on every other state. So its search always ends.
pub validate_state-Decides :
    (s : State) → Distinct (keys s.tasks) → Decides (IsForest s.tasks) (validate_state s)
unfolding validate_state
validate_state-Decides s d = elim (check_tasks_verdict s.tasks) [
  | inr (e, r) ↦ inr (e, rw r, λ f. forest-lists s.tasks d f e r)
  | inl (single, listed, r) ↦
      let known =
        λ (p c : Text) (e : Edge s.tasks p c). listed c (Edge-all_children s.tasks p c e) in
      rw r (search-Decides s.tasks d single known (search-Verdict s.tasks d known))
]

-- What passes is a forest.
pub validate_state-IsForest :
    (s : State) → Distinct (keys s.tasks) → validate_state s ≡ ok tt → IsForest s.tasks
validate_state-IsForest s d h = elim (validate_state-Decides s d) [
  | inl (_, f) ↦ f
  | inr (e, r, _) ↦ absurd (clash h r)
]
  where
    clash :
        {e : InvariantError} → validate_state s ≡ ok tt → validate_state s ≡ err (violates e) → ⊥
    clash p q = cc

-- A forest passes.
pub forest-valid :
    (s : State) → Distinct (keys s.tasks) → IsForest s.tasks → validate_state s ≡ ok tt
forest-valid s d f = elim (validate_state-Decides s d) [
  | inl (v, _) ↦ v
  | inr (_, _, not_forest) ↦ absurd (not_forest f)
]
