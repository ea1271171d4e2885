-- ===== src/Server/Validate/Graph.antt =====
-- The containment graph of a state: what a forest is.
use seshat_tasks.Prelude.{
  Text, elem, Distinct, keys, get, List, [], ◌∷◌, ◌++◌, ◌≡◌, true, arith, Option-cases, inl, inr,
  elem-keys-get, get-elem-keys,
}
use seshat_tasks.Task.{Tasks, task_at, has, Edge}

-- `c` stands somewhere under `p`.
pub data Below (ts : Tasks) (p : Text) : Text → Type 0 where
  child : {c : Text} → Edge ts p c → Below ts p c
  deeper : {q c : Text} → Below ts p q → Edge ts q c → Below ts p c

-- The child lists of all entries, one after the other.
abbrev pub all_children : Tasks → List Text
all_children [] = []
all_children ((k, t) ∷ rest) = t.content.child_ids ++ all_children rest

-- Every id occurs at most once among all child lists, is a task, and never stands under itself.
pub record IsForest (ts : Tasks) : Type 0 where
  pub single : Distinct (all_children ts)
  pub known : (p c : Text) → Edge ts p c → has ts c ≡ true
  pub acyclic : (x : Text) → Below ts x x → ⊥

-- A step down first, then the rest.
pub Below-first : {ts : Tasks} {p c : Text} → Below ts p c → (q : Text) × Edge ts p q
Below-first {c = c} (child e) = (c, e)
Below-first (deeper b e) = Below-first b

-- Only tasks have children.
pub has-parent : (ts : Tasks) (p c : Text) → Edge ts p c → has ts p ≡ true
unfolding task_at has elem
has-parent ts p c e = ground arith

pub has-keys : (ts : Tasks) (p : Text) → has ts p ≡ true → elem p (keys ts) ≡ true
unfolding has
has-keys ts p h = elim (Option-cases (get p ts)) [
  | inl e ↦ absurd (ground arith)
  | inr (t, e) ↦ elem-keys-get p t ts e
]

pub keys-has : (ts : Tasks) (p : Text) → elem p (keys ts) ≡ true → has ts p ≡ true
unfolding has
keys-has ts p h = let (t, e) = get-elem-keys p ts h in rw (e, has)
