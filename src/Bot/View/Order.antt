-- ===== src/Bot/View/Order.antt =====
-- `LessRoots` of client/bot/view.go is a strict total order on tasks with distinct ids.
use seshat_tasks.Prelude.{
  ◌==◌, eq_iff, less_irrefl, less_trans, less_total, true, false, ◌≡◌, arith, ◌⊎◌,
}
use seshat_tasks.Prelude.Int.{ℤ}
use seshat_tasks.Task.{Task}
use seshat_tasks.Bot.View.{Index, less_roots}

module _ (ix : Index) (now : ℤ) where
  -- No task comes before itself.
  pub less_roots_irrefl : (a : Task) → less_roots a a ix now ≡ false
  unfolding less_roots
  less_roots_irrefl a = ground (arith, less_irrefl a.id)

  -- For every index and time: what comes before a task that comes before a third comes before the
  -- third. So the order that pages rely on has no cycle, although urgency depends on whole subtrees.
  pub less_roots_trans :
      (a b c : Task)
      → less_roots a b ix now ≡ true
      → less_roots b c ix now ≡ true
      → less_roots a c ix now ≡ true
  unfolding less_roots
  less_roots_trans a b c p q = ground (arith, less_trans a.id b.id c.id)

  -- For every index and time, of two tasks with different ids one comes before the other.
  pub less_roots-total :
      (a b : Task)
      → (a.id == b.id) ≡ false
      → (less_roots a b ix now ≡ true) ⊎ (less_roots b a ix now ≡ true)
  unfolding less_roots
  less_roots-total a b n = ground (arith, less_total a.id b.id, eq_iff a.id b.id)

  -- What comes between in neither direction is tied with one of the two.
  pub less_roots-split :
      (x a b : Task)
      → less_roots x a ix now ≡ true
      → (less_roots x b ix now ≡ true) ⊎ (less_roots b a ix now ≡ true)
  unfolding less_roots
  less_roots-split x a b p = ground (
    arith,
    less_total x.id b.id,
    less_total b.id a.id,
    less_trans x.id a.id b.id,
    less_trans b.id x.id a.id,
  )
