-- ===== src/Bot/View/Rank.antt =====
-- Ranking by `LessRoots`: two tasks go into a ranked list in any order.
use mathlib.Core.List.{Permᴰ}
use seshat_tasks.Prelude.{
  Text, ◌==◌, eq_iff, elem, Bool, false, List, [], ◌∷◌, ◌≡◌, refl, ◌∙◌, arith, Distinct,
}
use seshat_tasks.Prelude.Int.{ℤ}
use seshat_tasks.Task.{Task}
use seshat_tasks.Bot.View.{Index, less_roots, insert_sorted}
use seshat_tasks.Bot.View.Order.{
  less_roots_irrefl, less_roots_trans, less_roots-total, less_roots-split,
}

abbrev pub ids : List Task → List Text
ids [] = []
ids (t ∷ ts) = t.id ∷ ids ts

elem-perm : (a : Text) {xs ys : List Task} → Permᴰ xs ys → elem a (ids xs) ≡ elem a (ids ys)
unfolding elem
elem-perm a Permᴰ.nil = refl
elem-perm a (Permᴰ.cons {l₁ = xs} {l₂ = ys} e p) = ground (arith, e, elem-perm a p)
elem-perm a (Permᴰ.swap e f) = ground (arith, e, f)
elem-perm a (Permᴰ.trans p q) = elem-perm a p ∙ elem-perm a q

pub Distinct-perm : {xs ys : List Task} → Permᴰ xs ys → Distinct (ids xs) → Distinct (ids ys)
unfolding elem
Distinct-perm Permᴰ.nil d = tt
Distinct-perm (Permᴰ.cons {a = a} {b = b} {l₁ = xs} {l₂ = ys} e p) d =
    (ground (arith, d.0, e, elem-perm a.id p), Distinct-perm p d.1)
Distinct-perm (Permᴰ.swap {a = a} {b = b} {a' = c} {b' = g} {l = l} e f) d = (
  ground (arith, d.0, d.1.0, e, f, eq_iff a.id b.id, eq_iff b.id a.id),
  (ground (arith, d.0, e), d.1.1),
)
Distinct-perm (Permᴰ.trans p q) d = Distinct-perm q (Distinct-perm p d)

module _ (ix : Index) (now : ℤ) where
  abbrev pub before : Task → Task → Bool
  before a b = less_roots a b ix now

  pub insert-insert :
      (a b : Task) (l : List Task)
      → (a.id == b.id) ≡ false
      → insert_sorted before a (insert_sorted before b l)
        ≡ insert_sorted before b (insert_sorted before a l)
  unfolding insert_sorted
  insert-insert a b [] n = ground (
    arith,
    less_roots-total ix now a b n,
    less_roots_trans ix now a b a,
    less_roots_irrefl ix now a,
  )
  insert-insert a b (x ∷ l) n = ground (
    arith,
    insert-insert a b l n,
    less_roots-total ix now a b n,
    less_roots_trans ix now a b a,
    less_roots_irrefl ix now a,
    less_roots-split ix now x a b,
    less_roots-split ix now x b a,
  )
