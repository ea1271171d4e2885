-- ===== src/Bot/View/Scores.antt =====
-- What the walks come to at a task of the bot's index: its score, and whether it is selected.
use seshat_tasks.Prelude.{
  Text, Map, eq_iff, eq_refl, elem, elem-cons, get, put, get-put, keys, some, List, [], ◌∷◌, ◌≡◌,
  arith, Bool-cases, inl, inr,
}
use seshat_tasks.Prelude.Int.{ℤ, pos}
use seshat_tasks.Task.{Task}
use seshat_tasks.Bot.View.{
  Index, walk, enough_fuel, subtree_max_urgency, Group, subtree_has_open, expand, has_open,
  group_of, build_index, index_by_id,
}
use seshat_tasks.Bot.View.Rows.{max_urgency, any_open}
use seshat_tasks.Bot.View.Walks.{IsNamed, Visits, task-Visits}

IsNamed-put :
    (ts : List Task) (m : Map Task)
    → ((k : Text) (t : Task) → get k m ≡ some t → t.id ≡ k)
    → (k : Text) (t : Task) → get k (index_by_id ts m) ≡ some t
    → t.id ≡ k
unfolding index_by_id
IsNamed-put [] m h k t e = h k t e
IsNamed-put (u ∷ ts) m h k t e =
    IsNamed-put ts (put u.id u m)
      (λ j v g. ground (arith, get-put u.id j u m, eq_iff j u.id, h j v)) k t e

-- The index that the bot builds holds every task under its own id.
pub build_index-IsNamed : (tasks : List Task) → IsNamed (build_index tasks)
unfolding build_index get
build_index-IsNamed tasks = IsNamed-put tasks [] (λ k t e. absurd (ground arith))

module _ (ix : Index) (named : IsNamed ix) (t : Task) where
  top :
      (now : ℤ)
      → Visits ix now t.id [] [] 0
          (expand (enough_fuel ix) ix 0 t [] [])
          (walk (enough_fuel ix) ix now t [])
          (subtree_has_open (enough_fuel ix) ix t [])
  top now =
      task-Visits ix now t.id (enough_fuel ix) 0 t [] [] named
        (ground (arith, elem-cons t.id t.id (keys ix.by_id), eq_refl t.id))
        (record { distinct = tt; within = λ a p. absurd (unfold elem in ground arith) })
        (omega arith)

  -- Over an index with every task under its own id (cycles and missing children allowed), the
  -- expansion of a task ends within the fuel that it is given, its rows are the group of the task,
  -- and the score of the task is the largest urgency among them.
  pub subtree_max_urgency-group_of :
      (now : ℤ)
      → (r : List Text × Group) × (expand (enough_fuel ix) ix 0 t [] [] ≡ some r)
        × (group_of ix t ≡ r.1)
        × (subtree_max_urgency t ix now ≡ max_urgency r.1 now)
  unfolding subtree_max_urgency group_of
  subtree_max_urgency-group_of now =
      let v = top now in
      ((v.seen', v.rows), v.expanded, ground (arith, v.expanded), ground (arith, v.walked))

  -- Over an index with every task under its own id (cycles and missing children allowed), the search
  -- for an open task, which stops at the first, succeeds exactly if a row of the group is open.
  pub has_open-group_of : has_open t ix ≡ any_open (group_of ix t)
  unfolding has_open group_of
  has_open-group_of =
      let v = top (pos 0) in
      elim (Bool-cases (any_open v.rows)) [
        | inl y ↦ let (s, q) = v.opened y in ground (arith, q, v.expanded, y)
        | inr n ↦ ground (arith, v.closed n, v.expanded, n)
      ]
