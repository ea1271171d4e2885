-- ===== src/Bot/View/Agree.antt =====
-- Two indexes of client/bot/view.go that answer alike give the same listing.
use seshat_tasks.Prelude.{
  ℕ, zero, suc, Text, elem, Bool, true, false, Option-cases, inl, inr, none, some, List, [], ◌∷◌,
  ltb, if◌then◌else◌, ◌≡◌, refl, ap, ◌∙◌, arith, ◌++◌, ◌+◌,
}
use seshat_tasks.Prelude.Int.{ℤ}
use seshat_tasks.Task.{Task}
use seshat_tasks.Bot.View.{
  Index, get_task, is_root, Walked, walk_children, walk, urgency, enough_fuel, subtree_max_urgency,
  less_roots, sort_stable, rank_roots, Group, any_child_open, subtree_has_open, is_open,
  expand_children, expand, has_open, group_of, select_roots, groups_of, list_groups,
}

-- The same answers, and as many tasks.
pub record Agree (ix ix' : Index) : Type 0 where
  pub gets : (id : Text) → get_task ix id ≡ get_task ix' id
  pub roots : (id : Text) → is_root ix id ≡ is_root ix' id
  pub size : enough_fuel ix ≡ enough_fuel ix'

module _ {ix ix' : Index} (same : Agree ix ix') where
  walk_children-same :
      (f : Task → List Text → Walked ℕ) (cids seen : List Text) (best : ℕ)
      → walk_children f ix cids seen best ≡ walk_children f ix' cids seen best
  unfolding walk_children
  walk_children-same f [] seen best = refl
  walk_children-same f (cid ∷ cids) seen best = elim (Option-cases (get_task ix cid)) [
    | inl nothing ↦ ground (arith, same.gets cid, walk_children-same f cids seen best)
    | inr (child, there) ↦ elim (Option-cases (f child seen)) [
      | inl stuck ↦ ground (arith, same.gets cid)
      | inr ((seen', u), walked) ↦
          ground
            (arith, same.gets cid, walk_children-same f cids seen' (if ltb best u then u else best))
    ]
  ]

  walk-same :
      (fuel : ℕ) (now : ℤ) (cur : Task) (seen : List Text)
      → walk fuel ix now cur seen ≡ walk fuel ix' now cur seen
  unfolding walk
  walk-same zero now cur seen = refl
  walk-same (suc fuel) now cur seen =
      ap (λ r. if elem cur.id seen then some (seen, 0) else r)
        (walk_children-same (walk fuel ix now) cur.content.child_ids (cur.id ∷ seen)
            (urgency cur now)
          ∙ ap (λ f. walk_children f ix' cur.content.child_ids (cur.id ∷ seen) (urgency cur now))
              (λ i t s. walk-same fuel now t s i))

  any_child_open-same :
      (f : Task → List Text → Walked Bool) (cids seen : List Text)
      → any_child_open f ix cids seen ≡ any_child_open f ix' cids seen
  unfolding any_child_open
  any_child_open-same f [] seen = refl
  any_child_open-same f (cid ∷ cids) seen = elim (Option-cases (get_task ix cid)) [
    | inl nothing ↦ ground (arith, same.gets cid, any_child_open-same f cids seen)
    | inr (child, there) ↦ elim (Option-cases (f child seen)) [
      | inl stuck ↦ ground (arith, same.gets cid)
      | inr ((seen', below), walked) ↦
          ground (arith, same.gets cid, any_child_open-same f cids seen')
    ]
  ]

  subtree_has_open-same :
      (fuel : ℕ) (t : Task) (seen : List Text)
      → subtree_has_open fuel ix t seen ≡ subtree_has_open fuel ix' t seen
  unfolding subtree_has_open
  subtree_has_open-same zero t seen = refl
  subtree_has_open-same (suc fuel) t seen =
      ap
        (λ r.
          if elem t.id seen
          then some (seen, false)
          else if is_open t
          then some (t.id ∷ seen, true)
          else r)
        (any_child_open-same (subtree_has_open fuel ix) t.content.child_ids (t.id ∷ seen)
          ∙ ap (λ f. any_child_open f ix' t.content.child_ids (t.id ∷ seen))
              (λ i u s. subtree_has_open-same fuel u s i))

  expand_children-same :
      (f : Task → List Text → Group → Walked Group) (cids seen : List Text) (rows : Group)
      → expand_children f ix cids seen rows ≡ expand_children f ix' cids seen rows
  unfolding expand_children
  expand_children-same f [] seen rows = refl
  expand_children-same f (cid ∷ cids) seen rows = elim (Option-cases (get_task ix cid)) [
    | inl nothing ↦ ground (arith, same.gets cid, expand_children-same f cids seen rows)
    | inr (child, there) ↦ elim (Option-cases (f child seen rows)) [
      | inl stuck ↦ ground (arith, same.gets cid)
      | inr ((seen', rows'), walked) ↦
          ground (arith, same.gets cid, expand_children-same f cids seen' rows')
    ]
  ]

  expand-same :
      (fuel depth : ℕ) (t : Task) (seen : List Text) (rows : Group)
      → expand fuel ix depth t seen rows ≡ expand fuel ix' depth t seen rows
  unfolding expand
  expand-same zero depth t seen rows = refl
  expand-same (suc fuel) depth t seen rows =
      let rows' = rows ++ (record { task = t; depth = depth; parent_title = [] } ∷ []) in
      ap (λ r. if elem t.id seen then some (seen, rows) else r)
        (expand_children-same (expand fuel ix (depth + 1)) t.content.child_ids (t.id ∷ seen) rows'
          ∙ ap (λ f. expand_children f ix' t.content.child_ids (t.id ∷ seen) rows')
              (λ i u s out. expand-same fuel (depth + 1) u s out i))

  subtree_max_urgency-same :
      (t : Task) (now : ℤ) → subtree_max_urgency t ix now ≡ subtree_max_urgency t ix' now
  unfolding subtree_max_urgency
  subtree_max_urgency-same t now =
      ap (λ r. elim r [ none ↦ 0 | some (_, best) ↦ best ])
        (walk-same (enough_fuel ix) now t [] ∙ ap (λ n. walk n ix' now t []) same.size)

  less_roots-same : (now : ℤ) (a b : Task) → less_roots a b ix now ≡ less_roots a b ix' now
  unfolding less_roots
  less_roots-same now a b = rw (subtree_max_urgency-same a now, subtree_max_urgency-same b now) refl

  has_open-same : (t : Task) → has_open t ix ≡ has_open t ix'
  unfolding has_open
  has_open-same t =
      ap (λ r. elim r [ none ↦ false | some (_, b) ↦ b ])
        (subtree_has_open-same (enough_fuel ix) t []
          ∙ ap (λ n. subtree_has_open n ix' t []) same.size)

  group_of-same : (t : Task) → group_of ix t ≡ group_of ix' t
  unfolding group_of
  group_of-same t =
      ap (λ r. elim r [ none ↦ [] | some (_, rows) ↦ rows ])
        (expand-same (enough_fuel ix) 0 t [] [] ∙ ap (λ n. expand n ix' 0 t [] []) same.size)

  select_roots-same : (ts : List Task) → select_roots ix ts ≡ select_roots ix' ts
  unfolding select_roots
  select_roots-same [] = refl
  select_roots-same (t ∷ ts) =
      ground (arith, same.roots t.id, has_open-same t, select_roots-same ts)

  groups_of-same : (ts : List Task) → groups_of ix ts ≡ groups_of ix' ts
  unfolding groups_of
  groups_of-same [] = refl
  groups_of-same (t ∷ ts) = cc (group_of-same t, groups_of-same ts)

  pub list_groups-same : (ts : List Task) (now : ℤ) → list_groups ts ix now ≡ list_groups ts ix' now
  unfolding list_groups rank_roots
  list_groups-same ts now =
      ap (λ f. groups_of ix (sort_stable f (select_roots ix ts)))
        (λ i a b. less_roots-same now a b i)
      ∙ ap (λ l. groups_of ix (sort_stable (λ a b. less_roots a b ix' now) l))
          (select_roots-same ts)
      ∙ groups_of-same (sort_stable (λ a b. less_roots a b ix' now) (select_roots ix' ts))
