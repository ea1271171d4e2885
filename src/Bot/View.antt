-- ===== src/Bot/View.antt =====
-- client/bot/view.go: the index over the fetched tasks, urgency, ranking, groups and pages. A walk
-- down the tree carries its set of visited ids, and runs on fuel.
pub mod Rows
pub mod Walks
pub mod Scores
pub mod Order
pub mod Rank
pub mod Agree
pub mod Steady
use seshat_tasks.Prelude.{
  ℕ, zero, suc, ◌+◌, ◌-◌, ◌*◌, ◌/◌, ◌≤◌, ◌<◌, Text, Map, ◌==◌, less, elem, get, put, keys, length,
  take, drop, get_elem?, ltb, leb, eqb, Bool, true, false, not, ◌&&◌, ◌||◌, Option, none, some,
  List, [], ◌∷◌, ◌++◌, if◌then◌else◌,
}
use seshat_tasks.Prelude.Int.{ℤ, pos, pos_part, neg_part, sub64, ltb_ℤ, leb_ℤ, eqb_ℤ}
use seshat_tasks.Task.{
  Priority, priority_low, priority_medium, priority_high, Content, Meta, Task, terminal,
}

abbrev pub day : ℕ
day = 86400

abbrev pub week : ℕ
week = 7 * day

pub record Index : Type 0 where
  pub by_id : Map Task
  pub parent : Map Text

unfoldable pub index_by_id : List Task → Map Task → Map Task
index_by_id [] m = m
index_by_id (t ∷ ts) m = index_by_id ts (put t.id t m)

unfoldable pub index_parent : Text → List Text → Map Text → Map Text
index_parent id [] m = m
index_parent id (c ∷ cs) m = index_parent id cs (put c id m)

unfoldable pub index_parents : List Task → Map Text → Map Text
index_parents [] m = m
index_parents (t ∷ ts) m = index_parents ts (index_parent t.id t.content.child_ids m)

unfoldable pub build_index : List Task → Index
build_index tasks = record { by_id = index_by_id tasks []; parent = index_parents tasks [] }

unfoldable pub get_task : Index → Text → Option Task
get_task ix id = get id ix.by_id

unfoldable pub is_root : Index → Text → Bool
is_root ix id = elim (get id ix.parent) [ none ↦ true | some _ ↦ false ]

unfoldable pub parent_of : Index → Text → Option Task
parent_of ix id = elim (get id ix.parent) [ none ↦ none | some pid ↦ get_task ix pid ]

-- The scores are small and never negative, so they are natural numbers.
unfoldable pub priority_weight : Priority → ℕ
priority_weight p =
    if p == priority_low
    then 1
    else if p == priority_medium
    then 3
    else if p == priority_high
    then 5
    else 0

unfoldable pub due_factor : Task → ℤ → ℕ
due_factor t now = elim t.content.due_at [
  | none ↦ 0
  | some due ↦
      let delta = sub64 due now in
      if ltb_ℤ delta (pos 0)
      then 8
      else if leb_ℤ delta (pos day)
      then 6
      else if leb_ℤ delta (pos (3 * day))
      then 4
      else if leb_ℤ delta (pos (7 * day))
      then 2
      else 0
]

unfoldable pub age_factor : Task → ℤ → ℕ
age_factor t now =
    let age = sub64 now t.meta.created_at in
    if leb_ℤ age (pos 0)
    then 0
    else let weeks = pos_part age / week in if ltb 4 weeks then 4 else weeks

unfoldable pub urgency : Task → ℤ → ℕ
urgency t now =
    if terminal t.content.status
    then 0
    else priority_weight t.content.priority + due_factor t now + age_factor t now

-- What a walk has so far: the visited ids, and its result.
abbrev pub Walked : Type 0 → Type 0
Walked A = Option (List Text × A)

-- The loop of `SubtreeMaxUrgency` over the children, with the best so far; `walk` is the closure.
unfoldable pub walk_children :
    (Task → List Text → Walked ℕ) → Index → List Text → List Text → ℕ → Walked ℕ
walk_children walk ix [] seen best = some (seen, best)
walk_children walk ix (cid ∷ cids) seen best =
    let rest = walk_children walk ix cids in
    elim (get_task ix cid) [
      | none ↦ rest seen best
      | some child ↦ elim (walk child seen) [
        | none ↦ none
        | some (seen', u) ↦ rest seen' (if ltb best u then u else best)
      ]
    ]

unfoldable pub walk : ℕ → Index → ℤ → Task → List Text → Walked ℕ
walk zero ix now cur seen = none
walk (suc fuel) ix now cur seen =
    if elem cur.id seen
    then some (seen, 0)
    else walk_children (walk fuel ix now) ix cur.content.child_ids (cur.id ∷ seen) (urgency cur now)

-- A walk nests at most once for each indexed id, once for its root, and once to find an id visited.
abbrev pub enough_fuel : Index → ℕ
enough_fuel ix = length (keys ix.by_id) + 2

unfoldable pub subtree_max_urgency : Task → Index → ℤ → ℕ
subtree_max_urgency t ix now = elim (walk (enough_fuel ix) ix now t []) [
  | none ↦ 0
  | some (_, best) ↦ best
]

unfoldable pub less_roots : Task → Task → Index → ℤ → Bool
less_roots a b ix now =
    let ca = terminal a.content.status in
    let cb = terminal b.content.status in
    let ua = subtree_max_urgency a ix now in
    let ub = subtree_max_urgency b ix now in
    if not (ca && cb || not ca && not cb)
    then not ca
    else if not (eqb ua ub)
    then ltb ub ua
    else if not (eqb_ℤ a.meta.created_at b.meta.created_at)
    then ltb_ℤ a.meta.created_at b.meta.created_at
    else less a.id b.id

-- `sort.SliceStable`: an element goes before the first one that it is not after.
unfoldable pub insert_sorted : (Task → Task → Bool) → Task → List Task → List Task
insert_sorted before t [] = t ∷ []
insert_sorted before t (x ∷ xs) = if before x t then x ∷ insert_sorted before t xs else t ∷ (x ∷ xs)

unfoldable pub sort_stable : (Task → Task → Bool) → List Task → List Task
sort_stable before [] = []
sort_stable before (t ∷ ts) = insert_sorted before t (sort_stable before ts)

unfoldable pub rank_roots : List Task → Index → ℤ → List Task
rank_roots roots ix now = sort_stable (λ a b. less_roots a b ix now) roots

pub record Row : Type 0 where
  pub task : Task
  pub depth : ℕ
  pub parent_title : Text

abbrev pub Group : Type 0
Group = List Row

unfoldable pub is_open : Task → Bool
is_open t = not (terminal t.content.status)

-- The loop of `subtreeHasOpen`, which leaves at the first open subtree.
unfoldable pub any_child_open :
    (Task → List Text → Walked Bool) → Index → List Text → List Text → Walked Bool
any_child_open has_open ix [] seen = some (seen, false)
any_child_open has_open ix (cid ∷ cids) seen =
    let rest = any_child_open has_open ix cids in
    elim (get_task ix cid) [
      | none ↦ rest seen
      | some child ↦ elim (has_open child seen) [
        | none ↦ none
        | some (seen', open_below) ↦ if open_below then some (seen', true) else rest seen'
      ]
    ]

unfoldable pub subtree_has_open : ℕ → Index → Task → List Text → Walked Bool
subtree_has_open zero ix t seen = none
subtree_has_open (suc fuel) ix t seen =
    if elem t.id seen
    then some (seen, false)
    else if is_open t
    then some (t.id ∷ seen, true)
    else any_child_open (subtree_has_open fuel ix) ix t.content.child_ids (t.id ∷ seen)

-- `expand` appends its rows to `out`.
unfoldable pub expand_children :
    (Task → List Text → Group → Walked Group) → Index → List Text → List Text → Group → Walked Group
expand_children expand ix [] seen out = some (seen, out)
expand_children expand ix (cid ∷ cids) seen out =
    let rest = expand_children expand ix cids in
    elim (get_task ix cid) [
      | none ↦ rest seen out
      | some child ↦ elim (expand child seen out) [
        | none ↦ none
        | some (seen', out') ↦ rest seen' out'
      ]
    ]

unfoldable pub expand : ℕ → Index → ℕ → Task → List Text → Group → Walked Group
expand zero ix depth t seen out = none
expand (suc fuel) ix depth t seen out =
    if elem t.id seen
    then some (seen, out)
    else expand_children (expand fuel ix (depth + 1)) ix t.content.child_ids (t.id ∷ seen)
        (out ++ (record { task = t; depth = depth; parent_title = [] } ∷ []))

unfoldable pub has_open : Task → Index → Bool
has_open t ix = elim (subtree_has_open (enough_fuel ix) ix t []) [ none ↦ false | some (_, b) ↦ b ]

unfoldable pub group_of : Index → Task → Group
group_of ix t = elim (expand (enough_fuel ix) ix 0 t [] []) [ none ↦ [] | some (_, rows) ↦ rows ]

unfoldable pub select_roots : Index → List Task → List Task
select_roots ix [] = []
select_roots ix (t ∷ ts) =
    let rest = select_roots ix ts in
    if not (is_root ix t.id) then rest else if has_open t ix then t ∷ rest else rest

unfoldable pub groups_of : Index → List Task → List Group
groups_of ix [] = []
groups_of ix (t ∷ ts) = group_of ix t ∷ groups_of ix ts

-- `ListGroups`
unfoldable pub list_groups : List Task → Index → ℤ → List Group
list_groups tasks ix now = groups_of ix (rank_roots (select_roots ix tasks) ix now)
