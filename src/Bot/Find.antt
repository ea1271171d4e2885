-- ===== src/Bot/Find.antt =====
-- `FindGroups` of client/bot/view.go: the search in open titles. `to_lower` is `strings.ToLower`.
use seshat_tasks.Prelude.{
  ℕ, ◌-◌, Text, ◌==◌, ltb, length, take, not, none, some, List, [], ◌∷◌, if◌then◌else◌,
}
use seshat_tasks.Prelude.Int.{ℤ}
use seshat_tasks.Task.{Task}
use seshat_tasks.Bot.View.{Index, Group, Row, parent_of, rank_roots, is_open}
use seshat_tasks.Bot.Text.{trim_space, contains}

abbrev pub find_ceiling : ℕ
find_ceiling = 200

unfoldable pub matching : (Text → Text) → Text → List Task → List Task
matching to_lower n [] = []
matching to_lower n (t ∷ ts) =
    let rest = matching to_lower n ts in
    if not (is_open t)
    then rest
    else if contains (to_lower t.content.title) n
    then t ∷ rest
    else rest

unfoldable pub flat_row : Index → Task → Row
flat_row ix t = record {
  task = t;
  depth = 0;
  parent_title = elim (parent_of ix t.id) [ none ↦ [] | some p ↦ p.content.title ];
}

unfoldable pub flat_groups : Index → List Task → List Group
flat_groups ix [] = []
flat_groups ix (t ∷ ts) = (flat_row ix t ∷ []) ∷ flat_groups ix ts

unfoldable pub find_groups : (Text → Text) → List Task → Index → Text → ℤ → List Group × ℕ
find_groups to_lower tasks ix needle now =
    let n = to_lower (trim_space needle) in
    if n == []
    then ([], 0)
    else let matches = rank_roots (matching to_lower n tasks) ix now in
      if ltb find_ceiling (length matches)
      then (flat_groups ix (take find_ceiling matches), length matches - find_ceiling)
      else (flat_groups ix matches, 0)
