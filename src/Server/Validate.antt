-- ===== src/Server/Validate.antt =====
-- server/validate.go: the forest invariants, checked over the whole state.
pub mod Graph
pub mod Search
pub mod Visit
pub mod Containers
pub mod Forest
pub mod Parents
use seshat_tasks.Prelude.{
  ℕ, zero, suc, Text, Map, lit, ◌==◌, elem, get, put, Bool, not, Option, none, some, List, [], ◌∷◌,
  keys, length, eqb, if◌then◌else◌,
}
use seshat_tasks.Task.{Task, Tasks, State, task_at, has, children}
use seshat_tasks.Server.Error.{
  Error, InvariantError, Result, ok, err, violates, out_of_fuel, ◌>>=◌, ◌>>◌, require,
}

-- An `InvariantError` with its name and ids.
abbrev pub broken : Text → List Text → Error
broken name ids = violates (record { invariant = name; ids = ids })

-- The inner loop over one child list: `intra` and `seen` are the two sets, and the result is the
-- new `seen`.
unfoldable pub check_children :
    Tasks → Text → List Text → List Text → List Text → Result (List Text)
check_children ts owner intra seen [] = ok seen
check_children ts owner intra seen (c ∷ cs) = do
  require (not (elem c intra)) (broken (lit "duplicate_in_list") (owner ∷ c ∷ []))
  require (has ts c) (broken (lit "dangling_child") (owner ∷ c ∷ []))
  require (not (elem c seen)) (broken (lit "single_container") (c ∷ []))
  check_children ts owner (c ∷ intra) (c ∷ seen) cs

-- The first loop over the tasks that are left.
unfoldable pub check_tasks : Tasks → List Text → Tasks → Result (Unit {0})
check_tasks ts seen [] = ok tt
check_tasks ts seen ((k, t) ∷ rest) = do
  seen' ← check_children ts t.id [] seen t.content.child_ids
  check_tasks ts seen' rest

-- 0 is unvisited, 1 is in the stack, 2 is done.
abbrev pub Colors : Type 0
Colors = Map ℕ

unfoldable pub color_of : Colors → Text → ℕ
color_of color id = elim (get id color) [ none ↦ 0 | some n ↦ n ]

-- The body of the loop in `visit`, for one child; `visit` is the recursive call.
unfoldable pub visit_child : (Text → Colors → Result Colors) → Text → Text → Colors → Result Colors
visit_child visit id c color =
    if eqb (color_of color c) 1
    then err (broken (lit "cycle") (id ∷ c ∷ []))
    else if eqb (color_of color c) 0
    then visit c color
    else ok color

unfoldable pub visit_children :
    (Text → Colors → Result Colors) → Text → List Text → Colors → Result Colors
visit_children visit id [] color = ok color
visit_children visit id (c ∷ cs) color = visit_child visit id c color >>= visit_children visit id cs

-- `visit`, on fuel for the depth of the recursion.
unfoldable pub visit : ℕ → Tasks → Text → Colors → Result Colors
visit zero ts id color = err out_of_fuel
visit (suc fuel) ts id color = do
  color' ← visit_children (visit fuel ts) id (children ts id) (put id 1 color)
  ok (put id 2 color')

-- The last loop, over the ids of the map.
unfoldable pub visit_all : ℕ → Tasks → List Text → Colors → Result (Unit {0})
visit_all fuel ts [] color = ok tt
visit_all fuel ts (id ∷ ids) color = do
  color' ← if eqb (color_of color id) 0 then visit fuel ts id color else ok color
  visit_all fuel ts ids color'

-- The depth-first search never nests deeper than there are tasks.
unfoldable pub validate_state : State → Result (Unit {0})
validate_state s = do
  check_tasks s.tasks [] s.tasks
  visit_all (suc (length (keys s.tasks))) s.tasks (keys s.tasks) []
