-- ===== src/Server/Content.antt =====
-- The helpers of server/store.go that work on one task or one list.
use seshat_tasks.Prelude.{
  ℕ, zero, suc, Text, lit, ◌==◌, length, eqb, Bool, true, false, not, ◌&&◌, ◌||◌, none, some, List,
  [], ◌∷◌, ◌++◌, if◌then◌else◌,
}
use seshat_tasks.Prelude.Int.{ℤ, ltb_ℤ}
use seshat_tasks.Task.{Status, Content, Meta, valid_status, valid_priority, terminal}
use seshat_tasks.Server.Error.{Result, validation, ◌>>◌, require}

-- A rune that is no ASCII byte is none of the four, so the loop may look at bytes.
unfoldable pub only_space : Text → Bool
only_space [] = true
only_space (r ∷ s) =
    if not (eqb r b' ') && not (eqb r 9) && not (eqb r 10) && not (eqb r 13)
    then false
    else only_space s

unfoldable pub validate_content : Content → Result (Unit {0})
validate_content c = do
  require (not (eqb (length c.title) 0 || only_space c.title))
      (validation (lit "title must be non-empty"))
  require (valid_status c.status) (validation (lit "unknown status: " ++ c.status))
  require (valid_priority c.priority) (validation (lit "unknown priority: " ++ c.priority))

unfoldable pub apply_completion : Meta → Status → Status → ℤ → Meta
apply_completion m old next now =
    if not (terminal old) && terminal next
    then record m { completed_at = some now }
    else if terminal old && not (terminal next)
    then record m { completed_at = none }
    else m

unfoldable pub clamp : ℤ → ℤ → ℤ → ℤ
clamp v lo hi = if ltb_ℤ v lo then lo else if ltb_ℤ hi v then hi else v

-- An index past the end panics in the source; `add` clamps it.
unfoldable pub insert_at : List Text → ℕ → Text → List Text
insert_at s zero v = v ∷ s
insert_at [] (suc i) v = v ∷ []
insert_at (x ∷ s) (suc i) v = x ∷ insert_at s i v

unfoldable pub remove_string : List Text → Text → List Text
remove_string [] v = []
remove_string (x ∷ s) v = let rest = remove_string s v in if not (x == v) then x ∷ rest else rest
