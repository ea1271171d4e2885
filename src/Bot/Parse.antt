-- ===== src/Bot/Parse.antt =====
-- How client/bot/handlers.go reads a message: `ParseCommand`, `ParseCapture`, and the value of a
-- text field. `to_lower` is `strings.ToLower`.
use seshat_tasks.Prelude.{
  Text, lit, ◌==◌, elem, eqb, length, drop, not, Option, none, some, List, [], ◌∷◌, if◌then◌else◌,
}
use seshat_tasks.Task.{Content}
use seshat_tasks.Bot.Text.{trim_space, first_field, cut, split}

abbrev pub valid_commands : List Text
valid_commands = lit "start" ∷ (lit "help" ∷ (lit "list" ∷ (lit "find" ∷ [])))

-- `token[0] == '/'`, and the rest of the token; none also where nothing follows the slash.
unfoldable pub command_name : Text → Option Text
command_name [] = none
command_name (c ∷ []) = none
command_name (c ∷ (d ∷ s)) = if eqb c b'/' then some (d ∷ s) else none

-- A command and its argument; none is `ok == false`.
unfoldable pub parse_command : (Text → Text) → Text → Option (Text × Text)
parse_command to_lower text =
    let trimmed = trim_space text in
    let token = first_field trimmed in
    if trimmed == [] then none else elim (command_name token) [
      | none ↦ none
      | some addressed ↦
          let name = to_lower (cut b'@' addressed).0 in
          if not (elem name valid_commands)
          then none
          else some (name, trim_space (drop (length token) trimmed))
    ]

-- A title and a description; none is `ok == false`.
unfoldable pub parse_capture : Text → Option (Text × Text)
parse_capture text =
    let title = trim_space (cut 10 text).0 in
    if title == [] then none else elim (cut 10 text).1 [
      | none ↦ some (title, [])
      | some description ↦ some (title, trim_space description)
    ]

-- The parts of a comma-separated text that are not blank.
unfoldable pub parse_tags : List Text → List Text
parse_tags [] = []
parse_tags (part ∷ parts) =
    let trimmed = trim_space part in
    let rest = parse_tags parts in if trimmed == [] then rest else trimmed ∷ rest

-- `applyTextPatch`
unfoldable pub text_patch : Text → Text → Option (Content → Content)
text_patch field value =
    if field == lit "title"
    then some (λ c. record c { title = value })
    else if field == lit "description"
    then some (λ c. record c { description = value })
    else if field == lit "tags"
    then some (λ c. record c { tags = parse_tags (split b',' value) })
    else none
