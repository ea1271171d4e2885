-- ===== src/Bot/Render/Fixed.antt =====
-- The fixed parts of the texts of client/bot/render.go that have a tag.
use seshat_tasks.Prelude.{Text, lit, utf8, ◌==◌, List, [], ◌∷◌, refl}
use seshat_tasks.Bot.Text.{starts_with}
use seshat_tasks.Bot.Render.Reader.{closes, tag_at, token_at, read_from, Shows}

program : Unit {0}
unfolding closes tag_at token_at read_from starts_with lit utf8 ◌==◌
program = tt

pub bold_opens : {tags : List Text} → Shows tags (lit "b" ∷ tags) (lit " <b>") (lit " ")
unfolding program
bold_opens = record { reads = λ t. refl }

pub bold_ends : {tags : List Text} → Shows (lit "b" ∷ tags) tags (lit "</b>\n") (lit "\n")
unfolding program
bold_ends = record { reads = λ t. refl }

pub parent_opens : {tags : List Text} → Shows tags (lit "i" ∷ tags) (lit "<i>in ") (lit "in ")
unfolding program
parent_opens = record { reads = λ t. refl }

pub parent_ends : {tags : List Text} → Shows (lit "i" ∷ tags) tags (lit "</i>\n") (lit "\n")
unfolding program
parent_ends = record { reads = λ t. refl }

pub code_opens : {tags : List Text} → Shows tags (lit "code" ∷ tags) (lit "<code>") []
unfolding program
code_opens = record { reads = λ t. refl }

pub code_ends : {tags : List Text} → Shows (lit "code" ∷ tags) tags (lit "</code>\n") (lit "\n")
unfolding program
code_ends = record { reads = λ t. refl }

pub subtasks_open :
    {tags : List Text} → Shows tags (lit "code" ∷ tags) (lit "subtasks  <code>") (lit "subtasks  ")
unfolding program
subtasks_open = record { reads = λ t. refl }

pub delete_opens :
    {tags : List Text} → Shows tags (lit "b" ∷ tags) (lit "Delete <b>") (lit "Delete ")
unfolding program
delete_opens = record { reads = λ t. refl }

pub delete_ends : {tags : List Text} → Shows (lit "b" ∷ tags) tags (lit "</b>?") (lit "?")
unfolding program
delete_ends = record { reads = λ t. refl }

pub matches_open :
    {tags : List Text} → Shows tags (lit "b" ∷ tags) (lit "Matches for <b>") (lit "Matches for ")
unfolding program
matches_open = record { reads = λ t. refl }

pub matches_end : {tags : List Text} → Shows (lit "b" ∷ tags) tags (lit "</b>\n\n") (lit "\n\n")
unfolding program
matches_end = record { reads = λ t. refl }

pub beside_opens : {tags : List Text} → Shows tags (lit "i" ∷ tags) (lit " <i>in ") (lit " in ")
unfolding program
beside_opens = record { reads = λ t. refl }

pub beside_ends : {tags : List Text} → Shows (lit "i" ∷ tags) tags (lit "</i>") []
unfolding program
beside_ends = record { reads = λ t. refl }

pub and_opens : {tags : List Text} → Shows tags (lit "i" ∷ tags) (lit "\n<i>…and ") (lit "\n…and ")
unfolding program
and_opens = record { reads = λ t. refl }

pub more_ends :
    {tags : List Text}
    → Shows (lit "i" ∷ tags) tags (lit " more subtasks</i>\n") (lit " more subtasks\n")
unfolding program
more_ends = record { reads = λ t. refl }

pub tui_ends :
    {tags : List Text}
    → Shows (lit "i" ∷ tags) tags (lit " more — use the TUI</i>\n") (lit " more — use the TUI\n")
unfolding program
tui_ends = record { reads = λ t. refl }

pub none_opens :
    {tags : List Text}
    → Shows tags (lit "b" ∷ tags) (lit "No open task matches <b>") (lit "No open task matches ")
unfolding program
none_opens = record { reads = λ t. refl }

pub none_ends : {tags : List Text} → Shows (lit "b" ∷ tags) tags (lit "</b>.") (lit ".")
unfolding program
none_ends = record { reads = λ t. refl }
