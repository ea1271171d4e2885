-- ===== src/Bot/RegistryTests.antt =====
-- A registry with room for two entries.
use seshat_tasks.Prelude.{lit, utf8, ◌==◌, false, some, none, [], ◌++◌, ◌≡◌, refl, arith}
use seshat_tasks.Prelude.Int.{pos}
use seshat_tasks.Bot.Registry.{
  noop, Action, Registry, action_prefix, new_registry, value_of, ll_remove, ll_back, unindex, evict,
  push_front, insert, put, put_prompt, get, get_by_prompt,
}
use seshat_tasks.Bot.Registry.Consistent.{IsConsistent}
use seshat_tasks.Bot.Registry.Reach.{Reached, start, step, puts, gets, Reached-IsConsistent}
use seshat_tasks.Bot.Registry.Lasting.{Steps, here, next, get-Steps}
use seshat_tasks.Bot.Registry.Prompts.{get_by_prompt-Steps}

program : Unit {0}
unfolding lit utf8 ◌==◌ value_of ll_remove ll_back unindex evict push_front insert put
program = tt

abbrev pub action : Action
action = record {
  kind = noop;
  task_id = lit "A";
  arg = [];
  page = pos 0;
  query = [];
  has_list = false;
  expected_version = 0;
  text = [];
}

abbrev pub one_button : Registry
one_button = (put (some (lit "x")) action (new_registry 2)).1

pub one_button-Reached : Reached 2 one_button
one_button-Reached = step start (puts (lit "x") action refl)

fresh : one_button.by_token (action_prefix ++ lit "y") ≡ none
unfolding program
fresh = refl

Reached-IsConsistent_example : IsConsistent one_button
Reached-IsConsistent_example = Reached-IsConsistent one_button one_button-Reached

-- The first button is tapped after the second was made.
abbrev tapped : Registry
tapped = (get (action_prefix ++ lit "x") (put (some (lit "y")) action one_button).1).1

one_tap : Steps 1 (put (some (lit "y")) action one_button).1 tapped
one_tap = next (here _) (gets (action_prefix ++ lit "x"))

get-Steps_example : (get (action_prefix ++ lit "y") tapped).0 ≡ some action
get-Steps_example =
    get-Steps one_button tapped (lit "y") action one_button-Reached fresh one_tap (omega arith)

-- The first button is tapped after the prompt was sent.
abbrev asked : Registry
asked = put_prompt action (pos 7) one_button

abbrev one_tap_later : Steps 1 asked (get (action_prefix ++ lit "x") asked).1
one_tap_later = next (here asked) (gets (action_prefix ++ lit "x"))

get_by_prompt-Steps_example :
    (get_by_prompt (pos 7) (get (action_prefix ++ lit "x") asked).1).0 ≡ some action
get_by_prompt-Steps_example =
    get_by_prompt-Steps one_button (get (action_prefix ++ lit "x") asked).1 action (pos 7)
      one_button-Reached refl one_tap_later (tt, tt) (omega arith)
