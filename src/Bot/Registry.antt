-- ===== src/Bot/Registry.antt =====
-- client/bot/actions.go: the registry of what buttons and prompts mean. The linked list is a list
-- of elements with their identities, the most recently used first; the two maps point at them.
pub mod Keys
pub mod Consistent
pub mod Reach
pub mod Recall
pub mod Lasting
pub mod Prompts
use seshat_tasks.Prelude.{
  ℕ, zero, suc, ◌+◌, Text, lit, ◌==◌, length, ltb, eqb, Bool, true, false, Option, none, some, List,
  [], ◌∷◌, ◌++◌, if◌then◌else◌,
}
use seshat_tasks.Prelude.Int.{ℤ, pos, eqb_ℤ}

pub data ActionKind : Type 0 where
  noop page open_task back pick_status pick_priority pick_due set_status set_priority set_due :
      ActionKind
  done prompt_field clear_tags confirm_delete do_delete overwrite keep_theirs : ActionKind

pub record Action : Type 0 where
  pub kind : ActionKind
  pub task_id : Text
  pub arg : Text
  pub page : ℤ
  pub query : Text
  pub has_list : Bool
  pub expected_version : ℕ
  pub text : Text

-- `record` of the source.
pub record Entry : Type 0 where
  pub action : Action
  pub token : Text
  pub prompt_message_id : ℤ

abbrev pub Element : Type 0
Element = ℕ × Entry

-- `next` is an identity that no element has.
pub record Registry : Type 0 where
  pub capacity : ℕ
  pub ll : List Element
  pub by_token : Text → Option ℕ
  pub by_prompt : ℤ → Option ℕ
  pub next : ℕ

abbrev pub registry_capacity : ℕ
registry_capacity = 2000

abbrev pub action_prefix : Text
action_prefix = lit "a:"

abbrev pub new_registry : ℕ → Registry
new_registry capacity = record {
  capacity = capacity;
  ll = [];
  by_token = λ _. none;
  by_prompt = λ _. none;
  next = 0;
}

-- Writes and deletions in the two maps.
abbrev pub set_token : (Text → Option ℕ) → Text → Option ℕ → Text → Option ℕ
set_token m k v j = if j == k then v else m j

abbrev pub set_prompt : (ℤ → Option ℕ) → ℤ → Option ℕ → ℤ → Option ℕ
set_prompt m k v j = if eqb_ℤ j k then v else m j

-- The value of an element, and `ll.Remove`.
unfoldable pub value_of : ℕ → List Element → Option Entry
value_of n [] = none
value_of n ((m, e) ∷ l) = if eqb n m then some e else value_of n l

unfoldable pub ll_remove : ℕ → List Element → List Element
ll_remove n [] = []
ll_remove n ((m, e) ∷ l) = if eqb n m then l else (m, e) ∷ ll_remove n l

unfoldable pub ll_back : List Element → Option Element
ll_back [] = none
ll_back (x ∷ l) = elim (ll_back l) [ none ↦ some x | some y ↦ some y ]

-- An entry leaves both maps.
unfoldable pub unindex : Entry → Registry → Registry
unindex old r = record r {
  by_token = if old.token == [] then r.by_token else set_token r.by_token old.token none;
  by_prompt =
      if eqb_ℤ old.prompt_message_id (pos 0)
      then r.by_prompt
      else set_prompt r.by_prompt old.prompt_message_id none;
}

-- The loop that evicts from the back; each round makes the list shorter.
unfoldable pub evict : ℕ → Registry → Registry
evict zero r = r
evict (suc fuel) r = elim (ltb r.capacity (length r.ll)) [
  | false ↦ r
  | true ↦ elim (ll_back r.ll) [
    | none ↦ r
    | some (n, old) ↦ evict fuel (unindex old (record r { ll = ll_remove n r.ll }))
  ]
]

-- The entry at the front, in the maps that it belongs to.
unfoldable pub push_front : Entry → Registry → Registry
push_front rec r = record r {
  ll = (r.next, rec) ∷ r.ll;
  by_token = if rec.token == [] then r.by_token else set_token r.by_token rec.token (some r.next);
  by_prompt =
      if eqb_ℤ rec.prompt_message_id (pos 0)
      then r.by_prompt
      else set_prompt r.by_prompt rec.prompt_message_id (some r.next);
  next = r.next + 1;
}

unfoldable pub insert : Entry → Registry → Registry
insert rec r = let r' = push_front rec r in evict (length r'.ll) r'

-- `Put`: `random` are the encoded random bytes, or none where the source of randomness fails.
unfoldable pub put : Option Text → Action → Registry → Option Text × Registry
put none a r = (none, r)
put (some random) a r =
    let tok = action_prefix ++ random in
    (some tok, insert (record { action = a; token = tok; prompt_message_id = pos 0 }) r)

-- `PutPrompt` drops an older entry of the same prompt first.
unfoldable pub drop_prompt : ℤ → Registry → Registry
drop_prompt id r = elim (r.by_prompt id) [
  | none ↦ r
  | some n ↦ elim (value_of n r.ll) [
    | none ↦ r
    | some old ↦ record r {
      ll = ll_remove n r.ll;
      by_token = if old.token == [] then r.by_token else set_token r.by_token old.token none;
      by_prompt = set_prompt r.by_prompt id none;
    }
  ]
]

unfoldable pub put_prompt : Action → ℤ → Registry → Registry
put_prompt a id r =
    insert (record { action = a; token = []; prompt_message_id = id }) (drop_prompt id r)

-- A hit through either map moves its element to the front.
unfoldable pub hit : Option ℕ → Registry → Option Action × Registry
hit none r = (none, r)
hit (some n) r = elim (value_of n r.ll) [
  | none ↦ (none, r)
  | some e ↦ (some e.action, record r { ll = (n, e) ∷ ll_remove n r.ll })
]

unfoldable pub get : Text → Registry → Option Action × Registry
get token r = hit (r.by_token token) r

unfoldable pub get_by_prompt : ℤ → Registry → Option Action × Registry
get_by_prompt id r = hit (r.by_prompt id) r
