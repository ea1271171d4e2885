-- ===== src/Bot/Registry/Recall.antt =====
-- What a token or a prompt of client/bot/actions.go stands for, once its element is known.
use seshat_tasks.Prelude.{
  ℕ, Text, ◌==◌, eqb_iff, false, some, List, [], ◌∷◌, ◌++◌, ◌≡◌, refl, arith, lit, utf8,
}
use seshat_tasks.Prelude.Int.{ℤ}
use seshat_tasks.Bot.Registry.{
  Action, Entry, Element, Registry, action_prefix, value_of, hit, get, get_by_prompt,
}

pub token_nonempty : (random : Text) → (action_prefix ++ random == []) ≡ false
unfolding lit utf8 ◌==◌
token_nonempty random = refl

pub get-found :
    (token : Text) (n : ℕ) (e : Entry) (r : Registry)
    → r.by_token token ≡ some n
    → value_of n r.ll ≡ some e
    → (get token r).0 ≡ some e.action
unfolding get hit
get-found token n e r found there = rw (found, there, hit) refl

pub get_by_prompt-found :
    (id : ℤ) (n : ℕ) (e : Entry) (r : Registry)
    → r.by_prompt id ≡ some n
    → value_of n r.ll ≡ some e
    → (get_by_prompt id r).0 ≡ some e.action
unfolding get_by_prompt hit
get_by_prompt-found id n e r found there = rw (found, there, hit) refl

pub front-value_of : (n : ℕ) (e : Entry) (l : List Element) → value_of n ((n, e) ∷ l) ≡ some e
unfolding value_of
front-value_of n e l = ground (arith, eqb_iff n n)

abbrev pub prompt_of : Action → ℤ → Entry
prompt_of a id = record { action = a; token = []; prompt_message_id = id }
