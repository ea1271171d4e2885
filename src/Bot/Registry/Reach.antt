-- ===== src/Bot/Registry/Reach.antt =====
-- What the registry keeps, however it is used: every state that its four operations reach.
use seshat_tasks.Prelude.{
  ℕ, zero, suc, ◌+◌, ◌≤◌, ◌<◌, Text, ◌==◌, length, ltb, true, Option, none, some, List, [], ◌∷◌,
  ◌++◌, ◌≡◌, refl, arith, Bool-cases, Option-cases, inl, inr, sym, ap, subst, ◌∙◌, eq_refl,
}
use seshat_tasks.Prelude.Int.{ℤ, pos}
use seshat_tasks.Bot.Registry.{
  Action, Entry, Element, Registry, action_prefix, new_registry, value_of, ll_remove, ll_back,
  unindex, evict, push_front, insert, put, drop_prompt, put_prompt, hit, get, get_by_prompt,
}
use seshat_tasks.Bot.Registry.Keys.{
  IdsOnce, node_of, length-ll_remove, value_of-ll_back, node_of_absent, ll_back-none,
  ll_remove-ll_back,
}
use seshat_tasks.Bot.Registry.Consistent.{
  token_key, prompt_key, IsConsistent, without, without-IsConsistent, push_front-IsConsistent,
  insert-IsConsistent, drop_prompt-Dropped, hit-IsConsistent,
}

-- An operation. The token of a `put` is fresh: 96 random bits have not been drawn before.
pub data Step (r : Registry) : Registry → Type 0 where
  puts :
      (random : Text) (a : Action)
      → r.by_token (action_prefix ++ random) ≡ none
      → Step r (put (some random) a r).1
  fails : (a : Action) → Step r (put none a r).1
  puts_prompt : (a : Action) (id : ℤ) → Step r (put_prompt a id r)
  gets : (token : Text) → Step r (get token r).1
  gets_by_prompt : (id : ℤ) → Step r (get_by_prompt id r).1

pub data Reached (capacity : ℕ) : Registry → Type 0 where
  start : Reached capacity (new_registry capacity)
  step : {r r' : Registry} → Reached capacity r → Step r r' → Reached capacity r'

new_registry-IsConsistent : (capacity : ℕ) → IsConsistent (new_registry capacity)
unfolding value_of node_of
new_registry-IsConsistent capacity = record {
  ids = tt;
  free = λ j p. refl;
  tokens_once = tt;
  prompts_once = tt;
  tokens = λ a. refl;
  prompts = λ a. refl;
}

hit_any-IsConsistent : (o : Option ℕ) (r : Registry) → IsConsistent r → IsConsistent (hit o r).1
unfolding hit
hit_any-IsConsistent none r c = c
hit_any-IsConsistent (some n) r c = hit-IsConsistent n r c

pub Step-IsConsistent : {r r' : Registry} → Step r r' → IsConsistent r → IsConsistent r'
unfolding put put_prompt get get_by_prompt
Step-IsConsistent {r} (puts random a fresh) c =
    insert-IsConsistent _ r (sym (c.tokens (action_prefix ++ random)) ∙ fresh)
      (node_of_absent prompt_key (pos 0) r.ll refl) c
Step-IsConsistent (fails a) c = c
Step-IsConsistent {r} (puts_prompt a id) c =
    let d = drop_prompt-Dropped id r c in
    insert-IsConsistent _ (drop_prompt id r)
      (node_of_absent token_key [] (drop_prompt id r).ll eq_nil) (d.gone) (d.consistent)
  where
    eq_nil : ([] == []) ≡ true
    eq_nil = eq_refl []
Step-IsConsistent {r} (gets token) c = hit_any-IsConsistent (r.by_token token) r c
Step-IsConsistent {r} (gets_by_prompt id) c = hit_any-IsConsistent (r.by_prompt id) r c

-- In every state that is reached with fresh tokens, the two maps and the list agree: a token or a
-- prompt is in its map exactly if an element of the list has it, at most one has, and the map names
-- that element.
pub Reached-IsConsistent : {capacity : ℕ} (r : Registry) → Reached capacity r → IsConsistent r
Reached-IsConsistent {capacity} r start = new_registry-IsConsistent capacity
Reached-IsConsistent r' (step {r = r} before s) =
    Step-IsConsistent s (Reached-IsConsistent r before)

pub capacity-evict : (fuel : ℕ) (r : Registry) → (evict fuel r).capacity ≡ r.capacity
unfolding evict unindex
capacity-evict zero r = refl
capacity-evict (suc fuel) r = elim (Bool-cases (ltb r.capacity (length r.ll))) [
  | inr fits ↦ rw (fits, evict) refl
  | inl over ↦ elim (Option-cases (ll_back r.ll)) [
    | inl nothing ↦ rw (over, nothing, evict) refl
    | inr ((n, old), back) ↦ rw (over, back, evict) (capacity-evict fuel (without n old r))
  ]
]

length-evict :
    (fuel : ℕ) (r : Registry)
    → IsConsistent r
    → length r.ll ≤ fuel + r.capacity
    → length (evict fuel r).ll ≤ r.capacity
unfolding evict unindex
length-evict zero r c h = omega arith
length-evict (suc fuel) r c h = elim (Bool-cases (ltb r.capacity (length r.ll))) [
  | inr fits ↦ rw (fits, evict) (ground arith)
  | inl over ↦ elim (Option-cases (ll_back r.ll)) [
    | inl nothing ↦ rw (over, nothing, evict) (omega (arith, ll_back-none r.ll nothing))
    | inr ((n, old), back) ↦
        let there = value_of-ll_back n old r.ll c.ids back in
        let less = length-ll_remove n old r.ll there in
        rw (over, back, evict)
          (length-evict fuel (without n old r) (without-IsConsistent n old r there c) (omega arith))
  ]
]

-- The element at the front stays, where there is room for one.
evict-front :
    (fuel : ℕ) (r : Registry) (x : Element) (l : List Element)
    → IsConsistent r
    → 0 < r.capacity
    → r.ll ≡ x ∷ l
    → (l' : List Element) × ((evict fuel r).ll ≡ x ∷ l')
unfolding evict unindex
evict-front zero r x l c h e = (l, e)
evict-front (suc fuel) r x l c h e = elim (Bool-cases (ltb r.capacity (length r.ll))) [
  | inr fits ↦ rw (fits, evict) (l, e)
  | inl over ↦ elim (Option-cases (ll_back r.ll)) [
    | inl nothing ↦ rw (over, nothing, evict) (l, e)
    | inr ((n, old), back) ↦
        let there = value_of-ll_back n old r.ll c.ids back in
        let kept =
          ll_remove-ll_back x l n old (subst IdsOnce e c.ids) (ground (arith, e))
            (ap ll_back (sym e) ∙ back) in
        rw (over, back, evict)
          (evict-front fuel (without n old r) x (ll_remove n l)
            (without-IsConsistent n old r there c) h (ap (ll_remove n) e ∙ kept))
  ]
]

abbrev pub entry_of : Text → Action → Entry
entry_of random a = record {
  action = a;
  token = action_prefix ++ random;
  prompt_message_id = pos 0;
}

pub inserted-front :
    (e : Entry) (r : Registry)
    → 0 < r.capacity
    → IsConsistent (push_front e r)
    → (l : List Element) × ((insert e r).ll ≡ (r.next, e) ∷ l)
unfolding insert push_front
inserted-front e r room c =
    evict-front (suc (length r.ll)) (push_front e r) (r.next, e) r.ll c room refl

length-insert :
    (e : Entry) (r : Registry) → IsConsistent (push_front e r) → length (insert e r).ll ≤ r.capacity
unfolding insert push_front
length-insert e r c = length-evict (suc (length r.ll)) (push_front e r) c (omega arith)

pub capacity-insert : (e : Entry) (r : Registry) → (insert e r).capacity ≡ r.capacity
unfolding insert push_front
capacity-insert e r = capacity-evict _ (push_front e r)

pub capacity-drop_prompt : (id : ℤ) (r : Registry) → (drop_prompt id r).capacity ≡ r.capacity
unfolding drop_prompt
capacity-drop_prompt id r = ground arith

-- A registry within a bound.
abbrev IsWithin : ℕ → Registry → Type 0
IsWithin capacity r = (r.capacity ≡ capacity) × (length r.ll ≤ capacity)

hit-IsWithin :
    (capacity : ℕ) (o : Option ℕ) (r : Registry)
    → IsWithin capacity r
    → IsWithin capacity (hit o r).1
unfolding hit
hit-IsWithin capacity none r w = w
hit-IsWithin capacity (some n) r w = elim (Option-cases (value_of n r.ll)) [
  | inl nothing ↦ rw (nothing, hit) w
  | inr (e, there) ↦ rw (there, hit) (w.0, omega (arith, w.1, length-ll_remove n e r.ll there))
]

insert-IsWithin :
    (capacity : ℕ) (e : Entry) (r : Registry)
    → IsConsistent (push_front e r)
    → r.capacity ≡ capacity
    → IsWithin capacity (insert e r)
insert-IsWithin capacity e r c same =
    (capacity-insert e r ∙ same, subst (λ k. length (insert e r).ll ≤ k) same (length-insert e r c))

Step-IsWithin :
    {r r' : Registry} (capacity : ℕ)
    → Step r r'
    → IsConsistent r
    → IsWithin capacity r
    → IsWithin capacity r'
unfolding put put_prompt get get_by_prompt
Step-IsWithin {r} capacity (puts random a fresh) c w =
    insert-IsWithin capacity (entry_of random a) r
      (push_front-IsConsistent (entry_of random a) r
        (sym (c.tokens (action_prefix ++ random)) ∙ fresh)
        (node_of_absent prompt_key (pos 0) r.ll refl) c)
      (w.0)
Step-IsWithin capacity (fails a) c w = w
Step-IsWithin {r} capacity (puts_prompt a id) c w =
    let d = drop_prompt-Dropped id r c in
    insert-IsWithin capacity _ (drop_prompt id r)
      (push_front-IsConsistent _ (drop_prompt id r)
        (node_of_absent token_key [] (drop_prompt id r).ll (eq_refl [])) (d.gone) (d.consistent))
      (capacity-drop_prompt id r ∙ w.0)
Step-IsWithin {r} capacity (gets token) c w = hit-IsWithin capacity (r.by_token token) r w
Step-IsWithin {r} capacity (gets_by_prompt id) c w = hit-IsWithin capacity (r.by_prompt id) r w

-- In every state that is reached with fresh tokens, the list has at most as many elements as the
-- registry was made for.
pub Reached-IsWithin :
    {capacity : ℕ} (r : Registry)
    → Reached capacity r
    → (r.capacity ≡ capacity) × (length r.ll ≤ capacity)
Reached-IsWithin {capacity} r start = (refl, omega arith)
Reached-IsWithin {capacity} r' (step {r = r} before s) =
    Step-IsWithin capacity s (Reached-IsConsistent r before) (Reached-IsWithin r before)
