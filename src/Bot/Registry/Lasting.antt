-- ===== src/Bot/Registry/Lasting.antt =====
-- How long a button of client/bot/actions.go works while others are made and used.
use seshat_tasks.Prelude.{
  ℕ, zero, suc, ◌+◌, ◌≤◌, ◌<◌, Text, eq_refl, eqb, eqb_iff, length, ltb, false, not, ◌&&◌, Option,
  none, some, List, [], ◌∷◌, ◌++◌, if◌then◌else◌, ◌≡◌, refl, arith, Bool-cases, Option-cases, inl,
  inr, sym, subst, ◌∙◌,
}
use seshat_tasks.Prelude.Int.{ℤ, pos, eqb_ℤ, eqb_ℤ→≡}
use seshat_tasks.Bot.Registry.{
  Action, Entry, Element, Registry, action_prefix, value_of, ll_remove, ll_back, unindex, evict,
  push_front, insert, put, drop_prompt, put_prompt, hit, get, get_by_prompt,
}
use seshat_tasks.Bot.Registry.Keys.{
  IdsOnce, ll_back-none, node_of_absent, value_of-ll_remove, value_of-ll_back, value_of-node_of,
  node_of-value_of,
}
use seshat_tasks.Bot.Registry.Consistent.{
  eqb_ℤ_refl, token_key, prompt_key, IsConsistent, without, without-IsConsistent,
  push_front-IsConsistent, drop_prompt-Dropped,
}
use seshat_tasks.Bot.Registry.Reach.{
  Step, puts, fails, puts_prompt, gets, gets_by_prompt, Reached, Reached-IsConsistent,
  Reached-IsWithin, entry_of, inserted-front, capacity-drop_prompt, step,
}
use seshat_tasks.Bot.Registry.Recall.{token_nonempty, get-found, front-value_of, prompt_of}

-- How many elements stand before the one with this identity.
pub place_of : ℕ → List Element → ℕ
place_of n [] = 0
place_of n ((m, e) ∷ l) = if eqb n m then 0 else suc (place_of n l)

place_of-ll_remove :
    (n m : ℕ) (l : List Element) → eqb n m ≡ false → place_of n (ll_remove m l) ≤ place_of n l
unfolding place_of ll_remove
place_of-ll_remove n m [] other = omega arith
place_of-ll_remove n m ((k, e) ∷ l) other =
    ground (arith, place_of-ll_remove n m l other, eqb_iff n m, eqb_iff m k, eqb_iff n k)

-- The last element stands behind all others.
place_of-ll_back :
    (m : ℕ) (x : Entry) (l : List Element)
    → IdsOnce l
    → ll_back l ≡ some (m, x)
    → length l ≡ suc (place_of m l)
unfolding place_of ll_back
place_of-ll_back m x [] once h = absurd (ground arith)
place_of-ll_back m x ((k, e) ∷ l) once h = elim (Option-cases (ll_back l)) [
  | inl nothing ↦ ground (arith, ll_back-none l nothing, eqb_iff m k)
  | inr ((j, y), more) ↦
      let same : ll_back l ≡ some (m, x) = ground arith in
      ground (
        arith,
        place_of-ll_back m x l once.1 same,
        value_of-ll_back m x l once.1 same,
        once.0,
        eqb_iff m k,
      )
]

-- An element with this entry, at a place up to `k`.
abbrev pub Holds : ℕ → ℕ → Entry → Registry → Type 0
Holds k n e r = (value_of n r.ll ≡ some e) × (place_of n r.ll ≤ k)

without-Holds :
    (k n m : ℕ) (e x : Entry) (r : Registry)
    → IsConsistent r
    → eqb n m ≡ false
    → Holds k n e r
    → Holds k n e (without m x r)
unfolding unindex
without-Holds k n m e x r c other (there, near) = (
  ground (arith, value_of-ll_remove n m r.ll c.ids),
  omega (arith, place_of-ll_remove n m r.ll other),
)

evict-Holds :
    (fuel k n : ℕ) (e : Entry) (r : Registry)
    → IsConsistent r
    → k < r.capacity
    → Holds k n e r
    → Holds k n e (evict fuel r)
unfolding evict
evict-Holds zero k n e r c room h = h
evict-Holds (suc fuel) k n e r c room h = elim (Bool-cases (ltb r.capacity (length r.ll))) [
  | inr fits ↦ rw (fits, evict) h
  | inl over ↦ elim (Option-cases (ll_back r.ll)) [
    | inl nothing ↦ rw (over, nothing, evict) h
    | inr ((m, old), back) ↦
        let there = value_of-ll_back m old r.ll c.ids back in
        let other : eqb n m ≡ false =
          ground (arith, h.1, place_of-ll_back m old r.ll c.ids back, eqb_iff n m) in
        rw (over, back, evict)
          (evict-Holds fuel k n e (without m old r) (without-IsConsistent m old r there c)
            (unfold unindex in room) (without-Holds k n m e old r c other h))
  ]
]

push_front-Holds :
    (k n : ℕ) (e x : Entry) (r : Registry)
    → IsConsistent r
    → Holds k n e r
    → Holds (suc k) n e (push_front x r)
unfolding push_front value_of place_of
push_front-Holds k n e x r c (there, near) = ground (arith, c.free r.next, eqb_iff n r.next)

insert-Holds :
    (k n : ℕ) (e x : Entry) (r : Registry)
    → IsConsistent (push_front x r)
    → IsConsistent r
    → suc k < r.capacity
    → Holds k n e r
    → Holds (suc k) n e (insert x r)
unfolding insert
insert-Holds k n e x r c' c room h =
    evict-Holds _ (suc k) n e (push_front x r) c' (unfold push_front in room)
      (push_front-Holds k n e x r c h)

hit-Holds :
    (k n : ℕ) (e : Entry) (o : Option ℕ) (r : Registry)
    → IsConsistent r
    → Holds k n e r
    → Holds (suc k) n e (hit o r).1
unfolding hit value_of place_of
hit-Holds k n e none r c h = (h.0, omega (arith, h.1))
hit-Holds k n e (some m) r c (there, near) = elim (Option-cases (value_of m r.ll)) [
  | inl nothing ↦ rw (nothing, hit) (there, omega arith)
  | inr (x, found) ↦
      rw (found, hit)
        (elim (Bool-cases (eqb n m)) [
          | inl same ↦ (ground (arith, eqb_iff n m), ground (arith, same))
          | inr other ↦ (
            ground (arith, value_of-ll_remove n m r.ll c.ids, other),
            ground (arith, place_of-ll_remove n m r.ll other),
          )
        ])
]

-- An operation that puts no prompt with this message id, where that is not 0.
abbrev pub Spares : {r r' : Registry} → ℤ → Step r r' → Type 0
Spares id (puts random a fresh) = Unit {0}
Spares id (fails a) = Unit {0}
Spares id (puts_prompt a other) = (eqb_ℤ other id && not (eqb_ℤ id (pos 0))) ≡ false
Spares id (gets token) = Unit {0}
Spares id (gets_by_prompt other) = Unit {0}

promptless-Spares : {r r' : Registry} (s : Step r r') → Spares (pos 0) s
promptless-Spares (puts random a fresh) = tt
promptless-Spares (fails a) = tt
promptless-Spares (puts_prompt a other) = ground (arith, eqb_ℤ_refl (pos 0))
promptless-Spares (gets token) = tt
promptless-Spares (gets_by_prompt other) = tt

-- An entry is not dropped for the prompt of another.
drop_prompt-Holds :
    (k n : ℕ) (e : Entry) (id : ℤ) (r : Registry)
    → IsConsistent r
    → (eqb_ℤ id e.prompt_message_id && not (eqb_ℤ e.prompt_message_id (pos 0))) ≡ false
    → Holds k n e r
    → Holds k n e (drop_prompt id r)
unfolding drop_prompt unindex
drop_prompt-Holds k n e id r c spare h = elim (Option-cases (r.by_prompt id)) [
  | inl nothing ↦ rw (nothing, drop_prompt) h
  | inr (m, found) ↦
      let (x, there, same, present) =
        value_of-node_of prompt_key id m r.ll c.ids (sym (c.prompts id) ∙ found) in
      let other : eqb n m ≡ false =
        ground
          (arith, eqb_iff n m, h.0, same, present, spare, eqb_ℤ→≡ id x.prompt_message_id same) in
      let kept = without-Holds k n m e x r c other h in
      rw (found, there, drop_prompt) (kept.0, kept.1)
]

-- One operation moves an element back by at most one place.
Step-Holds :
    {r r' : Registry} (k n : ℕ) (e : Entry)
    → (s : Step r r') → IsConsistent r
    → suc k < r.capacity
    → Spares e.prompt_message_id s
    → Holds k n e r
    → Holds (suc k) n e r'
unfolding put put_prompt get get_by_prompt
Step-Holds {r} k n e (puts random a fresh) c room spare h =
    insert-Holds k n e (entry_of random a) r
      (push_front-IsConsistent (entry_of random a) r
        (sym (c.tokens (action_prefix ++ random)) ∙ fresh)
        (node_of_absent prompt_key (pos 0) r.ll refl) c)
      c room h
Step-Holds k n e (fails a) c room spare h = (h.0, omega (arith, h.1))
Step-Holds {r} k n e (puts_prompt a id) c room spare h =
    let d = drop_prompt-Dropped id r c in
    let x = prompt_of a id in
    insert-Holds k n e x (drop_prompt id r)
      (push_front-IsConsistent x (drop_prompt id r)
        (node_of_absent token_key [] (drop_prompt id r).ll (eq_refl [])) d.gone d.consistent)
      d.consistent (subst (λ m. suc k < m) (sym (capacity-drop_prompt id r)) room)
      (drop_prompt-Holds k n e id r c spare h)
Step-Holds {r} k n e (gets token) c room spare h = hit-Holds k n e (r.by_token token) r c h
Step-Holds {r} k n e (gets_by_prompt id) c room spare h = hit-Holds k n e (r.by_prompt id) r c h

-- A number of operations.
pub data Steps : ℕ → Registry → Registry → Type 0 where
  here : (r : Registry) → Steps zero r r
  next : {n : ℕ} {r r' r'' : Registry} → Steps n r r' → Step r' r'' → Steps (suc n) r r''

pub Steps-Reached :
    {capacity n : ℕ} {r r' : Registry} → Reached capacity r → Steps n r r' → Reached capacity r'
Steps-Reached before (here r) = before
Steps-Reached before (next steps s) = step (Steps-Reached before steps) s

pub Steps-trans :
    {n m : ℕ} {r r' r'' : Registry} → Steps n r r' → Steps m r' r'' → Steps (n + m) r r''
Steps-trans {n} {r = r} before (here r') = subst (λ k. Steps k r r') (omega arith) before
Steps-trans {n} {r = r} {r'' = r''} before (next {n = m} steps s) =
    subst (λ k. Steps k r r'') (omega arith) (next (Steps-trans before steps) s)

-- None of them puts a prompt with this message id, where that is not 0.
abbrev pub AllSpare : {n : ℕ} {r r' : Registry} → ℤ → Steps n r r' → Type 0
AllSpare id (here r) = Unit {0}
AllSpare id (next steps s) = AllSpare id steps × Spares id s

promptless-AllSpare : {n : ℕ} {r r' : Registry} (steps : Steps n r r') → AllSpare (pos 0) steps
promptless-AllSpare (here r) = tt
promptless-AllSpare (next steps s) = (promptless-AllSpare steps, promptless-Spares s)

pub Steps-Holds :
    {capacity m : ℕ} {r r' : Registry} (n : ℕ) (e : Entry) (steps : Steps m r r')
    → Reached capacity r
    → m < capacity
    → AllSpare e.prompt_message_id steps
    → Holds 0 n e r
    → Holds m n e r'
Steps-Holds n e (here r) before room spare h = h
Steps-Holds {capacity} {m = suc m} n e (next {r' = r'} steps s) before room (spare, last) h =
    let between = Steps-Reached before steps in
    Step-Holds m n e s (Reached-IsConsistent r' between)
      (subst (λ c. suc m < c) (sym (Reached-IsWithin r' between).0) room) last
      (Steps-Holds n e steps before (omega arith) spare h)

pub front-Holds :
    (n : ℕ) (e : Entry) (l : List Element) (r : Registry) → r.ll ≡ (n, e) ∷ l → Holds 0 n e r
unfolding place_of
front-Holds n e l r front = rw front (front-value_of n e l, ground (arith, eqb_iff n n))

put-Holds :
    {capacity : ℕ} (r : Registry) (random : Text) (a : Action)
    → Reached capacity r
    → 0 < capacity
    → r.by_token (action_prefix ++ random) ≡ none
    → Holds 0 r.next (entry_of random a) (put (some random) a r).1
unfolding put
put-Holds r random a before room fresh =
    let e = entry_of random a in
    let c = Reached-IsConsistent r before in
    let (l, front) =
      inserted-front e r (subst (λ n. 0 < n) (sym (Reached-IsWithin r before).0) room) (
        push_front-IsConsistent e r (sym (c.tokens (action_prefix ++ random)) ∙ fresh)
          (node_of_absent prompt_key (pos 0) r.ll refl) c) in
    front-Holds r.next e l (put (some random) a r).1 front

-- A button lasts: in a registry for `capacity` entries, an action put under a fresh token is what
-- the token gets after any fewer than `capacity` operations, whichever they are: puts of other
-- buttons and prompts, taps and replies.
pub get-Steps :
    {capacity n : ℕ} (r r' : Registry) (random : Text) (a : Action)
    → Reached capacity r
    → r.by_token (action_prefix ++ random) ≡ none
    → Steps n (put (some random) a r).1 r'
    → n < capacity
    → (get (action_prefix ++ random) r').0 ≡ some a
get-Steps {capacity} {n} r r' random a before fresh steps room =
    let e = entry_of random a in
    let made : Reached capacity (put (some random) a r).1 = step before (puts random a fresh) in
    let c = Reached-IsConsistent r' (Steps-Reached made steps) in
    let h =
      Steps-Holds r.next e steps made room (promptless-AllSpare steps)
        (put-Holds r random a before (omega arith) fresh) in
    get-found (action_prefix ++ random) r.next e r'
      (c.tokens (action_prefix ++ random)
        ∙ node_of-value_of token_key r.next e r'.ll c.tokens_once h.0 (token_nonempty random))
      h.0
