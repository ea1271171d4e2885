-- ===== src/Bot/Registry/Consistent.antt =====
-- The invariant of the registry: both maps point at the elements of one list, and at no others.
use seshat_tasks.Prelude.{
  ℕ, zero, suc, ◌≤◌, Text, ◌==◌, eq_iff, eq_refl, eqb_iff, length, ltb, true, false, none, some, [],
  if◌then◌else◌, ◌≡◌, refl, arith, Bool-cases, Option-cases, inl, inr, sym, ◌∙◌,
}
use seshat_tasks.Prelude.Int.{ℤ, pos, eqb_ℤ, eqb_ℤ→≡}
use seshat_tasks.Bot.Registry.{
  Entry, Registry, set_prompt, value_of, ll_remove, ll_back, unindex, evict, push_front, insert,
  drop_prompt, hit,
}
use seshat_tasks.Bot.Registry.Keys.{
  Key, IdsOnce, KeysOnce, node_of, value_of-ll_remove, IdsOnce-ll_remove, value_of-ll_back,
  node_of_absent, node_of-ll_remove, KeysOnce-ll_remove, node_of-front, value_of-node_of,
}

pub eqb_ℤ_refl : (a : ℤ) → eqb_ℤ a a ≡ true
eqb_ℤ_refl a = ground arith

abbrev pub token_key : Key Text
token_key = record {
  same = λ a b. a == b;
  same_refl = eq_refl;
  same_eq = λ a b. (eq_iff a b).0;
  key = λ e. e.token;
  absent = λ a. a == [];
}

abbrev pub prompt_key : Key ℤ
prompt_key = record {
  same = eqb_ℤ;
  same_refl = eqb_ℤ_refl;
  same_eq = eqb_ℤ→≡;
  key = λ e. e.prompt_message_id;
  absent = λ a. eqb_ℤ a (pos 0);
}

-- No identity, token or prompt occurs twice, `next` is free, and each map gives the element of a key.
pub record IsConsistent (r : Registry) : Type 0 where
  pub ids : IdsOnce r.ll
  pub free : (j : ℕ) → r.next ≤ j → value_of j r.ll ≡ none
  pub tokens_once : KeysOnce token_key r.ll
  pub prompts_once : KeysOnce prompt_key r.ll
  pub tokens : (a : Text) → r.by_token a ≡ node_of token_key a r.ll
  pub prompts : (a : ℤ) → r.by_prompt a ≡ node_of prompt_key a r.ll

-- An element leaves the list and both maps.
abbrev pub without : ℕ → Entry → Registry → Registry
without n e r = unindex e (record r { ll = ll_remove n r.ll })

pub without-IsConsistent :
    (n : ℕ) (e : Entry) (r : Registry)
    → value_of n r.ll ≡ some e
    → IsConsistent r
    → IsConsistent (without n e r)
unfolding unindex
without-IsConsistent n e r h c = record {
  ids = IdsOnce-ll_remove n r.ll c.ids;
  free = λ j p. ground (arith, value_of-ll_remove j n r.ll c.ids, c.free j p);
  tokens_once = KeysOnce-ll_remove token_key n e r.ll c.tokens_once h;
  prompts_once = KeysOnce-ll_remove prompt_key n e r.ll c.prompts_once h;
  tokens = λ a. ground (
    arith,
    node_of-ll_remove token_key a n e r.ll c.tokens_once h,
    c.tokens a,
    node_of_absent token_key a r.ll,
    eq_iff a e.token,
  );
  prompts = λ a. ground (
    arith,
    node_of-ll_remove prompt_key a n e r.ll c.prompts_once h,
    c.prompts a,
    node_of_absent prompt_key a r.ll,
    eqb_ℤ→≡ a e.prompt_message_id,
  );
}

pub push_front-IsConsistent :
    (e : Entry) (r : Registry)
    → node_of token_key e.token r.ll ≡ none
    → node_of prompt_key e.prompt_message_id r.ll ≡ none
    → IsConsistent r
    → IsConsistent (push_front e r)
unfolding push_front value_of node_of
push_front-IsConsistent e r new_token new_prompt c = record {
  ids = (c.free r.next (omega arith), c.ids);
  free = λ j p. ground (arith, eqb_iff j r.next, c.free j);
  tokens_once = (new_token, c.tokens_once);
  prompts_once = (new_prompt, c.prompts_once);
  tokens = λ a. ground (arith, c.tokens a, eq_iff a e.token);
  prompts = λ a. ground (arith, c.prompts a, eqb_ℤ→≡ a e.prompt_message_id);
}

-- Eviction takes whole elements from the back, as long as there are too many.
pub evict-IsConsistent : (fuel : ℕ) (r : Registry) → IsConsistent r → IsConsistent (evict fuel r)
unfolding evict
evict-IsConsistent zero r c = c
evict-IsConsistent (suc fuel) r c = elim (Bool-cases (ltb r.capacity (length r.ll))) [
  | inr fits ↦ rw (fits, evict) c
  | inl over ↦ elim (Option-cases (ll_back r.ll)) [
    | inl nothing ↦ rw (over, nothing, evict) c
    | inr ((n, old), back) ↦
        let there = value_of-ll_back n old r.ll c.ids back in
        rw (over, back, evict)
          (evict-IsConsistent fuel (without n old r) (without-IsConsistent n old r there c))
  ]
]

pub insert-IsConsistent :
    (e : Entry) (r : Registry)
    → node_of token_key e.token r.ll ≡ none
    → node_of prompt_key e.prompt_message_id r.ll ≡ none
    → IsConsistent r
    → IsConsistent (insert e r)
unfolding insert
insert-IsConsistent e r new_token new_prompt c =
    evict-IsConsistent _ (push_front e r) (push_front-IsConsistent e r new_token new_prompt c)

own_present : {a b : ℤ} → eqb_ℤ a (pos 0) ≡ false → a ≡ b → eqb_ℤ b (pos 0) ≡ false
own_present h e = cc (h, e)

unset :
    (a p : ℤ) (r : Registry)
    → eqb_ℤ p (pos 0) ≡ false
    → (if eqb_ℤ p (pos 0) then r.by_prompt else set_prompt r.by_prompt p none) a
      ≡ set_prompt r.by_prompt p none a
unset a p r h = rw h refl

-- What a registry without a prompt is.
pub record Dropped (id : ℤ) (r' : Registry) : Type 0 where
  pub consistent : IsConsistent r'
  pub gone : node_of prompt_key id r'.ll ≡ none

pub drop_prompt-Dropped : (id : ℤ) (r : Registry) → IsConsistent r → Dropped id (drop_prompt id r)
unfolding drop_prompt unindex
drop_prompt-Dropped id r c = elim (Option-cases (r.by_prompt id)) [
  | inl nothing ↦
      rw (nothing, drop_prompt) (record { consistent = c; gone = sym (c.prompts id) ∙ nothing })
  | inr (n, found) ↦
      let (e, there, same, present) =
        value_of-node_of prompt_key id n r.ll c.ids (sym (c.prompts id) ∙ found) in
      let own = eqb_ℤ→≡ id e.prompt_message_id same in
      let out = without-IsConsistent n e r there c in
      rw (found, there, drop_prompt)
        (record {
          consistent = record {
            ids = out.ids;
            free = out.free;
            tokens_once = out.tokens_once;
            prompts_once = out.prompts_once;
            tokens = out.tokens;
            prompts = λ a.
                cc (own, out.prompts a, unset a e.prompt_message_id r (own_present present own));
          };
          gone =
              ground (arith, node_of-ll_remove prompt_key id n e r.ll c.prompts_once there, same);
        })
]

pub hit-IsConsistent : (n : ℕ) (r : Registry) → IsConsistent r → IsConsistent (hit (some n) r).1
unfolding hit value_of
hit-IsConsistent n r c = elim (Option-cases (value_of n r.ll)) [
  | inl nothing ↦ rw (nothing, hit) c
  | inr (e, there) ↦
      rw (there, hit)
        (record {
          ids = (
            ground (arith, value_of-ll_remove n n r.ll c.ids, eqb_iff n n),
            IdsOnce-ll_remove n r.ll c.ids,
          );
          free = λ j p.
              ground (
                arith,
                value_of-ll_remove j n r.ll c.ids,
                c.free j p,
                c.free n,
                there,
                eqb_iff j n,
              );
          tokens_once = (
            ground (
              arith,
              node_of-ll_remove token_key e.token n e r.ll c.tokens_once there,
              eq_refl e.token,
            ),
            KeysOnce-ll_remove token_key n e r.ll c.tokens_once there,
          );
          prompts_once = (
            ground (
              arith,
              node_of-ll_remove prompt_key e.prompt_message_id n e r.ll c.prompts_once there,
              eqb_ℤ_refl e.prompt_message_id,
            ),
            KeysOnce-ll_remove prompt_key n e r.ll c.prompts_once there,
          );
          tokens = λ a. c.tokens a ∙ sym (node_of-front token_key a n e r.ll c.tokens_once there);
          prompts =
              λ a. c.prompts a ∙ sym (node_of-front prompt_key a n e r.ll c.prompts_once there);
        })
]
