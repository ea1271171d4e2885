-- ===== src/Bot/Registry/Prompts.antt =====
-- How long a prompt of client/bot/actions.go waits for its reply.
use seshat_tasks.Prelude.{ℕ, ◌<◌, eq_refl, false, some, [], ◌≡◌, arith, sym, subst, ◌∙◌}
use seshat_tasks.Prelude.Int.{ℤ, pos, eqb_ℤ}
use seshat_tasks.Bot.Registry.{Action, Registry, put_prompt, drop_prompt, get_by_prompt}
use seshat_tasks.Bot.Registry.Keys.{node_of_absent, node_of-value_of}
use seshat_tasks.Bot.Registry.Consistent.{
  token_key, prompt_key, push_front-IsConsistent, drop_prompt-Dropped,
}
use seshat_tasks.Bot.Registry.Reach.{
  Reached, Reached-IsConsistent, Reached-IsWithin, inserted-front, capacity-drop_prompt, step,
  puts_prompt,
}
use seshat_tasks.Bot.Registry.Recall.{prompt_of, get_by_prompt-found}
use seshat_tasks.Bot.Registry.Lasting.{
  Holds, front-Holds, Steps, AllSpare, Steps-Reached, Steps-Holds,
}

put_prompt-Holds :
    {capacity : ℕ} (r : Registry) (a : Action) (id : ℤ)
    → Reached capacity r
    → 0 < capacity
    → Holds 0 (drop_prompt id r).next (prompt_of a id) (put_prompt a id r)
unfolding put_prompt
put_prompt-Holds {capacity} r a id before room =
    let d = drop_prompt-Dropped id r (Reached-IsConsistent r before) in
    let r1 = drop_prompt id r in
    let kept = capacity-drop_prompt id r ∙ (Reached-IsWithin r before).0 in
    let (l, front) = inserted-front (prompt_of a id) r1 (subst (λ n. 0 < n) (sym kept) room) (
      push_front-IsConsistent (prompt_of a id) r1 (node_of_absent token_key [] r1.ll (eq_refl []))
        d.gone d.consistent) in
    front-Holds r1.next (prompt_of a id) l (put_prompt a id r) front

-- A prompt waits for its reply: in a registry for `capacity` entries, an action put for a message id
-- other than 0, also where another action stood for the id before, is what the id gets after any
-- fewer than `capacity` operations of which none puts another prompt with that id.
pub get_by_prompt-Steps :
    {capacity n : ℕ} (r r' : Registry) (a : Action) (id : ℤ)
    → Reached capacity r
    → eqb_ℤ id (pos 0) ≡ false
    → (steps : Steps n (put_prompt a id r) r') → AllSpare id steps
    → n < capacity
    → (get_by_prompt id r').0 ≡ some a
get_by_prompt-Steps {capacity} {n} r r' a id before real steps spare room =
    let e = prompt_of a id in
    let m = (drop_prompt id r).next in
    let made : Reached capacity (put_prompt a id r) = step before (puts_prompt a id) in
    let c = Reached-IsConsistent r' (Steps-Reached made steps) in
    let h = Steps-Holds m e steps made room spare (put_prompt-Holds r a id before (omega arith)) in
    get_by_prompt-found id m e r'
      (c.prompts id ∙ node_of-value_of prompt_key m e r'.ll c.prompts_once h.0 real) h.0
