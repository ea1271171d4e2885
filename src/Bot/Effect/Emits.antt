-- ===== src/Bot/Effect/Emits.antt =====
-- What goes out while a step runs: the events that it adds to the log.
use seshat_tasks.Prelude.{
  Option, none, some, Bool, true, false, List, [], ◌∷◌, ◌++◌, All, All-append, All-weaken,
  if◌then◌else◌, ◌≡◌, refl, ap, ◌∙◌, sym,
}
use mathlib.Core.List.{append_assoc}
use seshat_tasks.Bot.Registry.{Registry}
use seshat_tasks.Bot.Effect.{
  Failure, Outcome, ok, failed, Event, Outside, World, M, follow, ◌>>=◌, pure, fail, attempt, tell,
  read_clock,
}

-- From one world to a later one, only events with `P` have gone out.
pub record Adds {E : Type 0} (P : Event → Type 0) (w w' : World E) : Type 0 where
  pub events : List Event
  pub logged : w'.log ≡ events ++ w.log
  pub all : All P events

pub Adds-weaken :
    {E : Type 0} {P Q : Event → Type 0} {w w' : World E}
    → ((e : Event) → P e → Q e)
    → Adds P w w'
    → Adds Q w w'
Adds-weaken f a = record { events = a.events; logged = a.logged; all = All-weaken a.events f a.all }

-- What a handler may do to the world: a relation between the world before and the world after, which
-- the steps that only read the clock, or only change the registry, are in.
pub record Policy {E : Type 0} (out : Outside E) : Type 1 where
  pub Step : World E → World E → Type 0
  pub stay : (w : World E) → Step w w
  pub chain : (u v w : World E) → Step u v → Step v w → Step u w
  pub clock : (w : World E) → Step w (read_clock out w).1
  pub random :
      (w : World E) (r : Registry)
      → Step w (record w { outside = (out.random w.outside).1; registry = r })
  pub recall : (w : World E) (r : Registry) → Step w (record w { registry = r })

pub record Emits {E A : Type 0} {out : Outside E} (P : Policy out) (m : M E A) : Type 0 where
  pub step : (w : World E) → P.Step w (m w).1

pub Adds-refl : {E : Type 0} (P : Event → Type 0) (w : World E) → Adds P w w
Adds-refl P w = record { events = []; logged = refl; all = tt }

pub Adds-trans :
    {E : Type 0} (P : Event → Type 0) (u v w : World E) → Adds P u v → Adds P v w → Adds P u w
Adds-trans P u v w a b = record {
  events = b.events ++ a.events;
  logged = b.logged ∙ ap (λ l. b.events ++ l) a.logged ∙ sym (append_assoc b.events a.events u.log);
  all = All-append P b.events a.events b.all a.all;
}

pub clock-Adds :
    {E : Type 0} (P : Event → Type 0) (out : Outside E) (w : World E)
    → Adds P w (read_clock out w).1
unfolding read_clock
clock-Adds P out w = record { events = []; logged = refl; all = tt }

-- Only events with a property go out.
abbrev pub only : {E : Type 0} (out : Outside E) → (Event → Type 0) → Policy out
only out P = record {
  Step = λ w w'. Adds P w w';
  stay = Adds-refl P;
  chain = Adds-trans P;
  clock = clock-Adds P out;
  random = λ w r. record { events = []; logged = refl; all = tt };
  recall = λ w r. record { events = []; logged = refl; all = tt };
}

module _ {E : Type 0} {out : Outside E} (P : Policy out) where
  pub pure-Emits : {A : Type 0} (a : A) → Emits {E = E} P (pure a)
  unfolding pure
  pure-Emits a = record { step = P.stay }

  pub fail-Emits : {A : Type 0} (e : Failure) → Emits {E = E} {A = A} P (fail e)
  unfolding fail
  fail-Emits e = record { step = P.stay }

  follow-Step :
      {A B : Type 0} (r : Outcome A) (f : A → M E B) (w : World E)
      → ((a : A) → Emits P (f a))
      → P.Step w (follow r f w).1
  follow-Step (ok a) f w h = (h a).step w
  follow-Step (failed e) f w h = P.stay w

  pub bind-Emits :
      {A B : Type 0} {m : M E A} {f : A → M E B}
      → Emits P m
      → ((a : A) → Emits P (f a))
      → Emits P (m >>= f)
  unfolding ◌>>=◌
  bind-Emits {m} {f} hm hf = record {
    step = λ w. P.chain w (m w).1 _ (hm.step w) (follow-Step (m w).0 f (m w).1 hf);
  }

  pub attempt-Emits : {A : Type 0} {m : M E A} → Emits P m → Emits P (attempt m)
  unfolding attempt
  attempt-Emits h = record { step = h.step }

  pub if-Emits :
      {A : Type 0} (b : Bool) {m k : M E A} → Emits P m → Emits P k → Emits P (if b then m else k)
  if-Emits true hm hk = hm
  if-Emits false hm hk = hk

  pub option-Emits :
      {A B : Type 0} (o : Option A) {m : M E B} {f : A → M E B}
      → Emits P m
      → ((a : A) → Emits P (f a))
      → Emits P (elim o [ none ↦ m | some a ↦ f a ])
  option-Emits none hm hf = hm
  option-Emits (some a) hm hf = hf a

  pub outcome-Emits :
      {A B : Type 0} (o : Outcome A) {f : A → M E B} {g : Failure → M E B}
      → ((a : A) → Emits P (f a))
      → ((e : Failure) → Emits P (g e))
      → Emits P (elim o [ ok a ↦ f a | failed e ↦ g e ])
  outcome-Emits (ok a) hf hg = hf a
  outcome-Emits (failed e) hf hg = hg e

  pub read_clock-Emits : Emits P (read_clock out)
  read_clock-Emits = record { step = P.clock }

pub tell-only :
    {E : Type 0} (P : Event → Type 0) (out : Outside E) (event : Event)
    → P event
    → Emits (only out P) (tell out event)
unfolding tell
tell-only P out event p = record {
  step = λ w. record { events = event ∷ []; logged = refl; all = (p, tt) };
}
