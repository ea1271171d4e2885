-- ===== src/Bot/Handlers/Callback/Answered.antt =====
-- A tap on a button has its answer in `HandleCallback`, whatever the handlers do after it.
use seshat_tasks.Prelude.{
  Text, lit, Bool, true, false, Option, none, some, List, [], ◌∷◌, ◌++◌, All, ◌≡◌, refl, ap, ◌∙◌,
}
use seshat_tasks.Prelude.Int.{ℤ}
use seshat_tasks.Bot.Registry.{Action, get}
use seshat_tasks.Bot.Effect.{
  Outcome, ok, failed, Event, requested, sent, edited, answered, prompted, deleted_message, Outside,
  World, follow, ◌>>=◌, pure, attempt, tell,
}
use seshat_tasks.Bot.Effect.Emits.{Adds, Adds-refl, only}
use seshat_tasks.Bot.Sender.{press, answer}
use seshat_tasks.Bot.Permits.{Permits, only-Permits}
use seshat_tasks.Bot.Permits.Replies.{route_kind-Emits}
use seshat_tasks.Bot.Handlers.Callback.{handle_found, handle_callback}

unfoldable pub is_answer : Event → Bool
is_answer (requested r) = false
is_answer (sent chat text markup) = false
is_answer (edited chat id text markup) = false
is_answer (answered callback text) = true
is_answer (prompted chat text) = false
is_answer (deleted_message chat id) = false

abbrev pub NotAnswer : Event → Type 0
NotAnswer e = is_answer e ≡ false

-- The handlers, and not the answer, with any chat and token.
quiet :
    {E : Type 0} (out : Outside E) (chat : ℤ) (token : Text)
    → Permits out (only out NotAnswer) chat token
unfolding is_answer
quiet out chat token =
    only-Permits out NotAnswer chat token (λ path body. refl) (λ text markup. refl)
      (λ id text markup. refl) (λ text. refl) (λ id. refl)

-- The text of the answer.
unfoldable pub answer_text : Option Action → Text
answer_text none = lit "That button has expired — send /list again"
answer_text (some a) = []

-- From one world to a later one, the tap has its answer first, and no other answer follows.
pub record AnswersOnce {E : Type 0} (callback text : Text) (w w' : World E) : Type 0 where
  pub later : List Event
  pub logged : w'.log ≡ later ++ (answered callback text ∷ w.log)
  pub no_other : All NotAnswer later

module _ {E : Type 0} where
  -- A last step that does nothing leaves the world, whatever came of the step before.
  follow-pure :
      {A : Type 0} (r : Outcome A) (w : World E) → (follow r (λ _. pure {A = Unit {0}} tt) w).1 ≡ w
  unfolding pure
  follow-pure (ok a) w = refl
  follow-pure (failed e) w = refl

  answer-log :
      (out : Outside E) (callback text : Text) (w : World E)
      → (answer out callback text w).1.log ≡ answered callback text ∷ w.log
  unfolding answer ◌>>=◌ tell
  answer-log out callback text w =
      ap (λ w'. w'.log) (follow-pure (tell out (answered callback text) w).0 _)

  -- The registry of the world before is no part of the claim.
  moved :
      {callback text : Text} {w u v : World E}
      → AnswersOnce callback text u v
      → u.log ≡ w.log
      → AnswersOnce callback text w v
  moved {callback} {text} a p = record {
    later = a.later;
    logged = a.logged ∙ ap (λ l. a.later ++ (answered callback text ∷ l)) p;
    no_other = a.no_other;
  }

  Adds-AnswersOnce :
      {callback text : Text} {w u v : World E}
      → u.log ≡ answered callback text ∷ w.log
      → Adds NotAnswer u v
      → AnswersOnce callback text w v
  Adds-AnswersOnce p a = record {
    later = a.events;
    logged = a.logged ∙ ap (λ l. a.events ++ l) p;
    no_other = a.all;
  }

module _ {E : Type 0} (out : Outside E) (offset_min chat message : ℤ) (callback token : Text) where
  handle_found-AnswersOnce :
      (found : Option Action) (w : World E)
      → AnswersOnce callback
          (answer_text found)
          w
          (handle_found out offset_min chat message callback token found w).1
  unfolding handle_found answer_text ◌>>=◌ attempt
  handle_found-AnswersOnce none w =
      Adds-AnswersOnce (answer-log out callback _ w) (Adds-refl NotAnswer _)
  handle_found-AnswersOnce (some a) w = Adds-AnswersOnce (answer-log out callback [] w) (
      (route_kind-Emits out offset_min (only out NotAnswer) chat token (quiet out chat token) a.kind
          message a).step
        _)

  -- A tap on a button has exactly one answer, and it goes out before anything else does: it is empty
  -- where the registry has the token of the button, and says that the button has expired where it
  -- has not. So it is for every kind of action, and whether or not the calls of the network fail.
  pub handle_callback-AnswersOnce :
      (pressed : Text) (w : World E)
      → AnswersOnce callback
          (answer_text (get pressed w.registry).0)
          w
          (handle_callback out offset_min chat message callback token pressed w).1
  unfolding handle_callback ◌>>=◌ press
  handle_callback-AnswersOnce pressed w =
      moved
        (handle_found-AnswersOnce (get pressed w.registry).0
          (record w { registry = (get pressed w.registry).1 }))
        refl
