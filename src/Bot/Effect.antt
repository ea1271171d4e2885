-- ===== src/Bot/Effect.antt =====
-- What the bot does to the world outside: one state that its handlers pass on. `Outside` is the code
-- that the bot calls and that is not in the repository: the network between the bot and the server,
-- the Telegram library, the source of randomness, the clock, JSON, and the Unicode tables.
pub mod Emits
use seshat_tasks.Prelude.{ℕ, Text, Option, none, some, List, [], ◌∷◌}
use seshat_tasks.Prelude.Int.{ℤ}
use seshat_tasks.Task.{Task, AddRequest, UpdateOp}
use seshat_tasks.Server.Http.{Request, Response, Body}
use seshat_tasks.Bot.Registry.{Registry}

-- An error: an `APIError` with its status and message, `errTaskGone`, or any other.
pub data Failure : Type 0 where
  api : ℕ → Text → Failure
  task_gone : Failure
  other : Text → Failure

pub data Outcome (A : Type 0) : Type 0 where
  ok : A → Outcome A
  failed : Failure → Outcome A

-- The rows of an inline keyboard, each button with its label and its callback data.
abbrev pub Markup : Type 0
Markup = List (List (Text × Text))

-- What goes out: a request to the server, or a call of the Telegram library.
pub data Event : Type 0 where
  requested : Request → Event
  sent : ℤ → Text → Markup → Event
  edited : ℤ → ℤ → Text → Markup → Event
  answered : Text → Text → Event
  prompted : ℤ → Text → Event
  deleted_message : ℤ → ℤ → Event

-- `exchange` gives none where no response arrives. `telegram` gives the id of the message, or none
-- for an error. `random` is an encoded token, or none where the source fails.
pub record Outside (E : Type 0) : Type 0 where
  pub exchange : Request → E → Option Response × E
  pub telegram : Event → E → Option ℤ × E
  pub random : E → Option Text × E
  pub clock : E → ℤ × E
  pub encode_add : AddRequest → Text
  pub encode_update : List UpdateOp → Text
  pub encode_delete : Text → Text
  pub decode_tasks : Body → Option (List Task)
  pub decode_task : Body → Option Task
  pub error_key : ℕ → Body → Text
  pub to_lower : Text → Text

-- `log` has what went out, the last first.
pub record World (E : Type 0) : Type 0 where
  pub outside : E
  pub registry : Registry
  pub log : List Event

abbrev pub M : Type 0 → Type 0 → Type 0
M E A = World E → Outcome A × World E

-- What follows a step.
abbrev pub follow : {E A B : Type 0} → Outcome A → (A → M E B) → M E B
follow (ok a) f w = f a w
follow (failed e) f w = (failed e, w)

infixl 5 ◌>>=◌ ◌>>◌
unfoldable pub ◌>>=◌ : {E A B : Type 0} → M E A → (A → M E B) → M E B
◌>>=◌ m f w = follow (m w).0 f (m w).1

abbrev pub ◌>>◌ : {E A B : Type 0} → M E A → M E B → M E B
m >> k = m >>= λ _. k

module _ {E A : Type 0} where
  unfoldable pub pure : A → M E A
  pure a w = (ok a, w)

  unfoldable pub fail : Failure → M E A
  fail e w = (failed e, w)

  -- A step whose error the caller inspects.
  unfoldable pub attempt : M E A → M E (Outcome A)
  attempt m w = (ok (m w).0, (m w).1)

-- A call of the Telegram library.
unfoldable pub tell : {E : Type 0} → Outside E → Event → M E ℤ
tell out event w =
    let r = out.telegram event w.outside in
    (
      elim r.0 [ none ↦ failed (other []) | some id ↦ ok id ],
      record w { outside = r.1; log = event ∷ w.log },
    )

unfoldable pub read_clock : {E : Type 0} → Outside E → M E ℤ
read_clock out w = let r = out.clock w.outside in (ok r.0, record w { outside = r.1 })
