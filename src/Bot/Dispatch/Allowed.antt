-- ===== src/Bot/Dispatch/Allowed.antt =====
-- For whom the bot of client/bot/main.go acts: what goes out belongs to an update of an allowed user.
use mathlib.Core.List.{Mem, mem-cons_self, mem-cons_of_mem}
use seshat_tasks.Prelude.{Text, Option, none, some, List, [], ◌∷◌, ◌≡◌, refl, sym, ap}
use seshat_tasks.Prelude.Int.{ℤ}
use seshat_tasks.Bot.Settings.{Config}
use seshat_tasks.Bot.Effect.{
  Event, requested, sent, edited, answered, prompted, deleted_message, Outside, World,
}
use seshat_tasks.Bot.Effect.Emits.{Adds, Adds-refl, Adds-trans, Adds-weaken, only, tell-only}
use seshat_tasks.Bot.Permits.{only-Permits}
use seshat_tasks.Bot.Permits.Updates.{on_parts-Emits}
use seshat_tasks.Bot.Dispatch.{
  Callback, Update, Sender, admitted, dispatch_as, dispatch, dispatch_all,
}

-- Whether an event is for a chat, with a token, and an answer to a tap.
unfoldable pub Serves : Text → ℤ → Text → Event → Type 0
Serves callback chat token (requested r) = r.authorization ≡ token
Serves callback chat token (sent to text markup) = to ≡ chat
Serves callback chat token (edited to id text markup) = to ≡ chat
Serves callback chat token (answered id text) = id ≡ callback
Serves callback chat token (prompted to text) = to ≡ chat
Serves callback chat token (deleted_message to id) = to ≡ chat

abbrev pub tap_id : Option Callback → Text
tap_id none = []
tap_id (some c) = c.id

abbrev pub callback_id : Update → Text
callback_id u = tap_id u.callback

-- An event that one of the updates causes: it is from a user with a token, and the event is for the
-- chat of the update, with this token.
pub record CausedBy (c : Config) (us : List Update) (e : Event) : Type 0 where
  pub update : Update
  pub sender : Sender
  pub token : Text
  pub handled : Mem update us
  pub allowed : admitted c update ≡ some (sender, token)
  pub serves : Serves (callback_id update) sender.chat token e

causes :
    {c : Config} {us : List Update} (u : Update) (s : Sender) (token : Text) (e : Event)
    → admitted c u ≡ some (s, token)
    → Serves (callback_id u) s.chat token e
    → CausedBy c (u ∷ us) e
causes u s token e p serves = record {
  update = u;
  sender = s;
  token = token;
  handled = mem-cons_self;
  allowed = p;
  serves = serves;
}

CausedBy-later :
    {c : Config} {us : List Update} (u : Update) (e : Event)
    → CausedBy c us e
    → CausedBy c (u ∷ us) e
CausedBy-later u e h = record {
  update = h.update;
  sender = h.sender;
  token = h.token;
  handled = mem-cons_of_mem u h.handled;
  allowed = h.allowed;
  serves = h.serves;
}

module _ {E : Type 0} (out : Outside E) (c : Config) (bot_id : ℤ) where
  dispatch_as-CausedBy :
      (found : Option (Sender × Text)) (u : Update) (us : List Update) (w : World E)
      → admitted c u ≡ found
      → Adds (CausedBy c (u ∷ us)) w (dispatch_as out c bot_id found u w)
  unfolding dispatch_as Serves
  dispatch_as-CausedBy none u us w p = Adds-refl _ w
  dispatch_as-CausedBy (some (s, token)) u us w p =
      (on_parts-Emits out c bot_id (only out (CausedBy c (u ∷ us))) s.chat token
          (only-Permits out _ s.chat token (λ path body. causes u s token _ p refl)
            (λ text markup. causes u s token _ p refl) (λ id text markup. causes u s token _ p refl)
            (λ text. causes u s token _ p refl) (λ id. causes u s token _ p refl))
          u.callback u.message
          (λ cq q text. tell-only _ out _ (causes u s token _ p (sym (ap tap_id q))))).step
        w

  -- While a list of updates is handled, each event that goes out is for one of these updates: the
  -- sender of that update is on the allowlist and in a private chat; a request carries the token of
  -- this sender, a call of Telegram is for the sender's chat, and an answer is for the update's tap.
  pub dispatch_all-CausedBy :
      (us : List Update) (w : World E) → Adds (CausedBy c us) w (dispatch_all out c bot_id us w)
  unfolding dispatch_all dispatch
  dispatch_all-CausedBy [] w = Adds-refl _ w
  dispatch_all-CausedBy (u ∷ us) w =
      Adds-trans _ w (dispatch out c bot_id u w) _ (dispatch_as-CausedBy (admitted c u) u us w refl)
        (Adds-weaken (CausedBy-later u) (dispatch_all-CausedBy us (dispatch out c bot_id u w)))
