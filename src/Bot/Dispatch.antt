-- ===== src/Bot/Dispatch.antt =====
-- The dispatch of client/bot/main.go: from an update of Telegram to a handler. A panic is not
-- modelled: no function of the model panics.
pub mod Allowed
pub mod Strangers
use seshat_tasks.Prelude.{
  ℕ, Text, lit, ◌==◌, Bool, true, false, not, ◌&&◌, Option, none, some, List, [], ◌∷◌,
  if◌then◌else◌,
}
use seshat_tasks.Prelude.Int.{ℤ, pos, eqb_ℤ}
use seshat_tasks.Bot.Settings.{Config, authorize}
use seshat_tasks.Bot.Parse.{parse_command}
use seshat_tasks.Bot.Effect.{Outcome, ok, failed, Outside, World, M, ◌>>=◌, ◌>>◌, pure}
use seshat_tasks.Bot.Handlers.{say, handle_start, show_list, capture}
use seshat_tasks.Bot.Handlers.Reply.{handle_reply}
use seshat_tasks.Bot.Handlers.Callback.{handle_callback}

-- The parts of `models.Update` that the bot reads. Telegram leaves a sender or a message out where
-- it is not known.
pub record ReplyTarget : Type 0 where
  pub id : ℤ
  pub from_id : Option ℤ

pub record Message : Type 0 where
  pub id : ℤ
  pub from_id : Option ℤ
  pub chat_id : ℤ
  pub chat_type : Text
  pub text : Text
  pub reply_to : Option ReplyTarget

pub record Callback : Type 0 where
  pub id : Text
  pub from_id : ℤ
  pub message : Option Message
  pub pressed : Text

pub record Update : Type 0 where
  pub message : Option Message
  pub callback : Option Callback

-- Who sent an update, and where: user, chat and type of chat.
pub record Sender : Type 0 where
  pub user : ℤ
  pub chat : ℤ
  pub chat_type : Text

unfoldable pub callback_sender : Option Callback → Option Sender
callback_sender none = none
callback_sender (some c) = elim c.message [
  | none ↦ none
  | some m ↦ some (record { user = c.from_id; chat = m.chat_id; chat_type = m.chat_type })
]

unfoldable pub message_sender : Option Message → Option Sender
message_sender none = none
message_sender (some m) = elim m.from_id [
  | none ↦ none
  | some user ↦ some (record { user = user; chat = m.chat_id; chat_type = m.chat_type })
]

-- `senderID`: a message with its sender comes first.
unfoldable pub sender_of : Update → Option Sender
sender_of u = elim (message_sender u.message) [
  | none ↦ callback_sender u.callback
  | some s ↦ some s
]

-- `replyTargetSender`, with 0 for unknown.
unfoldable pub reply_target_sender : Message → ℤ
reply_target_sender m = elim m.reply_to [
  | none ↦ pos 0
  | some target ↦ elim target.from_id [ none ↦ pos 0 | some id ↦ id ]
]

-- `shouldRouteReplyToHandler`
unfoldable pub is_reply_to_bot : ℤ → ℤ → Bool
is_reply_to_bot reply_from_id bot_id =
    not (eqb_ℤ reply_from_id (pos 0)) && eqb_ℤ reply_from_id bot_id

-- Who an update is from, with the token that the configuration has for them.
unfoldable pub admitted : Config → Update → Option (Sender × Text)
admitted c u = elim (sender_of u) [
  | none ↦ none
  | some s ↦ elim (authorize c s.user s.chat_type) [ none ↦ none | some token ↦ some (s, token) ]
]

module _ {E : Type 0} (out : Outside E) (c : Config) (bot_id : ℤ) where
  unfoldable pub run_command : ℤ → Text → Text → Text → M E (Unit {0})
  run_command chat token name arg =
      if name == lit "start"
      then handle_start out c.offset_minutes chat
      else if name == lit "help"
      then handle_start out c.offset_minutes chat
      else if name == lit "list"
      then show_list out c.offset_minutes chat (pos 0) token [] (pos 0)
      else if name == lit "find"
      then if arg == []
        then say out c.offset_minutes chat (lit "Usage: <code>/find some words</code>") []
        else show_list out c.offset_minutes chat (pos 0) token arg (pos 0)
      else say out c.offset_minutes chat
          (lit "Unknown command. Try /list, /find, /start, or /help.") []

  unfoldable pub on_text : ℤ → Text → Message → M E (Unit {0})
  on_text chat token m = elim m.reply_to [
    | none ↦ capture out c.offset_minutes chat token m.text []
    | some target ↦
        if is_reply_to_bot (reply_target_sender m) bot_id
        then handle_reply out c.offset_minutes chat target.id token m.text
        else capture out c.offset_minutes chat token m.text []
  ]

  unfoldable pub on_message : ℤ → Text → Message → M E (Unit {0})
  on_message chat token m = elim (parse_command out.to_lower m.text) [
    | some (name, arg) ↦ run_command chat token name arg
    | none ↦ on_text chat token m
  ]

  unfoldable pub on_callback : ℤ → Text → Callback → M E (Unit {0})
  on_callback chat token cq =
      let message_id : ℤ = elim cq.message [ none ↦ pos 0 | some m ↦ m.id ] in
      handle_callback out c.offset_minutes chat message_id cq.id token cq.pressed

  unfoldable pub on_parts : ℤ → Text → Option Callback → Option Message → M E (Unit {0})
  on_parts chat token (some cq) m = on_callback chat token cq
  on_parts chat token none (some m) = on_message chat token m
  on_parts chat token none none = pure tt

  -- The handler of `dispatch`: a tap comes first.
  abbrev pub on_update : ℤ → Text → Update → M E (Unit {0})
  on_update chat token u = on_parts chat token u.callback u.message

  unfoldable pub dispatch_as : Option (Sender × Text) → Update → World E → World E
  dispatch_as none u w = w
  dispatch_as (some (s, token)) u w = (on_update s.chat token u w).1

  -- `authMW` and then `dispatch`, which makes the same test; an error is only logged.
  unfoldable pub dispatch : Update → World E → World E
  dispatch u w = dispatch_as (admitted c u) u w

  -- Updates in the order in which they are handled.
  unfoldable pub dispatch_all : List Update → World E → World E
  dispatch_all [] w = w
  dispatch_all (u ∷ us) w = dispatch_all us (dispatch u w)
