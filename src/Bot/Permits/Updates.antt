-- ===== src/Bot/Permits/Updates.antt =====
-- What the handling of one update in client/bot/main.go lets out.
use seshat_tasks.Prelude.{Text, lit, ◌==◌, Option, none, some, [], ◌≡◌, refl}
use seshat_tasks.Prelude.Int.{ℤ, pos}
use seshat_tasks.Bot.Parse.{parse_command}
use seshat_tasks.Bot.Settings.{Config}
use seshat_tasks.Bot.Registry.{Action}
use seshat_tasks.Bot.Effect.{answered, Outside, tell}
use seshat_tasks.Bot.Effect.Emits.{
  Policy, Emits, pure-Emits, bind-Emits, attempt-Emits, if-Emits, option-Emits,
}
use seshat_tasks.Bot.Sender.{answer}
use seshat_tasks.Bot.Permits.{Permits}
use seshat_tasks.Bot.Permits.Handlers.{
  say-Emits, handle_start-Emits, capture-Emits, show_list-Emits,
}
use seshat_tasks.Bot.Permits.Replies.{press-Emits, handle_reply-Emits, route_kind-Emits}
use seshat_tasks.Bot.Handlers.Callback.{handle_found, handle_callback}
use seshat_tasks.Bot.Dispatch.{
  Message, Callback, run_command, on_text, on_message, on_callback, on_parts,
}

module _ {E : Type 0} (out : Outside E) (c : Config) (bot_id : ℤ) (P : Policy out) (chat : ℤ)
    (token : Text) (permits : Permits out P chat token) where
  run_command-Emits : (name arg : Text) → Emits P (run_command out c bot_id chat token name arg)
  unfolding run_command
  run_command-Emits name arg =
      if-Emits P (name == lit "start")
        (handle_start-Emits out c.offset_minutes P chat token permits.reads)
        (if-Emits P (name == lit "help")
          (handle_start-Emits out c.offset_minutes P chat token permits.reads)
          (if-Emits P (name == lit "list")
            (show_list-Emits out c.offset_minutes P chat token permits.reads (pos 0) [] (pos 0))
            (if-Emits P (name == lit "find")
              (if-Emits P (arg == [])
                (say-Emits out c.offset_minutes P chat token permits.reads
                  (lit "Usage: <code>/find some words</code>") [])
                (show_list-Emits out c.offset_minutes P chat token permits.reads (pos 0) arg
                  (pos 0)))
              (say-Emits out c.offset_minutes P chat token permits.reads
                (lit "Unknown command. Try /list, /find, /start, or /help.") []))))

  on_text-Emits : (m : Message) → Emits P (on_text out c bot_id chat token m)
  unfolding on_text
  on_text-Emits m =
      option-Emits P m.reply_to (capture-Emits out c.offset_minutes P chat token permits _ [])
        λ target.
          if-Emits P _
            (handle_reply-Emits out c.offset_minutes P chat token permits target.id m.text)
            (capture-Emits out c.offset_minutes P chat token permits _ [])

  on_message-Emits : (m : Message) → Emits P (on_message out c bot_id chat token m)
  unfolding on_message
  on_message-Emits m =
      option-Emits P (parse_command out.to_lower m.text) (on_text-Emits m)
        (λ ca. run_command-Emits ca.0 ca.1)

  handle_found-Emits :
      (callback : Text) (message : ℤ) (found : Option Action)
      → ((text : Text) → Emits P (tell out (answered callback text)))
      → Emits P (handle_found out c.offset_minutes chat message callback token found)
  unfolding handle_found answer
  handle_found-Emits callback message none answers = bind-Emits P (answers _) (λ _. pure-Emits P tt)
  handle_found-Emits callback message (some a) answers =
      bind-Emits P (attempt-Emits P (bind-Emits P (answers _) (λ _. pure-Emits P tt)))
        (λ _. route_kind-Emits out c.offset_minutes P chat token permits a.kind message a)

  on_callback-Emits :
      (cq : Callback)
      → ((text : Text) → Emits P (tell out (answered cq.id text)))
      → Emits P (on_callback out c bot_id chat token cq)
  unfolding on_callback handle_callback
  on_callback-Emits cq answers =
      bind-Emits P (press-Emits P cq.pressed) (λ found. handle_found-Emits cq.id _ found answers)

  pub on_parts-Emits :
      (callback : Option Callback) (m : Option Message)
      → ((cq : Callback)
          → callback ≡ some cq
          → (text : Text) → Emits P (tell out (answered cq.id text)))
      → Emits P (on_parts out c bot_id chat token callback m)
  unfolding on_parts
  on_parts-Emits (some cq) m answers = on_callback-Emits cq (answers cq refl)
  on_parts-Emits none (some m) answers = on_message-Emits m
  on_parts-Emits none none answers = pure-Emits P tt
