-- ===== src/Bot/Permits.antt =====
-- What may go out for one chat with one token, in the requests of client/bot/seshat.go and the calls
-- of client/bot/main.go. Both are a part of each handler.
pub mod Handlers
pub mod Edits
pub mod Replies
pub mod Updates
use seshat_tasks.Server.Http.{Request}
use seshat_tasks.Prelude.{Text, lit, Option, none, some, List, [], ◌∷◌, refl}
use seshat_tasks.Prelude.Int.{ℤ}
use seshat_tasks.Task.{AddRequest, UpdateOp}
use seshat_tasks.Bot.Registry.{Action, put}
use seshat_tasks.Bot.Render.{Button, Keyboard}
use seshat_tasks.Bot.Effect.{
  other, Event, requested, sent, edited, prompted, deleted_message, Outside, tell,
}
use seshat_tasks.Bot.Effect.Emits.{
  Policy, only, Emits, pure-Emits, fail-Emits, bind-Emits, tell-only,
}
use seshat_tasks.Bot.Client.{
  exchange, request_to, decoded_or, client_get, client_add, client_update, client_delete,
}
use seshat_tasks.Bot.Sender.{mint, mint_row, mint_keyboard, send, edit, prompt, delete_message}

-- What a handler may always do for a chat and a token: fetch the tasks, and call Telegram.
pub record Reads {E : Type 0} (out : Outside E) (P : Policy out) (chat : ℤ) (token : Text)
    : Type 0 where
  pub gets : Emits P (exchange out (request_to (lit "/api/tasks/get") token []))
  pub sends :
      (text : Text) (markup : List (List (Text × Text)))
      → Emits P (tell out (sent chat text markup))
  pub edits :
      (id : ℤ) (text : Text) (markup : List (List (Text × Text)))
      → Emits P (tell out (edited chat id text markup))
  pub prompts : (text : Text) → Emits P (tell out (prompted chat text))
  pub deletes : (id : ℤ) → Emits P (tell out (deleted_message chat id))

-- The requests that change tasks, too.
pub record Permits {E : Type 0} (out : Outside E) (P : Policy out) (chat : ℤ) (token : Text)
    : Type 0 where
  pub reads : Reads out P chat token
  pub writes : (path body : Text) → Emits P (exchange out (request_to path token body))

exchange-only :
    {E : Type 0} (out : Outside E) (Q : Event → Type 0) (r : Request)
    → Q (requested r)
    → Emits (only out Q) (exchange out r)
unfolding exchange
exchange-only out Q r q = record {
  step = λ w. record { events = requested r ∷ []; logged = refl; all = (q, tt) };
}

-- Where only the events that go out matter.
pub only-Permits :
    {E : Type 0} (out : Outside E) (Q : Event → Type 0) (chat : ℤ) (token : Text)
    → ((path body : Text) → Q (requested (request_to path token body)))
    → ((text : Text) (markup : List (List (Text × Text))) → Q (sent chat text markup))
    → ((id : ℤ) (text : Text) (markup : List (List (Text × Text))) → Q (edited chat id text markup))
    → ((text : Text) → Q (prompted chat text))
    → ((id : ℤ) → Q (deleted_message chat id))
    → Permits out (only out Q) chat token
only-Permits out Q chat token r s e p d = record {
  reads = record {
    gets = exchange-only out Q _ (r _ _);
    sends = λ text markup. tell-only Q out _ (s text markup);
    edits = λ id text markup. tell-only Q out _ (e id text markup);
    prompts = λ text. tell-only Q out _ (p text);
    deletes = λ id. tell-only Q out _ (d id);
  };
  writes = λ path body. exchange-only out Q _ (r path body);
}

decoded_or-Emits :
    {E A : Type 0} {out : Outside E} (P : Policy out) (o : Option A)
    → Emits {E = E} P (decoded_or o)
unfolding decoded_or
decoded_or-Emits P none = fail-Emits P (other [])
decoded_or-Emits P (some a) = pure-Emits P a

pub client_update-Emits :
    {E : Type 0} (out : Outside E) (P : Policy out) (token : Text) (ops : List UpdateOp)
    → Emits P (exchange out (request_to (lit "/api/tasks/update") token (out.encode_update ops)))
    → Emits P (client_update out token ops)
unfolding client_update
client_update-Emits out P token ops h = bind-Emits P h (λ body. decoded_or-Emits P _)

module _ {E : Type 0} (out : Outside E) (P : Policy out) (chat : ℤ) (token : Text)
    (reads : Reads out P chat token) where
  pub client_get-Emits : Emits P (client_get out token)
  unfolding client_get
  client_get-Emits = bind-Emits P reads.gets (λ body. decoded_or-Emits P _)

  mint-Emits : (a : Action) → Emits P (mint out a)
  unfolding mint
  mint-Emits a = record { step = λ w. P.random w (put (out.random w.outside).0 a w.registry).1 }

  mint_row-Emits : (bs : List Button) → Emits P (mint_row out bs)
  unfolding mint_row
  mint_row-Emits [] = pure-Emits P []
  mint_row-Emits (b ∷ bs) =
      bind-Emits P (mint-Emits b.action)
        λ token. bind-Emits P (mint_row-Emits bs) (λ cells. pure-Emits P _)

  mint_keyboard-Emits : (kb : Keyboard) → Emits P (mint_keyboard out kb)
  unfolding mint_keyboard
  mint_keyboard-Emits [] = pure-Emits P []
  mint_keyboard-Emits (row ∷ rows) =
      bind-Emits P (mint_row-Emits row)
        λ cells. bind-Emits P (mint_keyboard-Emits rows) (λ markup. pure-Emits P _)

  pub send-Emits : (text : Text) (kb : Keyboard) → Emits P (send out chat text kb)
  unfolding send
  send-Emits text kb = bind-Emits P (mint_keyboard-Emits kb) (λ markup. reads.sends text markup)

  pub edit-Emits : (id : ℤ) (text : Text) (kb : Keyboard) → Emits P (edit out chat id text kb)
  unfolding edit
  edit-Emits id text kb =
      bind-Emits P (mint_keyboard-Emits kb)
        λ markup. bind-Emits P (reads.edits id text markup) (λ _. pure-Emits P tt)

  pub prompt-Emits : (text : Text) → Emits P (prompt out chat text)
  unfolding prompt
  prompt-Emits text = reads.prompts text

  pub delete_message-Emits : (id : ℤ) → Emits P (delete_message out chat id)
  unfolding delete_message
  delete_message-Emits id = bind-Emits P (reads.deletes id) (λ _. pure-Emits P tt)

module _ {E : Type 0} (out : Outside E) (P : Policy out) (chat : ℤ) (token : Text)
    (permits : Permits out P chat token) where
  pub client_add-Emits : (req : AddRequest) → Emits P (client_add out token req)
  unfolding client_add
  client_add-Emits req = bind-Emits P (permits.writes _ _) (λ body. decoded_or-Emits P _)

  pub client_delete-Emits : (id : Text) → Emits P (client_delete out token id)
  unfolding client_delete
  client_delete-Emits id = bind-Emits P (permits.writes _ _) (λ body. pure-Emits P tt)
