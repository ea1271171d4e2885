-- ===== src/Bot/HandlerTests.antt =====
-- The bot with an outside where every call works and the server has one task; the state of this
-- outside counts the calls, and names the tokens.
use seshat_tasks.Prelude.{
  ◌≤◌, length, Text, lit, true, none, some, List, [], ◌∷◌, ℕ, suc, All, ◌≡◌, ◌++◌, ◌==◌, utf8,
  arith, refl, subst, Option,
}
use seshat_tasks.Prelude.Int.{ℤ, pos}
use seshat_tasks.Task.{Task, empty_task}
use seshat_tasks.Server.Http.{reply, empty}
use seshat_tasks.Bot.Registry.{get}
use seshat_tasks.Bot.RegistryTests.{action, one_button, one_button-Reached}
use seshat_tasks.Bot.Settings.{Config}
use seshat_tasks.Bot.Registry.{
  action_prefix, put, insert, push_front, evict, unindex, value_of, ll_remove, ll_back,
}
use seshat_tasks.Bot.Registry.Lasting.{here}
use seshat_tasks.Bot.Render.{Keyboard}
use seshat_tasks.Bot.Sender.{mint, mint_row, mint_keyboard}
use seshat_tasks.Bot.Sender.Buttons.{FreshAll, Works, mint_keyboard-Works}
use seshat_tasks.Bot.Effect.{ok, Markup, ◌>>=◌, pure, Outside, World}
use seshat_tasks.Bot.Effect.Emits.{Adds}
use seshat_tasks.Bot.Handlers.Callback.{handle_callback}
use seshat_tasks.Bot.Handlers.Callback.Answered.{
  AnswersOnce, answer_text, handle_callback-AnswersOnce,
}
use seshat_tasks.Bot.Text.{repeat}
use seshat_tasks.Bot.Page.{Page}
use seshat_tasks.Bot.Render.{render_page}
use seshat_tasks.Bot.Render.Size.{render_page-length}
use seshat_tasks.Bot.Render.Card.{Origin, card_text, delete_confirm_text}
use seshat_tasks.Bot.Render.Reader.{read_html}
use seshat_tasks.Bot.Render.Shown.{shown_card, shown_page, shown_question}
use seshat_tasks.Bot.Render.Messages.{render-read_html}
use seshat_tasks.Bot.View.{build_index}
use seshat_tasks.Bot.Render.Accepted.{IsAccepted, card, keyboard_of, keyboard_of-IsAccepted}
use seshat_tasks.Bot.Dispatch.{Message, Update, dispatch_all}
use seshat_tasks.Bot.Dispatch.Allowed.{CausedBy, dispatch_all-CausedBy}

abbrev pub office : Outside ℕ
office = record {
  exchange = λ r n. (some (reply 200 none empty), suc n);
  telegram = λ event n. (some (pos n), suc n);
  random = λ n. (some (n ∷ []), suc n);
  clock = λ n. (pos 86400, n);
  encode_add = λ req. req.content.title;
  encode_update = λ ops. [];
  encode_delete = λ id. id;
  decode_tasks = λ body. some (record empty_task { id = lit "A" } ∷ []);
  decode_task = λ body. some (record empty_task { id = lit "A" });
  error_key = λ limit body. [];
  to_lower = λ s. s;
}

abbrev pub morning : World ℕ
morning = record { outside = 0; registry = one_button; log = [] }

abbrev pub config : Config
config = record {
  server_url = lit "http://localhost";
  users = (pos 7, lit "secret") ∷ [];
  offset_minutes = pos 60;
}

abbrev pub message : ℤ → Text → Message
message user text = record {
  id = pos 1;
  from_id = some user;
  chat_id = user;
  chat_type = lit "private";
  text = text;
  reply_to = none;
}

abbrev tap : Update
tap = record {
  message = none;
  callback = some (record {
    id = lit "tap";
    from_id = pos 7;
    message = some (message (pos 7) []);
    pressed = lit "x";
  });
}

abbrev pub says : ℤ → Text → Update
says user text = record { message = some (message user text); callback = none }

-- A stranger, a new task, a listing and a tap.
abbrev updates : List Update
updates =
    says (pos 8) (lit "/list")
    ∷ says (pos 7) (lit "Buy milk")
    ∷ says (pos 7) (lit "/list")
    ∷ tap
    ∷ []

handle_callback-AnswersOnce_example :
    AnswersOnce
      (lit "tap")
      (answer_text (get (lit "x") one_button).0)
      morning
      (handle_callback office
        (pos 60)
        (pos 7)
        (pos 1)
        (lit "tap")
        (lit "secret")
        (lit "x")
        morning).1
handle_callback-AnswersOnce_example =
    handle_callback-AnswersOnce office (pos 60) (pos 7) (pos 1) (lit "tap") (lit "secret") (lit "x")
      morning

dispatch_all-CausedBy_example :
    Adds (CausedBy config updates) morning (dispatch_all office config (pos 9) updates morning)
dispatch_all-CausedBy_example = dispatch_all-CausedBy office config (pos 9) updates morning

abbrev from_list : Origin
from_list = record { has_list = true; page = pos 2; query = lit "milk" }

keyboard_of-IsAccepted_example : All (All IsAccepted) (keyboard_of (card empty_task from_list))
keyboard_of-IsAccepted_example = keyboard_of-IsAccepted (card empty_task from_list)

abbrev wordy : Page
wordy = record {
  rows =
      record {
        task = record empty_task {
          content = record empty_task.content { title = repeat (lit "x") 5000 };
        };
        depth = 0;
        parent_title = [];
      }
      ∷ [];
  index = 0;
  count = 1;
  overflow = 0;
}

-- A task whose texts look like markup, and its card.
abbrev tagged : Task
tagged = record empty_task {
  id = lit "A";
  content = record empty_task.content {
    title = lit "<b>R&D</b> \"quoted\"";
    description = lit "1 < 2 && </code>";
    tags = lit "<i>" ∷ [];
  };
}

render-read_html_example :
    (read_html (card_text tagged (build_index (tagged ∷ [])) (pos 0) (pos 0))
      ≡ (shown_card tagged (build_index (tagged ∷ [])) (pos 0) (pos 0), true))
    × (read_html (render_page wordy (lit "a<b") 0 (pos 0) (pos 0)).0
        ≡ (shown_page wordy (lit "a<b") 0 (pos 0) (pos 0), true))
    × (read_html (delete_confirm_text tagged) ≡ (shown_question tagged, true))
render-read_html_example =
    render-read_html tagged (build_index (tagged ∷ [])) wordy (lit "a<b") 0 (pos 0) (pos 0)

render_page-length_example :
    All
      (λ r. length r.task.content.title ≤ length (render_page wordy [] 0 (pos 0) (pos 0)).0)
      wordy.rows
render_page-length_example = render_page-length wordy [] 0 (pos 0) (pos 0)

-- Two buttons in two rows, for the registry with one button and room for two.
abbrev two_buttons : Keyboard
two_buttons =
    (record { label = lit "one"; action = action } ∷ [])
    ∷ ((record { label = lit "two"; action = record action { task_id = lit "B" } } ∷ []) ∷ [])

abbrev minted : World ℕ
minted = (mint_keyboard office two_buttons morning).1

abbrev drawn : Markup
drawn =
    ((lit "one", action_prefix ++ (0 ∷ [])) ∷ [])
    ∷ (((lit "two", action_prefix ++ (1 ∷ [])) ∷ []) ∷ [])

fresh_token :
    (tokens : Text → Option ℕ) (t random : Text)
    → tokens (action_prefix ++ t) ≡ none
    → ◌≡◌ {A = Option Text} (some t) (some random)
    → tokens (action_prefix ++ random) ≡ none
fresh_token tokens t random fresh e =
    let same : t ≡ random = cc e in subst (λ x. tokens (action_prefix ++ x) ≡ none) same fresh

fresh_draws : FreshAll office two_buttons morning
unfolding put insert push_front evict unindex mint mint_row value_of ll_remove ll_back lit utf8 ◌==◌
    ◌>>=◌ pure
fresh_draws = (
  (λ random e. fresh_token morning.registry.by_token (0 ∷ []) random refl e, tt),
  (
    (
      λ random e.
          fresh_token
            (mint_row office (record { label = lit "one"; action = action } ∷ [])
              morning).1.registry.by_token
            (1 ∷ []) random refl e,
      tt,
    ),
    tt,
  ),
)

mints : mint_keyboard office two_buttons morning ≡ (ok drawn, minted)
unfolding mint mint_row mint_keyboard put lit utf8 ◌>>=◌ pure
mints = refl

mint_keyboard-Works_example : Works two_buttons drawn minted.registry
mint_keyboard-Works_example =
    mint_keyboard-Works office two_buttons morning minted drawn minted.registry one_button-Reached
      fresh_draws mints (here _) (omega arith)
