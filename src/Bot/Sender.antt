-- ===== src/Bot/Sender.antt =====
-- `tgSender` of client/bot/main.go: keyboards with a fresh token for each button, and the calls of
-- the Telegram library.
pub mod Buttons
use seshat_tasks.Prelude.{Text, Option, none, some, List, [], ◌∷◌}
use seshat_tasks.Prelude.Int.{ℤ}
use seshat_tasks.Bot.Registry.{Action, put, put_prompt, get, get_by_prompt}
use seshat_tasks.Bot.Render.{Button, Keyboard}
use seshat_tasks.Bot.Effect.{
  other, ok, failed, Markup, sent, edited, answered, prompted, deleted_message, Outside, M, ◌>>=◌,
  ◌>>◌, pure, tell,
}

module _ {E : Type 0} (out : Outside E) where
  -- `Registry.Put`, with the token that the outside draws.
  unfoldable pub mint : Action → M E Text
  mint a w =
      let drawn = out.random w.outside in
      let r = put drawn.0 a w.registry in
      (
        elim r.0 [ none ↦ failed (other []) | some token ↦ ok token ],
        record w { outside = drawn.1; registry = r.1 },
      )

  unfoldable pub mint_row : List Button → M E (List (Text × Text))
  mint_row [] = pure []
  mint_row (b ∷ bs) = do token ← mint b.action; cells ← mint_row bs; pure ((b.label, token) ∷ cells)

  -- `keyboard`
  unfoldable pub mint_keyboard : Keyboard → M E Markup
  mint_keyboard [] = pure []
  mint_keyboard (row ∷ rows) = do
    cells ← mint_row row
    markup ← mint_keyboard rows
    pure (cells ∷ markup)

  unfoldable pub send : ℤ → Text → Keyboard → M E ℤ
  send chat text kb = do markup ← mint_keyboard kb; tell out (sent chat text markup)

  unfoldable pub edit : ℤ → ℤ → Text → Keyboard → M E (Unit {0})
  edit chat message text kb = do
    markup ← mint_keyboard kb
    tell out (edited chat message text markup)
    pure tt

  unfoldable pub answer : Text → Text → M E (Unit {0})
  answer callback text = do tell out (answered callback text); pure tt

  unfoldable pub prompt : ℤ → Text → M E ℤ
  prompt chat text = tell out (prompted chat text)

  unfoldable pub delete_message : ℤ → ℤ → M E (Unit {0})
  delete_message chat message = do tell out (deleted_message chat message); pure tt

-- The registry, as a part of the world.
unfoldable pub press : {E : Type 0} → Text → M E (Option Action)
press token w = let r = get token w.registry in (ok r.0, record w { registry = r.1 })

unfoldable pub recall_prompt : {E : Type 0} → ℤ → M E (Option Action)
recall_prompt id w = let r = get_by_prompt id w.registry in (ok r.0, record w { registry = r.1 })

unfoldable pub remember_prompt : {E : Type 0} → Action → ℤ → M E (Unit {0})
remember_prompt a id w = (ok tt, record w { registry = put_prompt a id w.registry })
