-- ===== src/Bot/Render/Escape.antt =====
-- `EscapeHTML` of client/bot/render.go, byte by byte.
use seshat_tasks.Prelude.{
  ℕ, Text, lit, utf8, eqb, [], ◌∷◌, ◌++◌, ◌≤◌, length, length-append, if◌then◌else◌, ◌≡◌, refl, ap,
  ◌∙◌, sym, arith,
}
use mathlib.Core.List.{append_assoc}
use seshat_tasks.Bot.Text.{replace_all}
use seshat_tasks.Bot.Render.{escape_html}

-- What becomes of one byte.
abbrev pub entity : ℕ → Text
entity a =
    if eqb a b'&'
    then lit "&amp;"
    else if eqb a b'<'
    then lit "&lt;"
    else if eqb a b'>'
    then lit "&gt;"
    else if eqb a b'"'
    then lit "&quot;"
    else a ∷ []

replace_all-append :
    (old : ℕ) (new s t : Text)
    → replace_all old new (s ++ t) ≡ replace_all old new s ++ replace_all old new t
unfolding replace_all
replace_all-append old new [] t = refl
replace_all-append old new (a ∷ s) t =
    ap (λ r. (if eqb a old then new else a ∷ []) ++ r) (replace_all-append old new s t)
    ∙ sym (
        append_assoc (if eqb a old then new else a ∷ []) (replace_all old new s)
          (replace_all old new t))

escape_html-append : (s t : Text) → escape_html (s ++ t) ≡ escape_html s ++ escape_html t
unfolding escape_html
escape_html-append s t =
    ap
      (λ r.
        replace_all b'"' (lit "&quot;")
          (replace_all b'>' (lit "&gt;") (replace_all b'<' (lit "&lt;") r)))
      (replace_all-append b'&' _ s t)
    ∙ ap (λ r. replace_all b'"' (lit "&quot;") (replace_all b'>' (lit "&gt;") r))
        (replace_all-append b'<' _ _ _)
    ∙ ap (replace_all b'"' (lit "&quot;")) (replace_all-append b'>' _ _ _)
    ∙ replace_all-append b'"' _ _ _

escape_html-byte : (a : ℕ) → escape_html (a ∷ []) ≡ entity a
unfolding escape_html replace_all lit utf8
escape_html-byte a = ground arith

pub escape_html-cons : (a : ℕ) (s : Text) → escape_html (a ∷ s) ≡ entity a ++ escape_html s
escape_html-cons a s =
    escape_html-append (a ∷ []) s ∙ ap (λ r. r ++ escape_html s) (escape_html-byte a)

entity-length : (a : ℕ) → 1 ≤ length (entity a)
unfolding lit utf8
entity-length a = ground arith

pub escape_html-length : (s : Text) → length s ≤ length (escape_html s)
escape_html-length [] = omega arith
escape_html-length (a ∷ s) =
    rw (escape_html-cons a s) (
      omega
        (arith, length-append (entity a) (escape_html s), entity-length a, escape_html-length s))
