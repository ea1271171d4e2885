-- ===== src/Bot/Render/Reader.antt =====
-- A reader of the HTML that Telegram takes, for the texts of client/bot/render.go.
use seshat_tasks.Prelude.{
  ℕ, zero, suc, Text, lit, utf8, ◌==◌, eqb, eqb_iff, Bool, true, false, not, ◌&&◌, ◌||◌, Option,
  none, some, List, [], ◌∷◌, ◌++◌, if◌then◌else◌, ◌≡◌, refl, ap, subst, ◌∙◌, sym, arith, Bool-cases,
  inl, inr,
}
use mathlib.Core.List.{append_assoc, append-nil}
use seshat_tasks.Bot.Text.{starts_with, replace_all}
use seshat_tasks.Bot.Render.{escape_html}
use seshat_tasks.Bot.Render.Escape.{entity, escape_html-cons}

-- How many bytes to skip, what is shown, and the tags that are then open.
abbrev Token : Type 0
Token = ℕ × Text × List Text

-- The end of the innermost tag.
unfoldable pub closes : Text → ℕ → List Text → Option Token
closes name skip [] = none
closes name skip (tag ∷ tags) = if tag == name then some (skip, [], tags) else none

-- What stands after an angle bracket.
unfoldable pub tag_at : Text → List Text → Option Token
tag_at s tags =
    if starts_with (lit "b>") s
    then some (2, [], lit "b" ∷ tags)
    else if starts_with (lit "i>") s
    then some (2, [], lit "i" ∷ tags)
    else if starts_with (lit "code>") s
    then some (5, [], lit "code" ∷ tags)
    else if starts_with (lit "/b>") s
    then closes (lit "b") 3 tags
    else if starts_with (lit "/i>") s
    then closes (lit "i") 3 tags
    else if starts_with (lit "/code>") s
    then closes (lit "code") 6 tags
    else none

-- What stands after an ampersand.
unfoldable pub entity_at : Text → List Text → Option Token
entity_at s tags =
    if starts_with (lit "amp;") s
    then some (4, b'&' ∷ [], tags)
    else if starts_with (lit "lt;") s
    then some (3, b'<' ∷ [], tags)
    else if starts_with (lit "gt;") s
    then some (3, b'>' ∷ [], tags)
    else if starts_with (lit "quot;") s
    then some (5, b'"' ∷ [], tags)
    else none

unfoldable pub token_at : ℕ → Text → List Text → Option Token
token_at a s tags =
    if eqb a b'<'
    then tag_at s tags
    else if eqb a b'&'
    then entity_at s tags
    else if eqb a b'>' || eqb a b'"'
    then none
    else some (0, a ∷ [], tags)

-- What is shown, and whether the text is well formed: all tags are known and closed in order, and
-- every other special byte is one of the four entities.
unfoldable pub read_from : List Text → ℕ → Text → Text × Bool
read_from [] skip [] = ([], true)
read_from (tag ∷ tags) skip [] = ([], false)
read_from tags (suc skip) (a ∷ s) = read_from tags skip s
read_from tags zero (a ∷ s) = elim (token_at a s tags) [
  | none ↦ ([], false)
  | some (skip, shown, tags') ↦ let r = read_from tags' skip s in (shown ++ r.0, r.1)
]

abbrev pub read_html : Text → Text × Bool
read_html s = read_from [] 0 s

-- A part of a text shows `y`, and leads from some open tags to others.
pub record Shows (tags tags' : List Text) (x y : Text) : Type 0 where
  pub reads :
      (t : Text)
      → read_from tags 0 (x ++ t) ≡ (y ++ (read_from tags' 0 t).0, (read_from tags' 0 t).1)

read_from-plain :
    (tags : List Text) (a : ℕ) (t : Text)
    → eqb a b'<' ≡ false
    → eqb a b'&' ≡ false
    → (eqb a b'>' || eqb a b'"') ≡ false
    → read_from tags 0 (a ∷ t) ≡ (a ∷ (read_from tags 0 t).0, (read_from tags 0 t).1)
unfolding read_from
read_from-plain tags a t lt amp others =
    let plain : token_at a t tags ≡ some (0, a ∷ [], tags) =
      unfold token_at in rw (lt, amp, others) refl in
    rw (plain, read_from) refl

entity-plain :
    (a : ℕ)
    → eqb a b'&' ≡ false
    → eqb a b'<' ≡ false
    → (eqb a b'>' || eqb a b'"') ≡ false
    → entity a ≡ a ∷ []
entity-plain a amp lt others = ground (arith, amp, lt, others)

Shows-entity : (tags : List Text) (a : ℕ) → Shows tags tags (entity a) (a ∷ [])
unfolding read_from token_at entity_at starts_with lit utf8
Shows-entity tags a = elim (Bool-cases (eqb a b'&')) [
  | inl amp ↦ rw ((eqb_iff a b'&').0 amp) (record { reads = λ t. refl })
  | inr not_amp ↦ elim (Bool-cases (eqb a b'<')) [
    | inl lt ↦ rw ((eqb_iff a b'<').0 lt) (record { reads = λ t. refl })
    | inr not_lt ↦ elim (Bool-cases (eqb a b'>')) [
      | inl gt ↦ rw ((eqb_iff a b'>').0 gt) (record { reads = λ t. refl })
      | inr not_gt ↦ elim (Bool-cases (eqb a b'"')) [
        | inl quote ↦ rw ((eqb_iff a b'"').0 quote) (record { reads = λ t. refl })
        | inr not_quote ↦
            let others : (eqb a b'>' || eqb a b'"') ≡ false = rw (not_gt, not_quote) refl in
            subst (λ x. Shows tags tags x (a ∷ [])) (sym (entity-plain a not_amp not_lt others))
              (record { reads = λ t. read_from-plain tags a t not_lt not_amp others })
      ]
    ]
  ]
]

pub Shows-append :
    {tags tags' tags'' : List Text} {x x' y y' : Text}
    → Shows tags tags' x y
    → Shows tags' tags'' x' y'
    → Shows tags tags'' (x ++ x') (y ++ y')
Shows-append {tags} {tags'} {tags''} {x} {x'} {y} {y'} h h' = record {
  reads = λ t.
      ap (read_from tags 0) (append_assoc x x' t)
      ∙ h.reads (x' ++ t)
      ∙ ap (λ r. (y ++ r.0, r.1)) (h'.reads t)
      ∙ ap (λ s. (s, (read_from tags'' 0 t).1)) (sym (append_assoc y y' (read_from tags'' 0 t).0));
}

pub Shows-escape : {tags : List Text} (s : Text) → Shows tags tags (escape_html s) s
unfolding escape_html replace_all
Shows-escape [] = record { reads = λ t. refl }
Shows-escape {tags} (a ∷ s) =
    subst (λ x. Shows tags tags x (a ∷ s)) (sym (escape_html-cons a s))
      (Shows-append (Shows-entity tags a) (Shows-escape s))

-- A text of bytes that stand for themselves.
unfoldable pub is_plain : Text → Bool
is_plain [] = true
is_plain (a ∷ s) =
    not (eqb a b'&') && not (eqb a b'<') && not (eqb a b'>' || eqb a b'"') && is_plain s

pub is_plain-append :
    (s t : Text) → is_plain s ≡ true → is_plain t ≡ true → is_plain (s ++ t) ≡ true
unfolding is_plain
is_plain-append [] t p q = q
is_plain-append (a ∷ s) t p q = ground (arith, is_plain-append s t)

escape_html-plain : (s : Text) → is_plain s ≡ true → escape_html s ≡ s
unfolding escape_html replace_all is_plain
escape_html-plain [] p = refl
escape_html-plain (a ∷ s) p =
    escape_html-cons a s
    ∙ ap (λ e. e ++ escape_html s) (entity-plain a (ground arith) (ground arith) (ground arith))
    ∙ ap (λ r. a ∷ r) (escape_html-plain s (ground arith))

pub Shows-plain : {tags : List Text} (s : Text) → is_plain s ≡ true → Shows tags tags s s
Shows-plain {tags} s plain =
    subst (λ x. Shows tags tags x s) (escape_html-plain s plain) (Shows-escape s)

pub Shows-if :
    {tags tags' : List Text} {x x' y y' : Text} (b : Bool)
    → Shows tags tags' x y
    → Shows tags tags' x' y'
    → Shows tags tags' (if b then x else x') (if b then y else y')
Shows-if true h h' = h
Shows-if false h h' = h'

pub Shows-read : {x y : Text} → Shows [] [] x y → read_html x ≡ (y, true)
unfolding read_from
Shows-read {x} {y} h =
    ap (read_from [] 0) (sym (append-nil x)) ∙ h.reads [] ∙ ap (λ s. (s, true)) (append-nil y)
