-- ===== src/Bot/Render/Accepted.antt =====
-- The buttons of client/bot/render.go and client/bot/handlers.go against the handlers of their actions.
use seshat_tasks.Prelude.{
  ℕ, ◌+◌, Text, lit, ◌==◌, eqb, ltb, length, Bool, true, false, none, List, [], ◌∷◌, ◌++◌, All,
  All-append, if◌then◌else◌, ◌≡◌, ◌≢◌, refl, arith, Bool-cases, inl, inr,
}
use seshat_tasks.Prelude.Int.{ℤ}
use seshat_tasks.Task.{Task, valid_status, valid_priority}
use seshat_tasks.Bot.View.{Row}
use seshat_tasks.Bot.Page.{Page}
use seshat_tasks.Bot.Due.{due_from_keyword}
use seshat_tasks.Bot.Parse.{text_patch}
use seshat_tasks.Bot.Registry.{ActionKind, set_status, set_priority, set_due, overwrite, Action}
use seshat_tasks.Bot.Registry as Registry
use seshat_tasks.Bot.Render.{
  Button, Keyboard, fill_rows, open_buttons, turn_page, nav_buttons, page_keyboard,
}
use seshat_tasks.Bot.Render.Card.{
  Origin, act, button, card_keyboard, option_buttons, picker_keyboard, status_picker,
  status_options, priority_picker, priority_options, due_picker, due_options,
  delete_confirm_keyboard,
}
use seshat_tasks.Bot.Handlers.Reply.{prompt_copy, conflict_keyboard}

-- What the handler of an action asks of it before it acts.
unfoldable pub TakesArg : ActionKind → Text → Text → Type 0
TakesArg set_status arg typed = valid_status arg ≡ true
TakesArg set_priority arg typed = valid_priority arg ≡ true
TakesArg set_due arg typed = (now offset_min : ℤ) → due_from_keyword arg now offset_min ≢ none
TakesArg Registry.prompt_field arg typed =
    (prompt_copy arg ≢ none) × ((value : Text) → text_patch arg value ≢ none)
TakesArg overwrite arg typed = text_patch arg typed ≢ none
TakesArg _ arg typed = Unit {0}

abbrev pub IsAccepted : Button → Type 0
IsAccepted b = TakesArg b.action.kind b.action.arg b.action.text

-- The keyboards of the bot, each with what it is made of.
pub data Screen : Type 0 where
  listing : Page → Text → Screen
  card : Task → Origin → Screen
  statuses : Text → Origin → Screen
  priorities : Text → Origin → Screen
  dues : Text → Origin → Screen
  confirm : Text → Origin → Screen
  conflict : (a : Action) → prompt_copy a.arg ≢ none → Text → Screen

unfoldable pub keyboard_of : Screen → Keyboard
keyboard_of (listing p query) = page_keyboard p query
keyboard_of (card t o) = card_keyboard t o
keyboard_of (statuses id o) = status_picker id o
keyboard_of (priorities id o) = priority_picker id o
keyboard_of (dues id o) = due_picker id o
keyboard_of (confirm id o) = delete_confirm_keyboard id o
keyboard_of (conflict a prompted typed) = conflict_keyboard a typed

abbrev AllAccepted : Keyboard → Type 0
AllAccepted kb = All (All IsAccepted) kb

-- A row that is not full stays in the last place.
fill_rows-All :
    (P : Button → Type 0) (width : ℕ) (row bs : List Button)
    → All P row
    → All P bs
    → All (All P) (fill_rows width row bs)
unfolding fill_rows
fill_rows-All P width row [] r h = elim (Bool-cases (ltb 0 (length row))) [
  | inl some_left ↦ rw some_left (r, tt)
  | inr none_left ↦ rw none_left tt
]
fill_rows-All P width row (b ∷ bs) r h =
    let r' = All-append P row (b ∷ []) r (h.0, tt) in
    elim (Bool-cases (eqb (length (row ++ (b ∷ []))) width)) [
      | inl full ↦ rw full (r', fill_rows-All P width [] bs tt h.1)
      | inr room ↦ rw room (fill_rows-All P width (row ++ (b ∷ [])) bs r' h.1)
    ]

option_buttons-All :
    (kind : ActionKind) (id : Text) (o : Origin) (opts : List (Text × Text))
    → All (λ opt. TakesArg kind opt.1 []) opts
    → All IsAccepted (option_buttons kind id o opts)
unfolding option_buttons act
option_buttons-All kind id o [] h = tt
option_buttons-All kind id o ((label, arg) ∷ opts) h = (h.0, option_buttons-All kind id o opts h.1)

picker-Accepted :
    (kind : ActionKind) (id : Text) (o : Origin) (opts : List (Text × Text))
    → All (λ opt. TakesArg kind opt.1 []) opts
    → AllAccepted (picker_keyboard kind id o opts)
unfolding picker_keyboard act TakesArg
picker-Accepted kind id o opts h =
    All-append (All IsAccepted) (fill_rows 3 [] (option_buttons kind id o opts)) _
      (fill_rows-All IsAccepted 3 [] _ tt (option_buttons-All kind id o opts h)) ((tt, tt), tt)

open_buttons-All :
    (i index : ℕ) (query : Text) (rs : List Row) → All IsAccepted (open_buttons i index query rs)
unfolding open_buttons TakesArg
open_buttons-All i index query [] = tt
open_buttons-All i index query (r ∷ rs) = (tt, open_buttons-All (i + 1) index query rs)

nav_buttons-All : (p : Page) (query : Text) → All IsAccepted (nav_buttons p query)
unfolding nav_buttons turn_page TakesArg
nav_buttons-All p query = ground arith

page_keyboard-Accepted : (p : Page) (query : Text) → AllAccepted (page_keyboard p query)
unfolding page_keyboard
page_keyboard-Accepted p query =
    All-append (All IsAccepted) (fill_rows 5 [] (open_buttons 0 p.index query p.rows)) _
      (fill_rows-All IsAccepted 5 [] _ tt (open_buttons-All 0 p.index query p.rows))
      (elim (Bool-cases (ltb 1 p.count)) [
        | inl several ↦ rw several (nav_buttons-All p query, tt)
        | inr single ↦ rw single tt
      ])

prompted-text_patch : (arg value : Text) → prompt_copy arg ≢ none → text_patch arg value ≢ none
unfolding prompt_copy text_patch
prompted-text_patch arg value h = ground arith

prompts-Take :
    (arg : Text)
    → prompt_copy arg ≢ none
    → (prompt_copy arg ≢ none) × ((value : Text) → text_patch arg value ≢ none)
prompts-Take arg h = (h, λ value. prompted-text_patch arg value h)

tags_prompt : prompt_copy (lit "tags") ≢ none
unfolding prompt_copy ◌==◌ lit
tags_prompt h = ground arith

title_prompt : prompt_copy (lit "title") ≢ none
unfolding prompt_copy ◌==◌ lit
title_prompt h = ground arith

description_prompt : prompt_copy (lit "description") ≢ none
unfolding prompt_copy ◌==◌ lit
description_prompt h = ground arith

back-All :
    (b : Bool) (t : Task) (o : Origin)
    → All IsAccepted (if b then button (lit "◀ Back") (act o Registry.back t.id []) ∷ [] else [])
unfolding act TakesArg
back-All true t o = (tt, tt)
back-All false t o = tt

card_keyboard-Accepted : (t : Task) (o : Origin) → AllAccepted (card_keyboard t o)
unfolding card_keyboard act TakesArg
card_keyboard-Accepted t o = (
  (tt, (tt, (tt, tt))),
  (
    (tt, (prompts-Take (lit "tags") tags_prompt, (tt, tt))),
    (
      (
        prompts-Take (lit "title") title_prompt,
        (prompts-Take (lit "description") description_prompt, tt),
      ),
      ((tt, back-All o.has_list t o), tt),
    ),
  ),
)

status_options-Take : All (λ opt. TakesArg set_status opt.1 []) status_options
unfolding TakesArg valid_status ◌==◌ lit
status_options-Take = (refl, (refl, (refl, (refl, tt))))

priority_options-Take : All (λ opt. TakesArg set_priority opt.1 []) priority_options
unfolding TakesArg valid_priority ◌==◌ lit
priority_options-Take = (refl, (refl, (refl, (refl, tt))))

due_options-Take : All (λ opt. TakesArg set_due opt.1 []) due_options
unfolding TakesArg due_from_keyword ◌==◌ lit
due_options-Take = (
  λ now offset_min h. ground arith,
  (
    λ now offset_min h. ground arith,
    (
      λ now offset_min h. ground arith,
      (λ now offset_min h. ground arith, (λ now offset_min h. ground arith, tt)),
    ),
  ),
)

-- Every button that the bot draws has an action that its handler can carry out: a status or a
-- priority is a valid one, a due date is a keyword that is understood at every time and offset, a
-- prompt is for a field that has a prompt and can be patched, and so is the field of a conflict,
-- which comes from a prompt.
pub keyboard_of-IsAccepted : (s : Screen) → All (All IsAccepted) (keyboard_of s)
unfolding keyboard_of status_picker priority_picker due_picker delete_confirm_keyboard
    conflict_keyboard act TakesArg
keyboard_of-IsAccepted (listing p query) = page_keyboard-Accepted p query
keyboard_of-IsAccepted (card t o) = card_keyboard-Accepted t o
keyboard_of-IsAccepted (statuses id o) =
    picker-Accepted set_status id o status_options status_options-Take
keyboard_of-IsAccepted (priorities id o) =
    picker-Accepted set_priority id o priority_options priority_options-Take
keyboard_of-IsAccepted (dues id o) = picker-Accepted set_due id o due_options due_options-Take
keyboard_of-IsAccepted (confirm id o) = ((tt, (tt, tt)), tt)
keyboard_of-IsAccepted (conflict a prompted typed) =
    ((prompted-text_patch a.arg typed prompted, (tt, tt)), tt)
