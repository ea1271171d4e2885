-- ===== src/Bot/Dispatch/Strangers.antt =====
-- Updates of people who are not in the configuration of client/bot/main.go, or not in a private chat.
use seshat_tasks.Prelude.{
  Text, lit, ◌==◌, eq_iff, Bool-cases, Option-cases, inl, inr, ◌⊎◌, some, List, [], ◌∷◌, ◌≡◌, refl,
  ap, ◌∙◌, arith,
}
use seshat_tasks.Prelude.Int.{ℤ, eqb_ℤ, eqb_ℤ→≡}
use seshat_tasks.Bot.Settings.{Config, find_token, authorize}
use seshat_tasks.Bot.Effect.{Outside, World}
use seshat_tasks.Bot.Dispatch.{
  Sender, Message, Callback, Update, callback_sender, message_sender, sender_of, admitted,
  dispatch_as, dispatch, dispatch_all,
}

-- The configuration has a user.
abbrev pub HasUser : ℤ → List (ℤ × Text) → Type 0
HasUser user [] = ⊥
HasUser user ((id, token) ∷ users) = (user ≡ id) ⊎ HasUser user users

-- A user has sent a message, or tapped a button of it.
abbrev pub Concerns : ℤ → Message → Update → Type 0
Concerns user m u =
    ((u.message ≡ some m) × (m.from_id ≡ some user))
    ⊎ ((cq : Callback) × (u.callback ≡ some cq) × (cq.message ≡ some m) × (cq.from_id ≡ user))

-- An update of a user of the configuration, for a message of a private chat.
abbrev pub IsWelcome : Config → Update → Type 0
IsWelcome c u =
    (user : ℤ) × (m : Message) × Concerns user m u
    × (m.chat_type ≡ lit "private")
    × HasUser user c.users

-- A list of updates, and the same list without some that are not welcome.
pub data LeavesOut (c : Config) : List Update → List Update → Type 0 where
  done : LeavesOut c [] []
  keeps : {us vs : List Update} (u : Update) → LeavesOut c us vs → LeavesOut c (u ∷ us) (u ∷ vs)
  skips :
      {us vs : List Update} (u : Update)
      → ¬ IsWelcome c u
      → LeavesOut c us vs
      → LeavesOut c (u ∷ us) vs

find_token-HasUser :
    (user : ℤ) (users : List (ℤ × Text)) (token : Text)
    → find_token user users ≡ some token
    → HasUser user users
unfolding find_token
find_token-HasUser user [] token h = absurd (ground arith)
find_token-HasUser user ((id, t) ∷ users) token h = elim (Bool-cases (eqb_ℤ user id)) [
  | inl same ↦ inl (eqb_ℤ→≡ user id same)
  | inr other ↦ inr (find_token-HasUser user users token (ground (arith, h, other)))
]

callback_sender-Concerns :
    (u : Update) (s : Sender)
    → callback_sender u.callback ≡ some s
    → (m : Message) × Concerns s.user m u × (m.chat_type ≡ s.chat_type)
unfolding callback_sender
callback_sender-Concerns u s h = elim (Option-cases u.callback) [
  | inl nothing ↦ absurd (ground arith)
  | inr (cq, tapped) ↦ elim (Option-cases cq.message) [
    | inl unknown ↦ absurd (ground arith)
    | inr (m, of) ↦
        (m, inr (cq, tapped, of, ground (arith, h, tapped, of)), ground (arith, h, tapped, of))
  ]
]

sender_of-Concerns :
    (u : Update) (s : Sender)
    → sender_of u ≡ some s
    → (m : Message) × Concerns s.user m u × (m.chat_type ≡ s.chat_type)
unfolding sender_of message_sender
sender_of-Concerns u s h = elim (Option-cases u.message) [
  | inl nothing ↦ callback_sender-Concerns u s (ground arith)
  | inr (m, sent) ↦ elim (Option-cases m.from_id) [
    | inl unknown ↦ callback_sender-Concerns u s (ground arith)
    | inr (user, by) ↦ (m, inl (sent, ground (arith, h, sent, by)), ground (arith, h, sent, by))
  ]
]

authorize-HasUser :
    (c : Config) (user : ℤ) (chat_type token : Text)
    → authorize c user chat_type ≡ some token
    → (chat_type ≡ lit "private") × HasUser user c.users
unfolding authorize
authorize-HasUser c user chat_type token h = elim (Bool-cases (chat_type == lit "private")) [
  | inl private ↦ (
    ground (arith, private, eq_iff chat_type (lit "private")),
    find_token-HasUser user c.users token (ground (arith, h, private)),
  )
  | inr other ↦ absurd (ground arith)
]

admitted-IsWelcome :
    (c : Config) (u : Update) (found : Sender × Text) → admitted c u ≡ some found → IsWelcome c u
unfolding admitted
admitted-IsWelcome c u found h = elim (Option-cases (sender_of u)) [
  | inl nobody ↦ absurd (ground arith)
  | inr (s, from) ↦ elim (Option-cases (authorize c s.user s.chat_type)) [
    | inl refused ↦ absurd (ground arith)
    | inr (token, allowed) ↦
        let (m, concerns, chat) = sender_of-Concerns u s from in
        let (private, user) = authorize-HasUser c s.user s.chat_type token allowed in
        (s.user, m, concerns, chat ∙ private, user)
  ]
]

module _ {E : Type 0} (out : Outside E) (c : Config) (bot_id : ℤ) where
  dispatch-unwelcome : (u : Update) (w : World E) → ¬ IsWelcome c u → dispatch out c bot_id u w ≡ w
  unfolding dispatch dispatch_as
  dispatch-unwelcome u w stranger = elim (Option-cases (admitted c u)) [
    | inl refused ↦ rw refused refl
    | inr (found, let_in) ↦ absurd (stranger (admitted-IsWelcome c u found let_in))
  ]

  -- The updates of strangers do nothing. An update is welcome if it has a message that a user of the
  -- configuration sent, or a button of which such a user tapped, and the chat of that message is
  -- private. Whatever the order of the updates, the bot ends in the same world if any of those that
  -- are not welcome are left out: a world has all that went out, the registry of buttons, and the
  -- outside.
  pub dispatch_all-LeavesOut :
      (us vs : List Update) (w : World E)
      → LeavesOut c us vs
      → dispatch_all out c bot_id us w ≡ dispatch_all out c bot_id vs w
  unfolding dispatch_all
  dispatch_all-LeavesOut us vs w done = refl
  dispatch_all-LeavesOut us vs w (keeps {us = us'} {vs = vs'} u rest) =
      dispatch_all-LeavesOut us' vs' (dispatch out c bot_id u w) rest
  dispatch_all-LeavesOut us vs w (skips {us = us'} {vs = vs'} u stranger rest) =
      ap (dispatch_all out c bot_id us') (dispatch-unwelcome u w stranger)
      ∙ dispatch_all-LeavesOut us' vs w rest
