-- ===== src/Bot/Settings/Users.antt =====
-- Whom client/bot/config.go lets in: `TokenFor` after `LoadConfig`.
use seshat_tasks.Prelude.{
  Text, Map, ◌==◌, ◌⊎◌, Bool, false, Bool-cases, Option-cases, inl, inr, Option, none, some, List,
  [], ◌∷◌, if◌then◌else◌, ◌≡◌, refl, arith, subst, subst,
}
use seshat_tasks.Prelude.Int.{ℤ, eqb_ℤ, eqb_ℤ→≡}
use seshat_tasks.Bot.Settings.{
  ConfigFile, Config, Machine, find_token, token_for, parse_int, set_user, load_users, load_config,
  load_config_file,
}

-- A key of the file is the user's id, and its token is this one and not empty.
abbrev pub IsListed : ℤ → Text → Map Text → Type 0
IsListed user token [] = ⊥
IsListed user token ((k, v) ∷ m) =
    ((parse_int k ≡ some user) × (v ≡ token) × ((v == []) ≡ false)) ⊎ IsListed user token m

-- No key of the file is the user's id.
abbrev pub IsUnlisted : ℤ → Map Text → Type 0
IsUnlisted user [] = Unit {0}
IsUnlisted user ((k, v) ∷ m) = ¬ (parse_int k ≡ some user) × IsUnlisted user m

-- The token of a user is one that the file lists, and none only where it lists none.
abbrev pub IsFrom : ℤ → Map Text → Option Text → Type 0
IsFrom user m none = IsUnlisted user m
IsFrom user m (some token) = IsListed user token m

-- The same, where a user may also have had a token before.
IsTraced : ℤ → Map Text → Option Text → Option Text → Type 0
IsTraced user m before none = IsUnlisted user m × (before ≡ none)
IsTraced user m before (some token) = IsListed user token m ⊎ (before ≡ some token)

find_token-set_user :
    (user id : ℤ) (token : Text) (users : List (ℤ × Text))
    → find_token user (set_user id token users)
      ≡ (if eqb_ℤ user id then some token else find_token user users)
unfolding find_token set_user
find_token-set_user user id token [] = refl
find_token-set_user user id token ((other, old) ∷ users) =
    ground (arith, find_token-set_user user id token users, eqb_ℤ→≡ id other)

load_users-IsTraced :
    (user : ℤ) (m : Map Text) (users users' : List (ℤ × Text))
    → load_users m users ≡ some users'
    → IsTraced user m (find_token user users) (find_token user users')
unfolding load_users IsTraced
load_users-IsTraced user [] users users' h =
    let same : users ≡ users' = cc h in
    subst (λ us. IsTraced user [] (find_token user users) (find_token user us)) same
      (unchanged (find_token user users))
  where
    unchanged : (found : Option Text) → IsTraced user [] found found
    unchanged none = (tt, refl)
    unchanged (some token) = inr refl
load_users-IsTraced user ((k, v) ∷ m) users users' h = elim (Option-cases (parse_int k)) [
  | inl no_id ↦ absurd (ground arith)
  | inr (id, parsed) ↦ elim (Bool-cases (v == [])) [
    | inl empty ↦ absurd (ground arith)
    | inr filled ↦
        later id parsed filled (find_token user users')
          (load_users-IsTraced user m (set_user id v users) users' (ground arith))
  ]
]
  where
    later :
        (id : ℤ)
        → parse_int k ≡ some id
        → (v == []) ≡ false
        → (found : Option Text) → IsTraced user m (find_token user (set_user id v users)) found
        → IsTraced user ((k, v) ∷ m) (find_token user users) found
    later id parsed filled none (unlisted, nothing) =
        let q = find_token-set_user user id v users in
        let other : eqb_ℤ user id ≡ false = ground (arith, q, nothing) in
        (
          ((λ named. absurd (ground (arith, named, parsed, other))), unlisted),
          ground (arith, q, nothing),
        )
    later id parsed filled (some token) (inl listed) = inl (inr listed)
    later id parsed filled (some token) (inr before) =
        let q = find_token-set_user user id v users in
        elim (Bool-cases (eqb_ℤ user id)) [
          | inl same ↦ inl (
              inl (
                ground (arith, parsed, eqb_ℤ→≡ user id same),
                ground (arith, q, before, same),
                filled,
              ))
          | inr other ↦ inr (ground (arith, q, before, other))
        ]

load_config-IsFrom :
    (f : ConfigFile) (c : Config) (user : ℤ)
    → load_config f ≡ some c
    → IsFrom user f.users (token_for c user)
unfolding load_config find_token IsTraced
load_config-IsFrom f c user h = elim (Option-cases (load_users f.users [])) [
  | inl refused ↦ absurd (ground arith)
  | inr (users, loaded) ↦
      subst (λ us. IsFrom user f.users (find_token user us)) (ground (arith, h, loaded))
        (from (find_token user users) (load_users-IsTraced user f.users [] users loaded))
]
  where
    from : (found : Option Text) → IsTraced user f.users none found → IsFrom user f.users found
    from none (unlisted, e) = unlisted
    from (some token) (inl listed) = listed
    from (some token) (inr before) = absurd (cc before)

-- The bot lets in exactly the users of its file: if `LoadConfig` returns a configuration, its file
-- was read and decodes, and for every user id, whatever the order of the map, the token is one that
-- the file has under a key that reads as this id, and is not empty; there is none only where no key
-- of the file reads as this id.
pub load_config_file-IsFrom :
    (os : Machine) (path : Text) (c : Config) (warned : Bool) (user : ℤ)
    → load_config_file os path ≡ (some c, warned)
    → (raw : Text) × (f : ConfigFile) × (os.read_file path ≡ some raw)
      × (os.decode raw ≡ some f)
      × IsFrom user f.users (token_for c user)
unfolding load_config_file
load_config_file-IsFrom os path c warned user h = elim (Option-cases (os.read_file path)) [
  | inl unread ↦ absurd (ground arith)
  | inr (raw, read) ↦ elim (Option-cases (os.decode raw)) [
    | inl undecoded ↦ absurd (ground arith)
    | inr (f, decoded) ↦
        (raw, f, read, decoded, load_config-IsFrom f c user (ground (arith, h, read, decoded)))
  ]
]
