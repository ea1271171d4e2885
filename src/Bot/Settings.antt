-- ===== src/Bot/Settings.antt =====
-- client/bot/config.go, with the choice of its file in client/bot/main.go: `LoadConfig`, and who may
-- use the bot. The map of users is iterated in the order of its list.
pub mod Users
use seshat_tasks.Prelude.{
  ℕ, ◌+◌, ◌-◌, ◌*◌, ◌^◌, ◌%◌, Text, Map, lit, ◌==◌, eqb, ltb, leb, length, Bool, true, false, not,
  Option, none, some, List, [], ◌∷◌, if◌then◌else◌,
}
use seshat_tasks.Prelude.Int.{ℤ, pos, sub_ℕ, eqb_ℤ}
use seshat_tasks.Bot.Config.{is_digit, parse_utc_offset}

-- The fields of the file.
pub record ConfigFile : Type 0 where
  pub bot_token : Text
  pub server_url : Text
  pub users : Map Text
  pub utc_offset : Text

pub record Config : Type 0 where
  pub server_url : Text
  pub users : List (ℤ × Text)
  pub offset_minutes : ℤ

-- `TokenFor`
unfoldable pub find_token : ℤ → List (ℤ × Text) → Option Text
find_token id [] = none
find_token id ((user, token) ∷ users) = if eqb_ℤ id user then some token else find_token id users

abbrev pub token_for : Config → ℤ → Option Text
token_for c id = find_token id c.users

-- The number that digits stand for, after the number `n` before them.
unfoldable pub parse_digits : ℕ → Text → Option ℕ
parse_digits n [] = some n
parse_digits n (c ∷ s) = if is_digit c then parse_digits (n * 10 + (c - b'0')) s else none

-- `strconv.ParseInt(s, 10, 64)`
unfoldable pub parse_magnitude : Bool → Text → Option ℤ
parse_magnitude minus [] = none
parse_magnitude minus (c ∷ s) = elim (parse_digits 0 (c ∷ s)) [
  | none ↦ none
  | some n ↦
      if minus
      then if leb n (2 ^ 63) then some (sub_ℕ 0 n) else none
      else if ltb n (2 ^ 63)
      then some (pos n)
      else none
]

unfoldable pub parse_int : Text → Option ℤ
parse_int [] = none
parse_int (c ∷ s) =
    if eqb c b'-'
    then parse_magnitude true s
    else if eqb c b'+'
    then parse_magnitude false s
    else parse_magnitude false (c ∷ s)

-- `c.users[id] = v`
unfoldable pub set_user : ℤ → Text → List (ℤ × Text) → List (ℤ × Text)
set_user id token [] = (id, token) ∷ []
set_user id token ((user, old) ∷ users) =
    if eqb_ℤ id user then (id, token) ∷ users else (user, old) ∷ set_user id token users

unfoldable pub load_users : Map Text → List (ℤ × Text) → Option (List (ℤ × Text))
load_users [] users = some users
load_users ((k, v) ∷ rest) users = elim (parse_int k) [
  | none ↦ none
  | some id ↦ elim (v == []) [ true ↦ none | false ↦ load_users rest (set_user id v users) ]
]

-- `LoadConfig`; none is an error, of which there is one for each test.
unfoldable pub load_config : ConfigFile → Option Config
load_config f =
    if f.bot_token == []
    then none
    else if f.server_url == []
    then none
    else if eqb (length f.users) 0
    then none
    else elim (parse_utc_offset (if f.utc_offset == [] then lit "+00:00" else f.utc_offset)) [
      | none ↦ none
      | some offset ↦ elim (load_users f.users []) [
        | none ↦ none
        | some users ↦
            some (record { server_url = f.server_url; users = users; offset_minutes = offset })
      ]
    ]

-- What the bot asks of its machine; none is an error. The file decodes without unknown fields, and a
-- mode has its nine permission bits.
pub record Machine : Type 0 where
  pub env_path : Text
  pub home : Option Text
  pub join : List Text → Text
  pub read_file : Text → Option Text
  pub mode : Text → Option ℕ
  pub decode : Text → Option ConfigFile

unfoldable pub default_config_path : Machine → Text
default_config_path os = elim os.home [
  | none ↦ lit "bot.json"
  | some home ↦ os.join (home ∷ (lit ".config" ∷ (lit "seshat" ∷ (lit "bot.json" ∷ []))))
]

-- Where `main` looks for the configuration: its flag, SESHAT_BOT_CONFIG, or the default.
unfoldable pub config_path : Machine → Text → Text
config_path os flag =
    if not (flag == [])
    then flag
    else if not (os.env_path == [])
    then os.env_path
    else default_config_path os

unfoldable pub too_permissive : ℕ → Bool
too_permissive mode = not (eqb (mode % 64) 0)

-- Whether `warnIfPermissive` logs its warning.
unfoldable pub warn_if_permissive : Machine → Text → Bool
warn_if_permissive os path = elim (os.mode path) [ none ↦ false | some mode ↦ too_permissive mode ]

-- `LoadConfig` from its path, and whether it warned.
unfoldable pub load_config_file : Machine → Text → Option Config × Bool
load_config_file os path = elim (os.read_file path) [
  | none ↦ (none, false)
  | some raw ↦ elim (os.decode raw) [
    | none ↦ (none, false)
    | some f ↦ (load_config f, warn_if_permissive os path)
  ]
]

-- `Authorize`: the allowlist, and only in a private chat.
unfoldable pub authorize : Config → ℤ → Text → Option Text
authorize c user chat_type = if chat_type == lit "private" then token_for c user else none
