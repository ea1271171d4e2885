-- ===== src/Bot/SettingsTests.antt =====
-- A configuration file with two users.
use seshat_tasks.Prelude.{Text, lit, utf8, ◌==◌, true, some, none, [], ◌∷◌, ◌≡◌, refl}
use seshat_tasks.Prelude.Int.{pos}
use seshat_tasks.Bot.Config.{is_digit, two_digits, offset_value, parse_utc_offset}
use seshat_tasks.Bot.Settings.{
  Config, ConfigFile, Machine, find_token, token_for, parse_digits, parse_magnitude, parse_int,
  set_user, load_users, load_config, too_permissive, warn_if_permissive, load_config_file,
}
use seshat_tasks.Bot.Settings.Users.{IsFrom, load_config_file-IsFrom}

abbrev file : ConfigFile
file = record {
  bot_token = lit "bot";
  server_url = lit "http://localhost";
  users = (lit "7", lit "secret") ∷ ((lit "9", lit "other") ∷ []);
  utc_offset = lit "+01:00";
}

-- The file can be read by others.
abbrev machine : Machine
machine = record {
  env_path = [];
  home = none;
  join = λ parts. [];
  read_file = λ path. some (lit "{}");
  mode = λ path. some 420;
  decode = λ raw. some file;
}

abbrev config : Config
config = record {
  server_url = lit "http://localhost";
  users = (pos 7, lit "secret") ∷ ((pos 9, lit "other") ∷ []);
  offset_minutes = pos 60;
}

loaded : load_config_file machine (lit "bot.json") ≡ (some config, true)
unfolding lit utf8 ◌==◌ is_digit two_digits offset_value parse_utc_offset find_token parse_digits
    parse_magnitude parse_int set_user load_users load_config too_permissive warn_if_permissive
    load_config_file
loaded = refl

load_config_file-IsFrom_example :
    (raw : Text) × (f : ConfigFile) × (machine.read_file (lit "bot.json") ≡ some raw)
    × (machine.decode raw ≡ some f)
    × IsFrom (pos 9) f.users (token_for config (pos 9))
load_config_file-IsFrom_example =
    load_config_file-IsFrom machine (lit "bot.json") config true (pos 9) loaded
