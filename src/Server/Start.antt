-- ===== src/Server/Start.antt =====
-- server/main.go: from a configuration to a server. The limiter, which golang.org/x/time/rate
-- makes of a rate and a burst, is an argument, as is what a path holds.
pub mod Locked
use seshat_tasks.Prelude.{
  ℕ, ◌%◌, Text, lit, ◌==◌, eqb, Bool, true, false, not, Option, none, some, List, [], ◌∷◌, ◌++◌,
  if◌then◌else◌,
}
use seshat_tasks.Prelude.Int.{ℤ, pos, eqb_ℤ, ltb_ℤ, add64}
use seshat_tasks.Server.Error.{ok, err}
use seshat_tasks.Server.Store.{Env, Store, DataFile, load}
use seshat_tasks.Server.Http.{Library, Server, new_server, format_uint}

pub record Config : Type 0 where
  pub secret : Text
  pub bind : Text
  pub port : ℕ
  pub data_file : Text
  pub rate_limit : ℤ

abbrev pub default_bind : Text
default_bind = lit "127.0.0.1"

-- `defaultRateLimit` of server/handlers.go
abbrev pub default_rate_limit : ℤ
default_rate_limit = pos 10

-- `tooPermissive`, of the nine bits of a mode.
unfoldable pub too_permissive : ℕ → Bool
too_permissive mode = not (eqb (mode % 64) 0)

unfoldable pub resolve_rate_limit : ℤ → Option ℤ
resolve_rate_limit configured =
    if eqb_ℤ configured (pos 0)
    then some default_rate_limit
    else if ltb_ℤ configured (pos 0)
    then none
    else some configured

unfoldable pub validate_config : Config → Option ℤ
validate_config c = if c.secret == [] then none else resolve_rate_limit c.rate_limit

unfoldable pub with_defaults : Config → Config
with_defaults c = record c {
  data_file = if c.data_file == [] then lit "seshat-data.json" else c.data_file;
  bind = if c.bind == [] then default_bind else c.bind;
}

-- `NewStore`, whose only step that can fail is `load`.
unfoldable pub new_store : Env → (Text → DataFile) → Text → Option Store
new_store env files path = elim (load env (files path)) [ ok st ↦ some st | err e ↦ none ]

-- What `main` does before it listens; none where it ends with `log.Fatal`.
unfoldable pub start_server :
    {L : Type 0} → Library L → (ℤ → ℤ → L) → Env → (Text → DataFile) → Config → Option (Server L)
start_server lib new_limiter env files c = elim (validate_config (with_defaults c)) [
  | none ↦ none
  | some rate ↦ elim (new_store env files (with_defaults c).data_file) [
    | none ↦ none
    | some st ↦ some (new_server lib st c.secret (new_limiter rate (add64 rate rate)))
  ]
]

-- What `main` asks of the machine; none is an error. A file's mode has its nine permission bits.
pub record Machine : Type 0 where
  pub read_file : Text → Option Text
  pub mode : Text → Option ℕ
  pub unmarshal : Text → Option Config

-- Whether `warnIfPermissive` logs its warning.
unfoldable pub warn_if_permissive : Machine → Text → Bool
warn_if_permissive os path = elim (os.mode path) [ none ↦ false | some mode ↦ too_permissive mode ]

-- The loop of `buildRevision` over the settings of the build, and its end.
unfoldable pub revision_of : Text → Bool → List (Text × Text) → Text
revision_of rev dirty [] = if dirty then rev ++ lit "-dirty" else rev
revision_of rev dirty ((key, value) ∷ settings) =
    revision_of (if key == lit "vcs.revision" then value else rev)
      (if key == lit "vcs.modified" then value == lit "true" else dirty) settings

unfoldable pub build_revision : Option (List (Text × Text)) → Text
build_revision none = lit "unknown"
build_revision (some settings) = revision_of (lit "unknown") false settings

unfoldable pub address : Config → Text
address c = c.bind ++ (lit ":" ++ format_uint 20 c.port)

-- What `main` has when it begins to listen.
pub record Listening (L : Type 0) : Type 0 where
  pub server : Server L
  pub at : Text
  pub warned : Bool

-- `main`, from the path of its configuration; none where it ends with `log.Fatal`.
unfoldable pub run_main :
    {L : Type 0}
    → Library L
    → (ℤ → ℤ → L)
    → Env
    → (Text → DataFile)
    → Machine
    → Text
    → Option (Listening L)
run_main lib new_limiter env files os path = elim (os.read_file path) [
  | none ↦ none
  | some raw ↦ elim (os.unmarshal raw) [
    | none ↦ none
    | some c ↦ elim (start_server lib new_limiter env files c) [
      | none ↦ none
      | some s ↦ some (record {
        server = s;
        at = address (with_defaults c);
        warned = warn_if_permissive os path;
      })
    ]
  ]
]
