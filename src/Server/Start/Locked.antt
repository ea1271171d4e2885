-- ===== src/Server/Start/Locked.antt =====
-- A server that starts is not open to requests without its secret.
use seshat_tasks.Prelude.{
  Text, lit, ◌==◌, eq_iff, some, [], ◌≡◌, ◌≢◌, refl, ap, sym, ◌∙◌, arith, Bool-cases, Option-cases,
  inl, inr,
}
use seshat_tasks.Prelude.Int.{ℤ, add64}
use seshat_tasks.Server.Store.{Env, Store, DataFile}
use seshat_tasks.Server.Http.{
  Library, Server, Request, write_json, error_text, new_server, authorized, handle,
}
use seshat_tasks.Server.Start.{
  Config, validate_config, with_defaults, new_store, start_server, Machine, warn_if_permissive,
  address, Listening, run_main,
}

-- What `main` made the server from.
record Started {L : Type 0} (lib : Library L) (new_limiter : ℤ → ℤ → L) (c : Config) (s : Server L)
    : Type 0 where
  pub store : Store
  pub rate : ℤ
  pub secret : c.secret ≢ []
  pub made : s ≡ new_server lib store c.secret (new_limiter rate (add64 rate rate))

secret_kept :
    (c : Config) (rate : ℤ) → validate_config (with_defaults c) ≡ some rate → c.secret ≢ []
unfolding validate_config with_defaults ◌==◌
secret_kept c rate h e = ground arith

module _ {L : Type 0} (lib : Library L) (new_limiter : ℤ → ℤ → L) (env : Env)
    (files : Text → DataFile) (c : Config) (s : Server L) where
  start_server-Started :
      start_server lib new_limiter env files c ≡ some s → Started lib new_limiter c s
  unfolding start_server
  start_server-Started h = elim (Option-cases (validate_config (with_defaults c))) [
    | inl refused ↦ absurd (ground arith)
    | inr (rate, valid) ↦ elim (Option-cases (new_store env files (with_defaults c).data_file)) [
      | inl unread ↦ absurd (ground arith)
      | inr (st, read) ↦ record {
        store = st;
        rate = rate;
        secret = secret_kept c rate valid;
        made = ground arith;
      }
    ]
  ]

  -- A server that `main` starts refuses every request without an Authorization header, with 403 and
  -- with no change to the server, if no other text has the digest of the configured secret: an empty
  -- secret, whose digest such a request has, does not start.
  pub start_server-locked :
      (env' : Env) (r : Request)
      → start_server lib new_limiter env files c ≡ some s
      → ((t : Text) → lib.sha256 t ≡ lib.sha256 c.secret → t ≡ c.secret)
      → r.authorization ≡ []
      → handle lib env' r s ≡ (write_json 403 (error_text (lit "access denied")), s)
  unfolding handle new_server
  start_server-locked env' r h only_secret bare =
      let from = start_server-Started h in
      elim (Bool-cases (authorized lib s r)) [
        | inr stranger ↦ rw stranger refl
        | inl known ↦ absurd (
            from.secret (
              sym (
                only_secret [] (
                  sym (ap lib.sha256 bare)
                  ∙ (eq_iff (lib.sha256 r.authorization) s.secret_hash).0 known
                  ∙ ap (λ (x : Server L). x.secret_hash) from.made))))
      ]

-- What `main` read, and the server that it made of it.
record Configured {L : Type 0} (lib : Library L) (new_limiter : ℤ → ℤ → L) (env : Env)
    (files : Text → DataFile) (os : Machine) (path : Text) (l : Listening L) : Type 0 where
  pub raw : Text
  pub config : Config
  pub read : os.read_file path ≡ some raw
  pub decoded : os.unmarshal raw ≡ some config
  pub started : start_server lib new_limiter env files config ≡ some l.server
  pub place : l.at ≡ address (with_defaults config)
  pub warned : l.warned ≡ warn_if_permissive os path

module _ {L : Type 0} (lib : Library L) (new_limiter : ℤ → ℤ → L) (env : Env)
    (files : Text → DataFile) (os : Machine) (path : Text) (l : Listening L) where
  run_main-Configured :
      run_main lib new_limiter env files os path ≡ some l
      → Configured lib new_limiter env files os path l
  unfolding run_main
  run_main-Configured h = elim (Option-cases (os.read_file path)) [
    | inl unread ↦ absurd (ground arith)
    | inr (raw, read) ↦ elim (Option-cases (os.unmarshal raw)) [
      | inl malformed ↦ absurd (ground arith)
      | inr (c, decoded) ↦ elim (Option-cases (start_server lib new_limiter env files c)) [
        | inl refused ↦ absurd (ground arith)
        | inr (s, started) ↦ record {
          raw = raw;
          config = c;
          read = read;
          decoded = decoded;
          started = started ∙ ground arith;
          place = ground arith;
          warned = ground arith;
        }
      ]
    ]
  ]

  -- A server that `main` starts, whatever the path of its configuration holds, refuses every request
  -- without an Authorization header, with 403 and with no change to the server, if no two texts have
  -- the digest that the server keeps: an empty secret, whose digest such a request has, does not
  -- start.
  pub run_main-locked :
      (env' : Env) (r : Request)
      → run_main lib new_limiter env files os path ≡ some l
      → ((t u : Text)
          → lib.sha256 t ≡ l.server.secret_hash
          → lib.sha256 u ≡ l.server.secret_hash
          → t ≡ u)
      → r.authorization ≡ []
      → handle lib env' r l.server ≡ (write_json 403 (error_text (lit "access denied")), l.server)
  unfolding new_server
  run_main-locked env' r h no_two bare =
      let from = run_main-Configured h in
      let made =
        (start_server-Started lib new_limiter env files from.config l.server from.started).made in
      let kept : lib.sha256 from.config.secret ≡ l.server.secret_hash =
        sym (ap (λ (x : Server L). x.secret_hash) made) in
      start_server-locked lib new_limiter env files from.config l.server env' r from.started
        (λ t e. no_two t from.config.secret (e ∙ kept) kept) bare
