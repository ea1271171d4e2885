-- ===== src/Server/HttpTests.antt =====
-- The handlers with a small library: digests are the texts themselves, the limiter counts the
-- requests that it still allows, and a body decodes to a fixed request.
use seshat_tasks.Prelude.{
  ℕ, zero, suc, Text, lit, ◌==◌, Bool, true, false, some, List, [], ◌∷◌, ◌≡◌, ◌⊎◌, refl, sym, ◌∙◌,
  utf8,
}
use seshat_tasks.Prelude.Int.{pos}
use seshat_tasks.Server.Store.{Env, missing, load, rebuild_index, index_tasks}
use seshat_tasks.Server.Start.{
  Config, validate_config, resolve_rate_limit, with_defaults, new_store, start_server, Machine,
  Listening, run_main, build_revision, revision_of, address, warn_if_permissive, too_permissive,
}
use seshat_tasks.Server.Start.Locked.{run_main-locked}
use seshat_tasks.Server.Http.{
  format_uint, decoded, malformed, Library, Server, Request, etag, authorized, handle, new_server,
  write_json, error_text,
}
use seshat_tasks.Server.Http.Guarded.{
  Performed, handle-Performed, serve, with_secret, serve-with_secret,
}
use seshat_tasks.Server.Tests.{at_time, start, add_root}

abbrev counting : ℕ → Bool × ℕ
counting zero = (false, 0)
counting (suc n) = (true, n)

abbrev lib : Library ℕ
lib = record {
  sha256 = λ s. s;
  allow = counting;
  decode_add = λ limit body. decoded add_root;
  decode_update = λ limit body. decoded [];
  decode_delete = λ limit body. malformed (lit "EOF");
}

abbrev server : Server ℕ
server = new_server lib start (lit "secret") 1

abbrev request : Text → Request
request authorization = record {
  path = lit "/api/tasks/add";
  authorization = authorization;
  if_none_match = [];
  body = [];
}

abbrev requests : List (Env × Request)
requests = (at_time 10 (lit "A"), request []) ∷ (at_time 20 (lit "B"), request (lit "secret")) ∷ []

handle-Performed_example :
    ((authorized lib server (request (lit "secret")) ≡ true)
      × ((lib.allow server.limiter).0 ≡ true)
      × Performed
          (at_time 20 (lit "B"))
          start
          (handle lib (at_time 20 (lit "B")) (request (lit "secret")) server).1.store
          (handle lib (at_time 20 (lit "B")) (request (lit "secret")) server).0)
    ⊎ ((handle lib (at_time 20 (lit "B")) (request (lit "secret")) server).1.store ≡ start)
unfolding new_server
handle-Performed_example =
    handle-Performed lib (at_time 20 (lit "B")) (request (lit "secret")) server

serve-with_secret_example :
    serve lib requests server ≡ serve lib (with_secret lib (lit "secret") requests) server
unfolding new_server
serve-with_secret_example = serve-with_secret lib requests server

abbrev conditional : Request
conditional = record (request (lit "secret")) { if_none_match = etag 0 }

abbrev config : Config
config = record {
  secret = lit "secret";
  bind = [];
  port = 8080;
  data_file = [];
  rate_limit = pos 0;
}

started :
    start_server lib (λ rate burst. 20) (at_time 1 []) (λ path. missing) config
    ≡ some (new_server lib start (lit "secret") 20)
unfolding start_server validate_config ◌==◌ with_defaults lit resolve_rate_limit new_store load
    rebuild_index index_tasks
started = refl

-- A file that anyone on the machine may read.
abbrev machine : Machine
machine = record {
  read_file = λ path. some [];
  mode = λ path. some 420;
  unmarshal = λ raw. some config;
}

abbrev listening : Listening ℕ
listening = record {
  server = new_server lib start (lit "secret") 20;
  at = lit "127.0.0.1:8080";
  warned = true;
}

runs :
    run_main lib (λ rate burst. 20) (at_time 1 []) (λ path. missing) machine (lit "config.yaml")
    ≡ some listening
unfolding run_main start_server validate_config ◌==◌ with_defaults lit utf8 resolve_rate_limit
    new_store load rebuild_index index_tasks address warn_if_permissive too_permissive format_uint
runs = refl

dirty_build :
    build_revision
      (some ((lit "vcs.revision", lit "4f0c") ∷ ((lit "vcs.modified", lit "true") ∷ [])))
    ≡ lit "4f0c-dirty"
unfolding build_revision revision_of ◌==◌ lit utf8
dirty_build = refl

run_main-locked_example :
    handle lib (at_time 5 []) (request []) listening.server
    ≡ (write_json 403 (error_text (lit "access denied")), listening.server)
unfolding new_server
run_main-locked_example =
    run_main-locked lib (λ rate burst. 20) (at_time 1 []) (λ path. missing) machine
      (lit "config.yaml") listening (at_time 5 []) (request []) runs (λ t u h k. h ∙ sym k) refl
