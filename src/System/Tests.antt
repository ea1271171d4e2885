-- ===== src/System/Tests.antt =====
-- The bot and a server with one task, which has moved on since the bot sent a prompt for its title.
-- On the wire of this test, an update is its version and its id.
use seshat_tasks.Prelude.{
  ℕ, zero, suc, Text, lit, elem, eq_iff, utf8, ◌==◌, get, put, true, false, Option, none, some,
  List, [], ◌∷◌, ◌≡◌, refl, sym, arith, ◌⊎◌, inl,
}
use seshat_tasks.Prelude.Int.{pos, inc64}
use seshat_tasks.Task.{
  status_todo, priority_high, valid_status, terminal, valid_priority, task_at, has, Content,
  AddRequest, UpdateOp, State, Task, empty_task,
}
use seshat_tasks.Server.Error.{ok, ok-injective}
use seshat_tasks.Server.Content.{only_space, validate_content, apply_completion}
use seshat_tasks.Server.Validate.{
  check_children, check_tasks, color_of, visit_child, visit_children, visit, visit_all,
  validate_state,
}
use seshat_tasks.Server.Store.{
  index_children, index_tasks, rebuild_index, commit, commit_result, check_ops, check_existence,
  conflicts, updated_task, apply_ops, update_candidate, updated_tasks, add_candidate, link_parent,
  new_task, place, with_children, Store, Env, add, update, load, adopt_version, holds,
}
use seshat_tasks.Server.Http.{
  handle_add, handle_update, handle_call, answer, Request, handle, rate_limit, route, handle_get,
  etag, Decoded, decoded, malformed, Library, Body, empty, error_text, conflicting, violation,
  task_list, one_task, deleted, reply, decode_result, new_server,
}
use seshat_tasks.Server.Http.Meantime.{Avoids}
use seshat_tasks.Server.Http.Kept.{Stale}
use seshat_tasks.Bot.Registry.{
  Registry, Action, new_registry, put_prompt, get_by_prompt, drop_prompt, insert, push_front, evict,
  value_of,
}
use seshat_tasks.Bot.Registry as Registry
use seshat_tasks.Bot.Effect as Effect
use seshat_tasks.Bot.Effect.{Outcome, Outside, World, ◌>>=◌, pure}
use seshat_tasks.Bot.Handlers.Reply.{handle_reply}
use seshat_tasks.System.{served, Link, linked, met, shared}
use seshat_tasks.Bot.Client.{request_to, exchange, outcome_of, decoded_or, client_get}
use seshat_tasks.Server.Store.Sound.{IsSound}
use seshat_tasks.Server.Store.Index.{Named}
use seshat_tasks.Server.Store.Load.{load-IsSound}
use seshat_tasks.Server.Http.Guarded.{serve}
use seshat_tasks.Bot.Handlers.Edit.{edit_op, edit_once, apply_edit}
use seshat_tasks.System.Saved.{apply_edit-Saved}
use seshat_tasks.System.Shared.{
  arrived, fetched, meantime, found, EndsAs, Failed, edit_once-Interleaved,
}
use seshat_tasks.System.Calls.{Reaches}
use seshat_tasks.System.Reply.{ReadsBack, handle_reply-Stale}

abbrev retitled : Content
retitled = record empty_task.content {
  title = lit "Other title";
  status = status_todo;
  priority = priority_high;
}

abbrev decode : Text → Decoded (List UpdateOp)
decode [] = malformed (lit "EOF")
decode (version ∷ id) =
    decoded (record { id = id; content = retitled; expected_version = version } ∷ [])

abbrev encode : List UpdateOp → Text
encode [] = []
encode (op ∷ ops) = op.expected_version ∷ op.id

abbrev tasks_of : Body → Option (List Task)
tasks_of empty = none
tasks_of (error_text message) = none
tasks_of (conflicting ts) = none
tasks_of (violation message e) = none
tasks_of (task_list version ts) = some ts
tasks_of (one_task version t) = none
tasks_of (deleted version id) = none

abbrev task_of : Body → Option Task
task_of empty = none
task_of (error_text message) = none
task_of (conflicting ts) = none
task_of (violation message e) = none
task_of (task_list version ts) = none
task_of (one_task version t) = some t
task_of (deleted version id) = none

abbrev buy_milk : AddRequest
buy_milk = record {
  content = record retitled { title = lit "Buy milk" };
  parent_id = none;
  position = none;
}

abbrev finish : UpdateOp
finish = record { id = lit "L"; content = retitled; expected_version = 2 }

abbrev lib : Library ℕ
lib = record {
  sha256 = λ s. s;
  allow = λ n. (true, n);
  decode_add = λ limit body. decoded buy_milk;
  decode_update = λ limit body. decode body;
  decode_delete = λ limit body. decoded body;
}

abbrev rest : Outside ℕ
rest = record {
  exchange = λ r n. (some (reply 200 none empty), n);
  telegram = λ event n. (some (pos n), n);
  random = λ n. (some (n ∷ []), n);
  clock = λ n. (pos 86400, n);
  encode_add = λ req. req.content.title;
  encode_update = encode;
  encode_delete = λ id. id;
  decode_tasks = tasks_of;
  decode_task = task_of;
  error_key = λ limit body. [];
  to_lower = λ s. s;
}

-- The task has version 2 by now, and the prompt was sent at version 1.
abbrev state : State
state = record {
  data_format_version = 1;
  state_version = 5;
  tasks =
      (lit "L", record empty_task { id = lit "L"; meta = record empty_task.meta { version = 2 } })
      ∷ [];
}

abbrev store : Store
store = record { state = state; parent = []; file = state }

abbrev retitle : Action
retitle = record {
  kind = Registry.prompt_field;
  task_id = lit "L";
  arg = lit "title";
  page = pos 0;
  query = [];
  has_list = false;
  expected_version = 1;
  text = [];
}

abbrev world : World (Link ℕ ℕ)
world = record {
  outside = record { server = new_server lib store (lit "secret") 0; rest = 0 };
  registry = put_prompt retitle (pos 5) (new_registry 4);
  log = [];
}

reads_back : ReadsBack lib rest
unfolding decode_result
reads_back = record { update = λ op ops h. (retitled, sym (ok-injective h)) }

prompted : (get_by_prompt (pos 5) world.registry).0 ≡ some retitle
unfolding get_by_prompt put_prompt Registry.hit insert evict push_front drop_prompt value_of
prompted = refl

moved_on : Stale store (lit "L") 1
unfolding get ◌==◌ lit utf8
moved_on t found h = ground arith

abbrev draw : ℕ → Env × ℕ
draw n = (record { now = pos n; new_id = lit "N"; save_error = none }, n)

handle_reply-Stale_example :
    (handle_reply
      (linked lib draw rest)
      (pos 0)
      (pos 7)
      (pos 5)
      (lit "secret")
      (lit "Other title")
      world).1.outside.server.store
    ≡ store
unfolding new_server
handle_reply-Stale_example =
    handle_reply-Stale lib draw rest reads_back (pos 0) (pos 7) (pos 5) (lit "secret")
      (lit "Other title") retitle world prompted (λ h. ground arith) moved_on

abbrev set_title : Content → Content
set_title c = record c { title = lit "Other title"; status = status_todo; priority = priority_high }

abbrev moved : Task
moved = record empty_task { id = lit "L"; meta = record empty_task.meta { version = 2 } }

there : get (lit "L") state.tasks ≡ some moved
unfolding get ◌==◌ lit
there = refl

program : Unit {0}
unfolding add_candidate add link_parent new_task place with_children handle_add lit utf8 ◌==◌ elem
    get put task_at has valid_status terminal valid_priority only_space validate_content
    apply_completion check_children check_tasks color_of visit_child visit_children visit visit_all
    validate_state index_children index_tasks rebuild_index commit commit_result check_ops
    check_existence conflicts updated_task apply_ops update_candidate updated_tasks update
    adopt_version load inc64 new_server decode_result handle rate_limit route handle_get
    handle_update handle_call answer etag serve met served exchange client_get ◌>>=◌ outcome_of
    decoded_or pure
program = tt

-- Another client changes the task after each request of the bot.
abbrev others : ℕ → List (Env × Request) × ℕ
others zero = ([], zero)
others (suc n) =
    (((draw 0).0, request_to (lit "/api/tasks/update") (lit "secret") (2 ∷ lit "L")) ∷ [], suc n)

abbrev network : Outside ℕ
network = record rest { exchange = λ r n. (some (reply 200 none empty), suc n) }

state-Named : Named state.tasks
unfolding get
state-Named k t e = ground (arith, eq_iff k (lit "L"))

loads : load (draw 0).0 (holds state) ≡ ok store
unfolding program
loads = refl

store-IsSound : IsSound store
unfolding elem
store-IsSound = (load-IsSound (draw 0).0 state store (refl, tt) state-Named loads).0

world-met : (arrived lib draw network others (lit "secret") world).outside.server.store ≡ store
unfolding met serve new_server
world-met = refl

L-listed :
    get
      (lit "L")
      (arrived lib draw network others (lit "secret") world).outside.server.store.state.tasks
    ≡ some moved
unfolding program
L-listed = refl

avoids : Avoids (lit "L") (meantime lib draw network others (lit "secret") world)
unfolding program
avoids = (λ e. absurd (ground arith), tt)

reaches_once :
    Reaches lib draw network (lit "secret") (arrived lib draw network others (lit "secret") world)
unfolding program
reaches_once = record {
  known = refl;
  allowed = refl;
  arrives = λ r n. (reply 200 none empty, refl);
}

reaches_again : Reaches lib draw network (lit "secret") (
    arrived lib draw network others
      (lit "secret")
      (fetched lib draw network others (lit "secret") world))
unfolding program
reaches_again = record {
  known = refl;
  allowed = refl;
  arrives = λ r n. (reply 200 none empty, refl);
}

abbrev outdated : Store
outdated = found lib draw network others (lit "secret") world

changed_meanwhile : (task_at outdated.state.tasks (lit "L")).meta.version ≡ 3
unfolding program
changed_meanwhile = refl

edit_once-Interleaved_example :
    ((u : Task) × (get (lit "L") outdated.state.tasks ≡ some u)
      × EndsAs lib draw network others
          (lit "secret")
          (edit_once (shared lib others draw network) (lit "secret") (lit "L") 0 set_title world)
          (update
            (draw 1).0
            (edit_op (linked lib draw network) u (lit "L") 0 set_title ∷ [])
            outdated))
    ⊎ Failed lib draw network others
        (lit "secret")
        (edit_once (shared lib others draw network) (lit "secret") (lit "L") 0 set_title world)
        outdated
unfolding program
edit_once-Interleaved_example =
    edit_once-Interleaved lib draw network others (lit "secret") world (lit "L") 0 set_title moved
      store-IsSound L-listed (omega arith) avoids (omega arith) reaches_once reaches_again
      (record { tasks = λ version ts. refl; task = λ version t. refl }) refl

-- Another client adds a task after each request of the bot.
abbrev adding : ℕ → List (Env × Request) × ℕ
adding zero = ([], zero)
adding (suc n) = (((draw 0).0, request_to (lit "/api/tasks/add") (lit "secret") []) ∷ [], suc n)

L-kept : get (lit "L") (found lib draw network adding (lit "secret") world).state.tasks ≡ some moved
unfolding program
L-kept = refl

N-added : has (found lib draw network adding (lit "secret") world).state.tasks (lit "N") ≡ true
unfolding program
N-added = refl

adding_reaches :
    Reaches lib draw network (lit "secret") (arrived lib draw network adding (lit "secret") world)
unfolding program
adding_reaches = record {
  known = refl;
  allowed = refl;
  arrives = λ r n. (reply 200 none empty, refl);
}

adding_reaches_again : Reaches lib draw network (lit "secret") (
    arrived lib draw network adding
      (lit "secret")
      (fetched lib draw network adding (lit "secret") world))
unfolding program
adding_reaches_again = record {
  known = refl;
  allowed = refl;
  arrives = λ r n. (reply 200 none empty, refl);
}

abbrev after_edit : Outcome Task × World (Link ℕ ℕ)
after_edit = apply_edit (shared lib adding draw network) (lit "secret") (lit "L") 0 set_title world

apply_edit-Saved_example :
    (u : Task) × (after_edit.0 ≡ Effect.ok u)
    × (get (lit "L") after_edit.1.outside.server.store.state.tasks ≡ some u)
    × (u.content ≡ set_title moved.content)
    × (u.meta.version ≡ inc64 moved.meta.version)
    × (after_edit.1.outside.server.store.file ≡ after_edit.1.outside.server.store.state)
unfolding program
apply_edit-Saved_example =
    apply_edit-Saved lib draw network adding (lit "secret") world (lit "L") 0 set_title moved
      store-IsSound refl L-kept (inl refl) refl refl refl adding_reaches adding_reaches_again
      (record { tasks = λ version ts. refl; task = λ version t. refl }) refl
