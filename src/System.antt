-- ===== src/System.antt =====
-- The bot of client/bot and the server of server/ together: what the bot asks over the network is
-- what the server's handlers do.
pub mod Reply
pub mod Calls
pub mod Edit
pub mod Shared
pub mod Saved
mod Tests
use seshat_tasks.Prelude.{Option, none, some, List}
use seshat_tasks.Server.Store.{Env}
use seshat_tasks.Server.Http.{Library, Server, Request, Response, handle}
use seshat_tasks.Server.Http.Guarded.{serve}
use seshat_tasks.Bot.Effect.{Outside}

-- The server, and all the rest of the outside.
pub record Link (L F : Type 0) : Type 0 where
  pub server : Server L
  pub rest : F

-- Each request that the bot makes is handled by the server. `draw` gives the server's surroundings
-- for one request. The `exchange` of the rest only says whether the response comes back.
module _ {L F : Type 0} (lib : Library L) (draw : F → Env × F) (rest : Outside F) where
  unfoldable pub served : Request → Link L F → Option Response × Link L F
  served r e =
      let drawn = draw e.rest in
      let made = handle lib drawn.0 r e.server in
      let network = rest.exchange r drawn.1 in
      (
        elim network.0 [ none ↦ none | some _ ↦ some made.0 ],
        record { server = made.1; rest = network.1 },
      )

  abbrev pub linked : Outside (Link L F)
  linked = record {
    exchange = served;
    telegram = λ event e. let r = rest.telegram event e.rest in (r.0, record e { rest = r.1 });
    random = λ e. let r = rest.random e.rest in (r.0, record e { rest = r.1 });
    clock = λ e. let r = rest.clock e.rest in (r.0, record e { rest = r.1 });
    encode_add = rest.encode_add;
    encode_update = rest.encode_update;
    encode_delete = rest.encode_delete;
    decode_tasks = rest.decode_tasks;
    decode_task = rest.decode_task;
    error_key = rest.error_key;
    to_lower = rest.to_lower;
  }

-- Other clients: the requests of others that the surroundings bring, which the server handles before
-- the bot's next one.
module _ {L F : Type 0} (lib : Library L) (others : F → List (Env × Request) × F) where
  unfoldable pub met : Link L F → Link L F
  met e = let came = others e.rest in record { server = serve lib came.0 e.server; rest = came.1 }

  abbrev pub shared : (F → Env × F) → Outside F → Outside (Link L F)
  shared draw rest = record (linked lib draw rest) {
    exchange = λ r e. served lib draw rest r (met e);
  }
