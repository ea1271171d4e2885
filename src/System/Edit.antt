-- ===== src/System/Edit.antt =====
-- One attempt of an edit (`applyEdit` of client/bot/handlers.go) against the store of the server.
use seshat_tasks.Prelude.{
  ℕ, Text, lit, ◌==◌, eq_iff, get, put, get-put, keys, Distinct, elem-keys-get, Map, none, some,
  List, [], ◌∷◌, ◌≡◌, refl, ap, ◌∙◌, Option-cases, inl, inr, arith,
}
use seshat_tasks.Task.{Task, Tasks, UpdateOp}
use seshat_tasks.Server.Error.{ok}
use seshat_tasks.Server.Store.{Env, Store, Reply, update}
use seshat_tasks.Server.Store.Index.{Named, Named-tail}
use seshat_tasks.Server.Store.Sound.{IsKeyed}
use seshat_tasks.Server.Http.{
  Library, Request, Response, Body, reply, task_list, values, etag, handle_get, route,
  max_body_bytes, decode_result,
}
use seshat_tasks.Bot.View.{index_by_id, build_index, get_task}
use seshat_tasks.Bot.Effect.{
  Outcome, ok, failed, task_gone, Outside, World, M, follow, ◌>>=◌, pure, fail,
}
use seshat_tasks.Bot.Effect as Effect
use seshat_tasks.Bot.Client.{
  outcome_of, exchange, request_to, decoded_or, client_get, client_update,
}
use seshat_tasks.Bot.Handlers.Edit.{Patch, edit_op, first_updated, edit_found, edit_once}
use seshat_tasks.System.{Link, served, linked}
use seshat_tasks.System.Calls.{
  told, Reaches, ReadsBodies, DoesAs, handle-route, served-route, client_update-DoesAs,
}

get-index_by_id :
    (ts : Tasks) (m : Map Task) (j : Text)
    → Distinct (keys ts)
    → Named ts
    → get j (index_by_id (values ts) m) ≡ (elim (get j ts) [ none ↦ get j m | some t ↦ some t ])
unfolding index_by_id values get
get-index_by_id [] m j d n = refl
get-index_by_id ((k, t) ∷ ts) m j d n =
    let (named, rest) = Named-tail k t ts d n in
    get-index_by_id ts (put t.id t m) j d.1 rest ∙ elim (Option-cases (get j ts)) [
      | inl absent ↦ ground (arith, get-put t.id j t m, eq_iff j k, eq_iff j t.id)
      | inr (u, there) ↦ ground (arith, eq_iff j k, d.0, elem-keys-get j u ts there)
    ]

-- What the bot finds under an id in a listing of the store is what the store has under it.
pub found-get :
    (ts : Tasks) (id : Text) → IsKeyed ts → get_task (build_index (values ts)) id ≡ get id ts
unfolding get_task build_index get
found-get ts id h = get-index_by_id ts [] id h.distinct h.named ∙ elim (Option-cases (get id ts)) [
  | inl absent ↦ rw absent refl
  | inr (u, there) ↦ rw there refl
]

-- The first of the tasks that an update answers with.
unfoldable pub head_of : Outcome (List Task) → Outcome Task
head_of (Effect.ok []) = failed task_gone
head_of (Effect.ok (t ∷ ts)) = Effect.ok t
head_of (failed e) = failed e

pub follow-first_updated :
    {E : Type 0} (out : Outside E) (r : Outcome (List Task)) (w : World E)
    → follow r (first_updated out) w ≡ (head_of r, w)
unfolding head_of pure fail
follow-first_updated out (Effect.ok []) w = refl
follow-first_updated out (Effect.ok (t ∷ ts)) w = refl
follow-first_updated out (failed e) w = refl

module _ {L F : Type 0} (lib : Library L) (draw : F → Env × F) (rest : Outside F)
    (token : Text) where
  abbrev fetch : Request
  fetch = request_to (lit "/api/tasks/get") token []

  abbrev listed : Store → Response
  listed st =
      reply 200 (some (etag st.state.state_version))
        (task_list st.state.state_version (values st.state.tasks))

  routed_get : (env : Env) (st : Store) → route lib env fetch st ≡ (listed st, st)
  unfolding route handle_get etag lit ◌==◌
  routed_get env st = refl

  -- The tasks of the store come to the bot, and the store stays.
  pub client_get-values :
      (w : World (Link L F))
      → Reaches lib draw rest token w
      → ReadsBodies lib draw rest token w
      → ((client_get (linked lib draw rest) token w).0
          ≡ Effect.ok (values w.outside.server.store.state.tasks))
        × ((client_get (linked lib draw rest) token w).1.outside.server.store
            ≡ w.outside.server.store)
  unfolding client_get ◌>>=◌ exchange served decoded_or pure outcome_of
  client_get-values w h reads = (
    ap (λ (r : Outcome (List Task) × World (Link L F)). r.0) ends,
    ap (λ (r : Outcome (List Task) × World (Link L F)). r.1.outside.server.store) ends
        ∙ (handle-route lib draw rest token w (lit "/api/tasks/get") [] h).1
        ∙ ap (λ (r : Response × Store). r.1) (routed_get _ w.outside.server.store),
  )
    where
      w' : World (Link L F)
      w' = (exchange (linked lib draw rest) fetch w).1

      decode : Body → M (Link L F) (List Task)
      decode body = decoded_or (rest.decode_tasks body)

      ends :
          follow (exchange (linked lib draw rest) fetch w).0 decode w'
          ≡ (Effect.ok (values w.outside.server.store.state.tasks), w')
      ends =
          ap (λ o. follow (outcome_of (linked lib draw rest) o) decode w')
            (served-route lib draw rest token w (lit "/api/tasks/get") [] h
              ∙ ap (λ (r : Response × Store). some r.0) (routed_get _ w.outside.server.store))
          ∙ ap (λ o. decoded_or o w') (reads.tasks _ _)

  -- One attempt of an edit is one Update of the store: with the patch on the content that the store
  -- has, and expecting the pinned version, or the one that the store has where none is pinned. The
  -- store ends as after that call, and the attempt gives the updated task or the call's error. This
  -- holds if the store has the task, and its tasks have distinct keys, each under its own id; if the
  -- server knows the token and has room in its rate limit for both requests; if the network returns
  -- responses and the bot can decode them; and if the server decodes the update that the bot encodes.
  pub edit_once-Updates :
      (w : World (Link L F)) (id : Text) (pinned : ℕ) (patch : Patch) (t : Task)
      → IsKeyed w.outside.server.store.state.tasks
      → get id w.outside.server.store.state.tasks ≡ some t
      → Reaches lib draw rest token w
      → Reaches lib draw rest token (client_get (linked lib draw rest) token w).1
      → ReadsBodies lib draw rest token w
      → decode_result (
          lib.decode_update max_body_bytes
            (rest.encode_update (edit_op (linked lib draw rest) t id pinned patch ∷ [])))
        ≡ ok (edit_op (linked lib draw rest) t id pinned patch ∷ [])
      → ((edit_once (linked lib draw rest) token id pinned patch w).0
          ≡ head_of (
              told
                (linked lib draw rest)
                (λ (a : List Task × ℕ). a.0)
                (update
                  (draw (client_get (linked lib draw rest) token w).1.outside.rest).0
                  (edit_op (linked lib draw rest) t id pinned patch ∷ [])
                  w.outside.server.store).0))
        × ((edit_once (linked lib draw rest) token id pinned patch w).1.outside.server.store
            ≡ (update
                (draw (client_get (linked lib draw rest) token w).1.outside.rest).0
                (edit_op (linked lib draw rest) t id pinned patch ∷ [])
                w.outside.server.store).1)
  unfolding edit_once ◌>>=◌
  edit_once-Updates w id pinned patch t keyed there h h' reads u = (
    ap (λ (r : Outcome Task × World (Link L F)). r.0) ends,
    ap (λ (r : Outcome Task × World (Link L F)). r.1.outside.server.store) ends
        ∙ did.store
        ∙ ap (λ st. (made st).1) got.1,
  )
    where
      lk : Outside (Link L F)
      lk = linked lib draw rest

      w1 : World (Link L F)
      w1 = (client_get lk token w).1

      ops : List UpdateOp
      ops = edit_op lk t id pinned patch ∷ []

      made : Store → Reply (List Task × ℕ)
      made st = update (draw w1.outside.rest).0 ops st

      got :
          ((client_get lk token w).0 ≡ Effect.ok (values w.outside.server.store.state.tasks))
          × (w1.outside.server.store ≡ w.outside.server.store)
      got = client_get-values w h reads

      did :
          DoesAs lib draw rest token w1
            (client_update lk token ops)
            (λ (a : List Task × ℕ). a.0)
            (made w1.outside.server.store)
      did =
          client_update-DoesAs lib draw rest token w1 ops h'
            (record { tasks = reads.tasks; task = reads.task }) u

      w2 : World (Link L F)
      w2 = (client_update lk token ops w1).1

      after : List Task → M (Link L F) Task
      after tasks = edit_found lk token id pinned patch (get_task (build_index tasks) id)

      ends :
          follow (client_get lk token w).0 after w1
          ≡ (head_of (told lk (λ (a : List Task × ℕ). a.0) (made w.outside.server.store).0), w2)
      ends =
          ap (λ r. follow r after w1) got.0
          ∙ ap (λ o. edit_found lk token id pinned patch o w1)
              (found-get w.outside.server.store.state.tasks id keyed ∙ there)
          ∙ follow-first_updated lk (client_update lk token ops w1).0 w2
          ∙ ap (λ r. (head_of r, w2))
              (did.result ∙ ap (λ st. told lk (λ (a : List Task × ℕ). a.0) (made st).0) got.1)
