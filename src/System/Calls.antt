-- ===== src/System/Calls.antt =====
-- The requests of client/bot/seshat.go against the calls of server/store.go that they stand for.
use seshat_tasks.Prelude.{ℕ, Text, lit, ◌==◌, true, some, List, ◌≡◌, refl, ap, ◌∙◌}
use seshat_tasks.Task.{Task, UpdateOp}
use seshat_tasks.Server.Error.{
  Error, validation, conflict, violates, too_large, not_found, unsaved, out_of_fuel, Result, ok,
  err,
}
use seshat_tasks.Server.Store.{Env, Store, Reply, update}
use seshat_tasks.Server.Http.{
  Library, Server, Request, Response, Body, task_list, one_task, max_body_bytes, decode_result,
  write_err, answer, handle_call, handle_update, route, rate_limit, handle,
}
use seshat_tasks.Bot.Effect.{Outcome, ok, failed, Outside, World, M, follow, ◌>>=◌, pure}
use seshat_tasks.Bot.Effect as Effect
use seshat_tasks.Bot.Client.{classify, outcome_of, exchange, request_to, decoded_or, client_update}
use seshat_tasks.System.{Link, served, linked}

-- What a caller of the bot's client is told of the result of a call: its value, or the status and
-- the text of the error.
unfoldable pub told : {E A B : Type 0} → Outside E → (A → B) → Result A → Outcome B
told out value (ok a) = Effect.ok (value a)
told out value (err e) = failed (classify out (write_err e))

refused :
    {E : Type 0} (out : Outside E) (e : Error)
    → outcome_of out (some (write_err e)) ≡ failed (classify out (write_err e))
unfolding outcome_of write_err
refused out (validation message) = refl
refused out (conflict tasks) = refl
refused out (violates e) = refl
refused out too_large = refl
refused out not_found = refl
refused out (unsaved message) = refl
refused out out_of_fuel = refl

follow-answer :
    {E A B : Type 0} (out : Outside E) (render : A → Body) (decode : Body → M E B) (value : A → B)
    (made : Reply A) (w : World E)
    → ((a : A) → decode (render a) ≡ pure (value a))
    → follow (outcome_of out (some (answer render made).0)) decode w ≡ (told out value made.0, w)
unfolding answer told pure outcome_of
follow-answer out render decode value (ok a, st) w h = λ i. h a i w
follow-answer out render decode value (err e, st) w h = ap (λ r. follow r decode w) (refused out e)

answer-store : {A : Type 0} (render : A → Body) (made : Reply A) → (answer render made).1 ≡ made.1
unfolding answer
answer-store render (ok a, st) = refl
answer-store render (err e, st) = refl

module _ {L F : Type 0} (lib : Library L) (draw : F → Env × F) (rest : Outside F) (token : Text)
    (w : World (Link L F)) where
  abbrev server : Server L
  server = w.outside.server

  -- What the server finds around a request.
  abbrev env : Env
  env = (draw w.outside.rest).0

  -- The server knows the token and is within its rate limit, and the network returns its response.
  pub record Reaches : Type 0 where
    pub known : (lib.sha256 token == server.secret_hash) ≡ true
    pub allowed : (lib.allow server.limiter).0 ≡ true
    pub arrives :
        (r : Request) (f : F) → (response : Response) × ((rest.exchange r f).0 ≡ some response)

  pub handle-route :
      (path body : Text)
      → Reaches
      → ((handle lib env (request_to path token body) server).0
          ≡ (route lib env (request_to path token body) server.store).0)
        × ((handle lib env (request_to path token body) server).1.store
            ≡ (route lib env (request_to path token body) server.store).1)
  unfolding handle route rate_limit ◌==◌
  handle-route path body h = rw (h.known, handle, h.allowed, rate_limit) (refl, refl)

  pub served-route :
      (path body : Text)
      → Reaches
      → (served lib draw rest (request_to path token body) w.outside).0
        ≡ some (route lib env (request_to path token body) server.store).0
  unfolding served
  served-route path body h =
      let (response, arrived) = h.arrives (request_to path token body) (draw w.outside.rest).1 in
      rw arrived (ap some (handle-route path body h).0)

  pub call-Refines :
      {A B : Type 0} (path body : Text) (render : A → Body) (decode : Body → M (Link L F) B)
      (value : A → B) (made : Reply A)
      → Reaches
      → route lib env (request_to path token body) server.store ≡ answer render made
      → ((a : A) → decode (render a) ≡ pure (value a))
      → (((exchange (linked lib draw rest) (request_to path token body) >>= decode) w).0
          ≡ told (linked lib draw rest) value made.0)
        × (((exchange (linked lib draw rest) (request_to path token body) >>= decode)
              w).1.outside.server.store
            ≡ made.1)
  unfolding exchange ◌>>=◌ served
  call-Refines path body render decode value made h routed reads = (
    ap (λ (r : Outcome _ × World (Link L F)). r.0) ends,
    ap (λ (r : Outcome _ × World (Link L F)). r.1.outside.server.store) ends
        ∙ (handle-route path body h).1
        ∙ ap (λ (r : Response × Store). r.1) routed
        ∙ answer-store render made,
  )
    where
      w' : World (Link L F)
      w' = (exchange (linked lib draw rest) (request_to path token body) w).1

      ends :
          follow (exchange (linked lib draw rest) (request_to path token body) w).0 decode w'
          ≡ (told (linked lib draw rest) value made.0, w')
      ends =
          ap (λ o. follow (outcome_of (linked lib draw rest) o) decode w')
            (served-route path body h ∙ ap (λ (r : Response × Store). some r.0) routed)
          ∙ follow-answer (linked lib draw rest) render decode value made w' reads

  pub routed_update :
      (ops : List UpdateOp) (body : Text)
      → decode_result (lib.decode_update max_body_bytes body) ≡ ok ops
      → route lib env (request_to (lit "/api/tasks/update") token body) server.store
        ≡ answer (λ (a : List Task × ℕ). task_list a.1 a.0) (update env ops server.store)
  unfolding route handle_update ◌==◌ lit handle_call answer
  routed_update ops body h = rw (h, handle_call) refl

  -- A call of the bot's client does what the call of the store does.
  pub record DoesAs {A B : Type 0} (m : M (Link L F) B) (value : A → B) (made : Reply A)
      : Type 0 where
    pub result : (m w).0 ≡ told (linked lib draw rest) value made.0
    pub store : (m w).1.outside.server.store ≡ made.1

  -- The bot's decoders on the bodies of the server.
  pub record ReadsBodies : Type 0 where
    pub tasks : (version : ℕ) (ts : List Task) → rest.decode_tasks (task_list version ts) ≡ some ts
    pub task : (version : ℕ) (t : Task) → rest.decode_task (one_task version t) ≡ some t

  pub client_update-DoesAs :
      (ops : List UpdateOp)
      → Reaches
      → ReadsBodies
      → decode_result (lib.decode_update max_body_bytes (rest.encode_update ops)) ≡ ok ops
      → DoesAs
          (client_update (linked lib draw rest) token ops)
          (λ a. a.0)
          (update env ops server.store)
  unfolding client_update decoded_or
  client_update-DoesAs ops h reads u =
      let updated =
        call-Refines (lit "/api/tasks/update") (rest.encode_update ops)
          (λ (x : List Task × ℕ). task_list x.1 x.0) (λ body. decoded_or (rest.decode_tasks body))
          (λ x. x.0) (update env ops server.store) h (routed_update ops _ u)
          (λ x. ap decoded_or (reads.tasks x.1 x.0)) in
      record { result = updated.0; store = updated.1 }
