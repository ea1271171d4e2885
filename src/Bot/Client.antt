-- ===== src/Bot/Client.antt =====
-- client/bot/seshat.go: the requests to the server. The base address belongs to the transport.
use seshat_tasks.Prelude.{
  ℕ, ◌*◌, Text, lit, ◌==◌, ltb, eqb, ◌||◌, Option, none, some, List, [], ◌∷◌, if◌then◌else◌,
}
use seshat_tasks.Task.{Task, AddRequest, UpdateOp}
use seshat_tasks.Server.Http.{Request, Response, Body, reply, unrouted, empty}
use seshat_tasks.Bot.Effect.{
  Failure, api, other, Outcome, ok, failed, requested, Outside, M, ◌>>=◌, ◌>>◌, pure, fail,
}

abbrev pub max_err_body : ℕ
max_err_body = 8 * 1024

abbrev pub status_of : Response → ℕ
status_of (reply code tag body) = code
status_of unrouted = 404

abbrev pub body_of : Response → Body
body_of (reply code tag body) = body
body_of unrouted = empty

abbrev pub request_to : Text → Text → Text → Request
request_to path token body = record {
  path = path;
  authorization = token;
  if_none_match = [];
  body = body;
}

-- A body that does not decode.
unfoldable pub decoded_or : {E A : Type 0} → Option A → M E A
decoded_or none = fail (other [])
decoded_or (some a) = pure a

module _ {E : Type 0} (out : Outside E) where
  unfoldable pub classify : Response → Failure
  classify resp =
      let message = out.error_key max_err_body (body_of resp) in
      api (status_of resp) (
        if message == []
        then if eqb (status_of resp) 409 then lit "version conflict" else lit "server error"
        else message)

  unfoldable pub outcome_of : Option Response → Outcome Body
  outcome_of none = failed (other [])
  outcome_of (some resp) =
      if ltb (status_of resp) 200 || ltb 299 (status_of resp)
      then failed (classify resp)
      else ok (body_of resp)

  -- `do`, up to the decoding of a body.
  unfoldable pub exchange : Request → M E Body
  exchange r w =
      let got = out.exchange r w.outside in
      (outcome_of got.0, record w { outside = got.1; log = requested r ∷ w.log })

  unfoldable pub client_get : Text → M E (List Task)
  client_get token = do
    body ← exchange (request_to (lit "/api/tasks/get") token [])
    decoded_or (out.decode_tasks body)

  unfoldable pub client_add : Text → AddRequest → M E Task
  client_add token req = do
    body ← exchange (request_to (lit "/api/tasks/add") token (out.encode_add req))
    decoded_or (out.decode_task body)

  unfoldable pub client_update : Text → List UpdateOp → M E (List Task)
  client_update token ops = do
    body ← exchange (request_to (lit "/api/tasks/update") token (out.encode_update ops))
    decoded_or (out.decode_tasks body)

  unfoldable pub client_delete : Text → Text → M E (Unit {0})
  client_delete token id = do
    exchange (request_to (lit "/api/tasks/delete") token (out.encode_delete id))
    pure tt
