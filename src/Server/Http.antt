-- ===== src/Server/Http.antt =====
-- server/handlers.go: from a request to a response. What the handlers take from other code is a
-- `Library`: the SHA-256 digest, the rate limiter (a state with its `Allow`), and the JSON decoders,
-- which read a body through `MaxBytesReader` with its limit.
pub mod Tag
pub mod Guarded
pub mod Kept
pub mod Meantime
use seshat_tasks.Prelude.{
  ℕ, zero, suc, ◌+◌, ◌*◌, ◌/◌, ◌%◌, ◌^◌, Text, lit, ◌==◌, map, ltb, eqb, Bool, true, false, not,
  Option, none, some, List, [], ◌∷◌, ◌++◌, if◌then◌else◌,
}
use seshat_tasks.Task.{Task, Tasks, State, AddRequest, UpdateOp}
use seshat_tasks.Server.Error.{
  Error, InvariantError, Result, ok, err, validation, conflict, violates, too_large, not_found,
  unsaved, out_of_fuel,
}
use seshat_tasks.Server.Store.{Env, Store, Reply, add, update, delete}

-- `json.Decoder.Decode` on a body.
pub data Decoded (A : Type 0) : Type 0 where
  decoded : A → Decoded A
  too_many_bytes : Decoded A
  malformed : Text → Decoded A

pub record Library (L : Type 0) : Type 0 where
  pub sha256 : Text → Text
  pub allow : L → Bool × L
  pub decode_add : ℕ → Text → Decoded AddRequest
  pub decode_update : ℕ → Text → Decoded (List UpdateOp)
  pub decode_delete : ℕ → Text → Decoded Text

abbrev pub max_body_bytes : ℕ
max_body_bytes = 2 ^ 20

pub record Server (L : Type 0) : Type 0 where
  pub store : Store
  pub secret_hash : Text
  pub limiter : L

-- What a handler reads of a request; a header that is missing is the empty text.
pub record Request : Type 0 where
  pub path : Text
  pub authorization : Text
  pub if_none_match : Text
  pub body : Text

pub data Body : Type 0 where
  empty : Body
  error_text : Text → Body
  conflicting : List Task → Body
  violation : Text → InvariantError → Body
  task_list : ℕ → List Task → Body
  one_task : ℕ → Task → Body
  deleted : ℕ → Text → Body

-- `unrouted` is the answer of `ServeMux` itself where no pattern matches.
pub data Response : Type 0 where
  reply : ℕ → Option Text → Body → Response
  unrouted : Response

abbrev pub write_json : ℕ → Body → Response
write_json code body = reply code none body

-- `writeErr`. Its default arm also reports `out_of_fuel`, with no text: no call returns it.
unfoldable pub write_err : Error → Response
write_err (validation message) = write_json 400 (error_text message)
write_err (conflict tasks) = write_json 409 (conflicting tasks)
write_err (violates e) = write_json 422 (violation (lit "invariant violation: " ++ e.invariant) e)
write_err too_large = write_json 413 (error_text (lit "request body too large"))
write_err not_found = write_json 404 (error_text (lit "not found"))
write_err (unsaved message) = write_json 500 (error_text message)
write_err out_of_fuel = write_json 500 (error_text [])

-- A decoder's failure, classified by `decodeErr`.
unfoldable pub decode_result : {A : Type 0} → Decoded A → Result A
decode_result (decoded a) = ok a
decode_result too_many_bytes = err too_large
decode_result (malformed message) = err (validation (lit "invalid JSON: " ++ message))

-- `strconv.FormatUint` in base 10; a uint64 has at most 20 digits.
unfoldable pub format_uint : ℕ → ℕ → Text
format_uint zero n = []
format_uint (suc digits) n =
    let front = format_uint digits (n / 10) in
    if ltb n 10 then (b'0' + n) ∷ [] else front ++ ((b'0' + n % 10) ∷ [])

unfoldable pub etag : ℕ → Text
etag version = lit "\"" ++ (format_uint 20 version ++ lit "\"")

unfoldable pub values : Tasks → List Task
values [] = []
values ((k, t) ∷ ts) = t ∷ values ts

unfoldable pub handle_get : Store → Request → Response
handle_get st r =
    let tag = etag st.state.state_version in
    if r.if_none_match == tag
    then reply 304 (some tag) empty
    else reply 200 (some tag) (task_list st.state.state_version (values st.state.tasks))

-- The answer to a call of the store.
unfoldable pub answer : {A : Type 0} → (A → Body) → Reply A → Response × Store
answer body (ok a, st) = (write_json 200 (body a), st)
answer body (err e, st) = (write_err e, st)

-- A handler that decodes its request, calls the store, and answers.
unfoldable pub handle_call :
    {Q A : Type 0} → Decoded Q → (Q → Store → Reply A) → (Q → A → Body) → Store → Response × Store
handle_call body call render st = elim (decode_result body) [
  | err e ↦ (write_err e, st)
  | ok q ↦ answer (render q) (call q st)
]

module _ {L : Type 0} (lib : Library L) where
  unfoldable pub handle_add : Env → Request → Store → Response × Store
  handle_add env r st =
      handle_call (lib.decode_add max_body_bytes r.body) (add env) (λ q a. one_task a.1 a.0) st

  unfoldable pub handle_update : Env → Request → Store → Response × Store
  handle_update env r st =
      handle_call (lib.decode_update max_body_bytes r.body) (update env) (λ q a. task_list a.1 a.0)
        st

  unfoldable pub handle_delete : Env → Request → Store → Response × Store
  handle_delete env r st =
      handle_call (lib.decode_delete max_body_bytes r.body) (delete env)
        (λ id version. deleted version id) st

  -- `mux`
  unfoldable pub route : Env → Request → Store → Response × Store
  route env r st =
      if r.path == lit "/api/tasks/get"
      then (handle_get st r, st)
      else if r.path == lit "/api/tasks/add"
      then handle_add env r st
      else if r.path == lit "/api/tasks/update"
      then handle_update env r st
      else if r.path == lit "/api/tasks/delete"
      then handle_delete env r st
      else (unrouted, st)

  -- `rateLimit`, around the mux.
  unfoldable pub rate_limit : Env → Request → Server L → Response × Server L
  rate_limit env r s =
      let (allowed, l) = lib.allow s.limiter in
      if not allowed
      then (write_json 429 (error_text (lit "rate limited")), record s { limiter = l })
      else let (response, st) = route env r s.store in
        (response, record s { store = st; limiter = l })

  abbrev pub authorized : Server L → Request → Bool
  authorized s r = lib.sha256 r.authorization == s.secret_hash

  -- `auth`, around the rate limit: the whole chain that `Handler` returns.
  unfoldable pub handle : Env → Request → Server L → Response × Server L
  handle env r s =
      if not (authorized s r)
      then (write_json 403 (error_text (lit "access denied")), s)
      else rate_limit env r s

unfoldable pub new_server : {L : Type 0} → Library L → Store → Text → L → Server L
new_server lib st secret limiter = record {
  store = st;
  secret_hash = lib.sha256 secret;
  limiter = limiter;
}
