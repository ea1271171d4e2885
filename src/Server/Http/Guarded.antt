-- ===== src/Server/Http/Guarded.antt =====
-- What a request can do to the server: `auth` before `rateLimit` before the handlers.
use seshat_tasks.Prelude.{
  Text, true, false, ◌==◌, none, List, [], ◌∷◌, if◌then◌else◌, ◌≡◌, refl, sym, ap, subst, ◌∙◌, ◌⊎◌,
  inl, inr, Bool-cases, lit,
}
use seshat_tasks.Server.Error.{ok, err, Result-cases}
use seshat_tasks.Server.Store.{Env, Store, Reply, add, update, delete}
use seshat_tasks.Server.Store.Sound.{IsSound}
use seshat_tasks.Server.Store.Calls.{
  Call, adds, updates, deletes, after, returns, succeeds, env_of, after-IsSound, after-Atomic,
}
use seshat_tasks.Server.Http.{
  Decoded, max_body_bytes, Library, Server, Request, Response, Body, reply, decode_result, answer,
  handle_call, handle_add, handle_update, handle_delete, route, rate_limit, authorized, handle,
}

-- A call of the store that returns, in these surroundings, and its answer.
pub record Performed (env : Env) (st st' : Store) (response : Response) : Type 0 where
  pub call : Call
  pub around : env_of call ≡ env
  pub succeeded : succeeds call st ≡ true
  pub stored : st' ≡ after call st
  pub body : Body
  pub answered : response ≡ reply 200 none body

abbrev PerformedOr : Env → Store → Response × Store → Type 0
PerformedOr env st answered = Performed env st answered.1 answered.0 ⊎ (answered.1 ≡ st)

answer-Performed :
    {A : Type 0} (render : A → Body) (made : Reply A) (env : Env) (call : Call) (st : Store)
    → env_of call ≡ env
    → after call st ≡ made.1
    → succeeds call st ≡ returns made
    → (returns made ≡ false → made.1 ≡ st)
    → PerformedOr env st (answer render made)
unfolding answer returns
answer-Performed render (ok a, st') env call st around e s kept = inl (record {
  call = call;
  around = around;
  succeeded = s;
  stored = sym e;
  body = render a;
  answered = refl;
})
answer-Performed render (err x, st') env call st around e s kept = inr (kept refl)

refused-kept : (call : Call) (st : Store) → succeeds call st ≡ false → after call st ≡ st
refused-kept call st refused = elim (after-Atomic call st) [
  | inl (returned, _, _, _) ↦ absurd (cc (refused, returned))
  | inr (_, same) ↦ same
]

-- A handler whose calls are calls of the store.
handle_call-Performed :
    {Q A : Type 0} (body : Decoded Q) (made : Q → Store → Reply A) (render : Q → A → Body)
    (env : Env) (st : Store) (call : Q → Call)
    → ((q : Q) → env_of (call q) ≡ env)
    → ((q : Q) → (after (call q) st ≡ (made q st).1) × (succeeds (call q) st ≡ returns (made q st)))
    → PerformedOr env st (handle_call body made render st)
unfolding handle_call
handle_call-Performed body made render env st call around agrees =
    elim (Result-cases (decode_result body)) [
      | inr (e, bad) ↦ rw (bad, handle_call) (inr refl)
      | inl (q, good) ↦
          let (left, result) = agrees q in
          rw (good, handle_call)
            (answer-Performed (render q) (made q st) env (call q) st (around q) left result
              (λ refused. sym left ∙ refused-kept (call q) st (result ∙ refused)))
    ]

module _ {L : Type 0} (lib : Library L) where
  route-Performed : (env : Env) (r : Request) (st : Store) → PerformedOr env st (route lib env r st)
  unfolding route handle_add handle_update handle_delete after succeeds
  route-Performed env r st = elim (Bool-cases (r.path == lit "/api/tasks/get")) [
    | inl get ↦ rw get (inr refl)
    | inr n1 ↦ rw n1 (elim (Bool-cases (r.path == lit "/api/tasks/add")) [
      | inl is_add ↦ rw is_add (
          handle_call-Performed (lib.decode_add max_body_bytes r.body) (add env) _ env st (adds env)
            (λ q. refl) (λ q. (refl, refl)))
      | inr n2 ↦ rw n2 (elim (Bool-cases (r.path == lit "/api/tasks/update")) [
        | inl is_update ↦ rw is_update (
            handle_call-Performed (lib.decode_update max_body_bytes r.body) (update env) _ env st
              (updates env) (λ q. refl) (λ q. (refl, refl)))
        | inr n3 ↦ rw n3 (elim (Bool-cases (r.path == lit "/api/tasks/delete")) [
          | inl is_delete ↦ rw is_delete (
              handle_call-Performed (lib.decode_delete max_body_bytes r.body) (delete env) _ env st
                (deletes env) (λ q. refl) (λ q. (refl, refl)))
          | inr n4 ↦ rw n4 (inr refl)
        ])
      ])
    ])
  ]

  -- A request changes the store only if its Authorization text has the digest of the secret, it is
  -- within the rate limit, and it is answered with 200; then the store is as after one call of it,
  -- in the surroundings of the request, that returned without an error. On every other request the store stays as it was.
  pub handle-Performed :
      (env : Env) (r : Request) (s : Server L)
      → ((authorized lib s r ≡ true)
          × ((lib.allow s.limiter).0 ≡ true)
          × Performed env s.store (handle lib env r s).1.store (handle lib env r s).0)
        ⊎ ((handle lib env r s).1.store ≡ s.store)
  unfolding handle rate_limit
  handle-Performed env r s = elim (Bool-cases (authorized lib s r)) [
    | inr stranger ↦ rw (stranger, handle) (inr refl)
    | inl known ↦ elim (Bool-cases ((lib.allow s.limiter).0)) [
      | inr limited ↦ rw (known, handle, limited, rate_limit) (inr refl)
      | inl allowed ↦
          rw (known, handle, allowed, rate_limit)
            (elim (route-Performed env r s.store) [
              | inl done ↦ inl (refl, refl, done)
              | inr same ↦ inr same
            ])
    ]
  ]

  -- Requests in the order in which they come, each with what its surroundings answer.
  unfoldable pub serve : List (Env × Request) → Server L → Server L
  serve [] s = s
  serve ((env, r) ∷ requests) s = serve requests (handle lib env r s).1

  -- The requests that carry the secret with this digest.
  unfoldable pub with_secret : Text → List (Env × Request) → List (Env × Request)
  with_secret hash [] = []
  with_secret hash ((env, r) ∷ requests) =
      let rest = with_secret hash requests in
      if lib.sha256 r.authorization == hash then (env, r) ∷ rest else rest

  hash-handle :
      (env : Env) (r : Request) (s : Server L) → (handle lib env r s).1.secret_hash ≡ s.secret_hash
  unfolding handle rate_limit
  hash-handle env r s = elim (Bool-cases (authorized lib s r)) [
    | inr stranger ↦ rw (stranger, handle) refl
    | inl known ↦ elim (Bool-cases ((lib.allow s.limiter).0)) [
      | inr limited ↦ rw (known, handle, limited, rate_limit) refl
      | inl allowed ↦ rw (known, handle, allowed, rate_limit) refl
    ]
  ]

  -- Requests whose Authorization text has another digest than the secret take nothing from the others:
  -- after any sequence of requests, the server, its rate limiter included, is as if they had not come.
  pub serve-with_secret :
      (requests : List (Env × Request)) (s : Server L)
      → serve requests s ≡ serve (with_secret s.secret_hash requests) s
  unfolding serve with_secret
  serve-with_secret [] s = refl
  serve-with_secret ((env, r) ∷ requests) s = elim (Bool-cases (authorized lib s r)) [
    | inl known ↦
        let s' = (handle lib env r s).1 in
        rw (known, with_secret)
          (serve-with_secret requests s'
            ∙ ap (λ hash. serve (with_secret hash requests) s') (hash-handle env r s))
    | inr stranger ↦
        rw (stranger, with_secret)
          (ap (serve requests) (rejected stranger) ∙ serve-with_secret requests s)
  ]
    where
      rejected : authorized lib s r ≡ false → (handle lib env r s).1 ≡ s
      rejected stranger = unfold handle in (rw stranger refl)

  -- A server with a sound store has a sound store after any sequence of requests, authorized or not.
  pub serve-IsSound :
      (requests : List (Env × Request)) (s : Server L)
      → IsSound s.store
      → IsSound (serve requests s).store
  unfolding serve
  serve-IsSound [] s h = h
  serve-IsSound ((env, r) ∷ requests) s h =
      serve-IsSound requests (handle lib env r s).1 (step (handle-Performed env r s))
    where
      step :
          ((authorized lib s r ≡ true)
              × ((lib.allow s.limiter).0 ≡ true)
              × Performed env s.store (handle lib env r s).1.store (handle lib env r s).0)
            ⊎ ((handle lib env r s).1.store ≡ s.store)
          → IsSound (handle lib env r s).1.store
      step (inl (_, _, p)) = subst IsSound (sym p.stored) (after-IsSound p.call s.store h)
      step (inr same) = subst IsSound (sym same) h
