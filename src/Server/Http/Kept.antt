-- ===== src/Server/Http/Kept.antt =====
-- Requests of server/handlers.go that leave the store as it is.
use seshat_tasks.Prelude.{
  ℕ, Text, ◌==◌, lit, get, none, some, List, [], ◌∷◌, ◌≡◌, ◌≢◌, refl, ap, ◌∙◌, inl, inr, Bool-cases,
  Option-cases, arith,
}
use seshat_tasks.Task.{Content, Task, UpdateOp, has, task_at}
use seshat_tasks.Server.Error.{ok, err, Result-cases}
use seshat_tasks.Server.Store.{
  Env, Store, Reply, update, update_candidate, check_existence, conflicts, commit_result,
}
use seshat_tasks.Server.Store.Commit.{Refused}
use seshat_tasks.Server.Store.Candidate.{update_candidate-Updated}
use seshat_tasks.Server.Http.{
  Decoded, max_body_bytes, Library, Server, Request, Body, decode_result, answer, handle_call,
  handle_update, route, rate_limit, authorized, handle,
}

-- The store has no task with this id at this version.
abbrev pub Stale : Store → Text → ℕ → Type 0
Stale st id version = (t : Task) → get id st.state.tasks ≡ some t → t.meta.version ≢ version

unconflicted :
    (st : Store) (op : UpdateOp) (t : Task)
    → get op.id st.state.tasks ≡ some t
    → conflicts st.state.tasks (op ∷ []) ≡ []
    → t.meta.version ≡ op.expected_version
unfolding conflicts task_at
unconflicted st op t found h = ground arith

existing :
    (st : Store) (op : UpdateOp)
    → get op.id st.state.tasks ≡ none
    → check_existence st.state.tasks (op ∷ []) ≢ ok tt
unfolding check_existence has
existing st op missing h = absurd (ground arith)

-- An update of one task that is gone, or has another version by now.
pub update-Refused :
    (env : Env) (op : UpdateOp) (st : Store)
    → Stale st op.id op.expected_version
    → Refused st (update env (op ∷ []) st)
unfolding update commit_result
update-Refused env op st stale = elim (Result-cases (update_candidate env (op ∷ []) st.state)) [
  | inr (e, bad) ↦ (e, rw bad refl)
  | inl (cand, good) ↦
      let made = update_candidate-Updated env (op ∷ []) st.state cand good in
      elim (Option-cases (get op.id st.state.tasks)) [
        | inl missing ↦ absurd (existing st op missing made.existing)
        | inr (t, found) ↦ absurd (stale t found (unconflicted st op t found made.unconflicted))
      ]
]

update-kept :
    (env : Env) (op : UpdateOp) (st : Store)
    → Stale st op.id op.expected_version
    → (update env (op ∷ []) st).1 ≡ st
update-kept env op st stale =
    ap (λ (r : Reply (List Task × ℕ)). r.1) (update-Refused env op st stale).1

answer-store : {A : Type 0} (render : A → Body) (made : Reply A) → (answer render made).1 ≡ made.1
unfolding answer
answer-store render (ok a, st) = refl
answer-store render (err e, st) = refl

handle_call-kept :
    {Q A : Type 0} (body : Decoded Q) (call : Q → Store → Reply A) (render : Q → A → Body)
    (st : Store)
    → ((q : Q) → decode_result body ≡ ok q → (call q st).1 ≡ st)
    → (handle_call body call render st).1 ≡ st
unfolding handle_call
handle_call-kept body call render st h = elim (Result-cases (decode_result body)) [
  | inr (e, bad) ↦ rw (bad, handle_call) refl
  | inl (q, good) ↦ rw (good, handle_call) (answer-store (render q) (call q st) ∙ h q good)
]

module _ {L : Type 0} (lib : Library L) where
  handle-kept :
      (env : Env) (r : Request) (s : Server L)
      → (route lib env r s.store).1 ≡ s.store
      → (handle lib env r s).1.store ≡ s.store
  unfolding handle rate_limit
  handle-kept env r s h = elim (Bool-cases (authorized lib s r)) [
    | inr stranger ↦ rw (stranger, handle) refl
    | inl known ↦ elim (Bool-cases ((lib.allow s.limiter).0)) [
      | inr limited ↦ rw (known, handle, limited, rate_limit) refl
      | inl allowed ↦ rw (known, handle, allowed, rate_limit) h
    ]
  ]

  -- A request for the tasks.
  pub get-kept :
      (env : Env) (r : Request) (s : Server L)
      → r.path ≡ lit "/api/tasks/get"
      → (handle lib env r s).1.store ≡ s.store
  unfolding ◌==◌ lit
  get-kept env r s path = handle-kept env r s (unfold route in rw path refl)

  handle_update-kept :
      (env : Env) (r : Request) (st : Store) (op : UpdateOp)
      → ((ops : List UpdateOp)
          → decode_result (lib.decode_update max_body_bytes r.body) ≡ ok ops
          → (c : Content) × (ops ≡ record op { content = c } ∷ []))
      → Stale st op.id op.expected_version
      → (handle_update lib env r st).1 ≡ st
  unfolding handle_update
  handle_update-kept env r st op decodes stale =
      handle_call-kept (lib.decode_update max_body_bytes r.body) (update env) _ st λ ops good.
        let (c, same) = decodes ops good in
        rw same (update-kept env (record op { content = c }) st stale)

  -- An update request whose body is refused, or decodes to the one update `op`, up to
  -- its content, that is stale.
  pub update_request-kept :
      (env : Env) (r : Request) (s : Server L) (op : UpdateOp)
      → r.path ≡ lit "/api/tasks/update"
      → ((ops : List UpdateOp)
          → decode_result (lib.decode_update max_body_bytes r.body) ≡ ok ops
          → (c : Content) × (ops ≡ record op { content = c } ∷ []))
      → Stale s.store op.id op.expected_version
      → (handle lib env r s).1.store ≡ s.store
  unfolding ◌==◌ lit handle_update
  update_request-kept env r s op path decodes stale =
      handle-kept env r s
        (unfold route in rw path (handle_update-kept env r s.store op decodes stale))
