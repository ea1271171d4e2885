-- ===== src/System/Shared.antt =====
-- One attempt of an edit (`applyEdit` of client/bot/handlers.go) while other clients use the server.
use seshat_tasks.Prelude.{
  Option, none, ℕ, ◌+◌, ◌≤◌, ◌<◌, ◌^◌, Text, get, some, List, [], ◌∷◌, length, ◌≡◌, refl, sym, ap,
  subst, ◌∙◌, ◌⊎◌, inl, inr, arith,
}
use seshat_tasks.Task.{Task, UpdateOp}
use seshat_tasks.Server.Error.{ok}
use seshat_tasks.Server.Store.{Env, Store, Reply, update}
use seshat_tasks.Server.Store.Commit.{Refused}
use seshat_tasks.Server.Store.Sound.{IsSound, sound-IsKeyed}
use seshat_tasks.Server.Store.History.{Later}
use seshat_tasks.Server.Http.{Library, Request, max_body_bytes, decode_result}
use seshat_tasks.Server.Http.Guarded.{serve}
use seshat_tasks.Server.Http.Kept.{Stale, update-Refused}
use seshat_tasks.Server.Http.Meantime.{Avoids, serve-Later}
use seshat_tasks.Bot.Effect.{Failure, Outcome, failed, follow, Outside, World, M, ◌>>=◌}
use seshat_tasks.Bot.View.{build_index, get_task}
use seshat_tasks.Bot.Client.{exchange, client_get, client_update, classify, outcome_of}
use seshat_tasks.Bot.Handlers.Edit.{Patch, edit_op, first_updated, edit_found, edit_once}
use seshat_tasks.System.Calls.{Reaches, ReadsBodies, DoesAs, told, client_update-DoesAs}
use seshat_tasks.System.Edit.{head_of, follow-first_updated, found-get, client_get-values}
use seshat_tasks.System.{Link, linked, met, shared}

module _ {L F : Type 0} (lib : Library L) (draw : F → Env × F) (rest : Outside F)
    (others : F → List (Env × Request) × F) (token : Text) where
  abbrev pub lk : Outside (Link L F)
  lk = linked lib draw rest

  abbrev pub sh : Outside (Link L F)
  sh = shared lib others draw rest

  -- The world when the bot's next request reaches the server.
  abbrev pub arrived : World (Link L F) → World (Link L F)
  arrived w = record w { outside = met lib others w.outside }

  get-shared : (w : World (Link L F)) → client_get sh token w ≡ client_get lk token (arrived w)
  unfolding client_get exchange ◌>>=◌ outcome_of classify
  get-shared w = refl

  update-shared :
      (ops : List UpdateOp) (w : World (Link L F))
      → client_update sh token ops w ≡ client_update lk token ops (arrived w)
  unfolding client_update exchange ◌>>=◌ outcome_of classify
  update-shared ops w = refl

  -- The result of an edit is the first task that the call of the store answers with, and the store
  -- ends as after it.
  abbrev pub EndsAs : Outcome Task × World (Link L F) → Reply (List Task × ℕ) → Type 0
  EndsAs ended made =
      (ended.0 ≡ head_of (told lk (λ (a : List Task × ℕ). a.0) made.0))
      × (ended.1.outside.server.store ≡ made.1)

  -- An edit that has failed and left this store as it is.
  abbrev pub Failed : Outcome Task × World (Link L F) → Store → Type 0
  Failed ended st = (e : Failure) × (ended.0 ≡ failed e) × (ended.1.outside.server.store ≡ st)

  Refused-Failed :
      (ended : Outcome Task × World (Link L F)) (made : Reply (List Task × ℕ)) (st : Store)
      → Refused st made
      → EndsAs ended made
      → Failed ended st
  unfolding head_of told
  Refused-Failed ended made st (e, refused) (result, store) = (
    _,
    result
        ∙ ap (λ (m : Reply (List Task × ℕ)). head_of (told lk (λ (a : List Task × ℕ). a.0) m.0))
            refused,
    store ∙ ap (λ (m : Reply (List Task × ℕ)). m.1) refused,
  )

  expected_le :
      (t : Task) (id : Text) (pinned : ℕ) (patch : Patch)
      → pinned ≤ t.meta.version
      → (edit_op lk t id pinned patch).expected_version ≤ t.meta.version
  expected_le t id pinned patch h = ground arith

  Later-Stale :
      (st : Store) (id : Text) (n version : ℕ) (t u : Task)
      → get id st.state.tasks ≡ some u
      → t.meta.version < u.meta.version
      → version ≤ t.meta.version
      → Stale st id version
  Later-Stale st id n version t u there up low = λ found e. ground (arith)

  -- What an update of the bot ends as, given what others made of the task since the bot fetched it.
  update-Later :
      (env : Env) (st : Store) (id : Text) (pinned : ℕ) (patch : Patch) (t : Task) (n : ℕ)
      (ended : Outcome Task × World (Link L F)) (o : Option Task)
      → get id st.state.tasks ≡ o
      → Later n t o
      → pinned ≤ t.meta.version
      → EndsAs ended (update env (edit_op lk t id pinned patch ∷ []) st)
      → ((u : Task) × (get id st.state.tasks ≡ some u)
          × EndsAs ended (update env (edit_op lk u id pinned patch ∷ []) st))
        ⊎ Failed ended st
  update-Later env st id pinned patch t n ended none there l low ends = inr (
      Refused-Failed ended _ st
        (update-Refused env (edit_op lk t id pinned patch) st (λ found e. absurd (cc (there, e))))
        ends)
  update-Later env st id pinned patch t n ended (some u) there (inl same) low ends =
      inl (t, there ∙ ap some same, ends)
  update-Later env st id pinned patch t n ended (some u) there (inr (up, _)) low ends = inr (
      Refused-Failed ended _ st
        (update-Refused env (edit_op lk t id pinned patch) st
          (Later-Stale st id n _ t u there up (expected_le t id pinned patch low)))
        ends)

  module _ (w : World (Link L F)) where
    -- The world after the bot's fetch, and the requests of others before its update.
    abbrev pub fetched : World (Link L F)
    fetched = (client_get lk token (arrived w)).1

    abbrev pub meantime : List (Env × Request)
    meantime = (others fetched.outside.rest).0

    -- The store that the bot's update finds.
    abbrev pub found : Store
    found = (arrived fetched).outside.server.store

    pub edit_once-EndsAs :
        (id : Text) (pinned : ℕ) (patch : Patch) (t : Task)
        → IsSound (arrived w).outside.server.store
        → get id (arrived w).outside.server.store.state.tasks ≡ some t
        → Reaches lib draw rest token (arrived w)
        → Reaches lib draw rest token (arrived fetched)
        → ReadsBodies lib draw rest token w
        → decode_result (
            lib.decode_update max_body_bytes
              (rest.encode_update (edit_op lk t id pinned patch ∷ [])))
          ≡ ok (edit_op lk t id pinned patch ∷ [])
        → EndsAs (edit_once sh token id pinned patch w) (
            update
              (draw (arrived fetched).outside.rest).0
              (edit_op lk t id pinned patch ∷ [])
              found)
    unfolding edit_once ◌>>=◌
    edit_once-EndsAs id pinned patch t sound there h h' reads u = (
      ap (λ (r : Outcome Task × World (Link L F)). r.0) ends,
      ap (λ (r : Outcome Task × World (Link L F)). r.1.outside.server.store) ends ∙ did.store,
    )
      where
        ops : List UpdateOp
        ops = edit_op lk t id pinned patch ∷ []

        made : Reply (List Task × ℕ)
        made = update (draw (arrived fetched).outside.rest).0 ops found

        did :
            DoesAs lib draw rest token
              (arrived fetched)
              (client_update lk token ops)
              (λ (a : List Task × ℕ). a.0)
              made
        did =
            client_update-DoesAs lib draw rest token (arrived fetched) ops h'
              (record { tasks = reads.tasks; task = reads.task }) u

        after : List Task → M (Link L F) Task
        after tasks = edit_found sh token id pinned patch (get_task (build_index tasks) id)

        ends : follow (client_get sh token w).0 after (client_get sh token w).1 ≡ (
          head_of (told lk (λ (a : List Task × ℕ). a.0) made.0),
          (client_update lk token ops (arrived fetched)).1,
        )
        ends =
            ap (λ (r : Outcome (List Task) × World (Link L F)). follow r.0 after r.1) (get-shared w)
            ∙ ap (λ r. follow r after fetched)
                (client_get-values lib draw rest token (arrived w) h
                  (record { tasks = reads.tasks; task = reads.task })).0
            ∙ ap (λ o. edit_found sh token id pinned patch o fetched)
                (found-get (arrived w).outside.server.store.state.tasks id (sound-IsKeyed sound)
                  ∙ there)
            ∙ ap (λ (r : Outcome (List Task) × World (Link L F)). follow r.0 (first_updated sh) r.1)
                (update-shared ops fetched)
            ∙ follow-first_updated sh (client_update lk token ops (arrived fetched)).0 _
            ∙ ap (λ r. (head_of r, (client_update lk token ops (arrived fetched)).1)) did.result

    -- One attempt of an edit, while other clients use the server, is one Update of the store with the
    -- patch on the content that the task has at that moment, whatever the others did since the bot
    -- fetched it; or it fails, and leaves the store as the others made it. This holds if the store is sound and has the task when the bot fetches it, and the pinned
    -- version is none or at most the one fetched; if the requests of others between the fetch and the
    -- update are fewer than the versions left below 2 ^ 64 and make no new task of this id; if the
    -- server knows the token and has room in its rate limit for both requests; if the network returns
    -- responses and the bot can decode them; and if the server decodes the update that the bot encodes.
    pub edit_once-Interleaved :
        (id : Text) (pinned : ℕ) (patch : Patch) (t : Task)
        → IsSound (arrived w).outside.server.store
        → get id (arrived w).outside.server.store.state.tasks ≡ some t
        → pinned ≤ t.meta.version
        → Avoids id meantime
        → t.meta.version + length meantime < 2 ^ 64
        → Reaches lib draw rest token (arrived w)
        → Reaches lib draw rest token (arrived fetched)
        → ReadsBodies lib draw rest token w
        → decode_result (
            lib.decode_update max_body_bytes
              (rest.encode_update (edit_op lk t id pinned patch ∷ [])))
          ≡ ok (edit_op lk t id pinned patch ∷ [])
        → ((u : Task) × (get id found.state.tasks ≡ some u)
            × EndsAs (edit_once sh token id pinned patch w) (
                update
                  (draw (arrived fetched).outside.rest).0
                  (edit_op lk u id pinned patch ∷ [])
                  found))
          ⊎ Failed (edit_once sh token id pinned patch w) found
    edit_once-Interleaved id pinned patch t sound there low avoids small h h' reads u =
        update-Later (draw (arrived fetched).outside.rest).0 found id pinned patch t
          (length meantime) (edit_once sh token id pinned patch w) (get id found.state.tasks) refl
          (unfold met in later) low (edit_once-EndsAs id pinned patch t sound there h h' reads u)
      where
        same : fetched.outside.server.store ≡ (arrived w).outside.server.store
        same =
            (client_get-values lib draw rest token (arrived w) h
              (record { tasks = reads.tasks; task = reads.task })).1

        later :
            Later
              (length meantime)
              t
              (get id (serve lib meantime fetched.outside.server).store.state.tasks)
        later =
            serve-Later lib meantime fetched.outside.server id t (subst IsSound (sym same) sound)
              avoids small (ap (λ (st : Store). get id st.state.tasks) same ∙ there)
