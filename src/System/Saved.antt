-- ===== src/System/Saved.antt =====
-- An edit of the bot that goes through: `applyEdit` of client/bot/handlers.go with the server.
use seshat_tasks.Prelude.{
  ℕ, Text, get, none, some, List, [], ◌∷◌, ◌≡◌, refl, sym, ap, subst, ◌∙◌, ◌⊎◌, arith,
}
use seshat_tasks.Prelude.Int.{inc64}
use seshat_tasks.Task.{Task, UpdateOp}
use seshat_tasks.Server.Error.{ok}
use seshat_tasks.Server.Content.{validate_content}
use seshat_tasks.Server.Store.{Env, Store, Reply, update, updated_task}
use seshat_tasks.Server.Store.Commit.{stored}
use seshat_tasks.Server.Store.Sound.{IsSound}
use seshat_tasks.Server.Store.Edits.{changed, edited, update-edited, get-edited}
use seshat_tasks.Server.Store.Update.{updated_version}
use seshat_tasks.Server.Http.{Library, Request, max_body_bytes, decode_result}
use seshat_tasks.Server.Http.Guarded.{serve-IsSound}
use seshat_tasks.Bot.Effect.{Outcome, Outside, World, ◌>>=◌, attempt, pure}
use seshat_tasks.Bot.Effect as Effect
use seshat_tasks.Bot.Handlers.Edit.{Patch, edit_op, edit_once, apply_edit}
use seshat_tasks.System.Calls.{Reaches, ReadsBodies, told}
use seshat_tasks.System.Edit.{head_of, client_get-values}
use seshat_tasks.System.{Link, met}
use seshat_tasks.System.Shared.{lk, sh, arrived, fetched, meantime, EndsAs, edit_once-EndsAs}

module _ {L F : Type 0} (lib : Library L) (draw : F → Env × F) (rest : Outside F)
    (others : F → List (Env × Request) × F) (token : Text) where
  abbrev alone : Outside (Link L F)
  alone = lk lib draw rest others token

  abbrev bot_side : Outside (Link L F)
  bot_side = sh lib draw rest others token

  -- The worlds in which the two requests of the bot reach the server.
  abbrev at_fetch : World (Link L F) → World (Link L F)
  at_fetch w = arrived lib draw rest others token w

  abbrev at_update : World (Link L F) → World (Link L F)
  at_update w = arrived lib draw rest others token (fetched lib draw rest others token w)

  apply_edit-once :
      (w : World (Link L F)) (id : Text) (pinned : ℕ) (patch : Patch) (u : Task)
      → (edit_once bot_side token id pinned patch w).0 ≡ Effect.ok u
      → ((apply_edit bot_side token id pinned patch w).0 ≡ Effect.ok u)
        × ((apply_edit bot_side token id pinned patch w).1
            ≡ (edit_once bot_side token id pinned patch w).1)
  unfolding apply_edit ◌>>=◌ attempt pure
  apply_edit-once w id pinned patch u once = rw once (refl, refl)

  expected :
      (t : Task) (id : Text) (pinned : ℕ) (patch : Patch)
      → (pinned ≡ 0) ⊎ (pinned ≡ t.meta.version)
      → t.meta.version ≡ (edit_op alone t id pinned patch).expected_version
  expected t id pinned patch h = ground arith

  -- An edit that nothing stands in the way of is saved: the bot is given the task with the patch on
  -- its content and its version counted up, the store has that task under the id, and the file holds
  -- what the store has. This holds if the store is sound; if the others, who may change any other
  -- task, leave this one between the fetch and the update; if the pinned version is none or the one
  -- of the task; if the patched content is valid and has the children of before; if the file can be
  -- written; if the server knows the token and has room in its rate limit for both requests; if the
  -- network returns responses and the bot can decode them; and if the server decodes the update that
  -- the bot encodes.
  pub apply_edit-Saved :
      (w : World (Link L F)) (id : Text) (pinned : ℕ) (patch : Patch) (t : Task)
      → IsSound (at_fetch w).outside.server.store
      → get id (at_fetch w).outside.server.store.state.tasks ≡ some t
      → get id (at_update w).outside.server.store.state.tasks ≡ some t
      → (pinned ≡ 0) ⊎ (pinned ≡ t.meta.version)
      → validate_content (patch t.content) ≡ ok tt
      → (patch t.content).child_ids ≡ t.content.child_ids
      → (draw (at_update w).outside.rest).0.save_error ≡ none
      → Reaches lib draw rest token (at_fetch w)
      → Reaches lib draw rest token (at_update w)
      → ReadsBodies lib draw rest token w
      → decode_result (
          lib.decode_update max_body_bytes
            (rest.encode_update (edit_op alone t id pinned patch ∷ [])))
        ≡ ok (edit_op alone t id pinned patch ∷ [])
      → (u : Task) × ((apply_edit bot_side token id pinned patch w).0 ≡ Effect.ok u)
        × (get id (apply_edit bot_side token id pinned patch w).1.outside.server.store.state.tasks
            ≡ some u)
        × (u.content ≡ patch t.content)
        × (u.meta.version ≡ inc64 t.meta.version)
        × ((apply_edit bot_side token id pinned patch w).1.outside.server.store.file
            ≡ (apply_edit bot_side token id pinned patch w).1.outside.server.store.state)
  unfolding updated_task
  apply_edit-Saved w id pinned patch t sound there still pin good same saved h h' reads decodes = (
    u,
    done.0,
    ap (λ (s : Store). get id s.state.tasks) after ∙ get-edited env op st t still,
    refl,
    updated_version env.now op t,
    ap (λ (s : Store). s.file) after ∙ sym (ap (λ (s : Store). s.state) after),
  )
    where
      env : Env
      env = (draw (at_update w).outside.rest).0

      st : Store
      st = (at_update w).outside.server.store

      op : UpdateOp
      op = edit_op alone t id pinned patch

      u : Task
      u = changed env op st t still

      st-IsSound : IsSound st
      st-IsSound =
          unfold met in
          (serve-IsSound lib (meantime lib draw rest others token w)
            (fetched lib draw rest others token w).outside.server
            (subst IsSound
              (sym
                (client_get-values lib draw rest token (at_fetch w) h
                  (record { tasks = reads.tasks; task = reads.task })).1)
              sound))

      through :
          update env (op ∷ []) st
          ≡ (ok (u ∷ [], inc64 st.state.state_version), stored (edited env op st t still))
      through =
          update-edited env op st t still st-IsSound (expected t id pinned patch pin) good same
            saved

      ends :
          EndsAs lib draw rest others token
            (edit_once bot_side token id pinned patch w)
            (update env (op ∷ []) st)
      ends =
          edit_once-EndsAs lib draw rest others token w id pinned patch t sound there h h' reads
            decodes

      once : (edit_once bot_side token id pinned patch w).0 ≡ Effect.ok u
      once =
          ends.0
          ∙ unfold head_of told in
            (ap
              (λ (m : Reply (List Task × ℕ)). head_of (told alone (λ (a : List Task × ℕ). a.0) m.0))
              through)

      done :
          ((apply_edit bot_side token id pinned patch w).0 ≡ Effect.ok u)
          × ((apply_edit bot_side token id pinned patch w).1
              ≡ (edit_once bot_side token id pinned patch w).1)
      done = apply_edit-once w id pinned patch u once

      after :
          (apply_edit bot_side token id pinned patch w).1.outside.server.store
          ≡ stored (edited env op st t still)
      after =
          ap (λ (x : World (Link L F)). x.outside.server.store) done.1
          ∙ ends.1
          ∙ ap (λ (m : Reply (List Task × ℕ)). m.1) through
