-- ===== src/System/Reply.antt =====
-- A reply to a prompt, from the bot to the store of the server.
use seshat_tasks.Prelude.{ℕ, Text, some, List, [], ◌∷◌, ◌≡◌, ◌≢◌, refl, ◌∙◌, subst, arith, sym}
use seshat_tasks.Prelude.Int.{ℤ}
use seshat_tasks.Task.{Content, Task, UpdateOp}
use seshat_tasks.Server.Error.{ok}
use seshat_tasks.Server.Store.{Env, Store}
use seshat_tasks.Server.Http.{Library, max_body_bytes, decode_result}
use seshat_tasks.Server.Http.Kept.{Stale, get-kept, update_request-kept}
use seshat_tasks.Bot.Registry.{Action, get_by_prompt}
use seshat_tasks.Bot.Effect.{Outside, World, ◌>>=◌, tell, read_clock}
use seshat_tasks.Bot.Effect.Emits.{Policy}
use seshat_tasks.Bot.Client.{exchange}
use seshat_tasks.Bot.Sender.{recall_prompt}
use seshat_tasks.Bot.Handlers.Edit.{Patch, edit_op}
use seshat_tasks.Bot.Handlers.Reply.{handle_reply}
use seshat_tasks.Bot.Permits.{Reads}
use seshat_tasks.Bot.Permits.Edits.{AllowsEdit}
use seshat_tasks.Bot.Permits.Replies.{reply_found-Emits}
use seshat_tasks.System.{Link, served, linked}

-- Of a body that the bot encodes for one update, the decoder of the server makes one update of the
-- same task and version, if it takes the body at all: it may refuse it, because it is too long.
pub record ReadsBack {L F : Type 0} (lib : Library L) (rest : Outside F) : Type 0 where
  pub update :
      (op : UpdateOp) (ops : List UpdateOp)
      → decode_result (lib.decode_update max_body_bytes (rest.encode_update (op ∷ []))) ≡ ok ops
      → (c : Content) × (ops ≡ record op { content = c } ∷ [])

pinned_version :
    {E : Type 0} (out : Outside E) (t : Task) (id : Text) (pinned : ℕ) (patch : Patch)
    → pinned ≢ 0
    → (edit_op out t id pinned patch).expected_version ≡ pinned
pinned_version out t id pinned patch h = ground arith

module _ {L F : Type 0} (lib : Library L) (draw : F → Env × F) (rest : Outside F)
    (back : ReadsBack lib rest) where
  abbrev Holds : Store → World (Link L F) → Type 0
  Holds st w = w.outside.server.store ≡ st

  -- Steps that leave this store as it is.
  keeps : Store → Policy (linked lib draw rest)
  unfolding read_clock
  keeps st = record {
    Step = λ w w'. Holds st w → Holds st w';
    stay = λ w h. h;
    chain = λ u v w f g h. g (f h);
    clock = λ w h. h;
    random = λ w r h. h;
    recall = λ w r h. h;
  }

  Reads-keeps :
      (st : Store) (chat : ℤ) (token : Text) → Reads (linked lib draw rest) (keeps st) chat token
  unfolding tell exchange served keeps
  Reads-keeps st chat token = record {
    gets = record { step = λ w h. get-kept lib _ _ _ refl ∙ h };
    sends = λ text markup. record { step = λ w h. h };
    edits = λ id text markup. record { step = λ w h. h };
    prompts = λ text. record { step = λ w h. h };
    deletes = λ id. record { step = λ w h. h };
  }

  Stale-AllowsEdit :
      (st : Store) (token id : Text) (pinned : ℕ) (patch : Patch)
      → pinned ≢ 0
      → Stale st id pinned
      → AllowsEdit (linked lib draw rest) (keeps st) token id pinned patch
  unfolding exchange served keeps
  Stale-AllowsEdit st token id pinned patch is_pinned stale t = record {
    step = λ w h.
        update_request-kept lib _ _ _ (edit_op (linked lib draw rest) t id pinned patch) refl
          (λ ops good. back.update _ ops good)
          (subst
            (λ s. Stale s id (edit_op (linked lib draw rest) t id pinned patch).expected_version)
            (sym h)
            (subst (Stale st id)
              (sym (pinned_version (linked lib draw rest) t id pinned patch is_pinned)) stale))
        ∙ h;
  }

  -- A reply to a prompt that the registry has with a version other than 0, for a task that the store
  -- no longer has at this version, because another client has changed or deleted it, leaves the store
  -- of the server as it is. So it is on every path of the bot and of the server, whether or not the
  -- server knows the token, and whichever responses get lost, if the server's decoder makes of the
  -- body of one update, where it takes it, an update of the same task and version.
  pub handle_reply-Stale :
      (offset_min chat prompt_id : ℤ) (token text : Text) (a : Action) (w : World (Link L F))
      → (get_by_prompt prompt_id w.registry).0 ≡ some a
      → a.expected_version ≢ 0
      → Stale w.outside.server.store a.task_id a.expected_version
      → (handle_reply
          (linked lib draw rest)
          offset_min
          chat
          prompt_id
          token
          text
          w).1.outside.server.store
        ≡ w.outside.server.store
  unfolding handle_reply ◌>>=◌ recall_prompt keeps
  handle_reply-Stale offset_min chat prompt_id token text a w found is_pinned stale =
      let st = w.outside.server.store in
      rw found (
        (reply_found-Emits (linked lib draw rest) offset_min (keeps st) chat token
            (Reads-keeps st chat token) prompt_id text a
            (λ patch.
              Stale-AllowsEdit st token a.task_id a.expected_version patch is_pinned stale)).step
          (record w { registry = (get_by_prompt prompt_id w.registry).1 }) refl)
