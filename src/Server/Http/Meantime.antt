-- ===== src/Server/Http/Meantime.antt =====
-- What a client finds of a task after requests of others: server/handlers.go and server/store.go
-- between two requests of one client.
use seshat_tasks.Prelude.{
  ℕ, suc, ◌+◌, ◌<◌, ◌^◌, Text, length, get, some, List, [], ◌∷◌, ◌≡◌, ◌≢◌, sym, subst, inl, inr,
  arith,
}
use seshat_tasks.Task.{Task}
use seshat_tasks.Server.Store.{Env}
use seshat_tasks.Server.Store.Sound.{IsSound}
use seshat_tasks.Server.Store.History.{Next, Next-refl, after-Next, Later, Later-refl, Later-Next}
use seshat_tasks.Server.Http.{Library, Server, Request, handle}
use seshat_tasks.Server.Http.Guarded.{handle-Performed, serve, serve-IsSound}

-- No new task of these requests gets this id.
abbrev pub Avoids : Text → List (Env × Request) → Type 0
Avoids id [] = Unit {0}
Avoids id ((env, r) ∷ requests) = (env.new_id ≢ id) × Avoids id requests

module _ {L : Type 0} (lib : Library L) where
  handle-Next :
      (env : Env) (r : Request) (s : Server L) (id : Text)
      → IsSound s.store
      → env.new_id ≢ id
      → Next (get id s.store.state.tasks) (get id (handle lib env r s).1.store.state.tasks)
  handle-Next env r s id sound other = elim (handle-Performed lib env r s) [
    | inr same ↦ rw same (Next-refl (get id s.store.state.tasks))
    | inl (_, _, p) ↦ rw p.stored (
        after-Next p.call s.store id sound
          (subst (λ (e : Env). e.new_id ≢ id) (sym p.around) other))
  ]

  handle-IsSound :
      (env : Env) (r : Request) (s : Server L)
      → IsSound s.store
      → IsSound (handle lib env r s).1.store
  handle-IsSound env r s h = unfold serve in serve-IsSound lib ((env, r) ∷ []) s h

  serve-Later_from :
      (n : ℕ) (requests : List (Env × Request)) (s : Server L) (id : Text) (t : Task)
      → IsSound s.store
      → Avoids id requests
      → t.meta.version + (n + length requests) < 2 ^ 64
      → Later n t (get id s.store.state.tasks)
      → Later (n + length requests) t (get id (serve lib requests s).store.state.tasks)
  unfolding serve
  serve-Later_from n [] s id t sound others small l =
      subst (λ k. Later k t (get id s.store.state.tasks)) (omega arith) l
  serve-Later_from n ((env, r) ∷ requests) s id t sound (other, others) small l =
      subst (λ k. Later k t (get id (serve lib requests (handle lib env r s).1).store.state.tasks))
        (omega arith)
        (serve-Later_from (suc n) requests (handle lib env r s).1 id t
          (handle-IsSound env r s sound) others (omega arith)
          (Later-Next n t (get id s.store.state.tasks) _ (omega arith) l
            (handle-Next env r s id sound other)))

  -- After requests that make no new task of its id, a task of a sound store is gone, or the same, or
  -- has a later version, by at most the number of the requests.
  pub serve-Later :
      (requests : List (Env × Request)) (s : Server L) (id : Text) (t : Task)
      → IsSound s.store
      → Avoids id requests
      → t.meta.version + length requests < 2 ^ 64
      → get id s.store.state.tasks ≡ some t
      → Later (length requests) t (get id (serve lib requests s).store.state.tasks)
  serve-Later requests s id t sound others small there =
      subst (λ k. Later k t (get id (serve lib requests s).store.state.tasks)) (omega arith)
        (serve-Later_from 0 requests s id t sound others (omega arith) (rw there (Later-refl 0 t)))
