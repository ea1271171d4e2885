-- ===== src/Server/Store/Calls.antt =====
-- Sequences of calls: what any number of them, in any order and with any surroundings, keeps.
use seshat_tasks.Prelude.{Text, Bool, true, false, none, List, [], ◌∷◌, ◌≡◌, refl, ◌⊎◌, inl, inr}
use seshat_tasks.Task.{State, AddRequest, UpdateOp}
use seshat_tasks.Server.Error.{Result, ok, err}
use seshat_tasks.Server.Validate.{validate_state}
use seshat_tasks.Server.Store.{
  Env, Store, Reply, add, update, delete, add_candidate, update_candidate, delete_candidate,
  commit_result,
}
use seshat_tasks.Server.Store.Commit.{commit_result-cases}
use seshat_tasks.Server.Store.Sound.{IsSound, add-IsSound, update-IsSound, delete-IsSound}

-- A call of the store, with what its surroundings answer.
pub data Call : Type 0 where
  adds : Env → AddRequest → Call
  updates : Env → List UpdateOp → Call
  deletes : Env → Text → Call

unfoldable pub after : Call → Store → Store
after (adds env req) st = (add env req st).1
after (updates env ops) st = (update env ops st).1
after (deletes env id) st = (delete env id st).1

unfoldable pub run : List Call → Store → Store
run [] st = st
run (call ∷ calls) st = run calls (after call st)

pub after-IsSound : (call : Call) (st : Store) → IsSound st → IsSound (after call st)
unfolding after
after-IsSound (adds env req) st h = add-IsSound env req st h
after-IsSound (updates env ops) st h = update-IsSound env ops st h
after-IsSound (deletes env id) st h = delete-IsSound env id st h

-- From a sound store, whatever is called and however each write ends, the store stays sound: the
-- tasks form a forest, each under its own id, and the parent index holds exactly the parents.
pub run-IsSound : (calls : List Call) (st : Store) → IsSound st → IsSound (run calls st)
unfolding run
run-IsSound [] st h = h
run-IsSound (call ∷ calls) st h = run-IsSound calls (after call st) (after-IsSound call st h)

-- Whether a call returns without an error.
unfoldable pub returns : {A : Type 0} → Reply A → Bool
returns (ok _, st) = true
returns (err _, st) = false

unfoldable pub succeeds : Call → Store → Bool
succeeds (adds env req) st = returns (add env req st)
succeeds (updates env ops) st = returns (update env ops st)
succeeds (deletes env id) st = returns (delete env id st)

abbrev pub env_of : Call → Env
env_of (adds env req) = env
env_of (updates env ops) = env
env_of (deletes env id) = env

-- The store that a write leaves when it returns, and when it does not.
abbrev pub Atomic : Bool → Env → Store → Store → Type 0
Atomic returned env st st' =
    ((returned ≡ true)
      × (env.save_error ≡ none)
      × (st'.file ≡ st'.state)
      × (validate_state st'.state ≡ ok tt))
    ⊎ ((returned ≡ false) × (st' ≡ st))

commit_result-Atomic :
    {A : Type 0} (env : Env) (r : Result State) (answer : State → A) (st : Store)
    → Atomic (returns (commit_result env r answer st)) env st (commit_result env r answer st).1
unfolding returns
commit_result-Atomic env r answer st = elim (commit_result-cases env r answer st) [
  | inl w ↦ rw (w.replied) (inl (refl, w.saved, refl, unfold validate_state in w.valid))
  | inr (_, e) ↦ rw e (inr (refl, refl))
]

-- Every call, whatever the store: if it returns without an error, its write has succeeded, and the
-- file holds the state in memory, which passes validation; if it returns an error, then the state,
-- the index and the file are as they were.
pub after-Atomic :
    (call : Call) (st : Store) → Atomic (succeeds call st) (env_of call) st (after call st)
unfolding after succeeds add update delete
after-Atomic (adds env req) st = commit_result-Atomic env (add_candidate env req st.state) _ st
after-Atomic (updates env ops) st =
    commit_result-Atomic env (update_candidate env ops st.state) _ st
after-Atomic (deletes env id) st = commit_result-Atomic env (delete_candidate env id st) _ st
