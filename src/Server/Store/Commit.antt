-- ===== src/Server/Store/Commit.antt =====
-- How a write ends: with its candidate validated, saved and taken over, or with nothing changed.
use seshat_tasks.Prelude.{none, some, ◌≡◌, refl, ◌⊎◌, inl, inr, Option-cases}
use seshat_tasks.Prelude.Int.{inc64}
use seshat_tasks.Task.{State}
use seshat_tasks.Server.Error.{Error, Result, ok, err, Result-cases, unsaved}
use seshat_tasks.Server.Validate.{validate_state}
use seshat_tasks.Server.Store.{Env, Store, Reply, rebuild_index, commit, commit_result}

abbrev pub counted : State → State
counted cand = record cand { state_version = inc64 cand.state_version }

abbrev pub stored : State → Store
stored cand = record {
  state = counted cand;
  parent = rebuild_index cand.tasks;
  file = counted cand;
}

-- What a successful write has gone through.
pub record Written {A : Type 0} (env : Env) (r : Result State) (answer : State → A)
    (reply : Reply A) : Type 0 where
  pub cand : State
  pub made : r ≡ ok cand
  pub valid : validate_state cand ≡ ok tt
  pub saved : env.save_error ≡ none
  pub replied : reply ≡ (ok (answer (counted cand)), stored cand)

abbrev pub Refused : {A : Type 0} → Store → Reply A → Type 0
Refused st reply = (e : Error) × (reply ≡ (err e, st))

pub commit_result-cases :
    {A : Type 0} (env : Env) (r : Result State) (answer : State → A) (st : Store)
    → Written env r answer (commit_result env r answer st)
      ⊎ Refused st (commit_result env r answer st)
unfolding commit_result commit
commit_result-cases env (err e) answer st = inr (e, refl)
commit_result-cases env (ok cand) answer st = elim (Result-cases (validate_state cand)) [
  | inr (e, bad) ↦ inr (e, rw (bad, commit))
  | inl (_, good) ↦ elim (Option-cases env.save_error) [
    | inr (message, failed) ↦ inr (unsaved message, rw (good, failed, commit))
    | inl saved ↦ inl (record {
      cand = cand;
      made = refl;
      valid = good;
      saved = saved;
      replied = rw (good, saved, commit);
    })
  ]
]

-- With a valid candidate only the write of the file can fail.
abbrev pub saved_or_not : {A : Type 0} → Env → State → (State → A) → Store → Reply A
saved_or_not env cand answer st = elim env.save_error [
  | some message ↦ (err (unsaved message), st)
  | none ↦ (ok (answer (counted cand)), stored cand)
]

pub commit_result-valid :
    {A : Type 0} (env : Env) (cand : State) (answer : State → A) (st : Store)
    → validate_state cand ≡ ok tt
    → commit_result env (ok cand) answer st ≡ saved_or_not env cand answer st
unfolding commit_result commit
commit_result-valid env cand answer st valid = rw (valid, commit)

-- What a call that returned went through.
pub record Returned {A : Type 0} (env : Env) (r : Result State) (answer : State → A) (v : A)
    (st' : Store) : Type 0 where
  pub cand : State
  pub made : r ≡ ok cand
  pub valid : validate_state cand ≡ ok tt
  pub store : st' ≡ stored cand
  pub value : v ≡ answer (counted cand)

pub commit_result-Returned :
    {A : Type 0} (env : Env) (r : Result State) (answer : State → A) (st : Store) (v : A)
    (st' : Store)
    → commit_result env r answer st ≡ (ok v, st')
    → Returned env r answer v st'
commit_result-Returned {A} env r answer st v st' h = elim (commit_result-cases env r answer st) [
  | inr (e, refused) ↦ absurd (clash e refused)
  | inl w ↦ record {
    cand = w.cand;
    made = w.made;
    valid = w.valid;
    store = cc (h, w.replied);
    value = cc (h, w.replied);
  }
]
  where
    clash : (e : Error) → commit_result env r answer st ≡ (err e, st) → ⊥
    clash e refused = cc (h, refused)
