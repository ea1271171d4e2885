-- ===== src/Server/Store/Load.antt =====
-- What `load` makes of the data file.
use seshat_tasks.Prelude.{lit, leb, ◌≡◌, arith, Distinct, keys, subst}
use seshat_tasks.Task.{State}
use seshat_tasks.Server.Error.{unsaved, ok, ◌>>=◌, require, >>=-eq-ok, ok-injective}
use seshat_tasks.Server.Validate.{validate_state}
use seshat_tasks.Server.Validate.Forest.{validate_state-IsForest}
use seshat_tasks.Server.Store.{
  Env, Store, rebuild_index, current_data_format_version, adopt_version, load, holds,
}
use seshat_tasks.Server.Store.Index.{Named, rebuild_index-Edge}
use seshat_tasks.Server.Store.Sound.{IsSound, IsKeyed}

adopt_version-tasks : (s : State) → (adopt_version s).tasks ≡ s.tasks
unfolding adopt_version
adopt_version-tasks s = ground arith

abbrev loaded : State → Store
loaded raw = record {
  state = adopt_version raw;
  parent = rebuild_index (adopt_version raw).tasks;
  file = raw;
}

-- A file whose tasks have distinct keys, each under its own id: what `load` accepts of it is a sound
-- store with the tasks of the file.
pub load-IsSound :
    (env : Env) (raw : State) (st : Store)
    → Distinct (keys raw.tasks)
    → Named raw.tasks
    → load env (holds raw) ≡ ok st
    → IsSound st × (st.state.tasks ≡ raw.tasks)
unfolding load
load-IsSound env raw st d n h =
    let fits = leb (adopt_version raw).data_format_version current_data_format_version in
    let too_new = unsaved (lit "data_format_version is newer than this binary supports") in
    let stop = λ (u : Unit {0}). ok (loaded raw) in
    let (_, _, h1) =
      >>=-eq-ok (require fits too_new) (λ _. validate_state (adopt_version raw) >>= stop) h in
    let (_, valid, h2) = >>=-eq-ok (validate_state (adopt_version raw)) stop h1 in
    let e : loaded raw ≡ st = ok-injective h2 in
    let k : IsKeyed (adopt_version raw).tasks =
      rw adopt_version-tasks (record { distinct = d; named = n }) in
    let f = validate_state-IsForest (adopt_version raw) k.distinct valid in
    (
      subst IsSound e (record {
        distinct = k.distinct;
        named = k.named;
        forest = f;
        indexed =
            λ c p. rebuild_index-Edge (adopt_version raw).tasks c p k.distinct k.named f.single;
      }),
      subst (λ (z : Store). z.state.tasks ≡ raw.tasks) e (adopt_version-tasks raw),
    )
