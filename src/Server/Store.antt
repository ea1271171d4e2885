-- ===== src/Server/Store.antt =====
-- server/store.go: the store and its operations. A call runs under the lock, so it is one step. What
-- it asks of its surroundings (the clock, a new id, whether the file could be written) is an `Env`.
-- A read of the state copies it (`cloneState`), so that the candidate shares nothing with it: here
-- every value is immutable.
pub mod Index
pub mod Commit
pub mod Candidate
pub mod Written
pub mod Sound
pub mod Load
pub mod Calls
pub mod Lists
pub mod Delete
pub mod Grow
pub mod Add
pub mod Update
pub mod Completion
pub mod History
pub mod Edits
use seshat_tasks.Prelude.{
  ℕ, zero, suc, Text, Map, lit, ◌==◌, elem, length, leb, eqb, get, put, remove, Bool, true, false,
  not, ◌&&◌, ◌||◌, Option, none, some, List, [], ◌∷◌, ◌++◌, if◌then◌else◌, ltb,
}
use seshat_tasks.Prelude.Int.{ℤ, pos, pos_part, inc64}
use seshat_tasks.Task.{
  Status, status_todo, Content, Meta, Task, Tasks, State, AddRequest, UpdateOp, task_at, has,
  empty_task,
}
use seshat_tasks.Server.Error.{
  Error, Result, ok, err, validation, not_found, conflict, unsaved, ◌>>=◌, ◌>>◌, require,
}
use seshat_tasks.Server.Validate.{validate_state}
use seshat_tasks.Server.Content.{
  validate_content, apply_completion, clamp, insert_at, remove_string,
}

pub record Env : Type 0 where
  pub now : ℤ
  pub new_id : Text
  pub save_error : Option Text

-- `file` is what the data file holds: the rename at the end of `saveState` makes a write all or
-- nothing.
pub record Store : Type 0 where
  pub state : State
  pub parent : Map Text
  pub file : State

-- The two loops of `rebuildIndex`.
unfoldable pub index_children : Text → List Text → Map Text → Map Text
index_children id [] idx = idx
index_children id (c ∷ cs) idx = index_children id cs (put c id idx)

unfoldable pub index_tasks : Tasks → Map Text → Map Text
index_tasks [] idx = idx
index_tasks ((k, t) ∷ rest) idx = index_tasks rest (index_children t.id t.content.child_ids idx)

unfoldable pub rebuild_index : Tasks → Map Text
rebuild_index ts = index_tasks ts []

-- What a call returns: its result, and the store that it leaves.
abbrev pub Reply : Type 0 → Type 0
Reply A = Result A × Store

-- The end of every write: validate the candidate, count it, save it, and only then take it over.
unfoldable pub commit : {A : Type 0} → Env → State → (State → A) → Store → Reply A
commit env cand answer st =
    let next = record cand { state_version = inc64 cand.state_version } in
    elim (validate_state cand) [
      | err e ↦ (err e, st)
      | ok _ ↦ elim env.save_error [
        | some message ↦ (err (unsaved message), st)
        | none ↦ (
          ok (answer next),
          record { state = next; parent = rebuild_index next.tasks; file = next },
        )
      ]
    ]

-- A request that is refused before there is a candidate.
unfoldable pub commit_result : {A : Type 0} → Env → Result State → (State → A) → Store → Reply A
commit_result env (err e) answer st = (err e, st)
commit_result env (ok cand) answer st = commit env cand answer st

unfoldable pub new_task : Env → Content → Task
new_task env content =
    let c = record content { child_ids = [] } in
    record {
      id = env.new_id;
      content = c;
      meta =
          apply_completion
            (record {
              created_at = env.now;
              updated_at = env.now;
              completed_at = none;
              version = 1;
            })
            status_todo c.status env.now;
    }

-- `p.Meta.Version++; p.Meta.UpdatedAt = now`, with the new child list.
unfoldable pub with_children : ℤ → List Text → Task → Task
with_children now ids p = record p {
  content = record p.content { child_ids = ids };
  meta = record p.meta { version = inc64 p.meta.version; updated_at = now };
}

-- Where a child goes: at the end, or at the position asked for, clamped.
unfoldable pub place : Option ℤ → List Text → ℕ
place none ids = length ids
place (some position) ids = pos_part (clamp position (pos 0) (pos (length ids)))

unfoldable pub link_parent : Env → AddRequest → Tasks → Result Tasks
link_parent env req cand = elim req.parent_id [
  | none ↦ ok cand
  | some parent ↦ elim (get parent cand) [
    | none ↦ err not_found
    | some p ↦
        let ids = p.content.child_ids in
        ok (
          put parent (with_children env.now (insert_at ids (place req.position ids) env.new_id) p)
            cand)
  ]
]

unfoldable pub add_candidate : Env → AddRequest → State → Result State
add_candidate env req s = do
  validate_content req.content
  require (not (ltb 0 (length req.content.child_ids)))
      (validation (lit "child_ids must be empty on add"))
  tasks ← link_parent env req (put env.new_id (new_task env req.content) s.tasks)
  ok (record s { tasks = tasks })

-- `Add`
unfoldable pub add : Env → AddRequest → Store → Reply (Task × ℕ)
add env req st =
    commit_result env (add_candidate env req st.state)
      (λ s. (task_at s.tasks env.new_id, s.state_version)) st

-- The first loop of `Update`, before the lock is taken.
unfoldable pub check_ops : List Text → List UpdateOp → Result (Unit {0})
check_ops seen [] = ok tt
check_ops seen (op ∷ ops) = do
  validate_content op.content
  require (not (elem op.id seen)) (validation (lit "duplicate id in batch: " ++ op.id))
  check_ops (op.id ∷ seen) ops

unfoldable pub check_existence : Tasks → List UpdateOp → Result (Unit {0})
check_existence ts [] = ok tt
check_existence ts (op ∷ ops) = do require (has ts op.id) not_found; check_existence ts ops

unfoldable pub conflicts : Tasks → List UpdateOp → List Task
conflicts ts [] = []
conflicts ts (op ∷ ops) =
    let cur = task_at ts op.id in
    let rest = conflicts ts ops in
    if not (eqb cur.meta.version op.expected_version) then cur ∷ rest else rest

unfoldable pub updated_task : ℤ → UpdateOp → Task → Task
updated_task now op t =
    let m = apply_completion t.meta t.content.status op.content.status now in
    record t {
      content = op.content;
      meta = record m { version = inc64 m.version; updated_at = now };
    }

unfoldable pub apply_ops : ℤ → List UpdateOp → Tasks → Tasks
apply_ops now [] cand = cand
apply_ops now (op ∷ ops) cand =
    apply_ops now ops (put op.id (updated_task now op (task_at cand op.id)) cand)

unfoldable pub update_candidate : Env → List UpdateOp → State → Result State
update_candidate env ops s = do
  check_ops [] ops
  check_existence s.tasks ops
  require (eqb (length (conflicts s.tasks ops)) 0) (conflict (conflicts s.tasks ops))
  ok (record s { tasks = apply_ops env.now ops s.tasks })

unfoldable pub updated_tasks : Tasks → List UpdateOp → List Task
updated_tasks ts [] = []
updated_tasks ts (op ∷ ops) = task_at ts op.id ∷ updated_tasks ts ops

-- `Update`
unfoldable pub update : Env → List UpdateOp → Store → Reply (List Task × ℕ)
update env ops st =
    commit_result env (update_candidate env ops st.state)
      (λ s. (updated_tasks s.tasks ops, s.state_version)) st

-- `Delete` takes the id out of the list of its parent, which the index names.
unfoldable pub unlink : Env → Map Text → Text → Tasks → Tasks
unlink env parent id cand = elim (get id parent) [
  | none ↦ cand
  | some pid ↦
      let p = task_at cand pid in
      put pid (with_children env.now (remove_string p.content.child_ids id) p) cand
]

unfoldable pub delete_candidate : Env → Text → Store → Result State
delete_candidate env id st = do
  require (has st.state.tasks id) not_found
  ok (record st.state { tasks = remove id (unlink env st.parent id st.state.tasks) })

unfoldable pub delete : Env → Text → Store → Reply ℕ
delete env id st = commit_result env (delete_candidate env id st) (λ s. s.state_version) st

-- What `load` finds at its path; `json.Unmarshal` gives an error or a state.
pub data DataFile : Type 0 where
  missing : DataFile
  unreadable : Text → DataFile
  malformed : Text → DataFile
  holds : State → DataFile

abbrev pub current_data_format_version : ℕ
current_data_format_version = 1

-- A file that names no format version is taken for version 1.
unfoldable pub adopt_version : State → State
adopt_version s = if eqb s.data_format_version 0 then record s { data_format_version = 1 } else s

unfoldable pub load : Env → DataFile → Result Store
load env (unreadable message) = err (unsaved message)
load env (malformed message) = err (unsaved message)
load env missing =
    let s : State = record {
      data_format_version = current_data_format_version;
      state_version = 0;
      tasks = [];
    } in
    elim env.save_error [
      | some message ↦ err (unsaved message)
      | none ↦ ok (record { state = s; parent = rebuild_index s.tasks; file = s })
    ]
load env (holds raw) = do
  let s = adopt_version raw
  require (leb s.data_format_version current_data_format_version)
      (unsaved (lit "data_format_version is newer than this binary supports"))
  validate_state s
  ok (record { state = s; parent = rebuild_index s.tasks; file = raw })
