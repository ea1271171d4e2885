-- ===== src/Task.antt =====
-- internal/task/task.go and server/task.go: the wire contract and the state of the server.
-- A status and a priority are Go strings, valid or not. A slice that is nil and one that is empty
-- are one value here, and a nullable int64 is an `Option`.
use seshat_tasks.Prelude.{
  ℕ, Text, Map, lit, ◌==◌, Bool, ◌||◌, true, false, Option, none, some, ◌≡◌, List, [], get, elem,
}
use seshat_tasks.Prelude.Int.{ℤ, pos}

abbrev pub Status : Type 0
Status = Text

abbrev pub Priority : Type 0
Priority = Text

abbrev pub status_todo : Status
status_todo = lit "todo"

abbrev pub status_in_progress : Status
status_in_progress = lit "in_progress"

abbrev pub status_done : Status
status_done = lit "done"

abbrev pub status_cancelled : Status
status_cancelled = lit "cancelled"

abbrev pub priority_none : Priority
priority_none = lit "none"

abbrev pub priority_low : Priority
priority_low = lit "low"

abbrev pub priority_medium : Priority
priority_medium = lit "medium"

abbrev pub priority_high : Priority
priority_high = lit "high"

unfoldable pub valid_status : Status → Bool
valid_status s =
    s == status_todo || s == status_in_progress || s == status_done || s == status_cancelled

unfoldable pub terminal : Status → Bool
terminal s = s == status_done || s == status_cancelled

unfoldable pub valid_priority : Priority → Bool
valid_priority p =
    p == priority_none || p == priority_low || p == priority_medium || p == priority_high

pub record Content : Type 0 where
  pub title : Text
  pub description : Text
  pub status : Status
  pub priority : Priority
  pub child_ids : List Text
  pub tags : List Text
  pub due_at : Option ℤ
  pub scheduled_at : Option ℤ

pub record Meta : Type 0 where
  pub created_at : ℤ
  pub updated_at : ℤ
  pub completed_at : Option ℤ
  pub version : ℕ

pub record Task : Type 0 where
  pub id : Text
  pub content : Content
  pub meta : Meta

pub record AddRequest : Type 0 where
  pub content : Content
  pub parent_id : Option Text
  pub position : Option ℤ

pub record UpdateOp : Type 0 where
  pub id : Text
  pub content : Content
  pub expected_version : ℕ

abbrev pub Tasks : Type 0
Tasks = Map Task

-- `State` of server/task.go.
pub record State : Type 0 where
  pub data_format_version : ℕ
  pub state_version : ℕ
  pub tasks : Tasks

-- The zero value of a struct, which a read of a missing key gives.
abbrev pub empty_task : Task
empty_task = record {
  id = [];
  content = record {
    title = [];
    description = [];
    status = [];
    priority = [];
    child_ids = [];
    tags = [];
    due_at = none;
    scheduled_at = none;
  };
  meta = record { created_at = pos 0; updated_at = pos 0; completed_at = none; version = 0 };
}

-- `tasks[id]`, with the zero task for a missing key.
unfoldable pub task_at : Tasks → Text → Task
task_at ts id = elim (get id ts) [ none ↦ empty_task | some t ↦ t ]

-- `_, ok := tasks[id]`
unfoldable pub has : Tasks → Text → Bool
has ts id = elim (get id ts) [ none ↦ false | some _ ↦ true ]

abbrev pub children : Tasks → Text → List Text
children ts id = (task_at ts id).content.child_ids

-- `c` is listed among the children of the task with key `p`.
abbrev pub Edge : Tasks → Text → Text → Type 0
Edge ts p c = elem c (children ts p) ≡ true
