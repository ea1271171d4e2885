-- ===== src/Server/Tests.antt =====
-- Runs of the store on a few tasks, and the theorems of the server at them.
use seshat_tasks.Prelude.{
  true, ℕ, Text, lit, utf8, ◌==◌, elem, get, put, remove, keys, Distinct, false, none, some, List,
  [], ◌∷◌, ◌≡◌, ◌≢◌, refl, arith, if◌then◌else◌,
}
use seshat_tasks.Prelude.Int.{pos, inc64}
use seshat_tasks.Task.{
  Content, Task, State, AddRequest, UpdateOp, Edge, status_todo, status_done, priority_high,
  valid_status, terminal, valid_priority, task_at, has,
}
use seshat_tasks.Server.Error.{not_found, conflict, ok, err}
use seshat_tasks.Server.Content.{
  only_space, validate_content, apply_completion, clamp, insert_at, remove_string,
}
use seshat_tasks.Server.Validate.{
  check_children, check_tasks, color_of, visit_child, visit_children, visit, visit_all,
  validate_state,
}
use seshat_tasks.Server.Validate.Graph.{IsForest}
use seshat_tasks.Server.Validate.Forest.{Decides, validate_state-Decides}
use seshat_tasks.Server.Store.{
  Env, Store, index_children, index_tasks, rebuild_index, commit, commit_result, new_task,
  with_children, place, link_parent, add_candidate, add, check_ops, check_existence, conflicts,
  updated_task, apply_ops, update_candidate, updated_tasks, update, unlink, delete_candidate,
  delete, holds, adopt_version, load,
}
use seshat_tasks.Server.Store.Index.{Named}
use seshat_tasks.Server.Store.Sound.{IsSound}
use seshat_tasks.Server.Store.Load.{load-IsSound}
use seshat_tasks.Server.Store.Calls.{
  Call, adds, updates, deletes, after, run, run-IsSound, after-Atomic, Atomic, succeeds, returns,
}
use seshat_tasks.Server.Store.Commit.{saved_or_not}
use seshat_tasks.Server.Store.Written.{first_task, released}
use seshat_tasks.Server.Store.Add.{added_view, add-view}
use seshat_tasks.Server.Store.Delete.{delete-outcome, delete-view}
use seshat_tasks.Server.Store.Update.{op_for, update-stale}
use seshat_tasks.Server.Store.Completion.{AllAgree, run-AllAgree}

program : Unit {0}
unfolding lit utf8 ◌==◌ elem get put remove inc64 valid_status terminal valid_priority task_at has
    only_space validate_content apply_completion clamp insert_at remove_string check_children
    check_tasks color_of visit_child visit_children visit visit_all validate_state index_children
    index_tasks rebuild_index commit commit_result new_task with_children place link_parent
    add_candidate add check_ops check_existence conflicts updated_task apply_ops update_candidate
    updated_tasks update unlink delete_candidate delete adopt_version load after run
program = tt

abbrev pub at_time : ℕ → Text → Env
at_time n id = record { now = pos n; new_id = id; save_error = none }

abbrev pub todo : Text → Content
todo title = record {
  title = title;
  description = [];
  status = status_todo;
  priority = priority_high;
  child_ids = [];
  tags = [];
  due_at = none;
  scheduled_at = none;
}

abbrev empty_state : State
empty_state = record { data_format_version = 1; state_version = 0; tasks = [] }

abbrev pub start : Store
start = record { state = empty_state; parent = []; file = empty_state }

abbrev pub add_root : AddRequest
add_root = record { content = todo (lit "root"); parent_id = none; position = none }

abbrev add_leaf : AddRequest
add_leaf = record {
  content = todo (lit "leaf");
  parent_id = some (lit "R");
  position = some (pos 9);
}

abbrev finish : UpdateOp
finish = record {
  id = lit "L";
  content = record (todo (lit "leaf")) { status = status_done };
  expected_version = 1;
}

abbrev calls : List Call
calls = adds (at_time 100 (lit "R")) add_root ∷ adds (at_time 200 (lit "L")) add_leaf ∷ []

abbrev forest : Store
forest = run calls start

loads : load (at_time 1 []) (holds empty_state) ≡ ok start
unfolding program
loads = refl

no_task-Named : Named []
unfolding get
no_task-Named k t e = absurd (ground arith)

load-IsSound_example : IsSound start × (start.state.tasks ≡ [])
load-IsSound_example = load-IsSound (at_time 1 []) empty_state start tt no_task-Named loads

pub start-IsSound : IsSound start
start-IsSound = (load-IsSound (at_time 1 []) empty_state start tt no_task-Named loads).0

run-IsSound_example : IsSound (run calls start)
run-IsSound_example = run-IsSound calls start start-IsSound

forest-IsSound : IsSound forest
forest-IsSound = run-IsSound calls start start-IsSound

children_of_root : (task_at forest.state.tasks (lit "R")).content.child_ids ≡ lit "L" ∷ []
unfolding program
children_of_root = refl

forest-Distinct : Distinct (keys forest.state.tasks)
unfolding program
forest-Distinct = (refl, (refl, tt))

validate_state-Decides_example : Decides (IsForest forest.state.tasks) (validate_state forest.state)
validate_state-Decides_example = validate_state-Decides forest.state forest-Distinct

after-Atomic_example :
    Atomic true (at_time 300 []) forest (after (deletes (at_time 300 []) (lit "R")) forest)
unfolding program succeeds returns
after-Atomic_example = after-Atomic (deletes (at_time 300 []) (lit "R")) forest

-- An add of a leaf under the root, to the store that holds the root alone.
abbrev add_at : Env
add_at = at_time 200 (lit "L")

abbrev root_only : Store
root_only = run (adds (at_time 100 (lit "R")) add_root ∷ []) start

root_only-IsSound : IsSound root_only
root_only-IsSound = run-IsSound (adds (at_time 100 (lit "R")) add_root ∷ []) start start-IsSound

unused : has root_only.state.tasks (lit "L") ≡ false
unfolding program
unused = refl

other_parent : add_leaf.parent_id ≢ some (lit "L")
unfolding program
other_parent e = absurd (ground arith)

added : add add_at add_leaf root_only ≡ (ok (new_task add_at add_leaf.content, 2), forest)
unfolding program
added = refl

add-view_example :
    (new_task add_at add_leaf.content ≡ first_task add_at add_leaf.content)
    × (2 ≡ inc64 root_only.state.state_version)
    × (forest.file ≡ forest.state)
    × ((j : Text) → get j forest.state.tasks ≡ added_view add_at add_leaf root_only.state.tasks j)
add-view_example =
    add-view add_at add_leaf root_only root_only-IsSound unused other_parent
      (new_task add_at add_leaf.content) 2 forest added

-- A delete of the root.
abbrev delete_at : Env
delete_at = at_time 300 []

abbrev leaf_only : Store
leaf_only = after (deletes delete_at (lit "R")) forest

deleted : delete delete_at (lit "R") forest ≡ (ok 3, leaf_only)
unfolding program
deleted = refl

delete-outcome_example : delete delete_at (lit "R") forest ≡ (
    if has forest.state.tasks (lit "R")
    then saved_or_not delete_at
        (record forest.state {
          tasks = remove (lit "R") (unlink delete_at forest.parent (lit "R") forest.state.tasks);
        })
        (λ s. s.state_version)
        forest
    else (err not_found, forest))
delete-outcome_example = delete-outcome delete_at (lit "R") forest forest-IsSound

delete-view_example :
    ((j : Text)
      → get j leaf_only.state.tasks
        ≡ (if j == lit "R" then none else released (pos 300) (lit "R") (get j forest.state.tasks)))
    × ((c : Text) → Edge forest.state.tasks (lit "R") c → get c leaf_only.parent ≡ none)
    × (leaf_only.file ≡ leaf_only.state)
delete-view_example = delete-view delete_at (lit "R") forest forest-IsSound 3 leaf_only deleted

-- A batch that finishes the leaf.
abbrev update_at : Env
update_at = at_time 400 []

abbrev finished : Store
finished = after (updates update_at (finish ∷ [])) forest

abbrev leaf_done : Task
leaf_done = updated_task (pos 400) finish (task_at forest.state.tasks (lit "L"))

updated : update update_at (finish ∷ []) forest ≡ (ok (leaf_done ∷ [], 3), finished)
unfolding program
updated = refl

named : op_for finish.id (finish ∷ []) ≡ some finish
unfolding program op_for
named = refl

good_content : validate_content finish.content ≡ ok tt
unfolding program
good_content = refl

update-stale_example :
    update update_at (finish ∷ []) finished
    ≡ (err (conflict (task_at finished.state.tasks (lit "L") ∷ [])), finished)
update-stale_example =
    update-stale update_at (finish ∷ []) forest (leaf_done ∷ []) 3 finished updated update_at finish
      finish named refl (omega arith) good_content

no_task-AllAgree : AllAgree start.state.tasks
unfolding get
no_task-AllAgree k t e = absurd (ground arith)

run-AllAgree_example : AllAgree (run calls start).state.tasks
run-AllAgree_example = run-AllAgree calls start no_task-AllAgree
