-- ===== src/Server/Store/Written.antt =====
-- The tasks that the writes of server/store.go are to leave, field by field.
use seshat_tasks.Prelude.{
  ℕ, ◌+◌, ◌%◌, ◌^◌, Text, ◌==◌, elem, length, ltb, Bool, true, false, Option, none, some, List, [],
  ◌∷◌, Bool-cases, inl, inr, lit, utf8, if◌then◌else◌, ◌≡◌, refl, arith,
}
use seshat_tasks.Prelude.Int.{ℤ, pos, negsuc, inc64}
use seshat_tasks.Task.{Content, Task, UpdateOp, status_todo, terminal}
use seshat_tasks.Server.Content.{apply_completion, clamp, remove_string}
use seshat_tasks.Server.Store.{Env, new_task, with_children, place, updated_task}

-- When a task was completed, by whether it was done or cancelled before and is so now.
abbrev pub completed : Bool → Bool → ℤ → Option ℤ → Option ℤ
completed false true now old = some now
completed true false now old = none
completed false false now old = old
completed true true now old = old

-- A task with a new content, changed now: its version is counted up, and wraps around.
abbrev pub changed : ℤ → Task → Content → Option ℤ → Task
changed now t content completed_at = record {
  id = t.id;
  content = content;
  meta = record {
    created_at = t.meta.created_at;
    updated_at = now;
    completed_at = completed_at;
    version = (t.meta.version + 1) % 2 ^ 64;
  };
}

-- The task that an add makes.
abbrev pub first_task : Env → Content → Task
first_task env content = record {
  id = env.new_id;
  content = record content { child_ids = [] };
  meta = record {
    created_at = env.now;
    updated_at = env.now;
    completed_at = completed false (terminal content.status) env.now none;
    version = 1;
  };
}

-- The task that an op leaves.
abbrev pub edited : ℤ → UpdateOp → Task → Task
edited now op t =
    changed now t op.content
      (completed (terminal t.content.status) (terminal op.content.status) now t.meta.completed_at)

-- A task with other children.
abbrev pub relisted : ℤ → List Text → Task → Task
relisted now ids t = changed now t (record t.content { child_ids = ids }) t.meta.completed_at

-- The place that a request asks for among `n` children: the end if it names none, the start for a
-- negative one, and the end for one past it.
abbrev pub asked_place : Option ℤ → ℕ → ℕ
asked_place none n = n
asked_place (some (pos i)) n = if ltb i n then i else n
asked_place (some (negsuc i)) n = 0

-- A list without an id.
unfoldable pub others : Text → List Text → List Text
others id [] = []
others id (x ∷ l) = if x == id then others id l else x ∷ others id l

-- What a read gives after an id was deleted: a task that listed it lists the others.
unfoldable pub released : ℤ → Text → Option Task → Option Task
released now id none = none
released now id (some t) =
    if elem id t.content.child_ids
    then some (relisted now (others id t.content.child_ids) t)
    else some t

pub new_task-first_task :
    (env : Env) (content : Content) → new_task env content ≡ first_task env content
unfolding new_task apply_completion terminal lit utf8 ◌==◌
new_task-first_task env content = elim (Bool-cases (terminal content.status)) [
  | inl over ↦ rw (todo_open, over) refl
  | inr open_now ↦ rw (todo_open, open_now) refl
]
  where
    todo_open : terminal status_todo ≡ false
    todo_open = refl

pub with_children-relisted :
    (now : ℤ) (ids : List Text) (t : Task) → with_children now ids t ≡ relisted now ids t
unfolding with_children inc64
with_children-relisted now ids t = refl

pub updated_task-edited :
    (now : ℤ) (op : UpdateOp) (t : Task) → updated_task now op t ≡ edited now op t
unfolding updated_task inc64 apply_completion
updated_task-edited now op t = elim (Bool-cases (terminal t.content.status)) [
  | inl was ↦ elim (Bool-cases (terminal op.content.status)) [
    | inl is ↦ rw (was, is) refl
    | inr not_now ↦ rw (was, not_now) refl
  ]
  | inr was_open ↦ elim (Bool-cases (terminal op.content.status)) [
    | inl is ↦ rw (was_open, is) refl
    | inr not_now ↦ rw (was_open, not_now) refl
  ]
]

pub place-asked_place :
    (position : Option ℤ) (ids : List Text) → place position ids ≡ asked_place position (length ids)
unfolding place clamp
place-asked_place none ids = refl
place-asked_place (some (pos i)) ids = ground arith
place-asked_place (some (negsuc i)) ids = ground arith

pub remove_string-others : (l : List Text) (id : Text) → remove_string l id ≡ others id l
unfolding remove_string others
remove_string-others [] id = refl
remove_string-others (x ∷ l) id = ground (arith, remove_string-others l id)
