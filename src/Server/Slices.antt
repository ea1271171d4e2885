-- ===== src/Server/Slices.antt =====
-- server/store.go with Go's slices: cloneState, and insertAt and removeString, which write into the
-- array of the slice that they are given. A slice here starts at the first cell of its array, as all
-- slices of a state do. How much an array has to spare when `append` makes it is an argument.
pub mod Arrays
pub mod Edits
pub mod Clones
pub mod Live
use seshat_tasks.Prelude.{
  ℕ, zero, suc, ◌+◌, ◌-◌, Text, Map, ◌==◌, length, take, ltb, eqb, not, get, put, Option, none,
  some, List, [], ◌∷◌, ◌++◌, if◌then◌else◌,
}
use seshat_tasks.Task.{Task}
use seshat_tasks.Prelude.Int.{ℤ, inc64}

pub record Slice : Type 0 where
  pub base : ℕ
  pub len : ℕ

-- The arrays; `next` is where the next one goes.
pub record Heap : Type 0 where
  pub next : ℕ
  pub array : ℕ → List Text

abbrev pub read : Heap → Slice → List Text
read h s = take s.len (h.array s.base)

abbrev pub set_array : ℕ → List Text → Heap → Heap
set_array b a h = record h { array = λ c. if eqb c b then a else h.array c }

-- `a[i] = v`
unfoldable pub set_at : List Text → ℕ → Text → List Text
set_at [] i v = []
set_at (x ∷ a) zero v = v ∷ a
set_at (x ∷ a) (suc i) v = x ∷ set_at a i v

-- `a[i]`
unfoldable pub cell : List Text → ℕ → Text
cell [] i = []
cell (x ∷ a) zero = x
cell (x ∷ a) (suc i) = cell a i

unfoldable pub zeros : ℕ → List Text
zeros zero = []
zeros (suc n) = [] ∷ zeros n

-- `n` cells move up by one; the first of them gets `before`.
unfoldable pub shift : Text → List Text → ℕ → List Text
shift before [] n = []
shift before (x ∷ a) zero = x ∷ a
shift before (x ∷ a) (suc n) = before ∷ shift x a n

-- `copy(s[i+1:], s[i:])`, which moves `n` cells.
unfoldable pub copy_up : List Text → ℕ → ℕ → List Text
copy_up [] i n = []
copy_up (x ∷ a) zero n = x ∷ shift x a n
copy_up (x ∷ a) (suc i) n = x ∷ copy_up a i n

module _ (grow : ℕ → ℕ) where
  -- A new array with these values.
  unfoldable pub alloc : List Text → Heap → Slice × Heap
  alloc xs h = (
    record { base = h.next; len = length xs },
    set_array h.next (xs ++ zeros (grow (length xs))) (record h { next = h.next + 1 }),
  )

  -- `append(s, v)`: in place where the array has room, or else with a copy.
  unfoldable pub append : Slice → Text → Heap → Slice × Heap
  append s v h =
      if ltb s.len (length (h.array s.base))
      then (record s { len = s.len + 1 }, set_array s.base (set_at (h.array s.base) s.len v) h)
      else alloc (read h s ++ (v ∷ [])) h

  -- `insertAt`
  unfoldable pub insert_in_place : ℕ → Text → Slice → Heap → Slice × Heap
  insert_in_place i v s h =
      let (s', h') = append s [] h in
      let moved = copy_up (h'.array s'.base) i (s'.len - i - 1) in
      (s', set_array s'.base (set_at moved i v) h')

  -- The loop of `removeString`: `n` cells of `s` from `i` on are left, and `out` has those kept.
  unfoldable pub keep_others : ℕ → ℕ → Text → Slice → Slice → Heap → Slice × Heap
  keep_others zero i v s out h = (out, h)
  keep_others (suc n) i v s out h =
      let x = cell (h.array s.base) i in
      let (out', h') = if not (x == v) then append out x h else (out, h) in
      keep_others n (suc i) v s out' h'

  -- `removeString`
  unfoldable pub remove_in_place : Text → Slice → Heap → Slice × Heap
  remove_in_place v s h = keep_others s.len 0 v s (record s { len = 0 }) h

-- A task whose lists are slices; those of `task` are not used.
pub record SharedTask : Type 0 where
  pub task : Task
  pub child_ids : Slice
  pub tags : Slice

-- The task that a reader of the heap sees.
unfoldable pub seen : Heap → SharedTask → Task
seen h t = record t.task {
  content = record t.task.content { child_ids = read h t.child_ids; tags = read h t.tags };
}

unfoldable pub seen_all : Heap → Map SharedTask → Map Task
seen_all h [] = []
seen_all h ((k, t) ∷ ts) = (k, seen h t) ∷ seen_all h ts

module _ (grow : ℕ → ℕ) where
  -- `cloneState`
  unfoldable pub clone_state : Map SharedTask → Heap → Map SharedTask × Heap
  clone_state [] h = ([], h)
  clone_state ((k, t) ∷ ts) h =
      let (ids, h1) = alloc grow (read h t.child_ids) h in
      let (tags, h2) = alloc grow (read h1 t.tags) h1 in
      let (rest, h3) = clone_state ts h2 in
      ((k, record t { child_ids = ids; tags = tags }) ∷ rest, h3)

-- What `Add` and `Delete` do with the parent in their candidate: `edit` is insertAt or removeString.
unfoldable pub edit_parent :
    (Slice → Heap → Slice × Heap) → ℤ → Text → Map SharedTask → Heap → Map SharedTask × Heap
edit_parent edit now pid ts h = elim (get pid ts) [
  | none ↦ (ts, h)
  | some p ↦
      let (ids, h') = edit p.child_ids h in
      let meta = record p.task.meta { version = inc64 p.task.meta.version; updated_at = now } in
      (put pid (record p { task = record p.task { meta = meta }; child_ids = ids }) ts, h')
]
