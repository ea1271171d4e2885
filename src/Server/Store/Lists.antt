-- ===== src/Server/Store/Lists.antt =====
-- What the edits of child lists do.
use seshat_tasks.Prelude.{
  ℕ, zero, suc, ◌≤◌, Text, ◌==◌, eq_iff, elem, length, take, drop, put, remove, get-put, get-remove,
  false, not, ◌&&◌, ◌||◌, Option, none, some, List, [], ◌∷◌, ◌++◌, if◌then◌else◌, ◌≡◌, refl, ap,
  arith, Distinct, Bool-cases, inl, inr,
}
use seshat_tasks.Prelude.Int.{ℤ}
use seshat_tasks.Task.{Task, Tasks, task_at, has, empty_task}
use seshat_tasks.Server.Content.{clamp, insert_at, remove_string}
use seshat_tasks.Server.Store.{place}

pub elem-insert_at :
    (s : List Text) (i : ℕ) (v a : Text) → elem a (insert_at s i v) ≡ (a == v || elem a s)
unfolding insert_at elem
elem-insert_at s zero v a = refl
elem-insert_at [] (suc i) v a = refl
elem-insert_at (x ∷ s) (suc i) v a = ground (arith, elem-insert_at s i v a)

pub insert_at-Distinct :
    (s : List Text) (i : ℕ) (v : Text) → elem v s ≡ false → Distinct s → Distinct (insert_at s i v)
unfolding insert_at elem
insert_at-Distinct s zero v n d = (n, d)
insert_at-Distinct [] (suc i) v n d = (refl, tt)
insert_at-Distinct (x ∷ s) (suc i) v n d = (
  ground (arith, elem-insert_at s i v x, d.0, eq_iff v x, eq_iff x v),
  insert_at-Distinct s i v (ground arith) d.1,
)

pub insert_at-take-drop :
    (s : List Text) (i : ℕ) (v : Text) → i ≤ length s → insert_at s i v ≡ take i s ++ (v ∷ drop i s)
unfolding insert_at
insert_at-take-drop s zero v h = refl
insert_at-take-drop [] (suc i) v h = absurd (omega arith)
insert_at-take-drop (x ∷ s) (suc i) v h = ap (◌∷◌ x) (insert_at-take-drop s i v (omega arith))

-- The index that `add` inserts at never lies past the end, so the insertion does not panic.
pub place-le-length : (position : Option ℤ) (ids : List Text) → place position ids ≤ length ids
unfolding place clamp
place-le-length none ids = omega arith
place-le-length (some position) ids = ground arith

pub elem-remove_string :
    (s : List Text) (v a : Text) → elem a (remove_string s v) ≡ (not (a == v) && elem a s)
unfolding remove_string elem
elem-remove_string [] v a = ground arith
elem-remove_string (x ∷ s) v a =
    ground (arith, elem-remove_string s v a, eq_iff x v, eq_iff a v, eq_iff a x)

pub remove_string-Distinct : (s : List Text) (v : Text) → Distinct s → Distinct (remove_string s v)
unfolding remove_string elem
remove_string-Distinct [] v d = tt
remove_string-Distinct (x ∷ s) v d = elim (Bool-cases (x == v)) [
  | inl e ↦ rw e (remove_string-Distinct s v d.1)
  | inr n ↦ rw n (ground (arith, elem-remove_string s v x, d.0), remove_string-Distinct s v d.1)
]

pub task_at-put :
    (k j : Text) (t : Task) (ts : Tasks)
    → task_at (put k t ts) j ≡ (if j == k then t else task_at ts j)
unfolding task_at
task_at-put k j t ts = ground (arith, get-put k j t ts)

pub task_at-remove :
    (k j : Text) (ts : Tasks)
    → task_at (remove k ts) j ≡ (if j == k then empty_task else task_at ts j)
unfolding task_at
task_at-remove k j ts = ground (arith, get-remove k j ts)

pub has-remove : (k j : Text) (ts : Tasks) → has (remove k ts) j ≡ (not (j == k) && has ts j)
unfolding has
has-remove k j ts = ground (arith, get-remove k j ts)

pub remove_string_absent : (s : List Text) (v : Text) → elem v s ≡ false → remove_string s v ≡ s
unfolding remove_string elem
remove_string_absent [] v n = refl
remove_string_absent (x ∷ s) v n = ground (arith, remove_string_absent s v, eq_iff x v, eq_iff v x)

pub remove_string-nil : (v : Text) → remove_string [] v ≡ []
unfolding remove_string
remove_string-nil v = refl
