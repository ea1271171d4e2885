-- ===== src/Prelude/Assoc.antt =====
-- A Go map with string keys, as an association list: its order stands for the order in which
-- `range` yields the entries, which Go leaves open.
use mathlib.Core.Path.{◌≡◌, refl}
use mathlib.Core.Logic.{inl, inr}
use mathlib.Core.Bool.{true, false, ◌||◌}
use mathlib.Core.Option.{Option, none, some}
use mathlib.Core.List.{List, [], ◌∷◌}
use native.Mathlib.Omega.{arith}
use seshat_tasks.Prelude.Tests.{if◌then◌else◌, Bool-cases}
use seshat_tasks.Prelude.Strings.{Text, ◌==◌, eq_iff, eq_refl, elem, Distinct}

abbrev pub Map : Type 0 → Type 0
Map V = List (Text × V)

abbrev pub keys : {V : Type 0} → Map V → List Text
keys [] = []
keys ((k, v) ∷ m) = k ∷ keys m

unfoldable pub get : {V : Type 0} → Text → Map V → Option V
get k [] = none
get k ((j, v) ∷ m) = if k == j then some v else get k m

-- `m[k] = v`
unfoldable pub put : {V : Type 0} → Text → V → Map V → Map V
put k v [] = (k, v) ∷ []
put k v ((j, w) ∷ m) = if k == j then (j, v) ∷ m else (j, w) ∷ put k v m

-- `delete(m, k)`
unfoldable pub remove : {V : Type 0} → Text → Map V → Map V
remove k [] = []
remove k ((j, v) ∷ m) = if k == j then remove k m else (j, v) ∷ remove k m

module _ {V : Type 0} where
  pub get-put :
      (k j : Text) (v : V) (m : Map V) → get j (put k v m) ≡ (if j == k then some v else get j m)
  unfolding get put
  get-put k j v [] = refl
  get-put k j v ((i, w) ∷ m) = ground (arith, eq_iff k i, eq_iff j i, eq_iff j k, get-put k j v m)

  pub get-remove :
      (k j : Text) (m : Map V) → get j (remove k m) ≡ (if j == k then none else get j m)
  unfolding get remove
  get-remove k j [] = ground arith
  get-remove k j ((i, w) ∷ m) = ground (arith, eq_iff k i, eq_iff j i, eq_iff j k, get-remove k j m)

  pub get-put_self : (k : Text) (v : V) (m : Map V) → get k (put k v m) ≡ some v
  get-put_self k v m = ground (arith, get-put k k v m, eq_refl k)

  pub elem-keys-put :
      (k j : Text) (v : V) (m : Map V) → elem j (keys (put k v m)) ≡ (j == k || elem j (keys m))
  unfolding put elem
  elem-keys-put k j v [] = refl
  elem-keys-put k j v ((i, w) ∷ m) =
      ground (arith, eq_iff k i, eq_iff j i, eq_iff j k, elem-keys-put k j v m)

  pub elem-keys-get : (k : Text) (v : V) (m : Map V) → get k m ≡ some v → elem k (keys m) ≡ true
  unfolding get elem
  elem-keys-get k v [] h = ground arith
  elem-keys-get k v ((j, w) ∷ m) h = ground (arith, elem-keys-get k v m)

  pub get-elem-keys : (k : Text) (m : Map V) → elem k (keys m) ≡ true → (v : V) × (get k m ≡ some v)
  unfolding get elem
  get-elem-keys k [] h = ground arith
  get-elem-keys k ((j, w) ∷ m) h = elim (Bool-cases (k == j)) [
    | inl e ↦ (w, rw e)
    | inr e ↦ rw e (get-elem-keys k m (ground arith))
  ]

  elem-keys-remove :
      (k j : Text) (m : Map V) → elem j (keys m) ≡ false → elem j (keys (remove k m)) ≡ false
  unfolding remove elem
  elem-keys-remove k j [] h = refl
  elem-keys-remove k j ((i, w) ∷ m) h = ground (arith, elem-keys-remove k j m)

  -- Writes and deletions keep every key once.
  pub put-Distinct :
      (k : Text) (v : V) (m : Map V) → Distinct (keys m) → Distinct (keys (put k v m))
  unfolding put
  put-Distinct k v [] d = (unfold elem in refl, tt)
  put-Distinct k v ((j, w) ∷ m) d = elim (Bool-cases (k == j)) [
    | inl e ↦ rw e d
    | inr e ↦
        rw e (
          ground (arith, d.0, elem-keys-put k j v m, eq_iff k j, eq_iff j k),
          put-Distinct k v m d.1,
        )
  ]

  pub remove-Distinct : (k : Text) (m : Map V) → Distinct (keys m) → Distinct (keys (remove k m))
  unfolding remove
  remove-Distinct k [] d = tt
  remove-Distinct k ((j, w) ∷ m) d = elim (Bool-cases (k == j)) [
    | inl e ↦ rw e (remove-Distinct k m d.1)
    | inr e ↦ rw e (elem-keys-remove k j m d.0, remove-Distinct k m d.1)
  ]
