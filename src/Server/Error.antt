-- ===== src/Server/Error.antt =====
-- The errors of the server (server/store.go, server/validate.go), and results that may be one.
use seshat_tasks.Prelude.{Text, Bool, true, false, List, ◌≡◌, refl, ◌⊎◌, inl, inr}
use seshat_tasks.Task.{Task}

pub record InvariantError : Type 0 where
  pub invariant : Text
  pub ids : List Text

-- `unsaved` is an error of the encoder or of the file system. `out_of_fuel` is the model's own:
-- a recursion that did not end within its fuel.
pub data Error : Type 0 where
  not_found : Error
  validation : Text → Error
  conflict : List Task → Error
  too_large : Error
  violates : InvariantError → Error
  unsaved : Text → Error
  out_of_fuel : Error

-- Go's pair of a value and an error, of which a caller reads the value only if the error is nil.
pub data Result {ℓ} (A : Type ℓ) : Type ℓ where
  err : Error → Result A
  ok : A → Result A

-- `if !test { return error }`
abbrev pub require : Bool → Error → Result (Unit {0})
require test failure = elim test [ false ↦ err failure | true ↦ ok tt ]

infixl 5 ◌>>=◌ ◌>>◌
abbrev pub ◌>>=◌ {ℓ κ} : {A : Type ℓ} {B : Type κ} → Result A → (A → Result B) → Result B
err failure >>= rest = err failure
ok value >>= rest = rest value

abbrev pub ◌>>◌ {κ} : {B : Type κ} → Result (Unit {0}) → Result B → Result B
check >> rest = check >>= λ _. rest

pub Result-cases {ℓ} :
    {A : Type ℓ} (r : Result A) → ((a : A) × (r ≡ ok a)) ⊎ ((e : Error) × (r ≡ err e))
Result-cases (ok a) = inl (a, refl)
Result-cases (err e) = inr (e, refl)

-- A chain that returns has passed its first step.
pub >>=-eq-ok {ℓ κ} :
    {A : Type ℓ} {B : Type κ} (first : Result A) (rest : A → Result B) {answer : B}
    → (first >>= rest) ≡ ok answer
    → (value : A) × (first ≡ ok value) × (rest value ≡ ok answer)
>>=-eq-ok (err failure) rest returned = cc
>>=-eq-ok (ok value) rest returned = (value, refl, returned)

pub require-eq-ok : (b : Bool) (e : Error) → require b e ≡ ok tt → b ≡ true
require-eq-ok true e h = refl
require-eq-ok false e h = cc

pub ok-injective {ℓ} : {A : Type ℓ} {a b : A} → ok a ≡ ok b → a ≡ b
ok-injective h = cc
