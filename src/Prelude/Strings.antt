-- ===== src/Prelude/Strings.antt =====
-- A Go string is the sequence of its bytes. Equality and `<` of strings compare bytes.
use Prim.Native.Nat.{ℕ, ◌+◌, ◌/◌, ◌%◌, ◌≤◌}
use Prim.Native.Char.{code}
use Prim.Native.String.{String}
use mathlib.Core.Path.{◌≡◌, refl}
use mathlib.Core.Logic.{◌↔◌, ◌⊎◌, inl, inr}
use mathlib.Core.Bool.{Bool, true, false, ◌&&◌, ◌||◌}
use mathlib.Core.List.{List, [], ◌∷◌, ◌++◌}
use native.Mathlib.Omega.{arith}
use seshat_tasks.Prelude.Tests.{ltb, eqb, if◌then◌else◌}
use seshat_tasks.Prelude.Lists.{length}

abbrev pub Text : Type 0
Text = List ℕ

-- The UTF-8 bytes of a code point, and the bytes of a literal of the source.
unfoldable pub utf8 : ℕ → Text
utf8 c =
    if ltb c 0x80
    then c ∷ []
    else if ltb c 0x800
    then (0xc0 + c / 64) ∷ (0x80 + c % 64) ∷ []
    else if ltb c 0x10000
    then (0xe0 + c / 4096) ∷ (0x80 + c / 64 % 64) ∷ (0x80 + c % 64) ∷ []
    else (0xf0 + c / 262144) ∷ (0x80 + c / 4096 % 64) ∷ (0x80 + c / 64 % 64) ∷ (0x80 + c % 64) ∷ []

unfoldable pub lit : String → Text
unfolding utf8
lit String.[] = []
lit (String.◌∷◌ c s) = utf8 (code c) ++ lit s

infix 50 ◌==◌
unfoldable pub ◌==◌ : Text → Text → Bool
[] == [] = true
(a ∷ s) == (b ∷ t) = eqb a b && s == t
_ == _ = false

pub eq_iff : (s t : Text) → ((s == t) ≡ true) ↔ (s ≡ t)
unfolding ◌==◌
eq_iff [] [] = ground arith
eq_iff [] (b ∷ t) = ground arith
eq_iff (a ∷ s) [] = ground arith
eq_iff (a ∷ s) (b ∷ t) = ground (arith, eq_iff s t)

pub eq_refl : (s : Text) → (s == s) ≡ true
eq_refl s = (eq_iff s s).1 refl

-- Go's `s < t` on strings: the first byte that differs decides, and a prefix comes first.
unfoldable pub less : Text → Text → Bool
less [] [] = false
less [] (b ∷ t) = true
less (a ∷ s) [] = false
less (a ∷ s) (b ∷ t) = if eqb a b then less s t else ltb a b

pub less_irrefl : (s : Text) → less s s ≡ false
unfolding less
less_irrefl [] = refl
less_irrefl (a ∷ s) = ground (arith, less_irrefl s)

pub less_trans : (s t u : Text) → less s t ≡ true → less t u ≡ true → less s u ≡ true
unfolding less
less_trans [] [] u p q = ground arith
less_trans [] (b ∷ t) [] p q = ground arith
less_trans [] (b ∷ t) (c ∷ u) p q = refl
less_trans (a ∷ s) [] u p q = ground arith
less_trans (a ∷ s) (b ∷ t) [] p q = ground arith
less_trans (a ∷ s) (b ∷ t) (c ∷ u) p q = ground (arith, less_trans s t u)

pub less_total : (s t : Text) → (less s t ≡ true) ⊎ ((s ≡ t) ⊎ (less t s ≡ true))
unfolding less
less_total [] [] = inr (inl refl)
less_total [] (b ∷ t) = inl refl
less_total (a ∷ s) [] = inr (inr refl)
less_total (a ∷ s) (b ∷ t) = ground (arith, less_total s t)

-- Sets of strings, kept as lists.
unfoldable pub elem : Text → List Text → Bool
elem a [] = false
elem a (x ∷ xs) = a == x || elem a xs

pub elem-cons : (a x : Text) (xs : List Text) → elem a (x ∷ xs) ≡ (a == x || elem a xs)
unfolding elem
elem-cons a x xs = refl

pub elem-one : (a x : Text) → elem a (x ∷ []) ≡ (a == x)
unfolding elem
elem-one a x = ground arith

pub elem-append : (a : Text) (xs ys : List Text) → elem a (xs ++ ys) ≡ (elem a xs || elem a ys)
unfolding elem
elem-append a [] ys = refl
elem-append a (x ∷ xs) ys = ground (arith, elem-append a xs ys)

-- No string occurs twice.
abbrev pub Distinct : List Text → Type 0
Distinct [] = Unit
Distinct (x ∷ xs) = (elem x xs ≡ false) × Distinct xs

-- The list without one occurrence of `a`.
erase : Text → List Text → List Text
erase a [] = []
erase a (x ∷ xs) = if a == x then xs else x ∷ erase a xs

length-erase : (a : Text) (xs : List Text) → elem a xs ≡ true → length (erase a xs) + 1 ≡ length xs
unfolding elem erase
length-erase a [] h = ground arith
length-erase a (x ∷ xs) h = ground (arith, length-erase a xs)

elem-erase :
    (b a : Text) (xs : List Text) → elem b xs ≡ true → (b == a) ≡ false → elem b (erase a xs) ≡ true
unfolding elem erase
elem-erase b a [] h n = ground arith
elem-erase b a (x ∷ xs) h n = ground (arith, elem-erase b a xs, eq_iff a x, eq_iff b x, eq_iff b a)

-- Distinct strings that all lie in a list are at most as many as the list is long.
pub pigeonhole :
    (xs ys : List Text)
    → Distinct xs
    → ((a : Text) → elem a xs ≡ true → elem a ys ≡ true)
    → length xs ≤ length ys
pigeonhole [] ys d sub = omega arith
pigeonhole (x ∷ xs) ys d sub =
    let here : elem x ys ≡ true = sub x (unfold elem in ground (arith, eq_refl x)) in
    let rest =
      pigeonhole xs (erase x ys) d.1
        (λ a m. elem-erase a x ys (sub a (unfold elem in ground arith)) (ne a m)) in
    omega (arith, rest, length-erase x ys here)
  where
    ne : (a : Text) → elem a xs ≡ true → (a == x) ≡ false
    ne a m = ground (arith, d.0, eq_iff a x)
