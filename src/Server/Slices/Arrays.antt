-- ===== src/Server/Slices/Arrays.antt =====
-- The cells of an array: what a write, a copy and `append` leave.
use seshat_tasks.Prelude.{
  ℕ, zero, suc, ◌+◌, ◌-◌, ◌≤◌, ◌<◌, Text, eqb, eqb_iff, ltb, length, length-append, length-take,
  take, drop, take-append-drop, true, false, List, [], ◌∷◌, ◌++◌, ◌≡◌, refl, sym, ap, ◌∙◌, ◌⊎◌,
  arith, Bool-cases, inl, inr,
}
use mathlib.Core.List.{append_assoc}
use seshat_tasks.Server.Content.{insert_at}
use seshat_tasks.Server.Slices.{
  Slice, Heap, read, set_array, set_at, cell, zeros, shift, copy_up, alloc, append,
}

pub length-set_at : (a : List Text) (j : ℕ) (x : Text) → length (set_at a j x) ≡ length a
unfolding set_at
length-set_at [] j x = refl
length-set_at (y ∷ a) zero x = refl
length-set_at (y ∷ a) (suc j) x = omega (arith, length-set_at a j x)

pub take-set_at :
    (a : List Text) (j : ℕ) (x : Text)
    → j < length a
    → take (suc j) (set_at a j x) ≡ take j a ++ (x ∷ [])
unfolding set_at
take-set_at [] j x h = absurd (omega arith)
take-set_at (y ∷ a) zero x h = refl
take-set_at (y ∷ a) (suc j) x h = ap (λ l. y ∷ l) (take-set_at a j x (omega arith))

pub drop-set_at : (a : List Text) (i j : ℕ) (x : Text) → j < i → drop i (set_at a j x) ≡ drop i a
unfolding set_at
drop-set_at a zero j x h = absurd (omega arith)
drop-set_at [] (suc i) j x h = refl
drop-set_at (y ∷ a) (suc i) zero x h = refl
drop-set_at (y ∷ a) (suc i) (suc j) x h = drop-set_at a i j x (omega arith)

-- What stands at the front of the rest of an array.
pub drop-cell :
    (a : List Text) (i : ℕ) (y : Text) (l : List Text)
    → drop i a ≡ y ∷ l
    → (i < length a) × (cell a i ≡ y) × (drop (suc i) a ≡ l)
unfolding cell
drop-cell [] zero y l h = absurd (cc h)
drop-cell [] (suc i) y l h = absurd (cc h)
drop-cell (x ∷ a) zero y l h = (omega arith, cc h, cc h)
drop-cell (x ∷ a) (suc i) y l h =
    let (below, here, rest) = drop-cell a i y l h in (omega arith, here, rest)

set_at-append :
    (xs : List Text) (x v : Text) (rest : List Text)
    → set_at (xs ++ (x ∷ rest)) (length xs) v ≡ xs ++ (v ∷ rest)
unfolding set_at
set_at-append [] x v rest = refl
set_at-append (y ∷ xs) x v rest = ap (λ l. y ∷ l) (set_at-append xs x v rest)

shift-none : (x : Text) (a : List Text) → shift x a 0 ≡ a
unfolding shift
shift-none x [] = refl
shift-none x (y ∷ a) = refl

shift-append :
    (y x : Text) (ys rest : List Text)
    → shift y (ys ++ (x ∷ rest)) (suc (length ys)) ≡ (y ∷ ys) ++ rest
unfolding shift
shift-append y x [] rest = ap (λ l. y ∷ l) (shift-none x rest)
shift-append y x (z ∷ ys) rest = ap (λ l. y ∷ l) (shift-append z x ys rest)

-- The copy makes room for a new cell.
pub copied :
    (xs : List Text) (x : Text) (rest : List Text) (i : ℕ) (v : Text)
    → i ≤ length xs
    → set_at (copy_up (xs ++ (x ∷ rest)) i (length xs - i)) i v ≡ insert_at xs i v ++ rest
unfolding set_at copy_up insert_at
copied [] x rest zero v h = ap (λ l. v ∷ l) (shift-none x rest)
copied [] x rest (suc i) v h = absurd (omega arith)
copied (y ∷ ys) x rest zero v h =
    let all : length (y ∷ ys) - 0 ≡ suc (length ys) = omega arith in
    ap (λ n. set_at (copy_up ((y ∷ ys) ++ (x ∷ rest)) zero n) zero v) all
    ∙ ap (λ l. v ∷ l) (shift-append y x ys rest)
copied (y ∷ ys) x rest (suc i) v h =
    ap (λ n. y ∷ set_at (copy_up (ys ++ (x ∷ rest)) i n) i v) (omega arith)
    ∙ ap (λ l. y ∷ l) (copied ys x rest i v (omega arith))

pub length-insert_at :
    (xs : List Text) (i : ℕ) (v : Text)
    → i ≤ length xs
    → length (insert_at xs i v) ≡ suc (length xs)
unfolding insert_at
length-insert_at xs zero v h = refl
length-insert_at [] (suc i) v h = absurd (omega arith)
length-insert_at (x ∷ xs) (suc i) v h = omega (arith, length-insert_at xs i v)

pub length-read :
    (h : Heap) (s : Slice) → s.len ≤ length (h.array s.base) → length (read h s) ≡ s.len
length-read h s fits = omega (arith, length-take s.len (h.array s.base))

-- A slice whose array is there and has its cells.
abbrev pub Fits : Heap → Slice → Type 0
Fits h s = (s.base < h.next) × (s.len ≤ length (h.array s.base))

-- What an operation on a slice leaves: the other arrays stay.
pub record Edited (h : Heap) (s : Slice) (values : List Text) (made : Slice × Heap) : Type 0 where
  pub result : read made.1 made.0 ≡ values
  pub grown : h.next ≤ made.1.next
  pub frame : (c : ℕ) → c < h.next → eqb c s.base ≡ false → made.1.array c ≡ h.array c

-- An array with these values in front, named by a slice of their length.
pub record Front (h : Heap) (s : Slice) (xs : List Text) (v : Text) (made : Slice × Heap)
    : Type 0 where
  pub rest : List Text
  pub cells : made.1.array made.0.base ≡ xs ++ (v ∷ rest)
  pub len : made.0.len ≡ suc (length xs)
  pub grown : h.next ≤ made.1.next
  pub frame : (c : ℕ) → c < h.next → eqb c s.base ≡ false → made.1.array c ≡ h.array c
  pub place : (eqb made.0.base s.base ≡ true) ⊎ (made.0.base ≡ h.next)

room_left :
    (a : List Text) (n : ℕ) → n < length a → (x : Text) × (l : List Text) × (drop n a ≡ x ∷ l)
room_left [] n h = absurd (omega arith)
room_left (x ∷ a) zero h = (x, a, refl)
room_left (x ∷ a) (suc n) h = room_left a n (omega arith)

pub array_self : (b : ℕ) (a : List Text) (h : Heap) → (set_array b a h).array b ≡ a
array_self b a h = ground (arith, eqb_iff b b)

pub append-Front :
    (grow : ℕ → ℕ) (h : Heap) (s : Slice) (v : Text)
    → Fits h s
    → Front h s (read h s) v (append grow s v h)
unfolding append alloc
append-Front grow h s v (there, fits) = elim (Bool-cases (ltb s.len (length (h.array s.base)))) [
  | inl more ↦
      let (x, l, next) = room_left (h.array s.base) s.len (ground arith) in
      let split : h.array s.base ≡ read h s ++ (x ∷ l) =
        sym (take-append-drop s.len (h.array s.base)) ∙ ap (λ r. read h s ++ r) next in
      rw more (record {
        rest = l;
        cells =
            array_self s.base (set_at (h.array s.base) s.len v) h
            ∙ ap (λ a. set_at a s.len v) split
            ∙ ap (λ n. set_at (read h s ++ (x ∷ l)) n v) (sym (length-read h s fits))
            ∙ set_at-append (read h s) x v l;
        len = omega (arith, length-read h s fits);
        grown = omega arith;
        frame = λ c below other. rw other refl;
        place = inl (ground (arith, eqb_iff s.base s.base));
      })
  | inr full ↦ rw full (record {
    rest = zeros (grow (length (read h s ++ (v ∷ []))));
    cells =
        array_self h.next _ (record h { next = h.next + 1 }) ∙ append_assoc (read h s) (v ∷ []) _;
    len = omega (arith, length-append (read h s) (v ∷ []));
    grown = omega arith;
    frame = λ c below other. ground (arith, eqb_iff c h.next);
    place = inr refl;
  })
]
