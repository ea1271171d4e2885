-- ===== src/Bot/Registry/Keys.antt =====
-- Lists of elements in which no identity and no key occurs twice: the linked list of
-- client/bot/actions.go, seen from its two maps.
use seshat_tasks.Prelude.{
  ℕ, suc, ◌<◌, eqb, eqb_iff, length, Bool, true, false, not, ◌&&◌, Option, none, some, List, [],
  ◌∷◌, if◌then◌else◌, ◌≡◌, refl, arith, Bool-cases, Option-cases, inl, inr, sym, ap, ◌∙◌,
}
use seshat_tasks.Bot.Registry.{Entry, Element, value_of, ll_remove, ll_back}

abbrev pub IdsOnce : List Element → Type 0
IdsOnce [] = Unit
IdsOnce ((n, e) ∷ l) = (value_of n l ≡ none) × IdsOnce l

pub value_of-ll_remove :
    (j n : ℕ) (l : List Element)
    → IdsOnce l
    → value_of j (ll_remove n l) ≡ (if eqb j n then none else value_of j l)
unfolding value_of ll_remove
value_of-ll_remove j n [] once = ground arith
value_of-ll_remove j n ((m, x) ∷ l) once =
    ground (arith, value_of-ll_remove j n l once.1, once.0, eqb_iff j n, eqb_iff n m, eqb_iff j m)

pub IdsOnce-ll_remove : (n : ℕ) (l : List Element) → IdsOnce l → IdsOnce (ll_remove n l)
unfolding ll_remove
IdsOnce-ll_remove n [] once = tt
IdsOnce-ll_remove n ((m, x) ∷ l) once = elim (Bool-cases (eqb n m)) [
  | inl here ↦ rw here (once.1)
  | inr there ↦
      rw there
        (ground (arith, value_of-ll_remove m n l once.1, once.0), IdsOnce-ll_remove n l once.1)
]

pub length-ll_remove :
    (n : ℕ) (e : Entry) (l : List Element)
    → value_of n l ≡ some e
    → length l ≡ suc (length (ll_remove n l))
unfolding value_of ll_remove
length-ll_remove n e [] h = absurd (ground arith)
length-ll_remove n e ((m, x) ∷ l) h = ground (arith, length-ll_remove n e l)

pub value_of-ll_back :
    (n : ℕ) (e : Entry) (l : List Element)
    → IdsOnce l
    → ll_back l ≡ some (n, e)
    → value_of n l ≡ some e
unfolding value_of ll_back
value_of-ll_back n e [] once h = absurd (ground arith)
value_of-ll_back n e ((m, x) ∷ l) once h = elim (Option-cases (ll_back l)) [
  | inl last ↦ ground (arith, eqb_iff n m)
  | inr ((k, y), more) ↦ ground (arith, value_of-ll_back n e l once.1, eqb_iff n m, once.0)
]

pub ll_back-nonempty : (x : Element) (l : List Element) → (y : Element) × (ll_back (x ∷ l) ≡ some y)
unfolding ll_back
ll_back-nonempty x [] = (x, refl)
ll_back-nonempty x (z ∷ l) = let (y, e) = ll_back-nonempty z l in (y, ground (arith, e))

pub ll_back-none : (l : List Element) → ll_back l ≡ none → length l ≡ 0
ll_back-none [] h = refl
ll_back-none (x ∷ l) h = let (y, e) = ll_back-nonempty x l in absurd (cc (e, h))

-- The last of several elements is not the first one.
pub ll_remove-ll_back :
    (x : Element) (l : List Element) (n : ℕ) (old : Entry)
    → IdsOnce (x ∷ l)
    → 1 < length (x ∷ l)
    → ll_back (x ∷ l) ≡ some (n, old)
    → ll_remove n (x ∷ l) ≡ x ∷ ll_remove n l
unfolding ll_remove
ll_remove-ll_back x [] n old once more back = absurd (omega arith)
ll_remove-ll_back (m, y) (z ∷ l) n old once more back =
    let (w, last) = ll_back-nonempty z l in
    let that : ll_back (z ∷ l) ≡ some (n, old) = last ∙ unfold ll_back in (ground (arith, last)) in
    let there = value_of-ll_back n old (z ∷ l) once.1 that in
    let other : eqb n m ≡ false = ground (arith, eqb_iff n m, there, once.0) in
    rw (other, ll_remove) refl

-- Which key an entry has in a map, if any: its token, or its prompt.
pub record Key (K : Type 0) : Type 0 where
  pub same : K → K → Bool
  pub same_refl : (a : K) → same a a ≡ true
  pub same_eq : (a b : K) → same a b ≡ true → a ≡ b
  pub key : Entry → K
  pub absent : K → Bool

module _ {K : Type 0} (k : Key K) where
  -- The element that a map should name for a key.
  unfoldable pub node_of : K → List Element → Option ℕ
  node_of a [] = none
  node_of a ((n, e) ∷ l) = if not (k.absent a) && k.same a (k.key e) then some n else node_of a l

  abbrev pub KeysOnce : List Element → Type 0
  KeysOnce [] = Unit
  KeysOnce ((n, e) ∷ l) = (node_of (k.key e) l ≡ none) × KeysOnce l

  pub node_of_absent : (a : K) (l : List Element) → k.absent a ≡ true → node_of a l ≡ none
  unfolding node_of
  node_of_absent a [] h = refl
  node_of_absent a ((n, e) ∷ l) h = ground (arith, node_of_absent a l h)

  -- An element is the one of its key.
  pub node_of-value_of :
      (n : ℕ) (e : Entry) (l : List Element)
      → KeysOnce l
      → value_of n l ≡ some e
      → k.absent (k.key e) ≡ false
      → node_of (k.key e) l ≡ some n
  unfolding node_of value_of
  node_of-value_of n e [] once h p = absurd (ground arith)
  node_of-value_of n e ((m, x) ∷ l) once h p = elim (Bool-cases (eqb n m)) [
    | inl here ↦ ground (arith, eqb_iff n m, k.same_refl (k.key e))
    | inr there ↦
        let v : value_of n l ≡ some e = ground arith in
        let found = node_of-value_of n e l once.1 v p in
        elim (Bool-cases (k.same (k.key e) (k.key x))) [
          | inl equal ↦ absurd (cc (k.same_eq (k.key e) (k.key x) equal, once.0, found))
          | inr other ↦ ground (arith, found, other)
        ]
  ]

  -- Without its element a key is gone, and every other key stays.
  pub node_of-ll_remove :
      (a : K) (n : ℕ) (e : Entry) (l : List Element)
      → KeysOnce l
      → value_of n l ≡ some e
      → node_of a (ll_remove n l) ≡ (if k.same a (k.key e) then none else node_of a l)
  unfolding node_of value_of ll_remove
  node_of-ll_remove a n e [] once h = absurd (ground arith)
  node_of-ll_remove a n e ((m, x) ∷ l) once h = elim (Bool-cases (eqb n m)) [
    | inl here ↦
        let this : x ≡ e = ground arith in
        elim (Bool-cases (k.same a (k.key e))) [
          | inl equal ↦
              let gone : node_of a l ≡ none =
                ap (λ b. node_of b l) (k.same_eq a (k.key e) equal ∙ ap (λ y. k.key y) (sym this))
                ∙ once.0 in
              rw (here, equal) gone
          | inr other ↦ rw (here, this, other) (ground (arith, other))
        ]
    | inr there ↦
        let v : value_of n l ≡ some e = ground arith in
        let rest = node_of-ll_remove a n e l once.1 v in
        elim (Bool-cases (k.same a (k.key e))) [
          | inr other ↦ ground (arith, rest, other, there)
          | inl equal ↦ elim (Bool-cases (k.absent a)) [
            | inl absent ↦ ground (arith, rest, equal, there, absent)
            | inr present ↦ elim (Bool-cases (k.same a (k.key x))) [
              | inr differs ↦ ground (arith, rest, equal, there, differs)
              | inl both ↦
                  let at_e = k.same_eq a (k.key e) equal in
                  let at_x = k.same_eq a (k.key x) both in
                  let found =
                    node_of-value_of n e l once.1 v (ap (λ b. k.absent b) (sym at_e) ∙ present) in
                  absurd (cc (at_e, at_x, once.0, found))
            ]
          ]
        ]
  ]

  pub KeysOnce-ll_remove :
      (n : ℕ) (e : Entry) (l : List Element)
      → KeysOnce l
      → value_of n l ≡ some e
      → KeysOnce (ll_remove n l)
  unfolding value_of ll_remove
  KeysOnce-ll_remove n e [] once h = tt
  KeysOnce-ll_remove n e ((m, x) ∷ l) once h = elim (Bool-cases (eqb n m)) [
    | inl here ↦ rw here (once.1)
    | inr there ↦
        let v : value_of n l ≡ some e = ground arith in
        rw there (
          ground (arith, node_of-ll_remove (k.key x) n e l once.1 v, once.0),
          KeysOnce-ll_remove n e l once.1 v,
        )
  ]

  -- A move to the front changes no key's element.
  pub node_of-front :
      (a : K) (n : ℕ) (e : Entry) (l : List Element)
      → KeysOnce l
      → value_of n l ≡ some e
      → node_of a ((n, e) ∷ ll_remove n l) ≡ node_of a l
  unfolding node_of
  node_of-front a n e l once h = elim (Bool-cases (k.same a (k.key e))) [
    | inr other ↦ ground (arith, node_of-ll_remove a n e l once h, other)
    | inl equal ↦ elim (Bool-cases (k.absent a)) [
      | inl absent ↦
          ground (arith, node_of-ll_remove a n e l once h, node_of_absent a l absent, equal)
      | inr present ↦
          let at_e = k.same_eq a (k.key e) equal in
          let found = node_of-value_of n e l once h (ap (λ b. k.absent b) (sym at_e) ∙ present) in
          let there : node_of a l ≡ some n = ap (λ b. node_of b l) at_e ∙ found in
          ground (arith, there, equal, present)
    ]
  ]

  -- The element of a key is there, and has the key.
  pub value_of-node_of :
      (a : K) (n : ℕ) (l : List Element)
      → IdsOnce l
      → node_of a l ≡ some n
      → (e : Entry) × (value_of n l ≡ some e) × (k.same a (k.key e) ≡ true) × (k.absent a ≡ false)
  unfolding node_of value_of
  value_of-node_of a n [] once h = absurd (ground arith)
  value_of-node_of a n ((m, x) ∷ l) once h =
      elim (Bool-cases (not (k.absent a) && k.same a (k.key x))) [
        | inl here ↦ (x, ground (arith, eqb_iff n m), ground arith, ground arith)
        | inr there ↦
            let (e, v, same, present) = value_of-node_of a n l once.1 (ground arith) in
            (e, ground (arith, v, once.0, eqb_iff n m), same, present)
      ]
