-- ===== src/Server/Validate/Search.antt =====
-- The depth-first search: with its fuel it ends, it reports only cycles, and a search that goes
-- through leaves the finished ids in an order in which children stand before their parents.
use seshat_tasks.Prelude.{
  ℕ, Text, lit, ◌==◌, eq_iff, elem, put, get-put, true, false, List, [], ◌∷◌, if◌then◌else◌, ◌≡◌,
  subst, inl, inr, arith, Bool-cases,
}
use seshat_tasks.Task.{Tasks, Edge}
use seshat_tasks.Server.Error.{Result, ok, err}
use seshat_tasks.Server.Validate.{Colors, broken, color_of}
use seshat_tasks.Server.Validate.Graph.{Below, child, deeper}

pub color_of-put :
    (k x : Text) (n : ℕ) (color : Colors)
    → color_of (put k n color) x ≡ (if x == k then n else color_of color x)
unfolding color_of
color_of-put k x n color = ground (arith, get-put k x n color)

module _ (ts : Tasks) where
  -- Every child of a finished id was finished before it.
  abbrev pub Ordered : List Text → Type 0
  Ordered [] = Unit
  Ordered (x ∷ done) =
      (elem x done ≡ false) × ((c : Text) → Edge ts x c → elem c done ≡ true) × Ordered done

  Edge-in :
      (x y : Text) (done : List Text)
      → Ordered done
      → elem x done ≡ true
      → Edge ts x y
      → elem y done ≡ true
  unfolding elem
  Edge-in x y [] o m e = absurd (ground arith)
  Edge-in x y (a ∷ done) o m e = elim (Bool-cases (x == a)) [
    | inl here ↦ ground (arith, o.1 y (subst (λ z. Edge ts z y) ((eq_iff x a).0 here) e))
    | inr there ↦ ground (arith, Edge-in x y done o.2 (ground arith) e)
  ]

  Below-in :
      (x y : Text) (done : List Text)
      → Ordered done
      → elem x done ≡ true
      → Below ts x y
      → elem y done ≡ true
  Below-in x y done o m (child e) = Edge-in x y done o m e
  Below-in x y done o m (deeper {q = q} b e) = Edge-in q y done o (Below-in x q done o m b) e

  -- From the head of the order every way down leads into the rest.
  Below-rest :
      (x y : Text) (done : List Text) → Ordered (x ∷ done) → Below ts x y → elem y done ≡ true
  Below-rest x y done o (child e) = o.1 y e
  Below-rest x y done o (deeper {q = q} b e) = Edge-in q y done o.2 (Below-rest x q done o b) e

  pub Ordered-acyclic :
      (x : Text) (done : List Text) → Ordered done → elem x done ≡ true → Below ts x x → ⊥
  unfolding elem
  Ordered-acyclic x [] o m b = ground arith
  Ordered-acyclic x (a ∷ done) o m b = elim (Bool-cases (x == a)) [
    | inl here ↦
        let e = (eq_iff x a).0 here in
        cc (o.0, Below-rest a a done o (subst (λ z. Below ts z z) e b))
    | inr there ↦ Ordered-acyclic x done o.2 (ground arith) b
  ]

  abbrev pub Sub : List Text → List Text → Type 0
  Sub xs ys = (a : Text) → elem a xs ≡ true → elem a ys ≡ true

  -- `gray` are the ids of the calls in progress, `done` those of the calls that have returned.
  pub record Colored (gray done : List Text) (color : Colors) : Type 0 where
    pub agrees :
        (x : Text) → color_of color x ≡ (if elem x gray then 1 else if elem x done then 2 else 0)
    pub apart : (x : Text) → elem x gray ≡ true → elem x done ≡ false
    pub ordered : Ordered done

  -- How a search ends that was to finish `targets`.
  pub data Outcome (gray done targets : List Text) (r : Result Colors) : Type 0 where
    finished :
        (color' : Colors) (done' : List Text)
        → r ≡ ok color'
        → Colored gray done' color'
        → Sub done done'
        → Sub targets done'
        → Outcome gray done targets r
    cyclic :
        (p c : Text)
        → r ≡ err (broken (lit "cycle") (p ∷ c ∷ []))
        → Edge ts p c
        → Below ts c c
        → Outcome gray done targets r
