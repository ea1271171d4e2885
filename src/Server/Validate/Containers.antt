-- ===== src/Server/Validate/Containers.antt =====
-- The loops over the child lists: they pass exactly when no id is listed twice and all are tasks.
use seshat_tasks.Prelude.{
  Text, lit, eq_iff, eq_refl, elem, elem-cons, true, false, List, [], ◌∷◌, ◌++◌, ◌≡◌, refl, ◌⊎◌,
  ◌↔◌, inl, inr, arith, Bool-cases, Distinct,
}
use seshat_tasks.Task.{Tasks, has}
use seshat_tasks.Server.Error.{Result, ok, err, violates, InvariantError}
use seshat_tasks.Server.Validate.{check_children, check_tasks}
use seshat_tasks.Server.Validate.Graph.{all_children}

-- All of `cs` are new to `seen` and tasks, and no one occurs twice.
abbrev Fresh : Tasks → List Text → List Text → Type 0
Fresh ts seen [] = Unit
Fresh ts seen (c ∷ cs) = (has ts c ≡ true) × (elem c seen ≡ false) × Fresh ts (c ∷ seen) cs

-- `seen` after a pass over `cs`.
abbrev gather : List Text → List Text → List Text
gather seen [] = seen
gather seen (c ∷ cs) = gather (c ∷ seen) cs

abbrev pub IsViolation : Result (Unit {0}) → Type 0
IsViolation r = (e : InvariantError) × (r ≡ err (violates e))

module _ (ts : Tasks) where
  check_children_pass :
      (owner : Text) (intra seen cs : List Text)
      → ((a : Text) → elem a intra ≡ true → elem a seen ≡ true)
      → Fresh ts seen cs
      → check_children ts owner intra seen cs ≡ ok (gather seen cs)
  unfolding check_children
  check_children_pass owner intra seen [] sub f = refl
  check_children_pass owner intra seen (c ∷ cs) sub f =
      let n : elem c intra ≡ false = ground (arith, sub c) in
      rw (n, f.0, f.1)
        (check_children_pass owner (c ∷ intra) (c ∷ seen) cs
          (λ a m. ground (arith, elem-cons a c intra, elem-cons a c seen, sub a)) f.2)

  check_children_cases :
      (owner : Text) (intra seen cs : List Text)
      → (Fresh ts seen cs × (check_children ts owner intra seen cs ≡ ok (gather seen cs)))
        ⊎ ((e : InvariantError) × (check_children ts owner intra seen cs ≡ err (violates e)))
  unfolding check_children
  check_children_cases owner intra seen [] = inl (tt, refl)
  check_children_cases owner intra seen (c ∷ cs) = elim (Bool-cases (elem c intra)) [
    | inl d ↦ inr (record { invariant = lit "duplicate_in_list"; ids = owner ∷ c ∷ [] }, rw d)
    | inr n ↦ elim (Bool-cases (has ts c)) [
      | inr u ↦ inr (record { invariant = lit "dangling_child"; ids = owner ∷ c ∷ [] }, rw (n, u))
      | inl k ↦ elim (Bool-cases (elem c seen)) [
        | inl t ↦ inr (record { invariant = lit "single_container"; ids = c ∷ [] }, rw (n, k, t))
        | inr s ↦ elim (check_children_cases owner (c ∷ intra) (c ∷ seen) cs) [
          | inl (f, e) ↦ inl ((k, s, f), rw (n, k, s) e)
          | inr (v, e) ↦ inr (v, rw (n, k, s) e)
        ]
      ]
    ]
  ]

  Fresh-append :
      (seen xs ys : List Text)
      → Fresh ts seen (xs ++ ys) ↔ (Fresh ts seen xs × Fresh ts (gather seen xs) ys)
  Fresh-append seen [] ys = (λ f. (tt, f), λ f. f.1)
  Fresh-append seen (x ∷ xs) ys =
      let ih = Fresh-append (x ∷ seen) xs ys in
      (λ f. let (a, b) = ih.0 f.2 in ((f.0, f.1, a), b), λ f. (f.0.0, f.0.1, ih.1 (f.0.2, f.1)))

  check_tasks_cases :
      (seen : List Text) (rest : Tasks)
      → (Fresh ts seen (all_children rest) × (check_tasks ts seen rest ≡ ok tt))
        ⊎ IsViolation (check_tasks ts seen rest)
  unfolding check_tasks
  check_tasks_cases seen [] = inl (tt, refl)
  check_tasks_cases seen ((k, t) ∷ rest) =
      elim (check_children_cases t.id [] seen t.content.child_ids) [
        | inr (v, e) ↦ inr (v, rw e)
        | inl (f, e) ↦ elim (check_tasks_cases (gather seen t.content.child_ids) rest) [
          | inr (v, e2) ↦ inr (v, rw e e2)
          | inl (f2, e2) ↦
              inl ((Fresh-append seen t.content.child_ids (all_children rest)).1 (f, f2), rw e e2)
        ]
      ]

  check_tasks_pass :
      (seen : List Text) (rest : Tasks)
      → Fresh ts seen (all_children rest)
      → check_tasks ts seen rest ≡ ok tt
  unfolding check_tasks
  check_tasks_pass seen [] f = refl
  check_tasks_pass seen ((k, t) ∷ rest) f =
      let (a, b) = (Fresh-append seen t.content.child_ids (all_children rest)).0 f in
      rw
        (check_children_pass t.id [] seen t.content.child_ids
          (λ c m. unfold elem in (absurd (ground arith))) a)
        (check_tasks_pass (gather seen t.content.child_ids) rest b)

  -- Whatever is fresh to a longer list is fresh to a shorter one, and nothing of it is in the list.
  Fresh-Distinct :
      (seen cs : List Text)
      → Fresh ts seen cs
      → Distinct cs × ((a : Text) → elem a cs ≡ true → (has ts a ≡ true) × (elem a seen ≡ false))
  unfolding elem
  Fresh-Distinct seen [] f = (tt, λ a m. absurd (ground arith))
  Fresh-Distinct seen (c ∷ cs) f =
      let (d, k) = Fresh-Distinct (c ∷ seen) cs f.2 in
      (
        (not_later c cs seen k, d),
        λ a m. (ground (arith, k a, eq_iff a c), ground (arith, k a, eq_iff a c)),
      )
    where
      not_later :
          (c : Text) (cs seen : List Text)
          → ((a : Text) → elem a cs ≡ true → (has ts a ≡ true) × (elem a (c ∷ seen) ≡ false))
          → elem c cs ≡ false
      not_later c cs seen k = ground (arith, k c, eq_refl c)

  Distinct-Fresh :
      (seen cs : List Text)
      → Distinct cs
      → ((a : Text) → elem a cs ≡ true → (has ts a ≡ true) × (elem a seen ≡ false))
      → Fresh ts seen cs
  unfolding elem
  Distinct-Fresh seen [] d k = tt
  Distinct-Fresh seen (c ∷ cs) d k =
      let (h, n) = k c (ground (arith, eq_refl c)) in
      (
        h,
        n,
        Distinct-Fresh (c ∷ seen) cs d.1
            λ a m. (ground (arith, k a), ground (arith, k a, eq_iff a c, d.0)),
      )

  -- The first loop passes exactly when no id is listed twice and every listed id is a task;
  -- otherwise it reports a violation.
  pub check_tasks_verdict :
      (Distinct (all_children ts)
        × ((a : Text) → elem a (all_children ts) ≡ true → has ts a ≡ true)
        × (check_tasks ts [] ts ≡ ok tt))
      ⊎ IsViolation (check_tasks ts [] ts)
  check_tasks_verdict = elim (check_tasks_cases [] ts) [
    | inr v ↦ inr v
    | inl (f, e) ↦
        let (d, k) = Fresh-Distinct [] (all_children ts) f in inl (d, λ a m. (k a m).0, e)
  ]

  pub check_tasks_complete :
      Distinct (all_children ts)
      → ((a : Text) → elem a (all_children ts) ≡ true → has ts a ≡ true)
      → check_tasks ts [] ts ≡ ok tt
  check_tasks_complete d k =
      check_tasks_pass [] ts
        (Distinct-Fresh [] (all_children ts) d (λ a m. (k a m, unfold elem in refl)))
