-- ===== src/Server/Validate/Visit.antt =====
-- The depth-first search ends within its fuel: it colours what it reaches, or finds a cycle.
use seshat_tasks.Prelude.{
  ℕ, zero, suc, ◌+◌, ◌≤◌, ◌<◌, Text, lit, ◌==◌, eq_iff, eq_refl, elem, elem-cons, elem-one, put,
  true, false, List, [], ◌∷◌, keys, length, eqb, if◌then◌else◌, ◌≡◌, refl, subst, sym, ◌⊎◌, inl,
  inr, arith, Bool-cases, Distinct, pigeonhole,
}
use seshat_tasks.Task.{Tasks, has, children, Edge}
use seshat_tasks.Server.Error.{Result, ok, err, ◌>>=◌}
use seshat_tasks.Server.Validate.{
  Colors, broken, color_of, visit_child, visit_children, visit, visit_all,
}
use seshat_tasks.Server.Validate.Graph.{Below, child, deeper, has-keys}
use seshat_tasks.Server.Validate.Search.{
  color_of-put, Ordered, Sub, Colored, Outcome, finished, cyclic,
}

module _ (ts : Tasks) where
  -- The calls in progress, above the call for `id`.
  record Stack (gray : List Text) (id : Text) : Type 0 where
    distinct : Distinct gray
    tasks : (g : Text) → elem g gray ≡ true → has ts g ≡ true
    above : (g : Text) → elem g gray ≡ true → Below ts g id

  start-Colored :
      (gray done : List Text) (color : Colors) (id : Text)
      → Colored ts gray done color
      → elem id done ≡ false
      → Colored ts (id ∷ gray) done (put id 1 color)
  start-Colored gray done color id inv fresh = record {
    agrees = λ x. rw color_of-put (ground (arith, elem-cons x id gray, inv.agrees x));
    apart = λ x h. ground (arith, elem-cons x id gray, inv.apart x, eq_iff x id);
    ordered = inv.ordered;
  }

  finish-Colored :
      (gray done : List Text) (color : Colors) (id : Text)
      → Colored ts (id ∷ gray) done color
      → elem id gray ≡ false
      → Sub ts (children ts id) done
      → Colored ts gray (id ∷ done) (put id 2 color)
  finish-Colored gray done color id inv fresh all = record {
    agrees = λ x.
        rw color_of-put
          (ground (arith, elem-cons x id gray, elem-cons x id done, inv.agrees x, eq_iff x id));
    apart =
        λ x h. ground (arith, elem-cons x id gray, elem-cons x id done, inv.apart x, eq_iff x id);
    ordered = (ground (arith, inv.apart id, elem-cons id id gray, eq_refl id), all, inv.ordered);
  }

  -- A search for `c` and then one for `cs`.
  Outcome-cons :
      (gray done cs : List Text) (c : Text) (r : Result Colors) (k : Colors → Result Colors)
      → Outcome ts gray done (c ∷ []) r
      → ((color' : Colors) (done' : List Text)
          → Colored ts gray done' color'
          → Outcome ts gray done' cs (k color'))
      → Outcome ts gray done (c ∷ cs) (r >>= k)
  Outcome-cons gray done cs c r k (cyclic p q e edge b) go = cyclic p q (rw e) edge b
  Outcome-cons gray done cs c r k (finished color' done' e inv sub all) go =
      rw e (later (go color' done' inv))
    where
      later : Outcome ts gray done' cs (k color') → Outcome ts gray done (c ∷ cs) (k color')
      later (cyclic p q e2 edge b) = cyclic p q e2 edge b
      later (finished color2 done2 e2 inv2 sub2 all2) =
          finished color2 done2 e2 inv2 (λ a m. sub2 a (sub a m))
            λ a m. ground (arith, elem-cons a c cs, elem-cons a c [], all2 a, sub2 a, all a)

  module _ (rec : Text → Colors → Result Colors) (id : Text) (gray : List Text)
      (stack : (g : Text) → elem g (id ∷ gray) ≡ true → (g ≡ id) ⊎ Below ts g id)
      (spec : (c : Text) (done : List Text) (color : Colors)
        → Edge ts id c
        → Colored ts (id ∷ gray) done color
        → elem c (id ∷ gray) ≡ false
        → elem c done ≡ false
        → Outcome ts (id ∷ gray) done (c ∷ []) (rec c color)) where
    loop : (c : Text) → Edge ts id c → elem c (id ∷ gray) ≡ true → Below ts c c
    loop c e m = elim (stack c m) [
      | inl same ↦ subst (λ z. Below ts z c) (sym same) (child e)
      | inr b ↦ deeper b e
    ]

    visit_child_outcome :
        (c : Text) (done : List Text) (color : Colors)
        → Edge ts id c
        → Colored ts (id ∷ gray) done color
        → Outcome ts (id ∷ gray) done (c ∷ []) (visit_child rec id c color)
    unfolding visit_child
    visit_child_outcome c done color e inv = elim (Bool-cases (elem c (id ∷ gray))) [
      | inl g ↦ cyclic id c (ground (arith, inv.agrees c)) e (loop c e g)
      | inr n ↦ elim (Bool-cases (elem c done)) [
        | inl d ↦
            finished color done (ground (arith, inv.agrees c)) inv (λ a m. m)
              λ a m. ground (arith, elem-one a c, eq_iff a c)
        | inr d ↦
            let k : color_of color c ≡ 0 = ground (arith, inv.agrees c) in
            rw k (spec c done color e inv n d)
      ]
    ]

    visit_children_outcome :
        (cs done : List Text) (color : Colors)
        → ((c : Text) → elem c cs ≡ true → Edge ts id c)
        → Colored ts (id ∷ gray) done color
        → Outcome ts (id ∷ gray) done cs (visit_children rec id cs color)
    unfolding visit_children elem
    visit_children_outcome [] done color edges inv =
        finished color done refl inv (λ a m. m) (λ a m. absurd (ground arith))
    visit_children_outcome (c ∷ cs) done color edges inv =
        Outcome-cons (id ∷ gray) done cs c (visit_child rec id c color) (visit_children rec id cs)
          (visit_child_outcome c done color (edges c (ground (arith, eq_refl c))) inv)
          λ color' done' inv'.
            visit_children_outcome cs done' color' (λ a m. edges a (ground arith)) inv'

  Stack-cases :
      (gray : List Text) (id : Text)
      → Stack gray id
      → (g : Text) → elem g (id ∷ gray) ≡ true
      → (g ≡ id) ⊎ Below ts g id
  unfolding elem
  Stack-cases gray id st g m = elim (Bool-cases (g == id)) [
    | inl e ↦ inl ((eq_iff g id).0 e)
    | inr n ↦ inr (st.above g (ground arith))
  ]

  -- The stack of the call for a child `c` of `id`.
  push-Stack :
      (gray : List Text) (id c : Text)
      → Stack gray id
      → elem id gray ≡ false
      → has ts id ≡ true
      → Edge ts id c
      → Stack (id ∷ gray) c
  push-Stack gray id c st fresh known e = record {
    distinct = (fresh, st.distinct);
    tasks = λ g m. ground (arith, elem-cons g id gray, eq_iff g id, st.tasks g);
    above = λ g m. elim (Stack-cases gray id st g m) [
      | inl same ↦ subst (λ z. Below ts z c) (sym same) (child e)
      | inr b ↦ deeper b e
    ];
  }

  -- The distinct ids of the stack are tasks, so there are at most as many.
  Stack-bound : (gray : List Text) (id : Text) → Stack gray id → length gray ≤ length (keys ts)
  Stack-bound gray id st =
      pigeonhole gray (keys ts) st.distinct (λ a m. has-keys ts a (st.tasks a m))

  module _ (known : (p c : Text) → Edge ts p c → has ts c ≡ true) where
    visit_outcome :
        (fuel : ℕ) (id : Text) (gray done : List Text) (color : Colors)
        → Colored ts gray done color
        → Stack gray id
        → elem id gray ≡ false
        → elem id done ≡ false
        → has ts id ≡ true
        → length (keys ts) < fuel + length gray
        → Outcome ts gray done (id ∷ []) (visit fuel ts id color)
    unfolding visit
    visit_outcome zero id gray done color inv st n d h room =
        absurd (omega (arith, Stack-bound gray id st))
    visit_outcome (suc fuel) id gray done color inv st n d h room = close (
        visit_children_outcome (visit fuel ts) id gray (Stack-cases gray id st)
          (λ c done' color' e inv' nc dc.
            visit_outcome fuel c (id ∷ gray) done' color' inv' (push-Stack gray id c st n h e) nc dc
              (known id c e) (omega arith))
          (children ts id) done (put id 1 color) (λ c m. m)
          (start-Colored gray done color id inv d))
      where
        body : Result Colors
        body = visit_children (visit fuel ts) id (children ts id) (put id 1 color)

        close :
            Outcome ts (id ∷ gray) done (children ts id) body
            → Outcome ts gray done (id ∷ []) (body >>= λ color'. ok (put id 2 color'))
        close (cyclic p c e edge b) = cyclic p c (rw e) edge b
        close (finished color' done' e inv' sub all) =
            finished (put id 2 color') (id ∷ done') (rw e)
              (finish-Colored gray done' color' id inv' n all)
              (λ a m. ground (arith, elem-cons a id done', sub a))
              (λ a m. ground (arith, elem-cons a id done', elem-one a id))

  bottom-Stack : (id : Text) → Stack [] id
  unfolding elem
  bottom-Stack id = record {
    distinct = tt;
    tasks = λ g m. absurd (ground arith);
    above = λ g m. absurd (ground arith);
  }

  -- How the loop over all ids ends: they are all finished, or a cycle is reported.
  pub data Verdict (before ids : List Text) (r : Result (Unit {0})) : Type 0 where
    all_finished :
        (done : List Text)
        → r ≡ ok tt
        → Ordered ts done
        → Sub ts before done
        → Sub ts ids done
        → Verdict before ids r
    cycle_found :
        (p c : Text)
        → r ≡ err (broken (lit "cycle") (p ∷ c ∷ []))
        → Edge ts p c
        → Below ts c c
        → Verdict before ids r

  module _ (known : (p c : Text) → Edge ts p c → has ts c ≡ true) (fuel : ℕ)
      (room : length (keys ts) < fuel) where
    abbrev root : Text → Colors → Result Colors
    root id color = if eqb (color_of color id) 0 then visit fuel ts id color else ok color

    root_outcome :
        (id : Text) (done : List Text) (color : Colors)
        → has ts id ≡ true
        → Colored ts [] done color
        → Outcome ts [] done (id ∷ []) (root id color)
    unfolding elem
    root_outcome id done color h inv = elim (Bool-cases (elem id done)) [
      | inl d ↦
          finished color done (ground (arith, inv.agrees id)) inv (λ a m. m)
            λ a m. ground (arith, eq_iff a id)
      | inr d ↦
          let k : color_of color id ≡ 0 = ground (arith, inv.agrees id) in
          rw k
            (visit_outcome known fuel id [] done color inv (bottom-Stack id) refl d h (omega arith))
    ]

    Verdict-cons :
        (id : Text) (ids done : List Text) (r : Result Colors)
        → Outcome ts [] done (id ∷ []) r
        → ((color' : Colors) (done' : List Text)
            → Colored ts [] done' color'
            → Verdict done' ids (visit_all fuel ts ids color'))
        → Verdict done (id ∷ ids) (r >>= visit_all fuel ts ids)
    Verdict-cons id ids done r (cyclic p c e edge b) go = cycle_found p c (rw e) edge b
    Verdict-cons id ids done r (finished color' done' e inv sub all) go =
        rw e (later (go color' done' inv))
      where
        later :
            Verdict done' ids (visit_all fuel ts ids color')
            → Verdict done (id ∷ ids) (visit_all fuel ts ids color')
        later (cycle_found p c e2 edge b) = cycle_found p c e2 edge b
        later (all_finished done2 e2 o sub2 all2) =
            all_finished done2 e2 o (λ a m. sub2 a (sub a m))
              λ a m. ground (arith, elem-cons a id ids, elem-one a id, all a, sub2 a, all2 a)

    pub visit_all-Verdict :
        (ids done : List Text) (color : Colors)
        → ((id : Text) → elem id ids ≡ true → has ts id ≡ true)
        → Colored ts [] done color
        → Verdict done ids (visit_all fuel ts ids color)
    unfolding visit_all elem
    visit_all-Verdict [] done color tasks inv =
        all_finished done refl inv.ordered (λ a m. m) (λ a m. absurd (ground arith))
    visit_all-Verdict (id ∷ ids) done color tasks inv =
        Verdict-cons id ids done (root id color)
          (root_outcome id done color (tasks id (ground (arith, eq_refl id))) inv)
          λ color' done' inv'.
            visit_all-Verdict ids done' color' (λ a m. tasks a (ground arith)) inv'
