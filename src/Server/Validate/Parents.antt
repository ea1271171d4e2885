-- ===== src/Server/Validate/Parents.antt =====
-- The forest by its edges: every task has at most one parent, which lists it once.
use seshat_tasks.Prelude.{
  Text, ◌==◌, eq_iff, eq_refl, elem, elem-append, elem-keys-get, true, false, List, [], ◌∷◌, ◌++◌,
  keys, ◌≡◌, arith, Bool-cases, Option-cases, inl, inr, Distinct, get, if◌then◌else◌, subst, ◌∙◌,
}
use seshat_tasks.Task.{Task, Tasks, task_at, has, children, Edge}
use seshat_tasks.Server.Validate.Graph.{
  all_children, IsForest, Below, child, deeper, has-parent, has-keys,
}
use seshat_tasks.Server.Validate.Forest.{Edge-all_children, all_children-Edge, task_at-cons}

-- Of two lists with distinct entries together, the first shares none with the second.
pub Distinct-apart :
    (xs ys : List Text) (a : Text) → Distinct (xs ++ ys) → elem a xs ≡ true → elem a ys ≡ false
unfolding elem
Distinct-apart [] ys a d m = ground arith
Distinct-apart (x ∷ xs) ys a d m = elim (Bool-cases (a == x)) [
  | inl e ↦ ground (arith, d.0, eq_iff a x, elem-append x xs ys)
  | inr n ↦ Distinct-apart xs ys a d.1 (ground arith)
]

pub Distinct-left : (xs ys : List Text) → Distinct (xs ++ ys) → Distinct xs
Distinct-left [] ys d = tt
Distinct-left (x ∷ xs) ys d = (ground (arith, d.0, elem-append x xs ys), Distinct-left xs ys d.1)

pub Distinct-right : (xs ys : List Text) → Distinct (xs ++ ys) → Distinct ys
Distinct-right [] ys d = d
Distinct-right (x ∷ xs) ys d = Distinct-right xs ys d.1

Distinct-append :
    (xs ys : List Text)
    → Distinct xs
    → Distinct ys
    → ((a : Text) → elem a xs ≡ true → elem a ys ≡ false)
    → Distinct (xs ++ ys)
unfolding elem
Distinct-append [] ys dx dy apart = dy
Distinct-append (x ∷ xs) ys dx dy apart = (
  ground (arith, dx.0, elem-append x xs ys, apart x, eq_refl x),
  Distinct-append xs ys dx.1 dy (λ a m. apart a (ground arith)),
)

-- One child list holds no id twice, and two lists share none.
pub record OneParent (ts : Tasks) : Type 0 where
  pub once : (p : Text) → Distinct (children ts p)
  pub unique : (p q c : Text) → Edge ts p c → Edge ts q c → p ≡ q

children-cons :
    (k p : Text) (t : Task) (ts : Tasks)
    → children ((k, t) ∷ ts) p ≡ (if p == k then t.content.child_ids else children ts p)
children-cons k p t ts = ground (arith, task_at-cons k p t ts)

absent-children : (p : Text) (ts : Tasks) → elem p (keys ts) ≡ false → children ts p ≡ []
unfolding task_at
absent-children p ts m = elim (Option-cases (get p ts)) [
  | inl e ↦ ground arith
  | inr (t, e) ↦ absurd (cc (m, elem-keys-get p t ts e))
]

not-key :
    (k : Text) (ts : Tasks) (p c : Text) → elem k (keys ts) ≡ false → Edge ts p c → (p == k) ≡ false
not-key k ts p c d e = ground (arith, eq_iff p k, has-keys ts p (has-parent ts p c e))

pub single-OneParent : (ts : Tasks) → Distinct (keys ts) → Distinct (all_children ts) → OneParent ts
single-OneParent [] d s = record {
  once = λ p. unfold task_at get in tt;
  unique = λ p q c e f. absurd (unfold task_at get elem in ground arith);
}
single-OneParent ((k, t) ∷ ts) d s =
    let ih = single-OneParent ts d.1 (Distinct-right t.content.child_ids (all_children ts) s) in
    record {
      once = λ p. elim (Bool-cases (p == k)) [
        | inl e ↦ rw (children-cons, e) (Distinct-left t.content.child_ids (all_children ts) s)
        | inr n ↦ rw (children-cons, n) (ih.once p)
      ];
      unique = λ p q c e f. elim (Bool-cases (p == k)) [
        | inl a ↦ elim (Bool-cases (q == k)) [
          | inl b ↦ ground (arith, eq_iff p k, eq_iff q k)
          | inr b ↦ absurd (
              clash c q (ground (arith, task_at-cons k p t ts))
                (ground (arith, task_at-cons k q t ts)))
        ]
        | inr a ↦ elim (Bool-cases (q == k)) [
          | inl b ↦ absurd (
              clash c p (ground (arith, task_at-cons k q t ts))
                (ground (arith, task_at-cons k p t ts)))
          | inr b ↦
              ih.unique p q c (ground (arith, task_at-cons k p t ts))
                (ground (arith, task_at-cons k q t ts))
        ]
      ];
    }
  where
    clash : (c q : Text) → elem c t.content.child_ids ≡ true → Edge ts q c → ⊥
    clash c q here there = cc (
      Distinct-apart t.content.child_ids (all_children ts) c s here,
      Edge-all_children ts q c there,
    )

pub OneParent-single : (ts : Tasks) → Distinct (keys ts) → OneParent ts → Distinct (all_children ts)
OneParent-single [] d o = tt
OneParent-single ((k, t) ∷ ts) d o =
    Distinct-append t.content.child_ids (all_children ts) first
      (OneParent-single ts d.1
        (record { once = once; unique = λ p q c e f. o.unique p q c (up p c e) (up q c f) }))
      (λ a m. apart a m)
  where
    first : Distinct t.content.child_ids
    first = subst Distinct (children-cons k k t ts ∙ rw eq_refl) (o.once k)

    up : (p c : Text) → Edge ts p c → Edge ((k, t) ∷ ts) p c
    up p c e = ground (arith, task_at-cons k p t ts, not-key k ts p c d.0 e)

    top : (c : Text) → elem c t.content.child_ids ≡ true → Edge ((k, t) ∷ ts) k c
    top c m = ground (arith, task_at-cons k k t ts, eq_refl k)

    once : (p : Text) → Distinct (children ts p)
    once p = elim (Bool-cases (p == k)) [
      | inl e ↦ rw (absent-children p ts (ground (arith, eq_iff p k, d.0))) tt
      | inr n ↦ subst Distinct (children-cons k p t ts ∙ rw n) (o.once p)
    ]

    apart : (a : Text) → elem a t.content.child_ids ≡ true → elem a (all_children ts) ≡ false
    apart a m = elim (Bool-cases (elem a (all_children ts))) [
      | inr n ↦ n
      | inl y ↦
          let (q, e) = all_children-Edge ts a d.1 y in
          absurd (cc (not-key k ts q a d.0 e, (eq_iff q k).1 (o.unique q k a (up q a e) (top a m))))
    ]

-- A state whose edges all were edges of a forest.
pub sub-IsForest :
    (ts cand : Tasks)
    → Distinct (keys ts)
    → Distinct (keys cand)
    → IsForest ts
    → ((p c : Text) → Edge cand p c → Edge ts p c)
    → ((p : Text) → Distinct (children cand p))
    → ((p c : Text) → Edge cand p c → has cand c ≡ true)
    → IsForest cand
sub-IsForest ts cand d dc f sub once known = record {
  single = OneParent-single cand dc (record {
    once = once;
    unique = λ p q c e g. (single-OneParent ts d f.single).unique p q c (sub p c e) (sub q c g);
  });
  known = known;
  acyclic = λ x b. f.acyclic x (sub-Below b);
}
  where
    sub-Below : {x y : Text} → Below cand x y → Below ts x y
    sub-Below (child e) = child (sub _ _ e)
    sub-Below (deeper b e) = deeper (sub-Below b) (sub _ _ e)
