-- ===== src/Server/Store/Grow.antt =====
-- A forest with one more task under a fresh id, a root or a child, is a forest.
use seshat_tasks.Prelude.{
  ℕ, Text, ◌==◌, eq_iff, elem, put, true, false, ◌||◌, [], if◌then◌else◌, ◌≡◌, subst, arith,
  Distinct, keys, Bool-cases, inl, inr, ◌⊎◌,
}
use seshat_tasks.Task.{Task, Tasks, has, children, Edge}
use seshat_tasks.Server.Content.{insert_at}
use seshat_tasks.Server.Validate.Graph.{IsForest, Below, child, deeper, Below-first, has-parent}
use seshat_tasks.Server.Validate.Parents.{
  OneParent, single-OneParent, OneParent-single, sub-IsForest,
}
use seshat_tasks.Server.Store.Sound.{has-put}
use seshat_tasks.Server.Store.Lists.{elem-insert_at, insert_at-Distinct, task_at-put}

module _ (ts : Tasks) (id : Text) (t : Task) (d : Distinct (keys ts)) (f : IsForest ts)
    (fresh : has ts id ≡ false) (leaf : t.content.child_ids ≡ []) where
  no-Edge_to : (p : Text) → Edge ts p id → ⊥
  no-Edge_to p e = cc (fresh, f.known p id e)

  no-Edge_from : (c : Text) → Edge ts id c → ⊥
  no-Edge_from c e = cc (fresh, has-parent ts id c e)

  sub-root : (p c : Text) → Edge (put id t ts) p c → Edge ts p c
  unfolding elem
  sub-root p c e = ground (arith, task_at-put id p t ts)

  -- A new root.
  pub root-IsForest : Distinct (keys (put id t ts)) → IsForest (put id t ts)
  root-IsForest dc =
      sub-IsForest ts (put id t ts) d dc f sub-root once
        λ p c e. ground (arith, has-put id c t ts, f.known p c (sub-root p c e))
    where
      once : (p : Text) → Distinct (children (put id t ts) p)
      once p = elim (Bool-cases (p == id)) [
        | inl e ↦
            let k : children (put id t ts) p ≡ [] = ground (arith, task_at-put id p t ts) in rw k tt
        | inr n ↦
            let k : children (put id t ts) p ≡ children ts p =
              ground (arith, task_at-put id p t ts) in
            rw k ((single-OneParent ts d f.single).once p)
      ]

  -- A new child of `pid`, whose task becomes `p'`.
  module _ (pid : Text) (p' : Task) (i : ℕ) (known : has ts pid ≡ true)
      (grown : p'.content.child_ids ≡ insert_at (children ts pid) i id) where
    abbrev cand : Tasks
    cand = put pid p' (put id t ts)

    pid-ne-id : (id == pid) ≡ false
    pid-ne-id = ground (arith, eq_iff id pid)

    children-cand :
        (j : Text)
        → children cand j ≡ (
            if j == pid
            then insert_at (children ts pid) i id
            else if j == id
            then []
            else children ts j)
    children-cand j = ground (arith, task_at-put pid j p' (put id t ts), task_at-put id j t ts)

    has-cand : (j : Text) → has cand j ≡ (j == pid || (j == id || has ts j))
    has-cand j = ground (arith, has-put pid j p' (put id t ts), has-put id j t ts)

    Edge-cand : (p c : Text) → Edge cand p c → Edge ts p c ⊎ ((p ≡ pid) × (c ≡ id))
    unfolding elem
    Edge-cand p c e =
        ground (
          arith,
          children-cand p,
          elem-insert_at (children ts pid) i id c,
          eq_iff p pid,
          eq_iff c id,
        )

    Below-cand : {x y : Text} → Below cand x y → Below ts x y ⊎ (y ≡ id)
    Below-cand {x} (child {c = c} e) = elim (Edge-cand x c e) [
      | inl old ↦ inl (child old)
      | inr (_, new) ↦ inr new
    ]
    Below-cand (deeper {q = q} {c = c} b e) = elim (Edge-cand q c e) [
      | inr (_, new) ↦ inr new
      | inl old ↦ elim (Below-cand b) [
        | inl up ↦ inl (deeper up old)
        | inr same ↦ absurd (no-Edge_from c (subst (λ z. Edge ts z c) same old))
      ]
    ]

    pub child-IsForest : Distinct (keys cand) → IsForest cand
    child-IsForest dc = record {
      single = OneParent-single cand dc (record { once = once; unique = unique });
      known = λ p c e. elim (Edge-cand p c e) [
        | inl old ↦ ground (arith, has-cand c, f.known p c old)
        | inr (_, new) ↦ ground (arith, has-cand c, eq_iff c id)
      ];
      acyclic = λ x b. elim (Below-cand b) [
        | inl old ↦ f.acyclic x old
        | inr same ↦ let (q, e) = Below-first b in from_new x q same e
      ];
    }
      where
        olds : OneParent ts
        olds = single-OneParent ts d f.single

        from_new : (x q : Text) → x ≡ id → Edge cand x q → ⊥
        from_new x q same e = elim (Edge-cand x q e) [
          | inl old ↦ no-Edge_from q (subst (λ z. Edge ts z q) same old)
          | inr (here, _) ↦ ground (arith, eq_iff id pid, pid-ne-id)
        ]

        once : (p : Text) → Distinct (children cand p)
        once p = elim (Bool-cases (p == pid)) [
          | inl e ↦
              let k : children cand p ≡ insert_at (children ts pid) i id =
                ground (arith, children-cand p) in
              rw k (
                insert_at-Distinct (children ts pid) i id
                  (not_there (Bool-cases (elem id (children ts pid)))) (olds.once pid))
          | inr n ↦ elim (Bool-cases (p == id)) [
            | inl e ↦ let k : children cand p ≡ [] = ground (arith, children-cand p) in rw k tt
            | inr m ↦
                let k : children cand p ≡ children ts p = ground (arith, children-cand p) in
                rw k (olds.once p)
          ]
        ]
          where
            not_there :
                (elem id (children ts pid) ≡ true) ⊎ (elem id (children ts pid) ≡ false)
                → elem id (children ts pid) ≡ false
            not_there (inl y) = absurd (no-Edge_to pid y)
            not_there (inr n) = n

        unique : (p q c : Text) → Edge cand p c → Edge cand q c → p ≡ q
        unique p q c e g = elim (Edge-cand p c e) [
          | inl a ↦ elim (Edge-cand q c g) [
            | inl b ↦ olds.unique p q c a b
            | inr (_, new) ↦ absurd (no-Edge_to p (subst (λ z. Edge ts p z) new a))
          ]
          | inr (here, new) ↦ elim (Edge-cand q c g) [
            | inl b ↦ absurd (no-Edge_to q (subst (λ z. Edge ts q z) new b))
            | inr (there, _) ↦ cc
          ]
        ]
