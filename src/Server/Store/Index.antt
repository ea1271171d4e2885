-- ===== src/Server/Store/Index.antt =====
-- The parent index that `rebuildIndex` computes.
use seshat_tasks.Prelude.{
  Text, Map, ◌==◌, eq_iff, eq_refl, elem, elem-append, get, put, get-put, true, false, none, some,
  List, [], ◌∷◌, if◌then◌else◌, ◌≡◌, refl, ◌↔◌, inl, inr, arith, Bool-cases, Distinct, keys,
  elem-keys-get, ◌∙◌, subst,
}
use seshat_tasks.Task.{Task, Tasks, task_at, Edge}
use seshat_tasks.Server.Validate.Graph.{all_children}
use seshat_tasks.Server.Validate.Forest.{all_children-Edge, task_at-cons}
use seshat_tasks.Server.Validate.Parents.{Distinct-apart, Distinct-right}
use seshat_tasks.Server.Store.{index_children, index_tasks, rebuild_index}

-- Every task stands under its own id.
abbrev pub Named : Tasks → Type 0
Named ts = (k : Text) (t : Task) → get k ts ≡ some t → t.id ≡ k

get-index_children :
    (id c : Text) (cs : List Text) (idx : Map Text)
    → get c (index_children id cs idx) ≡ (if elem c cs then some id else get c idx)
unfolding index_children elem
get-index_children id c [] idx = refl
get-index_children id c (x ∷ cs) idx =
    ground (arith, get-index_children id c cs (put x id idx), get-put x c id idx)

index_tasks_other :
    (c : Text) (ts : Tasks) (idx : Map Text)
    → elem c (all_children ts) ≡ false
    → get c (index_tasks ts idx) ≡ get c idx
unfolding index_tasks
index_tasks_other c [] idx h = refl
index_tasks_other c ((k, t) ∷ ts) idx h =
    index_tasks_other c ts (index_children t.id t.content.child_ids idx)
      (ground (arith, elem-append c t.content.child_ids (all_children ts)))
    ∙ ground (
      arith,
      get-index_children t.id c t.content.child_ids idx,
      elem-append c t.content.child_ids (all_children ts),
    )

-- The entries of a map with distinct keys.
pub Named-tail :
    (k : Text) (t : Task) (ts : Tasks)
    → Distinct (keys ((k, t) ∷ ts))
    → Named ((k, t) ∷ ts)
    → (t.id ≡ k) × Named ts
Named-tail k t ts d n =
    (n k t (unfold get in rw eq_refl), λ j u e. n j u (unfold get in (rw (other j u e) e)))
  where
    other : (j : Text) (u : Task) → get j ts ≡ some u → (j == k) ≡ false
    other j u e = ground (arith, eq_iff j k, d.0, elem-keys-get j u ts e)

index_tasks-Edge :
    (ts : Tasks) (idx : Map Text) (p c : Text)
    → Distinct (keys ts)
    → Named ts
    → Distinct (all_children ts)
    → Edge ts p c
    → get c (index_tasks ts idx) ≡ some p
unfolding index_tasks
index_tasks-Edge [] idx p c d n s e = absurd (unfold task_at get elem in ground arith)
index_tasks-Edge ((k, t) ∷ ts) idx p c d n s e =
    let (named, rest) = Named-tail k t ts d n in
    elim (Bool-cases (p == k)) [
      | inl same ↦
          let here : elem c t.content.child_ids ≡ true = ground (arith, task_at-cons k p t ts) in
          index_tasks_other c ts (index_children t.id t.content.child_ids idx)
            (Distinct-apart t.content.child_ids (all_children ts) c s here)
          ∙ ground (arith, get-index_children t.id c t.content.child_ids idx, eq_iff p k)
      | inr other ↦
          index_tasks-Edge ts (index_children t.id t.content.child_ids idx) p c d.1 rest
            (Distinct-right t.content.child_ids (all_children ts) s)
            (ground (arith, task_at-cons k p t ts))
    ]

-- Over tasks with distinct keys, each under its own id, with no id listed twice among all child
-- lists: the index names a parent for a child exactly if that task lists the child.
pub rebuild_index-Edge :
    (ts : Tasks) (c p : Text)
    → Distinct (keys ts)
    → Named ts
    → Distinct (all_children ts)
    → (get c (rebuild_index ts) ≡ some p) ↔ Edge ts p c
unfolding rebuild_index
rebuild_index-Edge ts c p d n s = (to_edge, index_tasks-Edge ts [] p c d n s)
  where
    to_edge : get c (index_tasks ts []) ≡ some p → Edge ts p c
    to_edge h = elim (Bool-cases (elem c (all_children ts))) [
      | inl m ↦ let (q, e) = all_children-Edge ts c d m in subst (λ z. Edge ts z c) (unique q e) e
      | inr m ↦ absurd (nothing m)
    ]
      where
        unique : (q : Text) → Edge ts q c → q ≡ p
        unique q e = cc (h, index_tasks-Edge ts [] q c d n s e)

        nothing : elem c (all_children ts) ≡ false → ⊥
        nothing m = cc (h, index_tasks_other c ts [] m, nil c)
          where
            nil : (c : Text) → get {V = Text} c [] ≡ none
            nil c = unfold get in refl
