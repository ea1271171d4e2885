-- ===== src/Bot/View/Walks.antt =====
-- The three walks visit the same tasks: `expand` lists them, the maximum is over its rows, and the
-- search for an open task finds one exactly if a row has one. Their fuel is enough.
use Prim.Native.Nat.{max}
use seshat_tasks.Prelude.{
  ℕ, zero, suc, ◌+◌, ◌≤◌, ◌<◌, Text, eq_iff, elem, elem-cons, get, keys, length, ltb, Bool, true,
  false, none, some, List, [], ◌∷◌, ◌++◌, if◌then◌else◌, ◌≡◌, refl, ap, ◌∙◌, arith, Distinct,
  pigeonhole, Bool-cases, Option-cases, inl, inr, elem-keys-get,
}
use native.Mathlib.Nat.{le_trans}
use mathlib.Core.List.{append_assoc, append-nil}
use seshat_tasks.Prelude.Int.{ℤ}
use seshat_tasks.Task.{Task}
use seshat_tasks.Bot.View.{
  Index, get_task, urgency, Walked, walk_children, walk, Row, Group, is_open, any_child_open,
  subtree_has_open, expand_children, expand,
}
use seshat_tasks.Bot.View.Rows.{max_urgency, any_open, max_urgency-append, any_open-append}

-- The index holds every task under its own id.
abbrev pub IsNamed : Index → Type 0
IsNamed ix = (k : Text) (t : Task) → get k ix.by_id ≡ some t → t.id ≡ k

module _ (ix : Index) (now : ℤ) (root : Text) where
  abbrev universe : List Text
  universe = root ∷ keys ix.by_id

  pub record IsRoom (seen : List Text) : Type 0 where
    pub distinct : Distinct seen
    pub within : (a : Text) → elem a seen ≡ true → elem a universe ≡ true

  -- What the three walks give from `seen` on: the same rows, and their summary.
  pub record Visits (seen : List Text) (out : Group) (best : ℕ) (e : Walked Group) (w : Walked ℕ)
      (h : Walked Bool) : Type 0 where
    pub seen' : List Text
    pub rows : Group
    pub expanded : e ≡ some (seen', out ++ rows)
    pub walked : w ≡ some (seen', max best (max_urgency rows now))
    pub closed : any_open rows ≡ false → h ≡ some (seen', false)
    pub opened : any_open rows ≡ true → (s : List Text) × (h ≡ some (s, true))
    pub room : IsRoom seen'
    pub longer : length seen ≤ length seen'

  module _ (e : Task → List Text → Group → Walked Group) (w : Task → List Text → Walked ℕ)
      (h : Task → List Text → Walked Bool) (least : ℕ)
      (spec : (c : Task) (seen : List Text) (out : Group)
        → elem c.id universe ≡ true
        → IsRoom seen
        → least ≤ length seen
        → Visits seen out 0 (e c seen out) (w c seen) (h c seen))
      (named : IsNamed ix) where
    -- One child and then the rest.
    after_child :
        (c : Task) (cids seen : List Text) (out : Group) (best : ℕ)
        (v : Visits seen out 0 (e c seen out) (w c seen) (h c seen))
        → Visits v.seen'
            (out ++ v.rows)
            (let u = max 0 (max_urgency v.rows now) in if ltb best u then u else best)
            (expand_children e ix cids v.seen' (out ++ v.rows))
            (walk_children w ix cids v.seen'
              (let u = max 0 (max_urgency v.rows now) in if ltb best u then u else best))
            (any_child_open h ix cids v.seen')
        → Visits seen out best
            (elim (e c seen out) [
              | none ↦ none
              | some (seen', out') ↦ expand_children e ix cids seen' out'
            ])
            (elim (w c seen) [
              | none ↦ none
              | some (seen', u) ↦ walk_children w ix cids seen' (if ltb best u then u else best)
            ])
            (elim (h c seen) [
              | none ↦ none
              | some (seen', open_below) ↦
                  if open_below then some (seen', true) else any_child_open h ix cids seen'
            ])
    after_child c cids seen out best v ih = record {
      seen' = ih.seen';
      rows = v.rows ++ ih.rows;
      expanded =
          rw v.expanded (
            ih.expanded ∙ ap (λ (z : Group). some (ih.seen', z)) (append_assoc out v.rows ih.rows));
      walked = rw v.walked (
          ih.walked
          ∙ ap (λ (n : ℕ). some (ih.seen', n))
              (best_of (max_urgency v.rows now) (max_urgency ih.rows now)
                (max_urgency (v.rows ++ ih.rows) now) (max_urgency-append v.rows ih.rows now)));
      closed = λ p.
          rw (v.closed (ground (arith, any_open-append v.rows ih.rows)))
            (ih.closed (ground (arith, any_open-append v.rows ih.rows)));
      opened = λ p. elim (Bool-cases (any_open v.rows)) [
        | inl yes_here ↦ let (s, q) = v.opened yes_here in (s, rw q)
        | inr not_here ↦
            rw (v.closed not_here) (ih.opened (ground (arith, any_open-append v.rows ih.rows)))
      ];
      room = ih.room;
      longer = omega (arith, v.longer, ih.longer);
    }
      where
        best_of :
            (a b c : ℕ)
            → c ≡ max a b
            → max (if ltb best (max 0 a) then max 0 a else best) b ≡ max best c
        best_of a b c q = ground arith

    children-Visits :
        (cids seen : List Text) (out : Group) (best : ℕ)
        → IsRoom seen
        → least ≤ length seen
        → Visits seen out best
            (expand_children e ix cids seen out)
            (walk_children w ix cids seen best)
            (any_child_open h ix cids seen)
    unfolding expand_children walk_children any_child_open get_task max_urgency any_open
    children-Visits [] seen out best room long = record {
      seen' = seen;
      rows = [];
      expanded = rw append-nil;
      walked = ground arith;
      closed = λ _. refl;
      opened = λ p. absurd (ground arith);
      room = room;
      longer = omega arith;
    }
    children-Visits (cid ∷ cids) seen out best room long = elim (Option-cases (get cid ix.by_id)) [
      | inl gone ↦
          rw (gone, expand_children, walk_children, any_child_open)
            (children-Visits cids seen out best room long)
      | inr (c, there) ↦
          let known : elem c.id universe ≡ true = ground (
            arith,
            elem-cons c.id root (keys ix.by_id),
            elem-keys-get cid c ix.by_id there,
            named cid c there,
          ) in
          let v = spec c seen out known room long in
          rw (there, expand_children, walk_children, any_child_open)
            (after_child c cids seen out best v (
              children-Visits cids v.seen' (out ++ v.rows)
                (let u = max 0 (max_urgency v.rows now) in if ltb best u then u else best) v.room
                (le_trans long v.longer)))
    ]

  start-IsRoom :
      (seen : List Text) (id : Text)
      → IsRoom seen
      → elem id universe ≡ true
      → elem id seen ≡ false
      → IsRoom (id ∷ seen)
  start-IsRoom seen id room m new = record {
    distinct = (new, room.distinct);
    within = λ a p. ground (arith, elem-cons a id seen, room.within a, eq_iff a id);
  }

  -- A task that is not visited yet: its own row, and then those of its children.
  with_row :
      (t : Task) (depth : ℕ) (seen : List Text) (out : Group) {e : Walked Group} {w : Walked ℕ}
      {h : Walked Bool}
      → Visits
          (t.id ∷ seen)
          (out ++ (record { task = t; depth = depth; parent_title = [] } ∷ []))
          (urgency t now)
          e
          w
          h
      → Visits seen out 0 e w (if is_open t then some (t.id ∷ seen, true) else h)
  unfolding max_urgency any_open
  with_row t depth seen out v = record {
    seen' = v.seen';
    rows = row ∷ v.rows;
    expanded =
        v.expanded ∙ ap (λ (z : Group). some (v.seen', z)) (append_assoc out (row ∷ []) v.rows);
    walked = v.walked ∙ ground arith;
    closed = λ p. let n : is_open t ≡ false = ground arith in rw n (v.closed (ground arith));
    opened = λ p. elim (Bool-cases (is_open t)) [
      | inl y ↦ (t.id ∷ seen, rw y)
      | inr n ↦ rw n (v.opened (ground arith))
    ];
    room = v.room;
    longer = omega (arith, v.longer);
  }
    where
      row : Row
      row = record { task = t; depth = depth; parent_title = [] }

  -- Every task walked is in the index or is the root, so the visited ids leave fuel for the rest.
  pub task-Visits :
      (fuel depth : ℕ) (t : Task) (seen : List Text) (out : Group)
      → IsNamed ix
      → elem t.id universe ≡ true
      → IsRoom seen
      → length universe < fuel + length seen
      → Visits seen out 0
          (expand fuel ix depth t seen out)
          (walk fuel ix now t seen)
          (subtree_has_open fuel ix t seen)
  unfolding expand walk subtree_has_open max_urgency any_open
  task-Visits zero depth t seen out named m room enough =
      absurd (omega (arith, pigeonhole seen universe room.distinct room.within))
  task-Visits (suc fuel) depth t seen out named m room enough = elim (Bool-cases (elem t.id seen)) [
    | inl old ↦ rw old (record {
      seen' = seen;
      rows = [];
      expanded = rw append-nil;
      walked = refl;
      closed = λ _. refl;
      opened = λ p. absurd (ground arith);
      room = room;
      longer = omega arith;
    })
    | inr new ↦ rw new (
        with_row t depth seen out (
          children-Visits (expand fuel ix (depth + 1)) (walk fuel ix now) (subtree_has_open fuel ix)
            (suc (length seen))
            (λ c seen' out' known room' long.
              task-Visits fuel (depth + 1) c seen' out' named known room' (omega arith))
            named t.content.child_ids (t.id ∷ seen) (out ++ (row ∷ [])) (urgency t now)
            (start-IsRoom seen t.id room m new) (omega arith)))
  ]
    where
      row : Row
      row = record { task = t; depth = depth; parent_title = [] }
