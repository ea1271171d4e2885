-- ===== src/Bot/View/Steady.antt =====
-- The listing of client/bot/view.go does not depend on the order in which the server sends the tasks.
use mathlib.Core.List.{Perm, Permᴰ}
use mathlib.Core.Logic.{∥∥₁_elim}
use seshat_tasks.Prelude.{
  suc, ◌+◌, Text, Map, ◌==◌, eq_iff, elem, get, put, get-put, keys, length, elem-keys-put, Bool,
  true, false, not, ◌&&◌, ◌||◌, Distinct, Option, none, some, List, [], ◌∷◌, if◌then◌else◌, ◌≡◌,
  refl, ap, ◌∙◌, arith,
}
use seshat_tasks.Prelude.Int.{ℤ}
use seshat_tasks.Task.{Task}
use seshat_tasks.Bot.View.{
  Index, index_by_id, index_parent, index_parents, build_index, get_task, is_root, insert_sorted,
  sort_stable, rank_roots, Group, has_open, select_roots, groups_of, list_groups,
}
use seshat_tasks.Bot.View.Rank.{ids, before, insert-insert, Distinct-perm}
use seshat_tasks.Bot.View.Agree.{Agree, list_groups-same}

-- The first task with an id.
find : Text → List Task → Option Task
find j [] = none
find j (t ∷ ts) = if j == t.id then some t else find j ts

find-absent : (j : Text) (ts : List Task) → elem j (ids ts) ≡ false → find j ts ≡ none
unfolding find elem
find-absent j [] h = refl
find-absent j (t ∷ ts) h = ground (arith, find-absent j ts)

get-index_by_id :
    (j : Text) (ts : List Task) (m : Map Task)
    → Distinct (ids ts)
    → get j (index_by_id ts m) ≡ elim (find j ts) [ none ↦ get j m | some t ↦ some t ]
unfolding index_by_id find
get-index_by_id j [] m d = refl
get-index_by_id j (t ∷ ts) m d = ground (
  arith,
  get-index_by_id j ts (put t.id t m) d.1,
  get-put t.id j t m,
  find-absent j ts,
  eq_iff j t.id,
  d.0,
)

-- Whether a task lists an id as its child.
listed : Text → List Task → Bool
listed j [] = false
listed j (t ∷ ts) = elem j t.content.child_ids || listed j ts

absent : {V : Type 0} → Option V → Bool
absent none = true
absent (some v) = false

absent-index_parent :
    (j id : Text) (cs : List Text) (m : Map Text)
    → absent (get j (index_parent id cs m)) ≡ (not (elem j cs) && absent (get j m))
unfolding index_parent elem absent
absent-index_parent j id [] m = ground arith
absent-index_parent j id (c ∷ cs) m =
    ground (arith, absent-index_parent j id cs (put c id m), get-put c j id m)

absent-index_parents :
    (j : Text) (ts : List Task) (m : Map Text)
    → absent (get j (index_parents ts m)) ≡ (not (listed j ts) && absent (get j m))
unfolding index_parents listed
absent-index_parents j [] m = ground arith
absent-index_parents j (t ∷ ts) m = ground (
  arith,
  absent-index_parents j ts (index_parent t.id t.content.child_ids m),
  absent-index_parent j t.id t.content.child_ids m,
)

is_root-listed : (ts : List Task) (j : Text) → is_root (build_index ts) j ≡ not (listed j ts)
unfolding is_root build_index absent get
is_root-listed ts j = ground (arith, absent-index_parents j ts [])

length-keys-put :
    (k : Text) (t : Task) (m : Map Task)
    → elem k (keys m) ≡ false
    → length (keys (put k t m)) ≡ suc (length (keys m))
unfolding put elem
length-keys-put k t [] h = refl
length-keys-put k t ((j, u) ∷ m) h = ground (arith, length-keys-put k t m)

abbrev NoneOf : List Task → Map Task → Type 0
NoneOf [] m = Unit {0}
NoneOf (t ∷ ts) m = (elem t.id (keys m) ≡ false) × NoneOf ts m

NoneOf-put :
    (k : Text) (u : Task) (ts : List Task) (m : Map Task)
    → elem k (ids ts) ≡ false
    → NoneOf ts m
    → NoneOf ts (put k u m)
unfolding elem
NoneOf-put k u [] m h p = tt
NoneOf-put k u (t ∷ ts) m h (p, ps) = (
  ground (arith, elem-keys-put k t.id u m, p, h, eq_iff k t.id, eq_iff t.id k),
  NoneOf-put k u ts m (ground arith) ps,
)

NoneOf-nil : (ts : List Task) → NoneOf ts []
unfolding elem
NoneOf-nil [] = tt
NoneOf-nil (t ∷ ts) = (refl, NoneOf-nil ts)

length-index_by_id :
    (ts : List Task) (m : Map Task)
    → Distinct (ids ts)
    → NoneOf ts m
    → length (keys (index_by_id ts m)) ≡ length ts + length (keys m)
unfolding index_by_id
length-index_by_id [] m d p = omega arith
length-index_by_id (t ∷ ts) m d p = omega (
  arith,
  length-index_by_id ts (put t.id t m) d.1 (NoneOf-put t.id t ts m d.0 p.1),
  length-keys-put t.id t m p.0,
)

find-perm : (j : Text) {xs ys : List Task} → Permᴰ xs ys → Distinct (ids xs) → find j xs ≡ find j ys
unfolding find elem
find-perm j Permᴰ.nil d = refl
find-perm j (Permᴰ.cons e p) d = ground (arith, e, find-perm j p d.1)
find-perm j (Permᴰ.swap {a = a} {b = b} e f) d =
    ground (arith, e, f, d.0, eq_iff j a.id, eq_iff j b.id, eq_iff a.id b.id, eq_iff b.id a.id)
find-perm j (Permᴰ.trans p q) d = find-perm j p d ∙ find-perm j q (Distinct-perm p d)

listed-perm : (j : Text) {xs ys : List Task} → Permᴰ xs ys → listed j xs ≡ listed j ys
unfolding listed
listed-perm j Permᴰ.nil = refl
listed-perm j (Permᴰ.cons e p) = ground (arith, e, listed-perm j p)
listed-perm j (Permᴰ.swap e f) = ground (arith, e, f)
listed-perm j (Permᴰ.trans p q) = listed-perm j p ∙ listed-perm j q

length-perm : {xs ys : List Task} → Permᴰ xs ys → length xs ≡ length ys
length-perm Permᴰ.nil = refl
length-perm (Permᴰ.cons e p) = ap suc (length-perm p)
length-perm (Permᴰ.swap e f) = refl
length-perm (Permᴰ.trans p q) = length-perm p ∙ length-perm q

build_index-Agree :
    {xs ys : List Task} → Permᴰ xs ys → Distinct (ids xs) → Agree (build_index xs) (build_index ys)
unfolding build_index get_task
build_index-Agree {xs} {ys} p d = record {
  gets = λ id. ground (
    arith,
    get-index_by_id id xs [] d,
    get-index_by_id id ys [] (Distinct-perm p d),
    find-perm id p d,
  );
  roots = λ id. ground (arith, is_root-listed xs id, is_root-listed ys id, listed-perm id p);
  size = omega (
    arith,
    length-index_by_id xs [] d (NoneOf-nil xs),
    length-index_by_id ys [] (Distinct-perm p d) (NoneOf-nil ys),
    length-perm p,
  );
}

-- The part of a task in the ranking of those selected before it.
ranked : Index → ℤ → Task → List Task → List Task
ranked ix now t l =
    if not (is_root ix t.id)
    then l
    else if has_open t ix
    then insert_sorted (before ix now) t l
    else l

module _ (ix : Index) (now : ℤ) where
  abbrev listing : List Task → List Task
  listing ts = sort_stable (before ix now) (select_roots ix ts)

  listing-ranked : (t : Task) (ts : List Task) → listing (t ∷ ts) ≡ ranked ix now t (listing ts)
  unfolding select_roots sort_stable ranked
  listing-ranked t ts = ground arith

  ranked-ranked :
      (a b : Task) (l : List Task)
      → (a.id == b.id) ≡ false
      → ranked ix now a (ranked ix now b l) ≡ ranked ix now b (ranked ix now a l)
  unfolding ranked
  ranked-ranked a b l other = ground (arith, insert-insert ix now a b l other)

  listing-perm : {xs ys : List Task} → Permᴰ xs ys → Distinct (ids xs) → listing xs ≡ listing ys
  unfolding elem
  listing-perm Permᴰ.nil d = refl
  listing-perm (Permᴰ.cons {a = a} {b = b} {l₁ = xs} {l₂ = ys} e p) d =
      cc (listing-ranked a xs, listing-ranked b ys, e, listing-perm p d.1)
  listing-perm (Permᴰ.swap {a = a} {b = b} {a' = c} {b' = g} {l = l} e f) d =
      let same = ranked-ranked a b (listing l) (ground (arith, d.0)) in
      cc (
        listing-ranked a (b ∷ l),
        listing-ranked b l,
        listing-ranked c (g ∷ l),
        listing-ranked g l,
        same,
        e,
        f,
      )
  listing-perm (Permᴰ.trans p q) d = listing-perm p d ∙ listing-perm q (Distinct-perm p d)

List-Group-set : IsSet (List Group)
List-Group-set = hlevel

-- A listing does not move between two renderings at one time: of the same tasks with distinct ids,
-- whatever the two orders in which the server sends them, the indexes that the bot builds, its choice
-- of roots, their ranking and their groups come to the same list, of which the pages are made.
pub list_groups-perm :
    (now : ℤ) (xs ys : List Task)
    → Perm xs ys
    → Distinct (ids xs)
    → list_groups xs (build_index xs) now ≡ list_groups ys (build_index ys) now
unfolding list_groups rank_roots
list_groups-perm now xs ys p d = ∥∥₁_elim p (List-Group-set _ _) λ q.
    ap (groups_of (build_index xs)) (listing-perm (build_index xs) now q d)
    ∙ list_groups-same (build_index-Agree q d) ys now
