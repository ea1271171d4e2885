-- ===== src/Bot/Tests.antt =====
-- The theorems of the bot at small trees, groups, times and offsets.
use seshat_tasks.Prelude.{
  ℕ, Text, lit, utf8, ◌==◌, elem, get, put, length, Distinct, none, some, List, [], ◌∷◌, ◌≡◌, ◌≢◌,
  refl, arith, ◌<◌, ◌≤◌, ◌+◌, ◌*◌, ◌-◌, less, get_elem?, take, ◌++◌,
}
use mathlib.Core.List.Perm
use mathlib.Core.List.{flatten}
use seshat_tasks.Prelude.Int.{ℤ, pos, negsuc, sub64, ◌+ℤ◌, ◌≤ℤ◌}
use seshat_tasks.Task.{Task, status_todo, priority_high, terminal}
use seshat_tasks.Bot.View.{
  list_groups, Index, index_by_id, index_parent, index_parents, build_index, get_task,
  priority_weight, due_factor, age_factor, urgency, walk_children, walk, expand, enough_fuel,
  subtree_max_urgency, less_roots, Row, Group, group_of, has_open, day,
}
use seshat_tasks.Bot.View.Rows.{max_urgency, any_open}
use seshat_tasks.Bot.View.Scores.{
  build_index-IsNamed, subtree_max_urgency-group_of, has_open-group_of,
}
use seshat_tasks.Bot.View.Rank.{ids}
use seshat_tasks.Bot.View.Steady.{list_groups-perm}
use seshat_tasks.Bot.Page.{
  starts_page, roots_after, rows_after, page_breaks, page_start, page_end, slice, paginate,
}
use seshat_tasks.Bot.Page.Bounds.{total, paginate_bounds}
use seshat_tasks.Bot.Page.Chunks.{chunks_from, chunks, IsPage}
use seshat_tasks.Bot.Page.Listing.{paginate-chunks}
use seshat_tasks.Bot.Due.{times, due_instant, due_instant-local}
use seshat_tasks.Bot.Config.{
  is_digit, two_digits, offset_value, parse_utc_offset, format_utc_offset, parse_utc_offset-format,
}

program : Unit {0}
unfolding lit utf8 ◌==◌ elem get put less terminal index_by_id index_parent index_parents
    build_index get_task priority_weight due_factor age_factor sub64 urgency walk_children walk
    subtree_max_urgency less_roots is_digit two_digits offset_value parse_utc_offset
program = tt

abbrev some_task : Text → List Text → ℕ → Task
some_task id child_ids created = record {
  id = id;
  content = record {
    title = id;
    description = [];
    status = status_todo;
    priority = priority_high;
    child_ids = child_ids;
    tags = [];
    due_at = none;
    scheduled_at = none;
  };
  meta = record {
    created_at = pos created;
    updated_at = pos created;
    completed_at = none;
    version = 1;
  };
}

abbrev root : Task
root = some_task (lit "A") (lit "B" ∷ []) 10

abbrev leaf : Task
leaf = some_task (lit "B") [] 20

abbrev other : Task
other = some_task (lit "C") [] 30

abbrev third : Task
third = some_task (lit "D") [] 40

abbrev ix : Index
ix = build_index (root ∷ leaf ∷ other ∷ third ∷ [])

abbrev now : ℤ
now = pos 5000000

subtree_max_urgency-group_of_example :
    (r : List Text × Group) × (expand (enough_fuel ix) ix 0 root [] [] ≡ some r)
    × (group_of ix root ≡ r.1)
    × (subtree_max_urgency root ix now ≡ max_urgency r.1 now)
subtree_max_urgency-group_of_example =
    subtree_max_urgency-group_of ix (build_index-IsNamed (root ∷ leaf ∷ other ∷ third ∷ [])) root
      now

has_open-group_of_example : has_open root ix ≡ any_open (group_of ix root)
has_open-group_of_example =
    has_open-group_of ix (build_index-IsNamed (root ∷ leaf ∷ other ∷ third ∷ [])) root

tasks-Distinct : Distinct (ids (root ∷ leaf ∷ other ∷ third ∷ []))
unfolding program
tasks-Distinct = (refl, (refl, (refl, (refl, tt))))

list_groups-perm_example :
    list_groups
      (root ∷ leaf ∷ other ∷ third ∷ [])
      (build_index (root ∷ leaf ∷ other ∷ third ∷ []))
      now
    ≡ list_groups
        (leaf ∷ root ∷ other ∷ third ∷ [])
        (build_index (leaf ∷ root ∷ other ∷ third ∷ []))
        now
list_groups-perm_example =
    list_groups-perm now (root ∷ leaf ∷ other ∷ third ∷ []) (leaf ∷ root ∷ other ∷ third ∷ [])
      (Perm.swap leaf root (other ∷ third ∷ [])) tasks-Distinct

-- Groups of one, two and one rows.
abbrev row : Task → Row
row t = record { task = t; depth = 0; parent_title = [] }

abbrev groups : List Group
groups = (row root ∷ []) ∷ (row root ∷ row leaf ∷ []) ∷ (row other ∷ []) ∷ []

some_group : groups ≢ []
some_group e = absurd (ground arith)

paginate_bounds_example :
    ((paginate groups (pos 7)).index < (paginate groups (pos 7)).count)
    × (page_start (page_breaks groups) (paginate groups (pos 7)).index
        < page_end (page_breaks groups) (paginate groups (pos 7)).index (length groups))
    × (page_end (page_breaks groups) (paginate groups (pos 7)).index (length groups)
        ≤ length groups)
    × (length (paginate groups (pos 7)).rows ≤ 25)
    × (length (paginate groups (pos 7)).rows + (paginate groups (pos 7)).overflow
        ≡ total (
            slice
              (page_start (page_breaks groups) (paginate groups (pos 7)).index)
              (page_end (page_breaks groups) (paginate groups (pos 7)).index (length groups))
              groups))
paginate_bounds_example = paginate_bounds groups (pos 7) some_group

-- Two days before the epoch, at 22:30 in a zone two hours ahead.
due_instant-local_example :
    (today : ℤ) × (times today day ≤ℤ negsuc 98999 +ℤ times (pos 120) 60)
    × ((negsuc 98999 +ℤ times (pos 120) 60) ≤ℤ (times today day +ℤ pos 86399))
    × (due_instant 3 (negsuc 98999) (pos 120) +ℤ times (pos 120) 60
        ≡ times today day +ℤ pos (3 * day + 86399))
    × (negsuc 98999 ≤ℤ due_instant 3 (negsuc 98999) (pos 120))
due_instant-local_example =
    due_instant-local 3 (negsuc 98999) (pos 120) (omega arith) (omega arith) (omega arith)
      (omega arith)

parse_utc_offset-format_example : parse_utc_offset (format_utc_offset (pos 330)) ≡ some (pos 330)
parse_utc_offset-format_example = parse_utc_offset-format (pos 330) (omega arith) (omega arith)

accepted : parse_utc_offset (lit "-03:30") ≡ some (negsuc 209)
unfolding program
accepted = refl

-- Six groups, of which one goes to a second page.
abbrev many : List Group
many = groups ++ groups

last_page : get_elem? (chunks many) 1 ≡ some ((row other ∷ []) ∷ [])
unfolding chunks chunks_from starts_page roots_after rows_after
last_page = refl

paginate-chunks_example :
    (flatten (chunks many) ≡ many)
    × IsPage ((row other ∷ []) ∷ [])
    × (paginate many (pos 1) ≡ record {
      rows = take 25 (flatten ((row other ∷ []) ∷ []));
      index = 1;
      count = length (chunks many);
      overflow = total ((row other ∷ []) ∷ []) - 25;
    })
paginate-chunks_example = paginate-chunks many 1 ((row other ∷ []) ∷ []) last_page
