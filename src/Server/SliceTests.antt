-- ===== src/Server/SliceTests.antt =====
-- A task with two children, whose array has room for a third.
use seshat_tasks.Prelude.{
  ℕ, Map, lit, utf8, ◌==◌, eqb, none, [], ◌∷◌, if◌then◌else◌, ◌≡◌, refl, arith,
}
use seshat_tasks.Prelude.Int.{pos}
use seshat_tasks.Task.{empty_task}
use seshat_tasks.Server.Slices.{
  Slice, Heap, read, set_at, cell, append, keep_others, remove_in_place, SharedTask,
}
use seshat_tasks.Server.Slices.Live.{inserting, inserted, removed, Separate, edits-Separate}

abbrev no_room : ℕ → ℕ
no_room n = 0

abbrev heap : Heap
heap = record { next = 2; array = λ b. if eqb b 0 then lit "a" ∷ (lit "b" ∷ ([] ∷ [])) else [] }

abbrev ids : Slice
ids = record { base = 0; len = 2 }

abbrev live : Map SharedTask
live =
    (lit "P", record { task = empty_task; child_ids = ids; tags = record { base = 1; len = 0 } })
    ∷ []

edits-Separate_example :
    Separate no_room
      (inserting no_room none (lit "c"))
      (inserted none (lit "c"))
      (pos 5)
      (lit "P")
      live
      heap
    × Separate no_room
        (remove_in_place no_room (lit "c"))
        (removed (lit "c"))
        (pos 5)
        (lit "P")
        live
        heap
edits-Separate_example =
    edits-Separate no_room none (lit "c") (lit "P") (pos 5) live heap (omega arith)

-- Without a clone, removeString would change what the slice reads.
uncloned : read (remove_in_place no_room (lit "a") ids heap).1 ids ≡ lit "b" ∷ (lit "b" ∷ [])
unfolding remove_in_place keep_others append set_at cell lit utf8 ◌==◌
uncloned = refl
