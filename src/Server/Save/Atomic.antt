-- ===== src/Server/Save/Atomic.antt =====
-- All of a state reaches the data file, or nothing.
use seshat_tasks.Prelude.{
  Text, Bool, true, false, Option, none, some, [], if◌then◌else◌, ◌≡◌, ◌≢◌, refl, ◌∙◌, Bool-cases,
  Option-cases, inl, inr,
}
use seshat_tasks.Server.Save.{Files, move_over, flush, fill, save_temp, save_state}

-- What the package os and the file system document, for a path and the temporary files beside it:
-- a temporary file is new, empty and has another name, a call on it leaves the path alone, an empty
-- file holds after a write that went well what was written, and a rename replaces the path or, where it fails, does not.
pub record IsFileSystem {D : Type 0} (files : Files D) (path : Text) : Type 0 where
  pub create_other : (d : D) (temp : Text) → (files.create_temp d).0 ≡ some temp → temp ≢ path
  pub create_apart : (d : D) → files.content path (files.create_temp d).1 ≡ files.content path d
  pub write_apart :
      (temp bytes : Text) (d : D)
      → temp ≢ path
      → files.content path (files.write temp bytes d).1 ≡ files.content path d
  pub create_empty :
      (d : D) (temp : Text)
      → (files.create_temp d).0 ≡ some temp
      → files.content temp (files.create_temp d).1 ≡ some []
  pub write_all :
      (temp bytes : Text) (d : D)
      → files.content temp d ≡ some []
      → (files.write temp bytes d).0 ≡ true
      → files.content temp (files.write temp bytes d).1 ≡ some bytes
  pub sync_keeps :
      (temp p : Text) (d : D) → files.content p (files.sync temp d).1 ≡ files.content p d
  pub close_keeps :
      (temp p : Text) (d : D) → files.content p (files.close temp d).1 ≡ files.content p d
  pub rename_done :
      (temp : Text) (d : D)
      → (files.rename temp path d).0 ≡ true
      → files.content path (files.rename temp path d).1 ≡ files.content temp d
  pub rename_failed :
      (temp : Text) (d : D)
      → (files.rename temp path d).0 ≡ false
      → files.content path (files.rename temp path d).1 ≡ files.content path d
  pub remove_apart :
      (temp : Text) (d : D)
      → temp ≢ path
      → files.content path (files.remove temp d) ≡ files.content path d

-- How a write ends: the path has the new bytes, or what it had.
abbrev Ends : {D : Type 0} → Files D → Text → Option Text → Option Text → Bool × D → Type 0
Ends files path before new r = files.content path r.1 ≡ (if r.0 then new else before)

module _ {D : Type 0} (files : Files D) (path : Text) (fs : IsFileSystem files path) where
  rename-Ends :
      (temp : Text) (d : D) (before new : Option Text)
      → files.content path d ≡ before
      → files.content temp d ≡ new
      → Ends files path before new (files.rename temp path d)
  rename-Ends temp d before new p n = elim (Bool-cases ((files.rename temp path d).0)) [
    | inl done ↦ rw done (fs.rename_done temp d done ∙ n)
    | inr undone ↦ rw undone (fs.rename_failed temp d undone ∙ p)
  ]

  move_over-Ends :
      (temp : Text) (d : D) (before new : Option Text)
      → files.content path d ≡ before
      → files.content temp d ≡ new
      → Ends files path before new (move_over files path temp d)
  unfolding move_over
  move_over-Ends temp d before new p n = elim (Bool-cases ((files.close temp d).0)) [
    | inl closed ↦ rw closed (
        rename-Ends temp (files.close temp d).1 before new (fs.close_keeps temp path d ∙ p)
          (fs.close_keeps temp temp d ∙ n))
    | inr unclosed ↦ rw unclosed (fs.close_keeps temp path d ∙ p)
  ]

  flush-Ends :
      (temp : Text) (d : D) (before new : Option Text)
      → files.content path d ≡ before
      → files.content temp d ≡ new
      → Ends files path before new (flush files path temp d)
  unfolding flush
  flush-Ends temp d before new p n = elim (Bool-cases ((files.sync temp d).0)) [
    | inl synced ↦ rw synced (
        move_over-Ends temp (files.sync temp d).1 before new (fs.sync_keeps temp path d ∙ p)
          (fs.sync_keeps temp temp d ∙ n))
    | inr unsynced ↦
        rw unsynced
          (fs.close_keeps temp path (files.sync temp d).1 ∙ (fs.sync_keeps temp path d ∙ p))
  ]

  fill-Ends :
      (temp bytes : Text) (d : D) (before : Option Text)
      → temp ≢ path
      → files.content temp d ≡ some []
      → files.content path d ≡ before
      → Ends files path before (some bytes) (fill files path temp bytes d)
  unfolding fill
  fill-Ends temp bytes d before other bare p = elim (Bool-cases ((files.write temp bytes d).0)) [
    | inl written ↦ rw written (
        flush-Ends temp (files.write temp bytes d).1 before (some bytes)
          (fs.write_apart temp bytes d other ∙ p) (fs.write_all temp bytes d bare written))
    | inr unwritten ↦ rw unwritten (
        fs.close_keeps temp path (files.write temp bytes d).1
        ∙ (fs.write_apart temp bytes d other ∙ p))
  ]

  save_temp-Ends :
      (temp bytes : Text) (d : D) (before : Option Text)
      → temp ≢ path
      → files.content temp d ≡ some []
      → files.content path d ≡ before
      → Ends files path before (some bytes) (save_temp files path temp bytes d)
  unfolding save_temp
  save_temp-Ends temp bytes d before other bare p =
      fs.remove_apart temp (fill files path temp bytes d).1 other
      ∙ fill-Ends temp bytes d before other bare p

  -- On a file system with these laws, and whichever of its calls fail: if `saveState` returns no
  -- error, then the data file holds all the bytes of the state; if it returns an error, then the data
  -- file is as it was, missing if it was missing.
  pub save_state-Ends :
      (bytes : Option Text) (d : D)
      → files.content path (save_state files path bytes d).1
        ≡ (if (save_state files path bytes d).0 then bytes else files.content path d)
  unfolding save_state
  save_state-Ends none d = refl
  save_state-Ends (some bytes) d = elim (Option-cases ((files.create_temp d).0)) [
    | inl failed ↦ rw (failed, save_state) (fs.create_apart d)
    | inr (temp, created) ↦
        rw (created, save_state)
          (save_temp-Ends temp bytes (files.create_temp d).1 (files.content path d)
            (fs.create_other d temp created) (fs.create_empty d temp created) (fs.create_apart d))
  ]
