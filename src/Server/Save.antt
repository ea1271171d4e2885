-- ===== src/Server/Save.antt =====
-- `saveState` of server/store.go: a temporary file that replaces the data file by a rename. The
-- calls of the package os are arguments, on a state of the disk.
pub mod Atomic
use seshat_tasks.Prelude.{Text, Bool, true, false, not, Option, none, some, if◌then◌else◌}

-- Each call says whether it went well, and leaves a disk. `content` is what a read of a path gives.
pub record Files (D : Type 0) : Type 0 where
  pub create_temp : D → Option Text × D
  pub write : Text → Text → D → Bool × D
  pub sync : Text → D → Bool × D
  pub close : Text → D → Bool × D
  pub rename : Text → Text → D → Bool × D
  pub remove : Text → D → D
  pub content : Text → D → Option Text

module _ {D : Type 0} (files : Files D) (path : Text) where
  -- After `Close`.
  unfoldable pub move_over : Text → D → Bool × D
  move_over temp d =
      let closed = files.close temp d in
      if not closed.0 then (false, closed.1) else files.rename temp path closed.1

  -- After `Write`.
  unfoldable pub flush : Text → D → Bool × D
  flush temp d =
      let synced = files.sync temp d in
      if not synced.0 then (false, (files.close temp synced.1).1) else move_over temp synced.1

  unfoldable pub fill : Text → Text → D → Bool × D
  fill temp bytes d =
      let written = files.write temp bytes d in
      if not written.0 then (false, (files.close temp written.1).1) else flush temp written.1

  -- With the deferred `os.Remove`, whatever happened.
  unfoldable pub save_temp : Text → Text → D → Bool × D
  save_temp temp bytes d = let filled = fill temp bytes d in (filled.0, files.remove temp filled.1)

  -- What `json.MarshalIndent` gives, or none for an error.
  unfoldable pub save_state : Option Text → D → Bool × D
  save_state none d = (false, d)
  save_state (some bytes) d =
      let created = files.create_temp d in
      elim created.0 [ none ↦ (false, created.1) | some temp ↦ save_temp temp bytes created.1 ]
