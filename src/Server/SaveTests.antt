-- ===== src/Server/SaveTests.antt =====
-- A disk that is a function from paths to contents, whose calls go well.
use seshat_tasks.Prelude.{
  Text, lit, ◌==◌, eq_iff, true, Option, none, some, [], if◌then◌else◌, ◌≡◌, ◌≢◌, refl, ap, arith,
  sym, ◌∙◌, Bool-cases, inl, inr,
}
use seshat_tasks.Server.Save.{Files, save_state}
use seshat_tasks.Server.Save.Atomic.{IsFileSystem, save_state-Ends}

abbrev Disk : Type 0
Disk = Text → Option Text

abbrev set : Text → Option Text → Disk → Disk
set path bytes d p = if p == path then bytes else d p

abbrev temp_name : Text
temp_name = lit ".seshat-1.tmp"

abbrev data_file : Text
data_file = lit "data.json"

abbrev files : Files Disk
files = record {
  create_temp = λ d. (some temp_name, set temp_name (some []) d);
  write = λ temp bytes d. (true, set temp (some bytes) d);
  sync = λ temp d. (true, d);
  close = λ temp d. (true, d);
  rename = λ from to d. (true, set to (d from) (set from none d));
  remove = λ temp d. set temp none d;
  content = λ path d. d path;
}

set-other : (path p : Text) (bytes : Option Text) (d : Disk) → path ≢ p → set path bytes d p ≡ d p
set-other path p bytes d other = elim (Bool-cases (p == path)) [
  | inl same ↦ absurd (other (sym ((eq_iff p path).0 same)))
  | inr apart ↦ rw apart refl
]

set-same : (path : Text) (bytes : Option Text) (d : Disk) → set path bytes d path ≡ bytes
set-same path bytes d = rw ((eq_iff path path).1 refl) refl

temp_name-other : temp_name ≢ data_file
unfolding lit
temp_name-other h = ground arith

files-IsFileSystem : IsFileSystem files data_file
unfolding ◌==◌ lit
files-IsFileSystem = record {
  create_other =
      λ d temp h same. temp_name-other (ap (λ o. elim o [ none ↦ [] | some t ↦ t ]) h ∙ same);
  create_apart = λ d. refl;
  write_apart = λ temp bytes d other. set-other temp data_file (some bytes) d other;
  create_empty = λ d temp h.
      ap (set temp_name (some []) d) (sym (ap (λ o. elim o [ none ↦ [] | some t ↦ t ]) h))
      ∙ set-same temp_name (some []) d;
  write_all = λ temp bytes d bare h. set-same temp (some bytes) d;
  sync_keeps = λ temp p d. refl;
  close_keeps = λ temp p d. refl;
  rename_done = λ temp d h. set-same data_file (d temp) (set temp none d);
  rename_failed = λ temp d h. absurd (ground arith);
  remove_apart = λ temp d other. set-other temp data_file none d other;
}

save_state-Ends_example :
    files.content data_file (save_state files data_file (some (lit "{}")) (λ path. none)).1 ≡ (
      if (save_state files data_file (some (lit "{}")) (λ path. none)).0
      then some (lit "{}")
      else none)
save_state-Ends_example =
    save_state-Ends files data_file files-IsFileSystem (some (lit "{}")) (λ path. none)
