-- ===== src/Rotation.antt =====
-- The rotating console log of src/lifecycle.rs: the active file and its numbered archives.
use zerun.Prelude.{
  ℕ, zero, suc, ◌+◌, ◌-◌, ◌*◌, Bool, true, false, ◌&&◌, not, Option, none, some, List, [], ◌∷◌,
  ◌++◌, Result, ok, err, ◌==◌, ltb, if◌then◌else◌, length, u64_max,
}
pub mod Shift
pub mod Writer
mod Examples

-- The contents by index: 0 is the active file, and `n` the archive `.n`.
abbrev pub LogFiles : Type 0
LogFiles = ℕ → Option (List ℕ)

pub data LogError : Type 0 where
  rename_failed permissions_failed open_failed write_failed : LogError

-- What the file system does during one rotation.
pub record Disk : Type 0 where
  pub renames : ℕ → Bool
  pub removes : Bool
  pub secures : Bool
  pub opens : Bool

abbrev pub moved : ℕ → ℕ → LogFiles → LogFiles
moved from to f k = if k == to then f from else if k == from then none else f k

abbrev pub rename_existing :
    Disk → ℕ → ℕ → LogFiles → Option (List ℕ) → Result LogError (Unit {0}) × LogFiles
rename_existing disk from to f none = (ok tt, f)
rename_existing disk from to f (some content) =
    if disk.renames from then (ok tt, moved from to f) else (err rename_failed, f)

-- A rename where a missing file is no error.
abbrev pub rename : Disk → ℕ → ℕ → LogFiles → Result LogError (Unit {0}) × LogFiles
rename disk from to f = rename_existing disk from to f (f from)

abbrev pub and_then :
    Result LogError (Unit {0}) × LogFiles
    → (LogFiles → Result LogError (Unit {0}) × LogFiles)
    → Result LogError (Unit {0}) × LogFiles
and_then (ok _, f) next = next f
and_then (err e, f) next = (err e, f)

-- The loop `for index in (1..=n).rev()`
unfoldable pub shift_archives : Disk → ℕ → LogFiles → Result LogError (Unit {0}) × LogFiles
shift_archives disk zero f = (ok tt, f)
shift_archives disk (suc k) f =
    and_then (rename disk (suc k) (suc (suc k)) f) (shift_archives disk k)

abbrev pub set_file : ℕ → Option (List ℕ) → LogFiles → LogFiles
set_file i content f k = if k == i then content else f k

-- The archives get their permissions, and the active file is created or emptied.
abbrev pub reopen : Disk → LogFiles → Result LogError (Unit {0}) × LogFiles
reopen disk f =
    if not disk.secures
    then (err permissions_failed, f)
    else if disk.opens
    then (ok tt, set_file 0 (some []) f)
    else (err open_failed, f)

-- A removal of the active file that fails is ignored.
abbrev pub removed : Disk → LogFiles → LogFiles
removed disk f k = if disk.removes && k == 0 then none else f k

-- `rotate`, where `max_files` is at least 1.
unfoldable pub rotate : Disk → ℕ → LogFiles → Result LogError (Unit {0}) × LogFiles
rotate disk zero f = reopen disk (removed disk f)
rotate disk (suc zero) f = reopen disk (removed disk f)
rotate disk (suc (suc n)) f =
    and_then (shift_archives disk n f) (λ g. and_then (rename disk 0 1 g) (reopen disk))
