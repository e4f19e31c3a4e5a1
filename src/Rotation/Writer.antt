-- ===== src/Rotation/Writer.antt =====
-- The writer of src/lifecycle.rs that rotates the console log.
use Prim.Native.Nat.{min}
use zerun.Prelude.{
  ℕ, zero, suc, ◌+◌, Bool, true, false, ◌&&◌, Option, none, some, List, [], ◌∷◌, ◌++◌, Result, ok,
  err, ltb, if◌then◌else◌, length, take, u64_max,
}
use zerun.Rotation.{LogFiles, Disk, LogError, write_failed, rotate, set_file}
pub mod Bounds
mod Examples

pub record LogOptions : Type 0 where
  pub max_size : ℕ
  pub max_files : ℕ

-- The files by index, and the count of the bytes in the active one
pub record RotatingLog : Type 0 where
  pub files : LogFiles
  pub written : ℕ
  pub options : LogOptions

abbrev pub content_of : Option (List ℕ) → List ℕ
content_of none = []
content_of (some content) = content

-- `open` counts what the active file holds; without one it fails.
abbrev opened : LogFiles → LogOptions → Option (List ℕ) → Result LogError RotatingLog
opened files options none = err LogError.open_failed
opened files options (some content) =
    ok (record { files = files; written = length content; options = options })

unfoldable pub open_log : LogFiles → LogOptions → Result LogError RotatingLog
open_log files options = opened files options (files 0)

abbrev pub saturating_add : ℕ → ℕ → ℕ
saturating_add a b = min (a + b) u64_max

unfoldable pub record_bytes : List ℕ → List ℕ → List ℕ
record_bytes timestamp line = timestamp ++ 9 ∷ line

-- What becomes of a write: all of it, or a first part and an error
pub data WriteReply : Type 0 where
  complete : WriteReply
  partial : ℕ → WriteReply

abbrev pub Logged : Type 0
Logged = Result LogError (Unit {0}) × RotatingLog

-- The write at the end of the active file
abbrev pub append_bytes : WriteReply → List ℕ → RotatingLog → Logged
append_bytes complete bytes log = (
  ok tt,
  record log {
    files = set_file 0 (some (content_of (log.files 0) ++ bytes)) log.files;
    written = saturating_add log.written (length bytes);
  },
)
append_bytes (partial n) bytes log = (
  err write_failed,
  record log { files = set_file 0 (some (content_of (log.files 0) ++ take n bytes)) log.files },
)

-- A rotation that succeeds sets the count to zero; `max_files` is at least one then.
abbrev pub at_least_one : ℕ → ℕ
at_least_one zero = 1
at_least_one (suc n) = suc n

abbrev pub after_rotation : Result LogError (Unit {0}) × LogFiles → RotatingLog → Logged
after_rotation (ok _, files) log = (ok tt, record log { files = files; written = 0 })
after_rotation (err e, files) log = (err e, record log { files = files })

abbrev pub rotate_log : Disk → RotatingLog → Logged
rotate_log disk log =
    after_rotation (rotate disk (at_least_one log.options.max_files) log.files) log

abbrev pub then_append : WriteReply → List ℕ → Logged → Logged
then_append reply bytes (ok _, log) = append_bytes reply bytes log
then_append reply bytes (err e, log) = (err e, log)

abbrev pub is_full : ℕ → RotatingLog → Bool
is_full size log =
    ltb 0 log.options.max_size
    && ltb 0 log.written
    && ltb log.options.max_size (saturating_add log.written size)

unfoldable pub write_record : Disk → WriteReply → List ℕ → List ℕ → RotatingLog → Logged
unfolding record_bytes rotate
write_record disk reply timestamp line log =
    let bytes = record_bytes timestamp line in
    if is_full (length bytes) log
    then then_append reply bytes (rotate_log disk log)
    else append_bytes reply bytes log
