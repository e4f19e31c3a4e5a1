-- ===== src/Rotation/Writer/Examples.antt =====
-- Runs of the writer of src/lifecycle.rs with room for eight bytes.
use zerun.Prelude.{true, none, some, [], ◌∷◌, ◌++◌, ok, err, ◌≡◌, refl, arith, ltb, if◌then◌else◌}
use zerun.Clock.{now_rfc3339_nanos, civil_from_days, padded}
use zerun.Prelude.Decimal.{decimal, digits_from}
use zerun.Rotation.{Disk, LogFiles, rotate, shift_archives, open_failed}
use zerun.Rotation.Writer.{
  RotatingLog, LogOptions, complete, partial, open_log, write_record, record_bytes,
}
use zerun.Rotation.Writer.Bounds.{IsCounted, IsBounded, active, write_record-IsBounded}
use zerun.Attach.Collector.{write_timestamped_line}

abbrev works : Disk
works = record { renames = λ i. true; removes = true; secures = true; opens = true }

abbrev six_bytes : LogFiles
six_bytes i = if ltb 0 i then none else some (1 ∷ 2 ∷ 3 ∷ 4 ∷ 5 ∷ 6 ∷ [])

abbrev options : LogOptions
options = record { max_size = 8; max_files = 2 }

abbrev small_log : RotatingLog
small_log = record { files = six_bytes; written = 6; options = options }

reopened : open_log six_bytes options ≡ ok small_log
unfolding open_log
reopened = refl

no_file : open_log (λ i. none) options ≡ err open_failed
unfolding open_log
no_file = refl

abbrev full_log : RotatingLog
full_log = record {
  files = (write_record works complete (b't' ∷ []) (b'x' ∷ 10 ∷ []) small_log).1.files;
  written = 4;
  options = options;
}

rotates : write_record works complete (b't' ∷ []) (b'x' ∷ 10 ∷ []) small_log ≡ (ok tt, full_log)
unfolding write_record record_bytes rotate shift_archives
rotates = refl

write_record-IsBounded_example :
    IsCounted full_log × IsBounded (record_bytes (b't' ∷ []) (b'x' ∷ 10 ∷ [])) full_log
unfolding IsCounted record_bytes
write_record-IsBounded_example =
    write_record-IsBounded works complete (b't' ∷ []) (b'x' ∷ 10 ∷ []) small_log full_log refl
      (omega arith) (omega arith) (omega arith) rotates

-- A write that stops early leaves its first bytes, and is not counted.
stops :
    (write_record works
      (partial 1)
      []
      (b'x' ∷ 10 ∷ [])
      (record small_log { written = 0 })).1.written
    ≡ 0
unfolding write_record record_bytes rotate shift_archives
stops = refl

stamped :
    active (write_timestamped_line works complete (some (0, 0)) (10 ∷ []) small_log).1
    ≡ now_rfc3339_nanos (some (0, 0)) ++ 9 ∷ 10 ∷ []
unfolding write_timestamped_line write_record record_bytes rotate shift_archives now_rfc3339_nanos
    civil_from_days padded decimal digits_from
stamped = refl
