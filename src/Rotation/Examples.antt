-- ===== src/Rotation/Examples.antt =====
-- Runs of the log rotation of src/lifecycle.rs with three files.
use zerun.Prelude.{true, false, none, some, [], ◌∷◌, ok, err, ◌≡◌, refl, ◌==◌, if◌then◌else◌}
use zerun.Rotation.{LogFiles, Disk, moved, set_file, shift_archives, rotate, rename_failed}
use zerun.Rotation.Shift.{rotated, rotate-rotated}

abbrev works : Disk
works = record { renames = λ i. true; removes = true; secures = true; opens = true }

-- `console.log`, `.1`, `.2`, and a file `.3` that no rotation knows.
abbrev four : LogFiles
four i =
    if i == 0
    then some (65 ∷ [])
    else if i == 1
    then some (66 ∷ [])
    else if i == 2
    then some (67 ∷ [])
    else if i == 3
    then some (68 ∷ [])
    else none

abbrev after : LogFiles
after = set_file 0 (some []) (moved 0 1 (moved 1 2 four))

rotate_run : rotate works 3 four ≡ (ok tt, after)
unfolding rotate shift_archives
rotate_run = refl

-- The newest archive is the old active file.
newest_archive : after 1 ≡ some (65 ∷ [])
newest_archive = refl

stuck :
    rotate (record { renames = λ i. false; removes = true; secures = true; opens = true }) 3 four
    ≡ (err rename_failed, four)
unfolding rotate shift_archives
stuck = refl

rotate-rotated_example : after 2 ≡ rotated 3 four 2
rotate-rotated_example = rotate-rotated works 2 four after 2 rotate_run
