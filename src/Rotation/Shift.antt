-- ===== src/Rotation/Shift.antt =====
-- Where the contents go in a rotation of src/lifecycle.rs.
use mathlib.Core.Path.{subst}
use zerun.Prelude.{
  ℕ, zero, suc, Option, none, some, List, [], Result, ok, err, ◌≡◌, refl, arith, ◌==◌, ==_iff, ltb,
  if◌then◌else◌, Option-cases, Bool-cases, inl, inr, sym, ◌∙◌, ap,
}
use zerun.Rotation.{
  LogFiles, LogError, Disk, moved, rename_existing, and_then, shift_archives, set_file, reopen,
  rotate, rename_failed, open_failed, permissions_failed, removed,
}

abbrev pub or_else : Option (List ℕ) → Option (List ℕ) → Option (List ℕ)
or_else none b = b
or_else (some a) b = some a

abbrev archive_before : LogFiles → ℕ → Option (List ℕ)
archive_before f zero = none
archive_before f (suc m) = f (suc m)

-- The files after archives 1 to `n` have moved up by one.
abbrev shifted : ℕ → LogFiles → LogFiles
shifted n f zero = f zero
shifted n f (suc i) =
    if ltb n i then f (suc i) else or_else (archive_before f i) (if i == n then f (suc i) else none)

shifted-moved :
    (k : ℕ) (f : LogFiles) (content : List ℕ) (j : ℕ)
    → f (suc k) ≡ some content
    → shifted k (moved (suc k) (suc (suc k)) f) j ≡ shifted (suc k) f j
shifted-moved k f content zero e = ground arith
shifted-moved k f content (suc zero) e = ground arith
shifted-moved k f content (suc (suc m)) e = elim (Bool-cases (m == k)) [
  | inl same ↦
      subst
        (λ i.
          shifted k (moved (suc k) (suc (suc k)) f) (suc (suc i)) ≡ shifted (suc k) f (suc (suc i)))
        (sym ((==_iff m k).0 same)) (ground (arith, e))
  | inr other ↦ ground (arith, other)
]

shifted-missing :
    (k : ℕ) (f : LogFiles) (j : ℕ) → f (suc k) ≡ none → shifted k f j ≡ shifted (suc k) f j
shifted-missing k f zero e = refl
shifted-missing k f (suc zero) e = ground arith
shifted-missing k f (suc (suc m)) e = elim (Bool-cases (m == k)) [
  | inl same ↦
      subst (λ i. shifted k f (suc (suc i)) ≡ shifted (suc k) f (suc (suc i)))
        (sym ((==_iff m k).0 same)) (ground (arith, e))
  | inr other ↦ ground (arith, other)
]

shifted-none : (f : LogFiles) (j : ℕ) → f j ≡ shifted 0 f j
shifted-none f zero = refl
shifted-none f (suc zero) = refl
shifted-none f (suc (suc m)) = ground arith

-- A rename that does not fail goes on with the moved file, or with the files as they were.
renamed :
    (disk : Disk) (from to : ℕ) (f g : LogFiles)
    (next : LogFiles → Result LogError (Unit {0}) × LogFiles) (o : Option (List ℕ))
    (content : List ℕ)
    → and_then (rename_existing disk from to f o) next ≡ (ok tt, g)
    → o ≡ some content
    → next (moved from to f) ≡ (ok tt, g)
renamed disk from to f g next none content h e = cc
renamed disk from to f g next (some c) content h e = elim (Bool-cases (disk.renames from)) [
  | inl works ↦ rw works at h
  | inr fails ↦ absurd (failed (rw fails at h))
]
  where
    failed : ¬ (◌≡◌ {A = Result LogError (Unit {0}) × LogFiles} (err rename_failed, f) (ok tt, g))
    failed k = cc

not_renamed :
    (disk : Disk) (from to : ℕ) (f g : LogFiles)
    (next : LogFiles → Result LogError (Unit {0}) × LogFiles) (o : Option (List ℕ))
    → and_then (rename_existing disk from to f o) next ≡ (ok tt, g)
    → o ≡ none
    → next f ≡ (ok tt, g)
not_renamed disk from to f g next none h e = h
not_renamed disk from to f g next (some c) h e = cc

shift_archives-shifted :
    (disk : Disk) (n : ℕ) (f g : LogFiles) (j : ℕ)
    → shift_archives disk n f ≡ (ok tt, g)
    → g j ≡ shifted n f j
unfolding shift_archives
shift_archives-shifted disk zero f g j h =
    subst (λ x. x j ≡ shifted 0 f j) (ap (λ p. p.1) h) (shifted-none f j)
shift_archives-shifted disk (suc k) f g j h = elim (Option-cases (f (suc k))) [
  | inl e ↦
      shift_archives-shifted disk k f g j
        (not_renamed disk (suc k) (suc (suc k)) f g (shift_archives disk k) (f (suc k)) h e)
      ∙ shifted-missing k f j e
  | inr (content, e) ↦
      let run : shift_archives disk k (moved (suc k) (suc (suc k)) f) ≡ (ok tt, g) =
        renamed disk (suc k) (suc (suc k)) f g (shift_archives disk k) (f (suc k)) content h e in
      shift_archives-shifted disk k (moved (suc k) (suc (suc k)) f) g j run
      ∙ shifted-moved k f content j e
]

-- The files after a rotation that keeps `max_files` files: an empty active file, and every archive up
-- to the last takes what stood before it, the last keeps its own where that is missing.
abbrev pub rotated : ℕ → LogFiles → LogFiles
rotated max_files f zero = some []
rotated max_files f (suc i) =
    if ltb (suc i) max_files
    then or_else (f i) (if suc (suc i) == max_files then f (suc i) else none)
    else f (suc i)

reopen-inv :
    (disk : Disk) (f g : LogFiles) (j : ℕ)
    → reopen disk f ≡ (ok tt, g)
    → g j ≡ set_file 0 (some []) f j
reopen-inv disk f g j h = elim (Bool-cases disk.secures) [
  | inl secured ↦ elim (Bool-cases disk.opens) [
    | inl opened ↦
        let run : ◌≡◌ {A = Result LogError (Unit {0}) × LogFiles} (ok tt, set_file 0 (some []) f)
            (ok tt, g) =
          rw (secured, opened) at h in
        sym (ap (λ p. p.1 j) run)
    | inr closed ↦ absurd (open_fails (rw (secured, closed) at h))
  ]
  | inr open_mode ↦ absurd (secure_fails (rw open_mode at h))
]
  where
    open_fails : ¬ (◌≡◌ {A = Result LogError (Unit {0}) × LogFiles} (err open_failed, f) (ok tt, g))
    open_fails k = cc

    secure_fails :
        ¬ (◌≡◌ {A = Result LogError (Unit {0}) × LogFiles} (err permissions_failed, f) (ok tt, g))
    secure_fails k = cc

and_then-inv :
    (m : Result LogError (Unit {0}) × LogFiles)
    (next : LogFiles → Result LogError (Unit {0}) × LogFiles) (g : LogFiles)
    → and_then m next ≡ (ok tt, g)
    → (f : LogFiles) × (m ≡ (ok tt, f)) × (next f ≡ (ok tt, g))
and_then-inv (ok tt, f) next g h = (f, refl, h)
and_then-inv (err e, f) next g h = cc

one_file :
    (disk : Disk) (f : LogFiles) (j : ℕ) → set_file 0 (some []) (removed disk f) j ≡ rotated 1 f j
one_file disk f zero = refl
one_file disk f (suc i) = ground arith

-- The last two steps, once the archives have moved up.
moved-rotated :
    (n : ℕ) (f : LogFiles) (content : List ℕ) (j : ℕ)
    → f 0 ≡ some content
    → set_file 0 (some []) (moved 0 1 (shifted n f)) j ≡ rotated (suc (suc n)) f j
moved-rotated n f content zero e = refl
moved-rotated n f content (suc zero) e = ground (arith, e)
moved-rotated n f content (suc (suc m)) e = ground arith

kept-rotated :
    (n : ℕ) (f : LogFiles) (j : ℕ)
    → f 0 ≡ none
    → set_file 0 (some []) (shifted n f) j ≡ rotated (suc (suc n)) f j
kept-rotated n f zero e = refl
kept-rotated n f (suc zero) e = ground (arith, e)
kept-rotated n f (suc (suc m)) e = ground arith

same_after :
    (f g : LogFiles) (j : ℕ) → f j ≡ g j → set_file 0 (some []) f j ≡ set_file 0 (some []) g j
same_after f g j h = ground arith

same_moved : (f g : LogFiles) (j : ℕ) → ((i : ℕ) → f i ≡ g i) → moved 0 1 f j ≡ moved 0 1 g j
same_moved f g j h = ground (arith, h 0, h j)

-- A rotation that succeeds leaves an empty active file; the old active file and the archives are one
-- place further, the oldest beyond the limit is gone, and no other file changes.
pub rotate-rotated :
    (disk : Disk) (max_files : ℕ) (f g : LogFiles) (j : ℕ)
    → rotate disk (suc max_files) f ≡ (ok tt, g)
    → g j ≡ rotated (suc max_files) f j
unfolding rotate
rotate-rotated disk zero f g j h = reopen-inv disk (removed disk f) g j h ∙ one_file disk f j
rotate-rotated disk (suc n) f g j h =
    let (f1, shift, run) = and_then-inv (shift_archives disk n f) _ g h in
    let at : (i : ℕ) → f1 i ≡ shifted n f i = λ i. shift_archives-shifted disk n f f1 i shift in
    elim (Option-cases (f1 0)) [
      | inl e ↦
          let opened = not_renamed disk 0 1 f1 g (reopen disk) (f1 0) run e in
          reopen-inv disk f1 g j opened
          ∙ same_after f1 (shifted n f) j (at j)
          ∙ kept-rotated n f j (sym (at 0) ∙ e)
      | inr (content, e) ↦
          let opened = renamed disk 0 1 f1 g (reopen disk) (f1 0) content run e in
          reopen-inv disk (moved 0 1 f1) g j opened
          ∙ same_after (moved 0 1 f1) (moved 0 1 (shifted n f)) j (same_moved f1 (shifted n f) j at)
          ∙ moved-rotated n f content j (sym (at 0) ∙ e)
    ]
