-- ===== src/Logs/Stamp.antt =====
-- The capture times that src/state.rs writes are read back by src/logs.rs.
use zerun.Prelude.{
  ℕ, ◌+◌, ◌*◌, ◌/◌, ◌%◌, ◌≤◌, ◌<◌, ◌≡◌, refl, ◌∙◌, ap, arith, List, [], ◌∷◌, ◌++◌, true, false,
  some, leb, length, Text, is_digit,
}
use zerun.Prelude.Int.{pos, i64_max, i128_max}
use zerun.Clock.{now_rfc3339_nanos}
use zerun.Clock.Padded.{fixed, padded-fixed}
use zerun.Logs.{
  fraction, in_calendar, epoch_nanos, epoch_nanos_from_rfc3339, is_utc_rfc3339, log_timestamp_nanos,
}
use zerun.Logs.{days_in_month, days_from_civil}
use zerun.Logs.Calendar.{
  civil_year, civil_month, civil_day, civil_from_days-pos, days_from_civil-civil,
}
use zerun.Logs.Dates.{civil-in_month, civil_year-bound}
use zerun.Logs.Numbers.{
  parse_signed-two, parse_signed-four, parse_uint-nine, all-fixed, leading_digits-append,
}

-- The layout of a capture time
abbrev pub stamp : ℕ → ℕ → ℕ → ℕ → ℕ → ℕ → ℕ → Text
stamp y m d h mi s n =
    fixed 4 y
    ++ b'-'
      ∷ (fixed 2 m
          ++ b'-'
            ∷ (fixed 2 d
                ++ b'T'
                  ∷ (fixed 2 h
                      ++ b':'
                        ∷ (fixed 2 mi ++ b':' ∷ (fixed 2 s ++ b'.' ∷ (fixed 9 n ++ b'Z' ∷ []))))))

fraction-nine :
    (n : ℕ) → n < 1000000000 → fraction (b'.' ∷ (fixed 9 n ++ b'Z' ∷ [])) ≡ some (n, b'Z' ∷ [])
fraction-nine n small =
    let digits = leading_digits-append (fixed 9 n) b'Z' [] (all-fixed 9 n) refl in
    let value = parse_uint-nine i128_max n small (omega arith) in rw (digits, value) refl

epoch_nanos_from_rfc3339-stamp :
    (y m d h mi s n : ℕ)
    → y ≤ 9999
    → in_calendar (pos y) (pos m) (pos d) (pos h) (pos mi) (pos s) ≡ true
    → d < 100
    → n < 1000000000
    → epoch_nanos_from_rfc3339 (stamp y m d h mi s n)
      ≡ some (epoch_nanos (pos y) (pos m) (pos d) (pos h) (pos mi) (pos s) (pos 0) n)
unfolding epoch_nanos_from_rfc3339
epoch_nanos_from_rfc3339-stamp y m d h mi s n year calendar day small =
    rw
      (
        parse_signed-four i64_max y (omega arith) (omega arith),
        parse_signed-two i64_max m (ground arith) (ground arith),
        parse_signed-two i64_max d (ground arith) (ground arith),
        parse_signed-two i64_max h (ground arith) (ground arith),
        parse_signed-two i64_max mi (ground arith) (ground arith),
        parse_signed-two i64_max s (ground arith) (ground arith),
        calendar,
        fraction-nine n small,
      )
      refl

digit_at : (x : ℕ) → is_digit (b'0' + x % 10) ≡ true
digit_at x = ground arith

is_utc_rfc3339-stamp : (y m d h mi s n : ℕ) → is_utc_rfc3339 (stamp y m d h mi s n) ≡ true
unfolding is_utc_rfc3339
is_utc_rfc3339-stamp y m d h mi s n = grind (arith, digit_at)

-- A line with a capture time, a tab and some content
log_timestamp_nanos-stamp :
    (y m d h mi s n c : ℕ) (content : List ℕ)
    → log_timestamp_nanos (stamp y m d h mi s n ++ 9 ∷ c ∷ content)
      ≡ epoch_nanos_from_rfc3339 (stamp y m d h mi s n)
unfolding log_timestamp_nanos
log_timestamp_nanos-stamp y m d h mi s n c content =
    let long : leb (length (stamp y m d h mi s n ++ 9 ∷ c ∷ content)) 31 ≡ false = ground arith in
    rw (is_utc_rfc3339-stamp y m d h mi s n, long) refl

-- The parts of a capture time, in natural numbers
abbrev pub stamp_at : ℕ → ℕ → Text
stamp_at secs nanos =
    let z = secs / 86400 in
    let rem = secs % 86400 in
    stamp (civil_year z) (civil_month z) (civil_day z) (rem / 3600) (rem % 3600 / 60) (rem % 60)
      nanos

day_small : (y m d : ℕ) → d ≤ days_in_month (pos y) m → d ≤ 31
unfolding days_in_month
day_small y m d h = ground arith

pub now_rfc3339_nanos-stamp :
    (secs nanos : ℕ)
    → secs ≤ 253402300799
    → nanos < 1000000000
    → now_rfc3339_nanos (some (secs, nanos)) ≡ stamp_at secs nanos
unfolding now_rfc3339_nanos
now_rfc3339_nanos-stamp secs nanos last small =
    let z = secs / 86400 in
    let rem = secs % 86400 in
    let year = civil_year-bound z (omega arith) in
    let (lo, hi, day) = civil-in_month z in
    let short = day_small (civil_year z) (civil_month z) (civil_day z) day in
    rw
      (
        civil_from_days-pos z,
        padded-fixed 3 (civil_year z) (omega arith),
        padded-fixed 1 (civil_month z) (omega arith),
        padded-fixed 1 (civil_day z) (omega arith),
        padded-fixed 1 (rem / 3600) (omega arith),
        padded-fixed 1 (rem % 3600 / 60) (omega arith),
        padded-fixed 1 (rem % 60) (omega arith),
        padded-fixed 8 nanos (omega arith),
      )
      refl

in_calendar-bounds :
    (y m d h mi s : ℕ)
    → 1 ≤ m
    → m ≤ 12
    → 1 ≤ d
    → d ≤ days_in_month (pos y) m
    → h ≤ 23
    → mi ≤ 59
    → s ≤ 60
    → in_calendar (pos y) (pos m) (pos d) (pos h) (pos mi) (pos s) ≡ true
in_calendar-bounds y m d h mi s h1 h2 h3 h4 h5 h6 h7 = ground arith

epoch_nanos-day :
    (y m d z h mi s n : ℕ)
    → days_from_civil (pos y) m d ≡ pos z
    → epoch_nanos (pos y) (pos m) (pos d) (pos h) (pos mi) (pos s) (pos 0) n
      ≡ pos ((z * 86400 + h * 3600 + mi * 60 + s) * 1000000000 + n)
epoch_nanos-day y m d z h mi s n e = rw e (ap pos (omega arith))

-- A line whose capture time was written up to the end of 9999, with a tab and some content behind
-- it, is read as captured at that very nanosecond.
pub log_timestamp_nanos-now_rfc3339_nanos :
    (secs nanos c : ℕ) (content : List ℕ)
    → secs ≤ 253402300799
    → nanos < 1000000000
    → log_timestamp_nanos (now_rfc3339_nanos (some (secs, nanos)) ++ 9 ∷ c ∷ content)
      ≡ some (pos (secs * 1000000000 + nanos))
log_timestamp_nanos-now_rfc3339_nanos secs nanos c content last small =
    let z = secs / 86400 in
    let rem = secs % 86400 in
    let (lo, hi, day) = civil-in_month z in
    let short = day_small (civil_year z) (civil_month z) (civil_day z) day in
    let calendar =
      in_calendar-bounds (civil_year z) (civil_month z) (civil_day z) (rem / 3600) (rem % 3600 / 60)
        (rem % 60) lo hi (omega arith) day (omega arith) (omega arith) (omega arith) in
    rw (now_rfc3339_nanos-stamp secs nanos last small) (
      log_timestamp_nanos-stamp _ _ _ _ _ _ _ c content
      ∙ epoch_nanos_from_rfc3339-stamp _ _ _ _ _ _ _ (civil_year-bound z (omega arith)) calendar
          (omega arith) small
      ∙ ap some (
          epoch_nanos-day (civil_year z) (civil_month z) (civil_day z) z _ _ _ nanos
            (days_from_civil-civil z)
          ∙ ap pos (omega arith)))
