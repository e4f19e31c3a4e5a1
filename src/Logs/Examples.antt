-- ===== src/Logs/Examples.antt =====
-- The timestamps, ranges and lines of src/logs.rs on concrete input.
use zerun.Prelude.{
  ℕ, false, none, some, List, [], ◌∷◌, ◌++◌, ok, err, ◌≡◌, refl, arith, Text, codes, bytes, map,
  split_once, text_eq, parse_uint, parse_digits, byte_len, trim, is_whitespace,
}
use zerun.Prelude.Decimal.{decimal, digits_from}
use zerun.Prelude.Int.{pos, negsuc, parse_signed}
use zerun.Clock.{civil_from_days, now_rfc3339, now_rfc3339_nanos, padded}
use zerun.Logs.{epoch_nanos_from_rfc3339, log_timestamp_nanos, days_from_civil, days_in_month}
use zerun.Logs.Stamp.{log_timestamp_nanos-now_rfc3339_nanos}
use zerun.Logs.Select.{LogTimeFilter, until_reached, contains_rfc3339}
use zerun.Logs.Select.Durations.{
  parse_duration, duration_from, duration_amount, unit_nanos, parse_unix_seconds, parse_time,
  parse_filter, since_later, parse_max_files, zero_files, too_many_files, log_paths,
}
use zerun.Logs.Captured.{Entry}

leap_day : civil_from_days (pos 11016) ≡ (pos 2000, 2, 29)
unfolding civil_from_days
leap_day = refl

second_precision : now_rfc3339 (some (1767225600, 7)) ≡ codes "2026-01-01T00:00:00Z"
unfolding now_rfc3339 civil_from_days padded decimal digits_from
second_precision = refl

log_timestamp_nanos-now_rfc3339_nanos_example :
    log_timestamp_nanos (now_rfc3339_nanos (some (1767225601, 500000000)) ++ 9 ∷ b'o' ∷ 10 ∷ [])
    ≡ some (pos 1767225601500000000)
log_timestamp_nanos-now_rfc3339_nanos_example =
    log_timestamp_nanos-now_rfc3339_nanos 1767225601 500000000 b'o' (10 ∷ []) (omega arith)
      (omega arith)

same_instant :
    epoch_nanos_from_rfc3339 (codes "2026-01-01T01:00:01.500+01:00")
    ≡ epoch_nanos_from_rfc3339 (codes "2026-01-01T00:00:01.5Z")
unfolding epoch_nanos_from_rfc3339 days_in_month days_from_civil parse_signed parse_uint
    parse_digits
same_instant = refl

-- A sign is read as part of a field.
signed_hour : epoch_nanos_from_rfc3339 (codes "1970-01-02T-1:00:00Z") ≡ some (pos 82800000000000)
unfolding epoch_nanos_from_rfc3339 days_in_month days_from_civil parse_signed parse_uint
    parse_digits
signed_hour = refl

durations :
    map parse_duration (codes "10m" ∷ codes "1h30m" ∷ codes "-1.5s" ∷ codes "1d" ∷ codes "1" ∷ [])
    ≡ some (pos 600000000000)
      ∷ some (pos 5400000000000)
      ∷ some (negsuc 1499999999)
      ∷ none
      ∷ none
      ∷ []
unfolding parse_duration duration_from duration_amount unit_nanos text_eq split_once parse_uint
    parse_digits byte_len
durations = refl

-- The fraction of a negative number of seconds is added to it.
negative_seconds : parse_unix_seconds (codes "-5.5") ≡ some (negsuc 4499999999)
unfolding parse_unix_seconds split_once parse_signed parse_uint parse_digits
negative_seconds = refl

reversed : parse_filter (some (codes "20")) (some (codes "10")) (pos 0) ≡ err since_later
unfolding parse_filter parse_time parse_duration duration_from duration_amount unit_nanos
    parse_unix_seconds text_eq split_once parse_signed parse_uint parse_digits byte_len
reversed = refl

file_counts :
    map parse_max_files (codes "3" ∷ codes "0" ∷ codes "1025" ∷ [])
    ≡ ok 3 ∷ err zero_files ∷ err too_many_files ∷ []
unfolding parse_max_files trim is_whitespace parse_uint parse_digits
file_counts = refl

paths : log_paths 3 ≡ 2 ∷ 1 ∷ 0 ∷ []
unfolding log_paths
paths = refl

abbrev range : LogTimeFilter
range = record { since = some (pos 5000000000); until = none }

reached_never : until_reached range (pos 9) ≡ false
unfolding until_reached
reached_never = refl

outside : contains_rfc3339 range (codes "1970-01-01T00:00:04Z") ≡ false
unfolding contains_rfc3339 bytes epoch_nanos_from_rfc3339 days_in_month days_from_civil parse_signed
    parse_uint parse_digits
outside = refl

abbrev entry : ℕ → Text → Entry
entry s text = record { secs = s; nanos = 1; body = text }

abbrev entries : List Entry
entries = entry 4 (codes "early") ∷ entry 5 (codes "late") ∷ entry 6 [] ∷ []
