-- ===== src/Clock.antt =====
-- The timestamps of src/state.rs, from what the clock says: the seconds and nanoseconds since 1970,
-- or none before it. Years are not negative then, and overflow nothing.
use zerun.Prelude.{
  ℕ, zero, suc, ◌+◌, ◌-◌, ◌*◌, ◌/◌, ◌%◌, Option, none, some, List, [], ◌∷◌, ◌++◌, ltb, leb,
  if◌then◌else◌, length, replicate, Text,
}
use zerun.Prelude.Decimal.{decimal}
use zerun.Prelude.Int.{ℤ, pos, ◌+ℤ◌, ◌-ℤ◌, ◌*ℤ◌, div_floor, to_nat}
pub mod Padded

-- The year, the month and the day of a day number
unfoldable pub civil_from_days : ℤ → ℤ × ℕ × ℕ
civil_from_days days =
    let z = days +ℤ pos 719468 in
    let era = div_floor z 146097 in
    let doe = to_nat (z -ℤ era *ℤ 146097) in
    let yoe = (doe - doe / 1460 + doe / 36524 - doe / 146096) / 365 in
    let y = pos yoe +ℤ era *ℤ 400 in
    let doy = doe - (365 * yoe + yoe / 4 - yoe / 100) in
    let mp = (5 * doy + 2) / 153 in
    let d = doy - (153 * mp + 2) / 5 + 1 in
    let m = if ltb mp 10 then mp + 3 else mp - 9 in ((if leb m 2 then y +ℤ pos 1 else y), m, d)

-- `{n:0w}`
unfoldable pub padded : ℕ → ℕ → Text
unfolding decimal
padded width n = replicate (width - length (decimal n)) b'0' ++ decimal n

abbrev pub Instant : Type 0
Instant = ℕ × ℕ

abbrev pub since_epoch : Option Instant → Instant
since_epoch none = (0, 0)
since_epoch (some t) = t

abbrev date_text : ℤ × ℕ × ℕ → Text
date_text (y, m, d) = padded 4 (to_nat y) ++ b'-' ∷ (padded 2 m ++ b'-' ∷ padded 2 d)

abbrev time_text : ℕ → Text
time_text rem =
    padded 2 (rem / 3600) ++ b':' ∷ (padded 2 (rem % 3600 / 60) ++ b':' ∷ padded 2 (rem % 60))

abbrev second_text : ℕ → Text
second_text secs =
    date_text (civil_from_days (pos (secs / 86400))) ++ b'T' ∷ time_text (secs % 86400)

unfoldable pub now_rfc3339 : Option Instant → Text
now_rfc3339 clock = let (secs, nanos) = since_epoch clock in second_text secs ++ b'Z' ∷ []

unfoldable pub now_rfc3339_nanos : Option Instant → Text
now_rfc3339_nanos clock =
    let (secs, nanos) = since_epoch clock in
    second_text secs ++ b'.' ∷ (padded 9 nanos ++ b'Z' ∷ [])
