-- ===== src/Logs.antt =====
-- The timestamps that src/logs.rs reads. A text is its bytes here: a byte that is not ASCII is no
-- digit, so where the source finds a slice that is no UTF-8 the number in it is none. A year has four
-- characters, so nothing overflows an i64.
use zerun.Prelude.{
  ℕ, zero, suc, ◌+◌, ◌-◌, ◌*◌, ◌/◌, ◌%◌, Bool, true, false, ◌&&◌, ◌||◌, not, Option, none, some,
  List, [], ◌∷◌, ◌++◌, ◌==◌, ltb, leb, if◌then◌else◌, length, take, drop, replicate, Text, byte,
  is_digit, codes, parse_uint, parse_digits, ◌~>◌,
}
use zerun.Prelude.Int.{
  ℤ, pos, negsuc, ◌+ℤ◌, ◌-ℤ◌, ◌*ℤ◌, neg_ℤ, div_floor, to_nat, magnitude, leb_ℤ, parse_signed,
  i64_max, i128_max,
}
pub mod Calendar
pub mod Dates
pub mod Numbers
pub mod Stamp
pub mod Select
pub mod Captured
mod Examples

unfoldable pub days_in_month : ℤ → ℕ → ℕ
days_in_month year month =
    let divides = λ (k : ℕ). magnitude year % k == 0 in
    if month == 4 || month == 6 || month == 9 || month == 11
    then 30
    else if month == 2
    then (if divides 4 && (not (divides 100) || divides 400) then 29 else 28)
    else if leb 1 month && leb month 12
    then 31
    else 0

unfoldable pub days_from_civil : ℤ → ℕ → ℕ → ℤ
days_from_civil year m d =
    let y = if leb m 2 then year -ℤ pos 1 else year in
    let era = div_floor y 400 in
    let yoe = to_nat (y -ℤ era *ℤ 400) in
    let mp = (m + 9) % 12 in
    let doy = (153 * mp + 2) / 5 + d - 1 in
    let doe = yoe * 365 + yoe / 4 - yoe / 100 + doy in era *ℤ 146097 +ℤ pos doe -ℤ pos 719468

-- The closure `num`
abbrev pub num : List ℕ → ℕ → ℕ → Option ℤ
num b lo hi = parse_signed i64_max (take (hi - lo) (drop lo b))

-- The digits at the start, and what is behind them
abbrev pub leading_digits : List ℕ → List ℕ
leading_digits [] = []
leading_digits (c ∷ s) = let rest = leading_digits s in if is_digit c then c ∷ rest else []

-- `while digits.len() < 9 { digits.push('0') }`
abbrev pub pad_right : ℕ → List ℕ → List ℕ
pad_right width s = s ++ replicate (width - length s) b'0'

abbrev pub nanos_of : List ℕ → List ℕ → Option (ℕ × List ℕ)
nanos_of [] s = none
nanos_of (c ∷ digits) s = parse_uint i128_max (pad_right 9 (take 9 (c ∷ digits))) ~> λ nanos.
    some (nanos, drop (length (c ∷ digits)) s)

-- The nanoseconds of the optional fraction, and what is behind it
abbrev pub fraction : List ℕ → Option (ℕ × List ℕ)
fraction [] = some (0, [])
fraction (c ∷ s) = if c == b'.' then nanos_of (leading_digits s) s else some (0, c ∷ s)

abbrev offset_of : Bool → List ℕ → Option ℤ
offset_of minus b = num b 1 3 ~> λ hour. num b 4 6 ~> λ minute.
    let size = hour *ℤ 3600 +ℤ minute *ℤ 60 in
    if not (leb_ℤ hour (pos 23)) || not (leb_ℤ minute (pos 59))
    then none
    else some (if minus then neg_ℤ size else size)

-- The seconds of the offset, which ends the text
abbrev pub zone : List ℕ → Option ℤ
zone [] = none
zone (c ∷ s) =
    if c == b'Z' || c == b'z'
    then (if length s == 0 then some (pos 0) else none)
    else if c == b'+' || c == b'-'
    then (if not (length s == 5) || not (byte 3 (c ∷ s) == b':')
        then none
        else offset_of (c == b'-') (c ∷ s))
    else none

abbrev pub in_calendar : ℤ → ℤ → ℤ → ℤ → ℤ → ℤ → Bool
in_calendar year month day hour minute second =
    leb_ℤ (pos 1) month
    && leb_ℤ month (pos 12)
    && leb_ℤ (pos 1) day
    && leb_ℤ day (pos (days_in_month year (to_nat month)))
    && leb_ℤ hour (pos 23)
    && leb_ℤ minute (pos 59)
    && leb_ℤ second (pos 60)

abbrev pub has_separators : List ℕ → Bool
has_separators b =
    leb 20 (length b)
    && byte 4 b == b'-'
    && byte 7 b == b'-'
    && byte 10 b == b'T'
    && byte 13 b == b':'
    && byte 16 b == b':'

abbrev pub epoch_nanos : ℤ → ℤ → ℤ → ℤ → ℤ → ℤ → ℤ → ℕ → ℤ
epoch_nanos year month day hour minute second offset nanos =
    let days = days_from_civil year (to_nat month) (to_nat day) in
    let seconds = days *ℤ 86400 +ℤ hour *ℤ 3600 +ℤ minute *ℤ 60 +ℤ second in
    (seconds -ℤ offset) *ℤ 1000000000 +ℤ pos nanos

abbrev epoch_nanos_of : List ℕ → Option ℤ
epoch_nanos_of b = num b 0 4 ~> λ year. num b 5 7 ~> λ month. num b 8 10 ~> λ day.
    num b 11 13 ~> λ hour. num b 14 16 ~> λ minute. num b 17 19 ~> λ second.
    let after = fraction (drop 19 b) ~> λ (nanos, rest).
    zone rest ~> λ offset. some (epoch_nanos year month day hour minute second offset nanos) in
    if in_calendar year month day hour minute second then after else none

unfoldable pub epoch_nanos_from_rfc3339 : List ℕ → Option ℤ
unfolding days_in_month days_from_civil
epoch_nanos_from_rfc3339 b =
    let whole = epoch_nanos_of b in if has_separators b then whole else none

abbrev log_ts_len : ℕ
log_ts_len = 30

abbrev pub separators : Text
separators = codes "YYYY-MM-DDTHH:MM:SS.NNNNNNNNNZ"

abbrev is_letter_of : ℕ → Bool
is_letter_of want =
    want == b'Y' || want == b'M' || want == b'D' || want == b'H' || want == b'S' || want == b'N'

abbrev pub fits_separators : List ℕ → Text → Bool
fits_separators [] wants = true
fits_separators (got ∷ b) [] = true
fits_separators (got ∷ b) (want ∷ wants) =
    (if is_letter_of want then is_digit got else got == want) && fits_separators b wants

unfoldable pub is_utc_rfc3339 : List ℕ → Bool
is_utc_rfc3339 b = length b == 30 && fits_separators b separators

unfoldable pub log_timestamp_nanos : List ℕ → Option ℤ
unfolding is_utc_rfc3339 epoch_nanos_from_rfc3339
log_timestamp_nanos line =
    let stamp = take log_ts_len line in
    let nanos = epoch_nanos_from_rfc3339 stamp in
    if leb (length line) (log_ts_len + 1)
      || not (byte log_ts_len line == 9)
      || not (is_utc_rfc3339 stamp)
    then none
    else nanos
