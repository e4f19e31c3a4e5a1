-- ===== src/Logs/Select/Durations.antt =====
-- The time bounds that src/logs.rs parses. Amounts are never negative, so the checked operations on
-- an i128 are checks of the largest value.
use zerun.Prelude.{
  ℕ, zero, suc, ◌+◌, ◌-◌, ◌*◌, ◌/◌, ◌^◌, Bool, false, ◌&&◌, ◌||◌, not, Option, none, some, List, [],
  ◌∷◌, Result, ok, err, ◌>>=◌, ok_or, ◌==◌, leb, ltb, if◌then◌else◌, length, take, all, Text, bytes,
  is_digit, codes, is_empty, parse_uint, split_once, trim, text_eq, ◌~>◌, u64_max, byte_len,
}
use zerun.Prelude.Int.{ℤ, pos, negsuc, ◌+ℤ◌, ◌-ℤ◌, ◌*ℤ◌, neg_ℤ, leb_ℤ, parse_signed, i128_max}
use zerun.Logs.{epoch_nanos_from_rfc3339, pad_right}
use zerun.Logs.Select.{LogTimeFilter}

abbrev pub checked : ℕ → Option ℕ
checked n = if leb n i128_max then some n else none

abbrev whole_value : Text → Option ℕ
whole_value [] = some 0
whole_value (c ∷ s) = parse_uint i128_max (c ∷ s)

abbrev fraction_amount : ℕ → ℕ → Text → Option ℕ
fraction_amount amount multiplier fraction = checked (10 ^ byte_len fraction) ~> λ scale.
    parse_uint i128_max fraction ~> λ value.
    checked (value * multiplier) ~> λ product. checked (amount + product / scale)

abbrev number_parts : Option (Text × Text) → Text → Text × Text
number_parts none number = (number, [])
number_parts (some parts) number = parts

unfoldable pub duration_amount : Text → ℕ → Option ℕ
duration_amount number multiplier =
    let (whole, fraction) = number_parts (split_once b'.' number) number in
    let amount = whole_value whole ~> λ w. checked (w * multiplier) in
    if is_empty whole && is_empty fraction
    then none
    else if is_empty fraction
    then amount
    else amount ~> λ a. fraction_amount a multiplier fraction

abbrev pub is_number_char : ℕ → Bool
is_number_char c = is_digit c || c == b'.'

abbrev pub is_unit_char : ℕ → Bool
is_unit_char c = not (is_digit c || c == b'.' || c == b'-' || c == b'+')

-- The characters at the start that pass a test, and what is behind them
abbrev pub span : (ℕ → Bool) → Text → Text
span p [] = []
span p (c ∷ s) = let rest = span p s in if p c then c ∷ rest else []

abbrev pub behind : (ℕ → Bool) → Text → Text
behind p [] = []
behind p (c ∷ s) = let rest = behind p s in if p c then rest else c ∷ s

unfoldable pub unit_nanos : Text → Option ℕ
unit_nanos unit =
    if text_eq unit (codes "ns")
    then some 1
    else if text_eq unit (codes "us") || text_eq unit (0xb5 ∷ b's' ∷ [])
    then some 1000
    else if text_eq unit (codes "ms")
    then some 1000000
    else if text_eq unit (codes "s")
    then some 1000000000
    else if text_eq unit (codes "m")
    then some 60000000000
    else if text_eq unit (codes "h")
    then some 3600000000000
    else none

-- The total after one component
abbrev pub add_component : ℕ → Text → Text → Option ℕ
add_component total number unit = unit_nanos unit ~> λ multiplier.
    duration_amount number multiplier ~> λ amount. checked (total + amount)

-- The loop of `parse_duration`; each round takes a digit or a dot.
unfoldable pub duration_from : ℕ → ℕ → Text → Option ℕ
duration_from fuel total [] = some total
duration_from zero total (c ∷ s) = none
duration_from (suc fuel) total (c ∷ s) =
    let number = span is_number_char (c ∷ s) in
    let unit_and_rest = behind is_number_char (c ∷ s) in
    if is_empty number
    then none
    else add_component total number (span is_unit_char unit_and_rest) ~> λ t.
        duration_from fuel t (behind is_unit_char unit_and_rest)

abbrev unsigned : Text → Option ℕ
unsigned [] = none
unsigned (c ∷ s) = duration_from (length (c ∷ s)) 0 (c ∷ s)

abbrev negated : Option ℕ → Option ℤ
negated none = none
negated (some n) = some (neg_ℤ (pos n))

abbrev not_negated : Option ℕ → Option ℤ
not_negated none = none
not_negated (some n) = some (pos n)

-- A total is never negative, and the loop has seen a unit when it ends.
unfoldable pub parse_duration : Text → Option ℤ
unfolding duration_from unit_nanos duration_amount
parse_duration [] = none
parse_duration (c ∷ s) =
    if c == b'-'
    then negated (unsigned s)
    else if c == b'+'
    then not_negated (unsigned s)
    else not_negated (unsigned (c ∷ s))

-- `checked_mul` and `checked_add` of an i128
abbrev checked_ℤ : ℤ → Option ℤ
checked_ℤ (pos n) = if leb n i128_max then some (pos n) else none
checked_ℤ (negsuc n) = if leb n i128_max then some (negsuc n) else none

abbrev unix_nanos : Option ℤ → ℕ → Option ℤ
unix_nanos none nanos = none
unix_nanos (some seconds) nanos =
    checked_ℤ (seconds *ℤ 1000000000) ~> λ product. checked_ℤ (product +ℤ pos nanos)

abbrev unix_parts : Option (Text × Text) → Text → Option ℤ
unix_parts none value = unix_nanos (parse_signed i128_max value) 0
unix_parts (some (whole, fraction)) value =
    if is_empty fraction || not (all is_digit fraction)
    then none
    else parse_uint (2 ^ 63 - 1) (pad_right 9 (take 9 fraction)) ~> λ nanos.
        unix_nanos (parse_signed i128_max whole) nanos

unfoldable pub parse_unix_seconds : Text → Option ℤ
parse_unix_seconds value = unix_parts (split_once b'.' value) value

abbrev or_else : Option ℤ → Option ℤ → Option ℤ
or_else none later = later
or_else (some t) later = some t

abbrev before_now : ℤ → Option ℤ → Option ℤ
before_now now none = none
before_now now (some relative) = some (now -ℤ relative)

unfoldable pub parse_time : Text → ℤ → Option ℤ
unfolding parse_duration parse_unix_seconds
parse_time value now =
    or_else (before_now now (parse_duration value))
      (or_else (parse_unix_seconds value) (epoch_nanos_from_rfc3339 (bytes value)))

pub data TimeError : Type 0 where
  invalid_since invalid_until since_later : TimeError

abbrev pub parse_bound : Option Text → ℤ → TimeError → Result TimeError (Option ℤ)
parse_bound none now invalid = ok none
parse_bound (some value) now invalid = ok_or (parse_time value now) invalid >>= λ t. ok (some t)

abbrev pub is_reversed : Option ℤ → Option ℤ → Bool
is_reversed none until = false
is_reversed (some s) none = false
is_reversed (some s) (some u) = not (leb_ℤ s u)

-- `LogTimeFilter::parse`, at what the clock says
unfoldable pub parse_filter : Option Text → Option Text → ℤ → Result TimeError LogTimeFilter
parse_filter since until now = parse_bound since now invalid_since >>= λ s.
    parse_bound until now invalid_until >>= λ u.
    if is_reversed s u then err since_later else ok (record { since = s; until = u })

pub data FilesError : Type 0 where
  invalid_count zero_files too_many_files : FilesError

abbrev pub max_log_files : ℕ
max_log_files = 1024

-- `parse_max_files`
unfoldable pub parse_max_files : Text → Result FilesError ℕ
parse_max_files value = ok_or (parse_uint u64_max (trim value)) invalid_count >>= λ count.
    if count == 0
    then err zero_files
    else if ltb max_log_files count
    then err too_many_files
    else ok count

-- The archive numbers of `log_paths`, oldest first; 0 is the active file.
unfoldable pub log_paths : ℕ → List ℕ
log_paths zero = 0 ∷ []
log_paths (suc n) = if n == 0 then 0 ∷ [] else n ∷ log_paths n
