-- ===== src/Logs/Select.antt =====
-- The time range, the selection and the display of log lines by src/logs.rs.
use zerun.Prelude.{
  ℕ, zero, suc, ◌+◌, ◌-◌, ◌*◌, ◌/◌, ◌^◌, Bool, true, false, ◌&&◌, ◌||◌, not, Option, none, some,
  List, [], ◌∷◌, ◌++◌, Result, ok, err, ◌>>=◌, ◌>>◌, require, ok_or, ◌==◌, leb, ltb, if◌then◌else◌,
  length, take, drop, replicate, all, Text, bytes, is_digit, codes, is_empty, parse_uint,
  parse_digits, split_once, strip_prefix, trim, text_eq, ◌~>◌, u64_max,
}
use zerun.Prelude.Int.{
  ℤ, pos, negsuc, ◌+ℤ◌, ◌-ℤ◌, ◌*ℤ◌, neg_ℤ, magnitude, leb_ℤ, parse_signed, i128_max,
}
use zerun.Logs.{epoch_nanos_from_rfc3339, log_timestamp_nanos, pad_right}
pub mod Lines
pub mod Durations

pub record LogTimeFilter : Type 0 where
  pub since : Option ℤ
  pub until : Option ℤ

abbrev is_some {ℓ} : {A : Type ℓ} → Option A → Bool
is_some none = false
is_some (some a) = true

abbrev pub is_active : LogTimeFilter → Bool
is_active f = is_some f.since || is_some f.until

abbrev pub at_or_after : Option ℤ → ℤ → Bool
at_or_after none t = true
at_or_after (some bound) t = leb_ℤ bound t

abbrev pub at_or_before : Option ℤ → ℤ → Bool
at_or_before none t = true
at_or_before (some bound) t = leb_ℤ t bound

abbrev pub contains : LogTimeFilter → ℤ → Bool
contains f t = at_or_after f.since t && at_or_before f.until t

-- `until_reached`, at what the clock says
abbrev reached : Option ℤ → ℤ → Bool
reached none now = false
reached (some bound) now = leb_ℤ bound now

unfoldable pub until_reached : LogTimeFilter → ℤ → Bool
until_reached f now = reached f.until now

abbrev pub contains_time : LogTimeFilter → Option ℤ → Bool
contains_time f none = false
contains_time f (some t) = contains f t

unfoldable pub contains_rfc3339 : LogTimeFilter → Text → Bool
contains_rfc3339 f value = contains_time f (epoch_nanos_from_rfc3339 (bytes value))

-- The first line with its newline, and what is behind it
abbrev pub line_of : List ℕ → List ℕ
line_of [] = []
line_of (b ∷ s) = let rest = line_of s in if b == 10 then b ∷ [] else b ∷ rest

abbrev pub after_line : List ℕ → List ℕ
after_line [] = []
after_line (b ∷ s) = let rest = after_line s in if b == 10 then s else rest

-- The loop of both functions below: what is made of every line, in order. Each round takes a byte.
unfoldable pub lines_from : (List ℕ → List ℕ) → ℕ → List ℕ → List ℕ
lines_from shown fuel [] = []
lines_from shown zero (b ∷ s) = []
lines_from shown (suc fuel) (b ∷ s) =
    shown (line_of (b ∷ s)) ++ lines_from shown fuel (after_line (b ∷ s))

abbrev pub in_range : LogTimeFilter → List ℕ → Bool
in_range f line = contains_time f (log_timestamp_nanos line)

abbrev pub selected : LogTimeFilter → List ℕ → List ℕ
selected f line = if in_range f line then line else []

unfoldable pub filter_log_lines : List ℕ → Option LogTimeFilter → List ℕ
unfolding lines_from
filter_log_lines log none = log
filter_log_lines log (some f) =
    let chosen = lines_from (selected f) (length log) log in if is_active f then chosen else log

abbrev pub prefix_of : Option ℤ → List ℕ → Option (List ℕ)
prefix_of none line = none
prefix_of (some t) line = some (drop 31 line)

unfoldable pub timestamp_prefix : List ℕ → Option (List ℕ)
timestamp_prefix line = prefix_of (log_timestamp_nanos line) line

abbrev pub or_line : Option (List ℕ) → List ℕ → List ℕ
or_line none line = line
or_line (some content) line = content

unfoldable pub without_timestamp : List ℕ → List ℕ
unfolding timestamp_prefix
without_timestamp line = or_line (timestamp_prefix line) line

unfoldable pub strip_log_timestamps : List ℕ → List ℕ
strip_log_timestamps log = lines_from without_timestamp (length log) log
