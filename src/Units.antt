-- ===== src/Units.antt =====
-- src/units.rs: byte sizes such as `64M` or `1.5G`, in `u128` arithmetic without floats.
use mathlib.Core.Option
use zerun.Prelude.{
  ℕ, zero, suc, ◌+◌, ◌*◌, ◌/◌, ◌^◌, Bool, true, false, ◌&&◌, ◌||◌, not, Option, none, some, List,
  [], ◌∷◌, Text, Result, ok, err, ok_or, require, ◌>>=◌, ◌>>◌, ◌==◌, leb, ltb, if◌then◌else◌, all,
  byte_len, is_empty, is_digit, split_once, trim, parse_uint, u64_max, u128_max,
}
pub mod Exact
mod Examples

pub data SizeError : Type 0 where
  cannot_parse too_large : SizeError

-- `s.as_bytes().last()` with the text before it
abbrev pub push_front : ℕ → Option (Text × ℕ) → Option (Text × ℕ)
push_front c none = some ([], c)
push_front c (some (s, d)) = some (c ∷ s, d)

unfoldable pub pop_last : Text → Option (Text × ℕ)
pop_last [] = none
pop_last (c ∷ s) = push_front c (pop_last s)

-- The multiplier of a unit letter, in either case.
unfoldable pub unit_factor : ℕ → Option ℕ
unit_factor c =
    if c == b'k' || c == b'K'
    then some 1024
    else if c == b'm' || c == b'M'
    then some (1024 * 1024)
    else if c == b'g' || c == b'G'
    then some (1024 * 1024 * 1024)
    else if c == b't' || c == b'T'
    then some (1024 * 1024 * 1024 * 1024)
    else none

unfoldable pub drop_byte_suffix : Text → Text
drop_byte_suffix s = elim (pop_last s) [
  | none ↦ s
  | some (init, c) ↦ if c == b'b' || c == b'B' then init else s
]

unfoldable pub split_unit : Text → Text × ℕ
split_unit s = elim (pop_last s) [
  | none ↦ (s, 1)
  | some (init, c) ↦ elim (unit_factor c) [ none ↦ (s, 1) | some factor ↦ (init, factor) ]
]

unfoldable pub split_size_suffix : Text → Text × ℕ
split_size_suffix s = split_unit (drop_byte_suffix s)

-- `number.split_once('.').unwrap_or((number, ""))`
unfoldable pub split_fraction : Text → Text × Text
split_fraction number = elim (split_once b'.' number) [ none ↦ (number, []) | some p ↦ p ]

unfoldable pub checked_mul_u128 : ℕ → ℕ → Result SizeError ℕ
checked_mul_u128 a b = if leb (a * b) u128_max then ok (a * b) else err too_large

unfoldable pub parse_u128 : Text → Result SizeError ℕ
parse_u128 s = if is_empty s then ok 0 else ok_or (parse_uint u128_max s) too_large

unfoldable pub scale_fraction : Text → ℕ → Result SizeError ℕ
scale_fraction fraction multiplier = if is_empty fraction then ok 0 else do
  digits ← ok_or (parse_uint u128_max fraction) too_large
  scaled ← checked_mul_u128 digits multiplier
  ok (scaled / 10 ^ byte_len fraction)

unfoldable pub malformed : Text → Text → Bool
malformed whole fraction =
    (is_empty whole && is_empty fraction)
    || (not (all is_digit whole) || (not (all is_digit fraction) || ltb 38 (byte_len fraction)))

-- The value of the parts, once the text is split.
unfoldable pub size_of_parts : Text → Text → ℕ → Result SizeError ℕ
size_of_parts whole fraction multiplier = do
  require (not (malformed whole fraction)) cannot_parse
  w ← parse_u128 whole
  scaled_whole ← checked_mul_u128 w multiplier
  fractional ← scale_fraction fraction multiplier
  require (leb (scaled_whole + fractional) u128_max) too_large
  require (leb (scaled_whole + fractional) u64_max) too_large
  ok (scaled_whole + fractional)

unfoldable pub parse_size : Text → Result SizeError ℕ
parse_size s =
    let (number, multiplier) = split_size_suffix (trim s) in
    let (whole, fraction) = split_fraction (trim number) in size_of_parts whole fraction multiplier
