-- ===== src/Units/Examples.antt =====
-- Runs of src/units.rs.
use zerun.Prelude.{
  ℕ, ◌+◌, ◌*◌, ◌^◌, ◌≤◌, ◌<◌, ◌≡◌, refl, Text, ok, err, codes, trim, is_whitespace, byte_len,
  u64_max, split_once, parse_uint, parse_digits,
}
use zerun.Units.{
  pop_last, unit_factor, drop_byte_suffix, split_unit, split_size_suffix, split_fraction,
  checked_mul_u128, parse_u128, scale_fraction, malformed, size_of_parts, parse_size, cannot_parse,
  too_large,
}
use zerun.Units.Exact.{value, parse_size_exact}

half_units : parse_size (codes " 1.5G ") ≡ ok 1610612736
unfolding parse_size split_size_suffix drop_byte_suffix split_unit pop_last unit_factor
    split_fraction size_of_parts malformed parse_u128 checked_mul_u128 scale_fraction trim
    is_whitespace byte_len split_once parse_uint parse_digits
half_units = refl

negative : parse_size (codes "-1M") ≡ err cannot_parse
unfolding parse_size split_size_suffix drop_byte_suffix split_unit pop_last unit_factor
    split_fraction size_of_parts malformed trim is_whitespace byte_len split_once
negative = refl

beyond_u64 : parse_size (codes "18446744073709551616") ≡ err too_large
unfolding parse_size split_size_suffix drop_byte_suffix split_unit pop_last unit_factor
    split_fraction size_of_parts malformed parse_u128 checked_mul_u128 scale_fraction trim
    is_whitespace byte_len split_once parse_uint parse_digits
beyond_u64 = refl

parse_size_exact_example :
    (whole fraction : Text) × (unit : ℕ) × ((whole, fraction)
      ≡ split_fraction (trim (split_size_suffix (trim (codes " 1.5G "))).0))
    × (unit ≡ (split_size_suffix (trim (codes " 1.5G "))).1)
    × (1610612736 * 10 ^ byte_len fraction
        ≤ (value whole * 10 ^ byte_len fraction + value fraction) * unit)
    × ((value whole * 10 ^ byte_len fraction + value fraction) * unit
        < (1610612736 + 1) * 10 ^ byte_len fraction)
    × (1610612736 ≤ u64_max)
parse_size_exact_example = parse_size_exact (codes " 1.5G ") 1610612736 half_units
