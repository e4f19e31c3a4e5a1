-- ===== src/Units/Exact.antt =====
-- `parse_size` of src/units.rs is the exact product, rounded down once, or an error.
use native.Mathlib.Nat.{div-add-mod, mod-lt, pow-suc}
use zerun.Prelude.{
  ℕ, zero, suc, ◌+◌, ◌*◌, ◌/◌, ◌^◌, ◌≤◌, ◌<◌, ◌≡◌, refl, ap, true, false, ◌||◌, none, some, [], ◌∷◌,
  ◌++◌, Text, ok, arith, all, trim, parse_uint, u64_max, u128_max, byte_len, is_whitespace, ◌==◌,
}
use zerun.Prelude.Decimal.{decimal, decimal-all, is_empty-decimal, parse_uint-decimal}
use zerun.Prelude.Trim.{trim-solid, digits_solid, digits_lack, split_once-none, is_solid}
use zerun.Units.{
  push_front, pop_last, unit_factor, drop_byte_suffix, split_unit, split_size_suffix,
  split_fraction, checked_mul_u128, parse_u128, scale_fraction, malformed, size_of_parts,
  parse_size,
}

-- The number that a run of digits writes; nothing writes 0.
abbrev pub value : Text → ℕ
value [] = 0
value (c ∷ s) = elim (parse_uint u128_max (c ∷ s)) [ none ↦ 0 | some n ↦ n ]

-- What the parts give: the exact sum, with the fraction rounded down.
parts-eq :
    (whole fraction : Text) (m n : ℕ)
    → size_of_parts whole fraction m ≡ ok n
    → (n ≡ value whole * m + value fraction * m / 10 ^ byte_len fraction) × (n ≤ u64_max)
unfolding size_of_parts parse_u128 checked_mul_u128 scale_fraction byte_len
parts-eq [] [] m n h = ground arith
parts-eq [] (c ∷ fraction) m n h = ground arith
parts-eq (d ∷ whole) [] m n h = ground arith
parts-eq (d ∷ whole) (c ∷ fraction) m n h = ground arith

-- Rounding down once: the quotient of a sum whose first term is a multiple.
floor_exact :
    (w f m d n : ℕ)
    → 0 < d
    → n ≡ w * m + f * m / d
    → (n * d ≤ (w * d + f) * m) × ((w * d + f) * m < (n + 1) * d)
floor_exact w f m d n pos e = grind (arith, div-add-mod (f * m) d, mod-lt (f * m) pos)

ten_pow_pos : (k : ℕ) → 0 < 10 ^ k
ten_pow_pos zero = omega arith
ten_pow_pos (suc k) = rw pow-suc (omega (arith, ten_pow_pos k))

-- An accepted size is the exact product of the written number and its unit, rounded down once: with
-- `whole.fraction` the digits behind the split and `d = 10^(digits of the fraction)`, the result is
-- the largest `n` with `n * d <= (whole * d + fraction) * unit`, and it fits a `u64`.
pub parse_size_exact :
    (s : Text) (n : ℕ)
    → parse_size s ≡ ok n
    → (whole fraction : Text) × (unit : ℕ) × ((whole, fraction)
        ≡ split_fraction (trim (split_size_suffix (trim s)).0))
      × (unit ≡ (split_size_suffix (trim s)).1)
      × (n * 10 ^ byte_len fraction
          ≤ (value whole * 10 ^ byte_len fraction + value fraction) * unit)
      × ((value whole * 10 ^ byte_len fraction + value fraction) * unit
          < (n + 1) * 10 ^ byte_len fraction)
      × (n ≤ u64_max)
unfolding parse_size
parse_size_exact s n h =
    let (number, unit) = split_size_suffix (trim s) in
    let (whole, fraction) = split_fraction (trim number) in
    let (exact, fits) = parts-eq whole fraction unit n h in
    let d = 10 ^ byte_len fraction in
    let (lo, hi) =
      floor_exact (value whole) (value fraction) unit d n (ten_pow_pos (byte_len fraction)) exact in
    (whole, fraction, unit, refl, refl, lo, hi, fits)

pop_last-append : (s : Text) (c : ℕ) → pop_last (s ++ c ∷ []) ≡ some (s, c)
unfolding pop_last
pop_last-append [] c = refl
pop_last-append (d ∷ s) c = ap (push_front d) (pop_last-append s c)

all_solid-append :
    (s : Text) (c : ℕ)
    → all is_solid s ≡ true
    → is_solid c ≡ true
    → all is_solid (s ++ c ∷ []) ≡ true
all_solid-append [] c hs hc = ground arith
all_solid-append (d ∷ s) c hs hc = ground (arith, all_solid-append s c)

unit_solid : (c m : ℕ) → unit_factor c ≡ some m → is_solid c ≡ true
unfolding unit_factor is_whitespace
unit_solid c m h = ground arith

unit_no_byte : (c m : ℕ) → unit_factor c ≡ some m → (c == b'b' || c == b'B') ≡ false
unfolding unit_factor
unit_no_byte c m h = ground arith

-- A plain number has no fraction.
split_fraction-decimal : (n : ℕ) → split_fraction (trim (decimal n)) ≡ (decimal n, [])
unfolding split_fraction
split_fraction-decimal n = ground (
  arith,
  trim-solid (decimal n) (digits_solid (decimal n) (decimal-all n)),
  split_once-none b'.' (decimal n) (digits_lack b'.' (decimal n) refl (decimal-all n)),
)

size_of_parts-decimal :
    (n m : ℕ) → n ≤ u64_max → n * m ≤ u64_max → size_of_parts (decimal n) [] m ≡ ok (n * m)
unfolding size_of_parts malformed parse_u128 checked_mul_u128 scale_fraction byte_len
size_of_parts-decimal n m small fits =
    ground (arith, decimal-all n, is_empty-decimal n, parse_uint-decimal u128_max n (omega arith))

-- A number with a unit letter, and with the byte suffix behind the letter or not.
split-unit :
    (n c m : ℕ)
    → unit_factor c ≡ some m
    → split_size_suffix (trim (decimal n ++ c ∷ [])) ≡ (decimal n, m)
unfolding split_size_suffix drop_byte_suffix split_unit
split-unit n c m u =
    let solid =
      all_solid-append (decimal n) c (digits_solid (decimal n) (decimal-all n))
        (unit_solid c m u) in
    rw (trim-solid (decimal n ++ c ∷ []) solid)
      (ground (arith, pop_last-append (decimal n) c, unit_no_byte c m u))

-- Every number with a unit letter that fits a `u64` is read as the product.
pub parse_size-decimal :
    (n c m : ℕ)
    → unit_factor c ≡ some m
    → n ≤ u64_max
    → n * m ≤ u64_max
    → parse_size (decimal n ++ c ∷ []) ≡ ok (n * m)
unfolding parse_size
parse_size-decimal n c m u small fits =
    simp (split-unit n c m u, split_fraction-decimal n) (size_of_parts-decimal n m small fits)
