-- ===== src/Prelude/Decimal.antt =====
-- `to_string` of an unsigned number, and its inverse `parse`.
use Prim.Native.Nat.{ℕ, zero, suc, ◌+◌, ◌/◌, ◌%◌, ◌≤◌, ◌<◌}
use mathlib.Core.Path.{◌≡◌, refl, sym, ap, ◌∙◌}
use mathlib.Core.Logic.{inl, inr}
use mathlib.Core.Bool.{true, false}
use mathlib.Core.List.{[], ◌∷◌, ◌++◌, append_assoc}
use mathlib.Core.Option.{some}
use native.Mathlib.Omega.{arith}
use zerun.Prelude.Tests.{ltb, if◌then◌else◌, Bool-cases}
use zerun.Prelude.Lists.{all}
use zerun.Prelude.Strings.{Text, is_digit, is_empty, parse_digits, parse_uint}

-- One digit for each round; the digits found so far stand behind.
unfoldable pub digits_from : ℕ → ℕ → Text → Text
digits_from zero n out = out
digits_from (suc fuel) n out =
    let rest = digits_from fuel (n / 10) ((b'0' + n % 10) ∷ out) in
    if ltb n 10 then (b'0' + n) ∷ out else rest

unfoldable pub decimal : ℕ → Text
unfolding digits_from
decimal n = digits_from (suc n) n []

parse-digits_from :
    (max fuel n : ℕ) (out : Text)
    → n < fuel
    → n ≤ max
    → parse_digits max 0 (digits_from fuel n out) ≡ parse_digits max n out
unfolding digits_from parse_digits
parse-digits_from max zero n out enough fits = absurd (omega arith)
parse-digits_from max (suc fuel) n out enough fits = elim (Bool-cases (ltb n 10)) [
  | inl last ↦ ground arith
  | inr more ↦ ground (arith, parse-digits_from max fuel (n / 10) ((b'0' + n % 10) ∷ out))
]

-- The print of a number is digits with a first digit.
pub digits_from-head :
    (fuel n : ℕ) (out : Text)
    → n < fuel
    → (d : ℕ) × (r : Text) × (digits_from fuel n out ≡ d ∷ r) × (is_digit d ≡ true)
unfolding digits_from
digits_from-head zero n out enough = absurd (omega arith)
digits_from-head (suc fuel) n out enough = elim (Bool-cases (ltb n 10)) [
  | inl last ↦ (b'0' + n, out, rw last, ground arith)
  | inr more ↦
      let (d, r, e, h) = digits_from-head fuel (n / 10) ((b'0' + n % 10) ∷ out) (ground arith) in
      (d, r, rw more e, h)
]

pub digits_from-all :
    (fuel n : ℕ) (out : Text)
    → n < fuel
    → all is_digit out ≡ true
    → all is_digit (digits_from fuel n out) ≡ true
unfolding digits_from
digits_from-all zero n out enough h = absurd (omega arith)
digits_from-all (suc fuel) n out enough h =
    ground (arith, digits_from-all fuel (n / 10) ((b'0' + n % 10) ∷ out))

pub decimal-all : (n : ℕ) → all is_digit (decimal n) ≡ true
unfolding decimal
decimal-all n = digits_from-all (suc n) n [] (omega arith) refl

pub parse_uint-digit :
    (max d : ℕ) (r : Text) → is_digit d ≡ true → parse_uint max (d ∷ r) ≡ parse_digits max 0 (d ∷ r)
unfolding parse_uint
parse_uint-digit max d [] h = ground arith
parse_uint-digit max d (c ∷ r) h = ground arith

-- A number that fits is read back from its print.
pub parse_uint-decimal : (max n : ℕ) → n ≤ max → parse_uint max (decimal n) ≡ some n
unfolding decimal
parse_uint-decimal max n fits =
    let (d, r, e, h) = digits_from-head (suc n) n [] (omega arith) in
    let first = parse_uint-digit max d r h in
    let back : parse_digits max 0 (digits_from (suc n) n []) ≡ some n =
      unfold parse_digits in parse-digits_from max (suc n) n [] (omega arith) fits in
    cc

pub is_empty-decimal : (n : ℕ) → is_empty (decimal n) ≡ false
unfolding decimal
is_empty-decimal n = let (d, r, e, h) = digits_from-head (suc n) n [] (omega arith) in ap is_empty e

-- The digits found so far stay behind.
digits_from-behind :
    (fuel n : ℕ) (out : Text) → digits_from fuel n out ≡ digits_from fuel n [] ++ out
unfolding digits_from
digits_from-behind zero n out = refl
digits_from-behind (suc fuel) n out = elim (Bool-cases (ltb n 10)) [
  | inl last ↦ rw last refl
  | inr more ↦ rw more (
      digits_from-behind fuel (n / 10) ((b'0' + n % 10) ∷ out)
      ∙ sym (append_assoc (digits_from fuel (n / 10) []) ((b'0' + n % 10) ∷ []) out)
      ∙ ap (λ r. r ++ out) (sym (digits_from-behind fuel (n / 10) ((b'0' + n % 10) ∷ []))))
]

digits_from-fuel :
    (fuel more n : ℕ) (out : Text)
    → n < fuel
    → n < more
    → digits_from fuel n out ≡ digits_from more n out
unfolding digits_from
digits_from-fuel zero more n out h k = absurd (omega arith)
digits_from-fuel (suc fuel) zero n out h k = absurd (omega arith)
digits_from-fuel (suc fuel) (suc more) n out h k = elim (Bool-cases (ltb n 10)) [
  | inl last ↦ rw last refl
  | inr longer ↦
      rw longer
        (digits_from-fuel fuel more (n / 10) ((b'0' + n % 10) ∷ out) (ground arith) (ground arith))
]

pub decimal-digit : (n : ℕ) → ltb n 10 ≡ true → decimal n ≡ (b'0' + n) ∷ []
unfolding decimal digits_from
decimal-digit n h = rw h refl

-- A longer number prints its last digit behind the others.
pub decimal-last : (n : ℕ) → ltb n 10 ≡ false → decimal n ≡ decimal (n / 10) ++ (b'0' + n % 10) ∷ []
unfolding decimal digits_from
decimal-last n h = rw h (
    digits_from-behind n (n / 10) ((b'0' + n % 10) ∷ [])
    ∙ ap (λ r. r ++ (b'0' + n % 10) ∷ [])
        (digits_from-fuel n (suc (n / 10)) (n / 10) [] (ground arith) (omega arith)))
