-- ===== src/Logs/Numbers.antt =====
-- Digits of a fixed width, as src/logs.rs reads them.
use zerun.Prelude.{
  ℕ, zero, suc, ◌+◌, ◌-◌, ◌*◌, ◌/◌, ◌%◌, ◌≤◌, ◌<◌, ◌≡◌, refl, ◌∙◌, arith, [], ◌∷◌, ◌++◌, true,
  false, Option, some, none, ◌~>◌, ◌==◌, leb, if◌then◌else◌, length, length-append, all, all-append,
  Text, Bool-cases, inl, inr, is_digit, parse_digits, parse_uint,
}
use zerun.Prelude.Decimal.{parse_uint-digit}
use zerun.Prelude.Int.{pos, parse_signed}
use zerun.Clock.Padded.{fixed, Fits}
use zerun.Logs.{leading_digits}

abbrev next_digit : ℕ → ℕ → ℕ → Option ℕ
next_digit max c a =
    if is_digit c
    then (if leb (a * 10 + (c - b'0')) max then some (a * 10 + (c - b'0')) else none)
    else none

parse_digits-append :
    (max acc c : ℕ) (s : Text)
    → parse_digits max acc (s ++ c ∷ []) ≡ (parse_digits max acc s ~> next_digit max c)
unfolding parse_digits
parse_digits-append max acc c [] = refl
parse_digits-append max acc c (d ∷ s) = elim (Bool-cases (is_digit d)) [
  | inl digit ↦ elim (Bool-cases (leb (acc * 10 + (d - b'0')) max)) [
    | inl fits ↦ rw (digit, fits) (parse_digits-append max (acc * 10 + (d - b'0')) c s)
    | inr over ↦ rw (digit, over) refl
  ]
  | inr other ↦ rw other refl
]

parse_digits-fixed :
    (max width n : ℕ) → Fits width n → n ≤ max → parse_digits max 0 (fixed (suc width) n) ≡ some n
parse_digits-fixed max zero n h fits = unfold parse_digits in ground arith
parse_digits-fixed max (suc width) n h fits =
    parse_digits-append max 0 (b'0' + n % 10) (fixed (suc width) (n / 10))
    ∙ rw (parse_digits-fixed max width (n / 10) h (omega arith)) (ground arith)

pub all-fixed : (width n : ℕ) → all is_digit (fixed width n) ≡ true
all-fixed zero n = refl
all-fixed (suc width) n =
    all-append is_digit (fixed width (n / 10)) ((b'0' + n % 10) ∷ [])
    ∙ rw (all-fixed width (n / 10)) (ground arith)

pub length-fixed : (width n : ℕ) → length (fixed width n) ≡ width
length-fixed zero n = refl
length-fixed (suc width) n = omega (
  arith,
  length-append (fixed width (n / 10)) ((b'0' + n % 10) ∷ []),
  length-fixed width (n / 10),
)

pub leading_digits-append :
    (s : Text) (c : ℕ) (rest : Text)
    → all is_digit s ≡ true
    → is_digit c ≡ false
    → leading_digits (s ++ c ∷ rest) ≡ s
leading_digits-append [] c rest h k = rw k refl
leading_digits-append (d ∷ s) c rest h k = ground (arith, leading_digits-append s c rest)

parse_signed-digits :
    (max n a b : ℕ) (s : Text)
    → is_digit a ≡ true
    → parse_digits max 0 (a ∷ b ∷ s) ≡ some n
    → parse_signed max (a ∷ b ∷ s) ≡ some (pos n)
unfolding parse_signed
parse_signed-digits max n a b s h e =
    let no_sign : (a == b'-') ≡ false = ground arith in
    rw (no_sign, parse_uint-digit max a (b ∷ s) h, e) refl

-- Two, four and nine digits are read as their number.
pub parse_signed-two : (max n : ℕ) → n < 100 → n ≤ max → parse_signed max (fixed 2 n) ≡ some (pos n)
parse_signed-two max n small fits =
    parse_signed-digits max n _ _ [] (ground arith) (parse_digits-fixed max 1 n (omega arith) fits)

pub parse_signed-four :
    (max n : ℕ) → n < 10000 → n ≤ max → parse_signed max (fixed 4 n) ≡ some (pos n)
parse_signed-four max n small fits =
    parse_signed-digits max n _ _ _ (ground arith) (parse_digits-fixed max 3 n (omega arith) fits)

pub parse_uint-nine : (max n : ℕ) → n < 1000000000 → n ≤ max → parse_uint max (fixed 9 n) ≡ some n
parse_uint-nine max n small fits =
    parse_uint-digit max _ _ (ground arith) ∙ parse_digits-fixed max 8 n (omega arith) fits
