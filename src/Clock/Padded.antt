-- ===== src/Clock/Padded.antt =====
-- Numbers printed with leading zeros: the digits, and what they are read as.
use zerun.Prelude.{
  ℕ, zero, suc, ◌+◌, ◌-◌, ◌/◌, ◌%◌, ◌<◌, ◌≡◌, refl, sym, ◌∙◌, ap, arith, [], ◌∷◌, ◌++◌, true, false,
  ltb, length, replicate, length-append, append_assoc, Text, Bool-cases, inl, inr,
}
use zerun.Prelude.Decimal.{decimal, decimal-digit, decimal-last}
use zerun.Clock.{padded}

-- The last `width` digits of a number
abbrev pub fixed : ℕ → ℕ → Text
fixed zero n = []
fixed (suc width) n = fixed width (n / 10) ++ (b'0' + n % 10) ∷ []

padded-small :
    (width n : ℕ) → ltb n 10 ≡ true → padded (suc width) n ≡ replicate width b'0' ++ (b'0' + n) ∷ []
unfolding padded
padded-small width n h =
    let one_less : suc width - 1 ≡ width = omega arith in rw (decimal-digit n h, one_less) refl

padded-last :
    (width n : ℕ)
    → ltb n 10 ≡ false
    → padded (suc width) n ≡ padded width (n / 10) ++ (b'0' + n % 10) ∷ []
unfolding padded
padded-last width n h =
    let behind : length (decimal (n / 10) ++ (b'0' + n % 10) ∷ [])
        ≡ suc (length (decimal (n / 10))) =
      omega (arith, length-append (decimal (n / 10)) ((b'0' + n % 10) ∷ [])) in
    let one_less : suc width - suc (length (decimal (n / 10))) ≡ width - length (decimal (n / 10)) =
      omega arith in
    rw (decimal-last n h, behind, one_less)
      (sym (
        append_assoc (replicate (width - length (decimal (n / 10))) b'0') (decimal (n / 10))
          ((b'0' + n % 10) ∷ [])))

replicate-last : (c w : ℕ) → replicate w c ++ c ∷ [] ≡ c ∷ replicate w c
replicate-last c zero = refl
replicate-last c (suc w) = ap (λ r. c ∷ r) (replicate-last c w)

fixed-zero : (width : ℕ) → fixed width 0 ≡ replicate width b'0'
fixed-zero zero = refl
fixed-zero (suc width) = rw (fixed-zero width) (replicate-last b'0' width)

-- At most `width + 1` digits
abbrev pub Fits : ℕ → ℕ → Type 0
Fits zero n = n < 10
Fits (suc width) n = Fits width (n / 10)

-- A number that fits the width is printed as that many digits.
pub padded-fixed : (width n : ℕ) → Fits width n → padded (suc width) n ≡ fixed (suc width) n
padded-fixed zero n h =
    let same : n % 10 ≡ n = omega arith in rw same (padded-small 0 n (ground arith))
padded-fixed (suc width) n h = elim (Bool-cases (ltb n 10)) [
  | inl small ↦
      let none_left : n / 10 ≡ 0 = ground arith in
      let same : n % 10 ≡ n = ground arith in
      padded-small (suc width) n small
      ∙ ap (λ r. r ++ (b'0' + n) ∷ []) (sym (fixed-zero (suc width)))
      ∙ rw (none_left, same) refl
  | inr large ↦
      padded-last (suc width) n large
      ∙ ap (λ r. r ++ (b'0' + n % 10) ∷ []) (padded-fixed width (n / 10) h)
]
