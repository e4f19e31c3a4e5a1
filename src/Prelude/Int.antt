-- ===== src/Prelude/Int.antt =====
-- Signed integers over the native numbers, and their parser.
use Prim.Native.Nat.{ℕ, ◌^◌, ◌+◌, ◌-◌, ◌*◌, ◌/◌, zero, suc}
use mathlib.Core.Bool.{Bool, true, false}
use mathlib.Core.List.{[], ◌∷◌}
use mathlib.Core.Option.{Option, none, some}
use zerun.Prelude.Tests.{◌==◌, leb, if◌then◌else◌}
use zerun.Prelude.Strings.{Text, parse_uint, parse_digits}

-- `negsuc n` is -(n + 1).
pub data ℤ : Type 0 where
  pos : ℕ → ℤ
  negsuc : ℕ → ℤ

-- `s.parse::<i32>()`
abbrev pub negate : Option ℕ → Option ℤ
negate none = none
negate (some zero) = some (pos 0)
negate (some (suc n)) = some (negsuc n)

abbrev pub positive : Option ℕ → Option ℤ
positive none = none
positive (some n) = some (pos n)

unfoldable pub parse_i32 : Text → Option ℤ
parse_i32 [] = none
parse_i32 (c ∷ []) = if c == b'-' then none else positive (parse_uint (2 ^ 31 - 1) (c ∷ []))
parse_i32 (c ∷ d ∷ s) =
    if c == b'-'
    then negate (parse_digits (2 ^ 31) 0 (d ∷ s))
    else positive (parse_uint (2 ^ 31 - 1) (c ∷ d ∷ s))

-- `s.parse::<iN>()` with `max` the type's largest value
unfoldable pub parse_signed : ℕ → Text → Option ℤ
parse_signed max [] = none
parse_signed max (c ∷ []) = if c == b'-' then none else positive (parse_uint max (c ∷ []))
parse_signed max (c ∷ d ∷ s) =
    if c == b'-'
    then negate (parse_digits (max + 1) 0 (d ∷ s))
    else positive (parse_uint max (c ∷ d ∷ s))

abbrev pub i64_max : ℕ
i64_max = 2 ^ 63 - 1

abbrev pub i128_max : ℕ
i128_max = 2 ^ 127 - 1

-- `a - b` of natural numbers
abbrev pub diff : ℕ → ℕ → ℤ
diff a b = if leb b a then pos (a - b) else negsuc (b - a - 1)

abbrev pub neg_ℤ : ℤ → ℤ
neg_ℤ (pos zero) = pos 0
neg_ℤ (pos (suc n)) = negsuc n
neg_ℤ (negsuc n) = pos (suc n)

infixl 60 ◌+ℤ◌
abbrev pub ◌+ℤ◌ : ℤ → ℤ → ℤ
pos a +ℤ pos b = pos (a + b)
pos a +ℤ negsuc b = diff a (suc b)
negsuc a +ℤ pos b = diff b (suc a)
negsuc a +ℤ negsuc b = negsuc (suc (a + b))

infixl 60 ◌-ℤ◌
abbrev pub ◌-ℤ◌ : ℤ → ℤ → ℤ
a -ℤ b = a +ℤ neg_ℤ b

infixl 70 ◌*ℤ◌
-- The product with a natural number
abbrev pub ◌*ℤ◌ : ℤ → ℕ → ℤ
pos a *ℤ k = pos (a * k)
negsuc a *ℤ k = neg_ℤ (pos (suc a * k))

-- `if z >= 0 { z } else { z - (k - 1) } / k`, where the division rounds to zero
abbrev pub div_floor : ℤ → ℕ → ℤ
div_floor (pos a) k = pos (a / k)
div_floor (negsuc a) k = negsuc (a / k)

-- `z as u64` of a number that is not negative
abbrev pub to_nat : ℤ → ℕ
to_nat (pos a) = a
to_nat (negsuc a) = 0

abbrev pub magnitude : ℤ → ℕ
magnitude (pos a) = a
magnitude (negsuc a) = suc a

abbrev pub leb_ℤ : ℤ → ℤ → Bool
leb_ℤ (pos a) (pos b) = leb a b
leb_ℤ (pos a) (negsuc b) = false
leb_ℤ (negsuc a) (pos b) = true
leb_ℤ (negsuc a) (negsuc b) = leb b a
