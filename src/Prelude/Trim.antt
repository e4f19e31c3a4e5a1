-- ===== src/Prelude/Trim.antt =====
-- Texts that `trim` leaves alone, and the splits of a text at a separator that a part lacks.
use Prim.Native.Nat.{ℕ}
use mathlib.Core.Path.{◌≡◌, refl, ap}
use mathlib.Core.Bool.{Bool, true, false, not}
use mathlib.Core.List.{[], ◌∷◌, ◌++◌}
use mathlib.Core.Option.{none, some}
use native.Mathlib.Omega.{arith}
use zerun.Prelude.Lists.{all}
use zerun.Prelude.Strings.{
  Text, has, is_whitespace, is_digit, trim_end, keep_end, trim, split_once, rsplit_once,
}

abbrev pub is_solid : ℕ → Bool
is_solid c = not (is_whitespace c)

trim_end-solid : (s : Text) → all is_solid s ≡ true → trim_end s ≡ s
trim_end-solid [] h = refl
trim_end-solid (c ∷ []) h = ground arith
trim_end-solid (c ∷ d ∷ s) h = ap (keep_end c) (trim_end-solid (d ∷ s) (ground arith))

pub trim-solid : (s : Text) → all is_solid s ≡ true → trim s ≡ s
unfolding trim
trim-solid [] h = refl
trim-solid (c ∷ s) h = ground (arith, trim_end-solid (c ∷ s) h)

pub split_once-lacks :
    (c : ℕ) (a b : Text) → has c a ≡ false → split_once c (a ++ c ∷ b) ≡ some (a, b)
unfolding split_once
split_once-lacks c [] b h = ground arith
split_once-lacks c (d ∷ a) b h = ground (arith, split_once-lacks c a b)

pub split_once-none : (c : ℕ) (a : Text) → has c a ≡ false → split_once c a ≡ none
unfolding split_once
split_once-none c [] h = refl
split_once-none c (d ∷ a) h = ground (arith, split_once-none c a)

pub rsplit_once-none : (c : ℕ) (a : Text) → has c a ≡ false → rsplit_once c a ≡ none
unfolding rsplit_once
rsplit_once-none c [] h = refl
rsplit_once-none c (d ∷ a) h = ground (arith, rsplit_once-none c a)

pub rsplit_once-lacks :
    (c : ℕ) (a b : Text) → has c b ≡ false → rsplit_once c (a ++ c ∷ b) ≡ some (a, b)
unfolding rsplit_once
rsplit_once-lacks c [] b h = ground (arith, rsplit_once-none c b)
rsplit_once-lacks c (d ∷ a) b h = ground (arith, rsplit_once-lacks c a b)

-- Digits are no white space.
digit_solid : (c : ℕ) → is_digit c ≡ true → is_solid c ≡ true
unfolding is_whitespace
digit_solid c h = ground arith

pub digits_solid : (s : Text) → all is_digit s ≡ true → all is_solid s ≡ true
digits_solid [] h = refl
digits_solid (c ∷ s) h = ground (arith, digit_solid c, digits_solid s)

-- Digits hold no separator that is not a digit.
pub digits_lack : (c : ℕ) (s : Text) → is_digit c ≡ false → all is_digit s ≡ true → has c s ≡ false
digits_lack c [] h k = refl
digits_lack c (d ∷ s) h k = ground (arith, digits_lack c s h)
