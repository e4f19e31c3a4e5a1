-- ===== src/Prelude/Outcome.antt =====
-- `Result<T, E>`: a value or an error, with the `?` operator as bind.
use mathlib.Core.Path.{◌≡◌, refl}
use mathlib.Core.Bool.{Bool, true, false}
use mathlib.Core.Option.{Option, none, some}

pub data Result {e v} (Err : Type e) (Val : Type v) : Type (e ⊔ v) where
  err : Err → Result Err Val
  ok : Val → Result Err Val

module _ {e v} {Err : Type e} {Val : Type v} where
  infixl 5 ◌>>=◌
  -- `outcome?` with what follows it
  abbrev pub ◌>>=◌ {w} :
      {Next : Type w} → Result Err Val → (Val → Result Err Next) → Result Err Next
  err reason >>= next = err reason
  ok a >>= next = next a

  -- A chain that gave a value passed through one at its first step.
  pub >>=-eq-ok {w} :
      {Next : Type w} (first : Result Err Val) (next : Val → Result Err Next) {last : Next}
      → (first >>= next) ≡ ok last
      → (a : Val) × (first ≡ ok a) × (next a ≡ ok last)
  >>=-eq-ok (err reason) next given = cc
  >>=-eq-ok (ok a) next given = (a, refl, given)

  pub ok_injective : {x y : Val} → ◌≡◌ {A = Result Err Val} (ok x) (ok y) → x ≡ y
  ok_injective given = cc

  -- `o.ok_or(reason)`
  abbrev pub ok_or : Option Val → Err → Result Err Val
  ok_or (some a) reason = ok a
  ok_or none reason = err reason

module _ {e} {Err : Type e} where
  infixl 5 ◌>>◌
  abbrev pub ◌>>◌ {w} : {Next : Type w} → Result Err (Unit {0}) → Result Err Next → Result Err Next
  check >> next = check >>= λ _. next

  -- `if !test { return Err(reason) }`
  abbrev pub require : Bool → Err → Result Err (Unit {0})
  require false reason = err reason
  require true reason = ok tt

-- `option?` with what follows it
module _ {ℓ κ} {A : Type ℓ} {B : Type κ} where
  infixl 5 ◌~>◌
  abbrev pub ◌~>◌ : Option A → (A → Option B) → Option B
  none ~> next = none
  some a ~> next = next a
