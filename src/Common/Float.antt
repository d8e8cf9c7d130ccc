-- ===== src/Common/Float.antt =====
-- Python's `float`, as far as the modelled code uses it. The type and its operations are a parameter
-- of the model: `Float F` names the operations and `IsOrdered F` what is relied on of the order of
-- finite values. `<=` is an operation of its own, as a NaN is neither below, above nor equal to anything.
use mathlib.Core.Path.{◌≡◌}
use mathlib.Core.Logic.{◌⊎◌, inl, inr}
use mathlib.Core.Bool.{Bool, true, false, not, ◌&&◌}
use mathlib.Core.List.{List}
use native.Mathlib.Omega.{arith}
use Prim.Native.Nat.{ℕ, ◌<◌}
use middle_east_geopolitic.Common.Tests.{if◌then◌else◌, Bool-cases}
use middle_east_geopolitic.Common.Int.{ℤ}
use middle_east_geopolitic.Common.{refl}

pub record Float (F : Type 0) : Type 0 where
  pub of_ℕ : ℕ → F  -- the literals 0.0, 1.0, 100.0 and `float(n)`
  pub add : F → F → F
  pub sub : F → F → F
  pub mul : F → F → F
  pub div : F → F → F  -- by a divisor that the code has tested not to be 0
  pub lt : F → F → Bool
  pub le : F → F → Bool
  pub sum : List F → F  -- `sum(xs)`, which compensates the rounding since Python 3.12
  pub round : F → ℤ  -- `round(x)`
  pub trunc : F → ℤ  -- `int(x)`

module _ {F : Type 0} ⦃fl : Float F⦄ where
  -- `a <= b`, and `a == b`
  abbrev pub fle : F → F → Bool
  fle a b = fl.le a b

  abbrev pub feq : F → F → Bool
  feq a b = fle a b && fle b a

  -- `min(a, b)` and `max(a, b)`
  abbrev pub fmin : F → F → F
  fmin a b = if fl.lt b a then b else a

  abbrev pub fmax : F → F → F
  fmax a b = if fl.lt a b then b else a

  -- `max(lo, min(hi, x))`
  abbrev pub clamp : F → F → F → F
  clamp lo hi x = fmax lo (fmin hi x)

  infix 50 ◌≼◌
  abbrev pub ◌≼◌ : F → F → Type 0
  a ≼ b = fl.lt b a ≡ false

-- The order of the finite values is a strict weak order, and the literals lie in it by size.
pub record IsOrdered (F : Type 0) ⦃fl : Float F⦄ : Type 0 where
  pub le_lt : (a b : F) → fl.le a b ≡ not (fl.lt b a)
  pub lt_irrefl : (a : F) → fl.lt a a ≡ false
  pub lt_trans : (a b c : F) → fl.lt a b ≡ true → fl.lt b c ≡ true → fl.lt a c ≡ true
  pub lt_split : (a b c : F) → fl.lt a c ≡ true → (fl.lt a b ≡ true) ⊎ (fl.lt b c ≡ true)
  pub of_ℕ-lt : (m n : ℕ) → m < n → fl.lt (fl.of_ℕ m) (fl.of_ℕ n) ≡ true

module _ {F : Type 0} ⦃fl : Float F⦄ (o : IsOrdered F) where
  pub lt_asymm : (a b : F) → fl.lt a b ≡ true → fl.lt b a ≡ false
  lt_asymm a b h = elim (Bool-cases (fl.lt b a)) [
    | inl k ↦ cc (o.lt_trans a b a h k, o.lt_irrefl a)
    | inr k ↦ k
  ]

  -- Finite values are equal when neither is below the other.
  pub feq-lt : (a b : F) → feq a b ≡ (not (fl.lt b a) && not (fl.lt a b))
  feq-lt a b = rw (o.le_lt a b, o.le_lt b a) refl

  pub ≼_trans : (a b c : F) → a ≼ b → b ≼ c → a ≼ c
  ≼_trans a b c h k = elim (Bool-cases (fl.lt c a)) [
    | inl m ↦ ground (arith, o.lt_split c b a)
    | inr m ↦ m
  ]

  -- Whatever is clamped lies between the bounds.
  pub clamp_bounds : (lo hi x : F) → lo ≼ hi → (lo ≼ clamp lo hi x) × (clamp lo hi x ≼ hi)
  clamp_bounds lo hi x h =
      ground (arith, lt_asymm lo hi, lt_asymm lo x, lt_asymm x hi, o.lt_irrefl lo, o.lt_irrefl hi)

  pub fmin-bound : (hi x : F) → fmin hi x ≼ hi
  fmin-bound hi x = ground (arith, lt_asymm x hi, o.lt_irrefl hi)
