-- ===== src/Common/Fixed.antt =====
-- An instance of `Float` that runs: thousandths, as integers, rounded towards zero. It shows that the
-- laws can be met, and the tests compute with it.
use Prim.Native.Nat.{ℕ, ◌+◌, ◌*◌, ◌/◌}
use mathlib.Core.Bool.{Bool, true, false}
use mathlib.Core.List.{List, [], ◌∷◌}
use native.Mathlib.Omega.{arith}
use middle_east_geopolitic.Common.Int.{ℤ, pos, negsuc, pos_part, neg_part, sub_ℕ, ◌+ℤ◌, ◌-ℤ◌, ltb_ℤ}
use middle_east_geopolitic.Common.Float.{Float, IsOrdered}
use middle_east_geopolitic.Common.{not, refl}

-- |a|, and an integer from a sign and a size.
abbrev size : ℤ → ℕ
size a = pos_part a + neg_part a

abbrev is_negative : ℤ → Bool
is_negative (pos n) = false
is_negative (negsuc n) = true

abbrev signed : Bool → ℕ → ℤ
signed true n = sub_ℕ 0 n
signed false n = pos n

abbrev product_sign : ℤ → ℤ → Bool
product_sign (pos m) b = is_negative b
product_sign (negsuc m) (pos n) = true
product_sign (negsuc m) (negsuc n) = false

abbrev sum_all : List ℤ → ℤ
sum_all [] = pos 0
sum_all (x ∷ xs) = x +ℤ sum_all xs

instance abbrev pub thousandths : Float ℤ
thousandths = record {
  of_ℕ = λ n. pos (1000 * n);
  add = ◌+ℤ◌;
  sub = ◌-ℤ◌;
  mul = λ a b. signed (product_sign a b) (size a * size b / 1000);
  div = λ a b. signed (product_sign a b) (size a * 1000 / size b);
  lt = ltb_ℤ;
  le = λ a b. not (ltb_ℤ b a);
  sum = sum_all;
  round = λ a. signed (is_negative a) ((size a + 500) / 1000);
  trunc = λ a. signed (is_negative a) (size a / 1000);
}

pub thousandths-IsOrdered : IsOrdered ℤ
thousandths-IsOrdered = record {
  le_lt = λ a b. refl;
  lt_irrefl = λ a. ground arith;
  lt_trans = λ a b c h k. ground arith;
  lt_split = λ a b c h. ground arith;
  of_ℕ-lt = λ m n h. ground arith;
}
