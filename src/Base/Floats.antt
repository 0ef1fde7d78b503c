-- ===== src/Base/Floats.antt =====
-- All that the program does with a `double`, as an interface, and the laws of IEEE comparison and
-- arithmetic that the theorems use. NaN is the value that is not equal to itself.
use Prim.Native.Nat.{ℕ, ◌+◌, ◌*◌, ◌/◌, ◌^◌}
use mathlib.Core.Path.{◌≡◌}
use mathlib.Core.Logic.{◌⊎◌}
use mathlib.Core.Bool.{Bool, true, false}
use native.Mathlib.Omega.{arith}
use shooting_star.Base.Tests.{◌==◌}
use shooting_star.Base.Int.{ℤ, pos, pos_part, neg_part, sub_ℕ, ltb_ℤ}

pub record Double (R : Type 0) : Type 0 where
  -- `of_decimal m k` is the double nearest to m / 10 ^ k; integers convert as `of_decimal n 0`.
  pub of_decimal : ℤ → ℕ → R
  pub add : R → R → R
  pub mul : R → R → R
  pub div : R → R → R
  pub lt : R → R → Bool
  pub eq : R → R → Bool
  -- `static_cast<int>(std::ceil(x))`, and `std::log1p`.
  pub ceil : R → ℤ
  pub log1p : R → R

abbrev pub nought : {R : Type 0} ⦃d : Double R⦄ → R
nought ⦃d⦄ = d.of_decimal (pos 0) 0

-- A value that is not NaN.
abbrev pub IsNumber : {R : Type 0} ⦃d : Double R⦄ → R → Type 0
IsNumber ⦃d⦄ x = d.eq x x ≡ true

-- The order is total only on numbers; `eq` identifies the two zeros, so it is no path.
pub record IsOrdered (R : Type 0) ⦃d : Double R⦄ : Type 0 where
  pub lt_irrefl : (x : R) → d.lt x x ≡ false
  pub lt_trans : (x y z : R) → d.lt x y ≡ true → d.lt y z ≡ true → d.lt x z ≡ true
  pub eq_symm : (x y : R) → d.eq x y ≡ true → d.eq y x ≡ true
  pub eq_trans : (x y z : R) → d.eq x y ≡ true → d.eq y z ≡ true → d.eq x z ≡ true
  pub lt_of_lt_of_eq : (x y z : R) → d.lt x y ≡ true → d.eq y z ≡ true → d.lt x z ≡ true
  pub lt_of_eq_of_lt : (x y z : R) → d.eq x y ≡ true → d.lt y z ≡ true → d.lt x z ≡ true
  pub lt-ne : (x y : R) → d.lt x y ≡ true → d.eq x y ≡ false
  pub lt_total :
      (x y : R) → IsNumber x → IsNumber y → d.eq x y ≡ false → (d.lt x y ≡ true) ⊎ (d.lt y x ≡ true)

-- A concrete instance: fixed-point numbers in thousandths.
abbrev mul_milli : ℤ → ℤ → ℤ
mul_milli a b =
    sub_ℕ ((pos_part a * pos_part b + neg_part a * neg_part b) / 1000)
      ((pos_part a * neg_part b + neg_part a * pos_part b) / 1000)

abbrev div_milli : ℤ → ℤ → ℤ
div_milli a b =
    sub_ℕ
      ((pos_part a * pos_part b + neg_part a * neg_part b)
        * 1000
        / ((pos_part b + neg_part b) * (pos_part b + neg_part b)))
      ((pos_part a * neg_part b + neg_part a * pos_part b)
        * 1000
        / ((pos_part b + neg_part b) * (pos_part b + neg_part b)))

instance abbrev pub milli : Double ℤ
milli = record {
  of_decimal = λ m k. sub_ℕ (pos_part m * 1000 / 10 ^ k) (neg_part m * 1000 / 10 ^ k);
  add = λ a b. sub_ℕ (pos_part a + pos_part b) (neg_part a + neg_part b);
  mul = mul_milli;
  div = div_milli;
  lt = ltb_ℤ;
  eq = λ a b. pos_part a + neg_part b == pos_part b + neg_part a;
  ceil = λ a. sub_ℕ ((pos_part a + 999) / 1000) (neg_part a / 1000);
  log1p = λ a. a;
}

pub milli-IsOrdered : IsOrdered ℤ
milli-IsOrdered = record {
  lt_irrefl = λ x. ground arith;
  lt_trans = λ x y z p q. ground arith;
  eq_symm = λ x y p. ground arith;
  eq_trans = λ x y z p q. ground arith;
  lt_of_lt_of_eq = λ x y z p q. ground arith;
  lt_of_eq_of_lt = λ x y z p q. ground arith;
  lt-ne = λ x y p. ground arith;
  lt_total = λ x y p q n. ground arith;
}
