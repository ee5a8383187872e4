-- ===== src/Float/Fixed.antt =====
-- Floats with two decimals, as integers counting hundredths: an instance of the interface at
-- which the theorems about floats are applied. Products and quotients are cut towards zero, and
-- `round` goes to the nearest integer, from a tie to the even one, as Python's does.
use interview_trainer.Prelude.{
  ℕ, zero, suc, ◌+◌, ◌*◌, ◌/◌, ◌%◌, ◌≤◌, ◌≡◌, true, false, ltb, ◌==◌, nat_eq, if◌then◌else◌, arith,
}
use interview_trainer.Prelude.Int.{ℤ, pos, negsuc, sub_ℕ, ◌+ℤ◌, ◌-ℤ◌, ◌≤ℤ◌, leb_ℤ}
use interview_trainer.Float.{Float, FloatLaws}

-- n / 100 to the nearest integer, from a tie to the even one
unfoldable pub nearest : ℕ → ℕ
nearest n =
    let q = n / 100 in
    let r = n % 100 in
    if ltb r 50 then q else if ltb 50 r then q + 1 else if q % 2 == 0 then q else q + 1

abbrev negate : ℕ → ℤ
negate n = sub_ℕ 0 n

unfoldable pub fixed_mul : ℤ → ℤ → ℤ
fixed_mul (pos a) (pos b) = pos (a * b / 100)
fixed_mul (pos a) (negsuc b) = negate (a * suc b / 100)
fixed_mul (negsuc a) (pos b) = negate (suc a * b / 100)
fixed_mul (negsuc a) (negsuc b) = pos (suc a * suc b / 100)

unfoldable pub fixed_div : ℤ → ℤ → ℤ
fixed_div (pos a) (pos b) = pos (a * 100 / b)
fixed_div (pos a) (negsuc b) = negate (a * 100 / suc b)
fixed_div (negsuc a) (pos b) = negate (suc a * 100 / b)
fixed_div (negsuc a) (negsuc b) = pos (suc a * 100 / suc b)

unfoldable pub fixed_round : ℤ → ℤ
unfolding nearest
fixed_round (pos n) = pos (nearest n)
fixed_round (negsuc n) = negate (nearest (suc n))

unfoldable pub power : ℤ → ℕ → ℤ
unfolding fixed_mul
power a zero = pos 100
power a (suc n) = fixed_mul a (power a n)

-- the whole part of the exponent alone
unfoldable pub fixed_pow : ℤ → ℤ → ℤ
unfolding power fixed_div
fixed_pow a (pos b) = power a (b / 100)
fixed_pow a (negsuc b) = fixed_div (pos 100) (power a (suc b / 100))

unfoldable pub of_int : ℤ → ℤ
of_int (pos n) = pos (100 * n)
of_int (negsuc n) = negate (100 * suc n)

abbrev pub fixed : Float
fixed = record {
  F = ℤ;
  hundredths = pos;
  of_int = of_int;
  add = ◌+ℤ◌;
  sub = ◌-ℤ◌;
  mul = fixed_mul;
  div = fixed_div;
  pow = fixed_pow;
  le = leb_ℤ;
  round = fixed_round;
}

power_nonneg : (a : ℤ) (n : ℕ) → leb_ℤ (pos 0) a ≡ true → leb_ℤ (pos 0) (power a n) ≡ true
unfolding power fixed_mul
power_nonneg a zero h = ground arith
power_nonneg a (suc n) h = ground (arith, power_nonneg a n)

pow_nonneg : (a b : ℤ) → leb_ℤ (pos 0) a ≡ true → leb_ℤ (pos 0) (fixed_pow a b) ≡ true
unfolding fixed_pow fixed_div
pow_nonneg a (pos b) h = power_nonneg a (b / 100) h
pow_nonneg a (negsuc b) h = ground (arith, power_nonneg a (suc b / 100))

div_le : (a b : ℕ) → a ≤ b → 1 ≤ b → a * 100 / b ≤ 100
div_le a b h k = grind arith

div_bounds :
    (a b : ℤ)
    → leb_ℤ (pos 0) a ≡ true
    → leb_ℤ a b ≡ true
    → leb_ℤ b (pos 0) ≡ false
    → (leb_ℤ (pos 0) (fixed_div a b) ≡ true) × (leb_ℤ (fixed_div a b) (pos 100) ≡ true)
unfolding fixed_div
div_bounds (pos a) (pos b) h k l = (ground arith, ground (arith, div_le a b))
div_bounds (pos a) (negsuc b) h k l = ground arith
div_bounds (negsuc a) (pos b) h k l = ground arith
div_bounds (negsuc a) (negsuc b) h k l = ground arith

nearest_ge : (n m : ℕ) → 100 * n ≤ m → n ≤ nearest m
unfolding nearest
nearest_ge n m h = ground arith

nearest_le : (n m : ℕ) → m ≤ 100 * n → nearest m ≤ n
unfolding nearest
nearest_le n m h = ground arith

product_ge : (n a : ℕ) → 100 ≤ a → 100 * n ≤ 100 * n * a / 100
product_ge n a h = grind arith

mul_ge :
    (n : ℕ) (a : ℤ)
    → leb_ℤ (pos 100) a ≡ true
    → leb_ℤ (of_int (pos n)) (fixed_mul (of_int (pos n)) a) ≡ true
unfolding fixed_mul of_int
mul_ge n (pos a) h = ground (arith, product_ge n a)
mul_ge n (negsuc a) h = ground arith

round_le : (a z : ℤ) → leb_ℤ a (of_int z) ≡ true → fixed_round a ≤ℤ z
unfolding fixed_round of_int
round_le (pos n) (pos m) h = ground (arith, nearest_le m n)
round_le (pos n) (negsuc m) h = ground arith
round_le (negsuc n) (pos m) h = ground arith
round_le (negsuc n) (negsuc m) h = ground (arith, nearest_ge (suc m) (suc n))

le_round : (a z : ℤ) → leb_ℤ (of_int z) a ≡ true → z ≤ℤ fixed_round a
unfolding fixed_round of_int
le_round (pos n) (pos m) h = ground (arith, nearest_ge m n)
le_round (pos n) (negsuc m) h = ground arith
le_round (negsuc n) (pos m) h = ground (arith, nearest_le 0 (suc n))
le_round (negsuc n) (negsuc m) h = ground (arith, nearest_le (suc m) (suc n))

pub fixed_laws : FloatLaws fixed
unfolding fixed_mul fixed_div fixed_pow fixed_round of_int ◌+ℤ◌ ◌-ℤ◌
fixed_laws = record {
  le_refl = λ a. ground arith;
  le_trans = λ a b c h k. ground arith;
  le_total = λ a b h. ground arith;
  hundredths_lt = λ m n h k. ground arith;
  add_nonneg = λ a b h. ground arith;
  add_nonpos = λ a b h. ground arith;
  sub_nonneg = λ a b h. ground arith;
  sub_nonpos = λ a b h. ground arith;
  mul_nonneg = λ a b h k. ground arith;
  mul_nonpos = λ a b h k. ground arith;
  div_bounds = div_bounds;
  pow_nonneg = pow_nonneg;
  of_int_nonneg = λ n. ground arith;
  sub_le = λ a b h. ground arith;
  le_sub = λ a b h. ground arith;
  add_pos = λ a b h k. ground arith;
  mul_ge = mul_ge;
  round_le = λ a z e. round_le a z;
  le_round = λ a z e. le_round a z;
}
