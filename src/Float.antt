-- ===== src/Float.antt =====
-- Python's `float`, which the program uses for ratings, weights, scores and easiness factors.
-- The type and its operations are parameters of the model: the finite doubles, with the literals of
-- the source (two decimals at most), `float(int)`, `+ - * / **`, `<=` and `round`. `FloatLaws` is
-- what the proofs use of them: facts of IEEE 754 arithmetic, whose operations are the exact ones
-- followed by a monotone rounding, where they do not overflow. An integer is a double exactly up
-- to 2 ^ 53, and what is said of `round` stops there.
pub mod Fixed
use interview_trainer.Prelude.{ℕ, ◌≡◌, ◌<◌, ◌≤◌, Bool, true, false, not, if◌then◌else◌}
use interview_trainer.Prelude.Int.{ℤ, pos, pos_part, neg_part, ◌≤ℤ◌}

pub record Float : Type 1 where
  pub F : Type 0
  -- the literal n / 100: `1.3` is `hundredths 130`
  pub hundredths : ℕ → F
  pub of_int : ℤ → F
  pub add : F → F → F
  pub sub : F → F → F
  pub mul : F → F → F
  pub div : F → F → F
  pub pow : F → F → F
  -- `a <= b`
  pub le : F → F → Bool
  pub round : F → ℤ

module _ (fl : Float) where
  open fl use {F, hundredths, le}

  -- `a < b`; with no NaN it is `not b <= a`
  abbrev pub lt : F → F → Bool
  lt a b = not (le b a)

  -- `a == b`
  abbrev pub same : F → F → Bool
  same a b = if le a b then le b a else false

  -- `max(a, b)`: Python keeps the first unless the second is larger
  abbrev pub max : F → F → F
  max a b = if lt a b then b else a

  -- `min(a, b)`: Python keeps the first unless the second is smaller
  abbrev pub min : F → F → F
  min a b = if lt b a then b else a

-- the integers from -(2 ^ 53) to 2 ^ 53
abbrev pub IsExact : ℤ → Type 0
IsExact z = (pos_part z ≤ 9007199254740992) × (neg_part z ≤ 9007199254740992)

module _ (fl : Float) where
  open fl use {F, hundredths, of_int, add, sub, mul, div, pow, le, round}

  pub record FloatLaws : Type 0 where
    pub le_refl : (a : F) → le a a ≡ true
    pub le_trans : (a b c : F) → le a b ≡ true → le b c ≡ true → le a c ≡ true
    pub le_total : (a b : F) → le a b ≡ false → le b a ≡ true
    -- literals below 10,000 are told apart and keep their order
    pub hundredths_lt : (m n : ℕ) → m < n → n ≤ 1000000 → le (hundredths n) (hundredths m) ≡ false
    pub add_nonneg : (a b : F) → le (hundredths 0) b ≡ true → le a (add a b) ≡ true
    pub add_nonpos : (a b : F) → le b (hundredths 0) ≡ true → le (add a b) a ≡ true
    pub sub_nonneg : (a b : F) → le b a ≡ true → le (hundredths 0) (sub a b) ≡ true
    pub sub_nonpos : (a b : F) → le a b ≡ true → le (sub a b) (hundredths 0) ≡ true
    pub mul_nonneg :
        (a b : F)
        → le (hundredths 0) a ≡ true
        → le (hundredths 0) b ≡ true
        → le (hundredths 0) (mul a b) ≡ true
    pub mul_nonpos :
        (a b : F)
        → le (hundredths 0) a ≡ true
        → le b (hundredths 0) ≡ true
        → le (mul a b) (hundredths 0) ≡ true
    -- a / b for 0 <= a <= b and 0 < b
    pub div_bounds :
        (a b : F)
        → le (hundredths 0) a ≡ true
        → le a b ≡ true
        → le b (hundredths 0) ≡ false
        → (le (hundredths 0) (div a b) ≡ true) × (le (div a b) (hundredths 100) ≡ true)
    pub pow_nonneg : (a b : F) → le (hundredths 0) a ≡ true → le (hundredths 0) (pow a b) ≡ true
    pub of_int_nonneg : (n : ℕ) → le (hundredths 0) (of_int (pos n)) ≡ true
    pub sub_le : (a b : F) → le (hundredths 0) b ≡ true → le (sub a b) a ≡ true
    pub le_sub : (a b : F) → le b (hundredths 0) ≡ true → le a (sub a b) ≡ true
    pub add_pos :
        (a b : F)
        → le (hundredths 0) a ≡ true
        → le b (hundredths 0) ≡ false
        → le (add a b) (hundredths 0) ≡ false
    -- n * a is not below n for a not below 1.0
    pub mul_ge :
        (n : ℕ) (a : F)
        → le (hundredths 100) a ≡ true
        → le (of_int (pos n)) (mul (of_int (pos n)) a) ≡ true
    -- rounding does not pass an integer that is a double
    pub round_le : (a : F) (z : ℤ) → IsExact z → le a (of_int z) ≡ true → round a ≤ℤ z
    pub le_round : (a : F) (z : ℤ) → IsExact z → le (of_int z) a ≡ true → z ≤ℤ round a
