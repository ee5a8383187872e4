-- ===== src/Rating/Laws.antt =====
-- Elo updates, grades and scores (backend/app/services/rating.py).
use interview_trainer.Prelude.{ℕ, ◌≤◌, ◌≡◌, ◌⊎◌, true, false, arith}
use interview_trainer.Prelude.Int.{ℤ, pos, ◌≤ℤ◌}
use interview_trainer.Float.{Float, FloatLaws, IsExact}
use interview_trainer.Rating.{
  expected_score, user_k_factor, apply_elo, grade_from_rating, normalized_rating,
  score_from_quality, quality_from_score, score_correct, score_partial, score_wrong, k_question,
}

module _ (fl : Float) where
  open fl use {F, hundredths, of_int, add, sub, mul, div, le, round}

  -- Every grade that a rating is given lies on the scale.
  pub grade_from_rating-le_lead : (rating : F) → grade_from_rating fl rating ≤ 6
  unfolding grade_from_rating
  grade_from_rating-le_lead rating = ground arith

  module _ (laws : FloatLaws fl) where
    -- A higher rating never has a lower grade.
    pub grade_from_rating_mono :
        (a b : F) → le a b ≡ true → grade_from_rating fl a ≤ grade_from_rating fl b
    unfolding grade_from_rating
    grade_from_rating_mono a b h = ground (
      arith,
      laws.le_trans (hundredths 180000) a b,
      laws.le_trans (hundredths 160000) a b,
      laws.le_trans (hundredths 145000) a b,
      laws.le_trans (hundredths 130000) a b,
      laws.le_trans (hundredths 115000) a b,
      laws.le_trans (hundredths 100000) a b,
    )

    literal_le : (m n : ℕ) → m ≤ n → n ≤ 1000000 → le (hundredths m) (hundredths n) ≡ true
    literal_le m n h k = ground (
      arith,
      laws.hundredths_lt m n,
      laws.le_total (hundredths n) (hundredths m),
      laws.le_refl (hundredths m),
    )

    odds_lem :
        (p : F)
        → le (hundredths 0) p ≡ true
        → (le (hundredths 100) (add (hundredths 100) p) ≡ true)
          × (le (add (hundredths 100) p) (hundredths 0) ≡ false)
    odds_lem p h = ground (
      arith,
      laws.add_nonneg (hundredths 100) p,
      laws.le_trans (hundredths 100) (add (hundredths 100) p) (hundredths 0),
      laws.hundredths_lt 0 100,
    )

    expected_score_bounds :
        (u q : F)
        → (le (hundredths 0) (expected_score fl u q) ≡ true)
          × (le (expected_score fl u q) (hundredths 100) ≡ true)
    unfolding expected_score
    expected_score_bounds u q =
        let p = fl.pow (hundredths 1000) (div (sub q u) (hundredths 40000)) in
        let odds =
          odds_lem p
            (laws.pow_nonneg (hundredths 1000) _ (literal_le 0 1000 (omega arith) (omega arith))) in
        laws.div_bounds (hundredths 100) (add (hundredths 100) p)
          (literal_le 0 100 (omega arith) (omega arith)) odds.0 odds.1

    gain_lem :
        (k : ℕ) (score expected : F)
        → le expected score ≡ true
        → le (hundredths 0) (mul (of_int (pos k)) (sub score expected)) ≡ true
    gain_lem k score expected h =
        laws.mul_nonneg _ _ (laws.of_int_nonneg k) (laws.sub_nonneg score expected h)

    loss_lem :
        (k : ℕ) (score expected : F)
        → le score expected ≡ true
        → le (mul (of_int (pos k)) (sub score expected)) (hundredths 0) ≡ true
    loss_lem k score expected h =
        laws.mul_nonpos _ _ (laws.of_int_nonneg k) (laws.sub_nonpos score expected h)

    -- A correct answer never lowers the user's rating and never raises the question's, as long as the
    -- rating of the question is an integer from -(2 ^ 53) to 2 ^ 53.
    pub apply_elo_correct :
        (user_rating : F) (question_rating : ℤ) (answers : ℕ)
        → IsExact question_rating
        → let u = apply_elo fl user_rating question_rating (score_correct fl) answers in
          (le user_rating u.user_rating_after ≡ true) × (u.question_rating_after ≤ℤ question_rating)
    unfolding apply_elo
    apply_elo_correct user_rating question_rating answers exact =
        let bounds = expected_score_bounds user_rating (of_int question_rating) in
        (
          laws.add_nonneg _ _ (gain_lem (user_k_factor answers) _ _ bounds.1),
          laws.round_le _ question_rating exact
              (laws.sub_le _ _ (gain_lem k_question _ _ bounds.1)),
        )

    -- A wrong answer never raises the user's rating and never lowers the question's.
    apply_elo_wrong :
        (user_rating : F) (question_rating : ℤ) (answers : ℕ)
        → IsExact question_rating
        → let u = apply_elo fl user_rating question_rating (score_wrong fl) answers in
          (le u.user_rating_after user_rating ≡ true) × (question_rating ≤ℤ u.question_rating_after)
    unfolding apply_elo
    apply_elo_wrong user_rating question_rating answers exact =
        let bounds = expected_score_bounds user_rating (of_int question_rating) in
        (
          laws.add_nonpos _ _ (loss_lem (user_k_factor answers) _ _ bounds.0),
          laws.le_round _ question_rating exact
              (laws.le_sub _ _ (loss_lem k_question _ _ bounds.0)),
        )

    -- The rating on the scale from 0 to 1 never leaves it.
    normalized_rating_bounds :
        (rating : F)
        → (le (hundredths 0) (normalized_rating fl rating) ≡ true)
          × (le (normalized_rating fl rating) (hundredths 100) ≡ true)
    unfolding normalized_rating
    normalized_rating_bounds rating =
        let x =
          div (sub rating (hundredths 100000)) (sub (hundredths 180000) (hundredths 100000)) in
        ground (
          arith,
          literal_le 0 100,
          laws.le_refl (hundredths 0),
          laws.le_refl (hundredths 100),
          laws.le_total x (hundredths 0),
          laws.le_total (hundredths 100) (hundredths 0),
          laws.le_total (hundredths 100) x,
        )

    -- A score in words of quality and back is the score, and the quality is from 0 to 5.
    score_from_quality-quality_from_score :
        (score : F)
        → (score ≡ score_correct fl) ⊎ (score ≡ score_partial fl) ⊎ (score ≡ score_wrong fl)
        → (score_from_quality fl (quality_from_score fl score) ≡ score)
          × (pos 0 ≤ℤ quality_from_score fl score)
          × (quality_from_score fl score ≤ℤ pos 5)
    unfolding score_from_quality quality_from_score
    score_from_quality-quality_from_score score h = ground (
      arith,
      laws.hundredths_lt 0 50,
      laws.hundredths_lt 50 100,
      laws.hundredths_lt 0 100,
      laws.le_refl (hundredths 100),
      laws.le_refl (hundredths 50),
    )
