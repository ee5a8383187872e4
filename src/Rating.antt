-- ===== src/Rating.antt =====
-- backend/app/services/rating.py: the Elo estimate of a user's level. A dictionary is the list of
-- its items in the order of their insertion.
pub mod Laws
pub mod Overall
mod Samples
use interview_trainer.Prelude.{
  ℕ, Bool, List, [], ◌∷◌, Option, none, some, String, ltb, if◌then◌else◌, ◌==◌, string_eq, lookup,
}
use interview_trainer.Prelude.Int.{ℤ, pos, ◌-ℤ◌, leb_ℤ, eq_ℤ}
use interview_trainer.Float.{Float, lt, same, max, min}
use interview_trainer.Grades.{
  grade_intern, grade_junior, grade_junior_plus, grade_middle, grade_middle_plus, grade_senior,
  grade_lead,
}

abbrev pub k_initial : ℕ
k_initial = 32

abbrev pub k_experienced : ℕ
k_experienced = 16

abbrev pub k_question : ℕ
k_question = 4

abbrev pub experience_threshold : ℕ
experience_threshold = 30

abbrev pub min_answers_for_estimate : ℕ
min_answers_for_estimate = 20

unfoldable pub user_k_factor : ℕ → ℕ
user_k_factor answers_on_topic =
    if ltb answers_on_topic experience_threshold then k_initial else k_experienced

-- `d.get(key, default)`
unfoldable pub get_or {ℓ} : {V : Type ℓ} → V → String → List (String × V) → V
unfolding lookup
get_or default key d = elim (lookup key d) [ none ↦ default | some v ↦ v ]

module _ (fl : Float) where
  open fl use {F, hundredths, of_int, add, sub, mul, div, pow, le, round}

  abbrev pub start_rating : F
  start_rating = hundredths 120000

  abbrev pub score_correct : F
  score_correct = hundredths 100

  abbrev pub score_partial : F
  score_partial = hundredths 50

  abbrev pub score_wrong : F
  score_wrong = hundredths 0

  -- The lowest rating of each grade, in descending order.
  abbrev pub grade_thresholds : List (F × ℕ)
  grade_thresholds =
      (hundredths 180000, grade_lead)
      ∷ (hundredths 160000, grade_senior)
      ∷ (hundredths 145000, grade_middle_plus)
      ∷ (hundredths 130000, grade_middle)
      ∷ (hundredths 115000, grade_junior_plus)
      ∷ (hundredths 100000, grade_junior)
      ∷ []

  abbrev pub normalize_min : F
  normalize_min = hundredths 100000

  abbrev pub normalize_max : F
  normalize_max = hundredths 180000

  pub record EloUpdate : Type 0 where
    pub user_rating_before : F
    pub user_rating_after : F
    pub question_rating_before : ℤ
    pub question_rating_after : ℤ

  unfoldable pub user_delta : EloUpdate → F
  user_delta u = sub u.user_rating_after u.user_rating_before

  unfoldable pub question_delta : EloUpdate → ℤ
  question_delta u = u.question_rating_after -ℤ u.question_rating_before

  unfoldable pub expected_score : F → F → F
  expected_score user_rating question_rating = div (hundredths 100) (
      add (hundredths 100)
        (pow (hundredths 1000) (div (sub question_rating user_rating) (hundredths 40000))))

  unfoldable pub apply_elo : F → ℤ → F → ℕ → EloUpdate
  apply_elo user_rating question_rating score answers_on_topic =
      let expected = expected_score user_rating (of_int question_rating) in
      let k_user = user_k_factor answers_on_topic in
      record {
        user_rating_before = user_rating;
        user_rating_after = add user_rating (mul (of_int (pos k_user)) (sub score expected));
        question_rating_before = question_rating;
        question_rating_after =
            round
              (sub (of_int question_rating) (mul (of_int (pos k_question)) (sub score expected)));
      }

  -- the loop of `grade_from_rating`
  unfoldable pub first_grade : F → List (F × ℕ) → ℕ
  first_grade rating [] = grade_intern
  first_grade rating ((threshold, grade) ∷ rest) =
      let later = first_grade rating rest in if le threshold rating then grade else later

  unfoldable pub grade_from_rating : F → ℕ
  unfolding first_grade
  grade_from_rating rating = first_grade rating grade_thresholds

  unfoldable pub normalized_rating : F → F
  normalized_rating rating =
      let span = sub normalize_max normalize_min in
      min fl (hundredths 100) (max fl (hundredths 0) (div (sub rating normalize_min) span))

  -- the loop of `overall_rating`: the numerator and the denominator
  unfoldable pub weigh : List (String × F) → F × F → List (String × F) → F × F
  unfolding get_or
  weigh weights (numerator, denominator) [] = (numerator, denominator)
  weigh weights (numerator, denominator) ((topic_code, rating) ∷ rest) =
      let weight = get_or (hundredths 0) topic_code weights in
      weigh weights
        (if le weight (hundredths 0)
          then (numerator, denominator)
          else (add numerator (mul rating weight), add denominator weight))
        rest

  unfoldable pub overall_rating : List (String × F) → List (String × F) → Option F
  overall_rating ratings weights =
      let (numerator, denominator) = weigh weights (hundredths 0, hundredths 0) ratings in
      if same fl denominator (hundredths 0) then none else some (div numerator denominator)

  unfoldable pub score_from_quality : ℤ → F
  score_from_quality quality =
      if leb_ℤ (pos 4) quality
      then score_correct
      else if eq_ℤ quality (pos 3)
      then score_partial
      else score_wrong

  unfoldable pub quality_from_score : F → ℤ
  quality_from_score score =
      if le score_correct score then pos 5 else if le score_partial score then pos 3 else pos 1
