-- ===== src/Practice/Scores.antt =====
-- How a choice is scored (`_evaluate`, backend/app/services/practice.py).
use interview_trainer.Prelude.{
  ◌≡◌, ◌↔◌, refl, sym, ◌∙◌, true, false, Bool, arith, List, [], ◌∷◌, String, contains, string_eq,
  nat_eq, any, all, ==_self, inl, inr, Bool-cases, eq_iff,
}
use interview_trainer.Exceptions.{ok}
use interview_trainer.Enums.{has_options}
use interview_trainer.Float.{Float}
use interview_trainer.Rating.{score_wrong, quality_from_score}
use interview_trainer.Models.{Question}
use interview_trainer.Practice.Evaluate.{
  AnswerSubmission, known_codes, correct_codes, subset, is_empty, choice_score, evaluate,
}

-- two selections of the same set
abbrev pub SameSet : List String → List String → Type 0
SameSet xs ys = (code : String) → contains xs code ≡ contains ys code

subset-elim :
    (xs ys : List String) (code : String)
    → subset xs ys ≡ true
    → contains xs code ≡ true
    → contains ys code ≡ true
unfolding subset all contains
subset-elim [] ys code h k = cc
subset-elim (x ∷ xs) ys code h k = ground (arith, subset-elim xs ys code, eq_iff x code)

contains-cons_of :
    (x : String) (xs : List String) (code : String)
    → contains xs code ≡ true
    → contains (x ∷ xs) code ≡ true
unfolding contains
contains-cons_of x xs code h = ground arith

contains-head : (x : String) (xs : List String) → contains (x ∷ xs) x ≡ true
unfolding contains
contains-head x xs = ground (arith, ==_self x)

subset-intro :
    (xs ys : List String)
    → ((code : String) → contains xs code ≡ true → contains ys code ≡ true)
    → subset xs ys ≡ true
unfolding subset all
subset-intro [] ys h = refl
subset-intro (x ∷ xs) ys h = ground (
  arith,
  h x (contains-head x xs),
  subset-intro xs ys (λ code k. h code (contains-cons_of x xs code k)),
)

subset_iff :
    (xs ys : List String)
    → (subset xs ys ≡ true) ↔ ((code : String) → contains xs code ≡ true → contains ys code ≡ true)
subset_iff xs ys = (λ h code k. subset-elim xs ys code h k, subset-intro xs ys)

-- two Booleans that are true together
same_truth : (a b : Bool) → ((a ≡ true) → b ≡ true) → ((b ≡ true) → a ≡ true) → a ≡ b
same_truth true b f g = sym (f refl)
same_truth false true f g = g refl
same_truth false false f g = refl

subset_same_left : (xs xs' ys : List String) → SameSet xs xs' → subset xs ys ≡ subset xs' ys
subset_same_left xs xs' ys same =
    same_truth _ _ (λ h. subset-intro xs' ys (λ code k. subset-elim xs ys code h (same code ∙ k)))
      (λ h. subset-intro xs ys (λ code k. subset-elim xs' ys code h (sym (same code) ∙ k)))

subset_same_right : (xs ys ys' : List String) → SameSet ys ys' → subset xs ys ≡ subset xs ys'
subset_same_right xs ys ys' same =
    same_truth _ _
      (λ h. subset-intro xs ys' (λ code k. sym (same code) ∙ subset-elim xs ys code h k))
      (λ h. subset-intro xs ys (λ code k. same code ∙ subset-elim xs ys' code h k))

any-contains-intro :
    (xs ys : List String) (code : String)
    → contains xs code ≡ true
    → contains ys code ≡ true
    → any (contains ys) xs ≡ true
unfolding any contains
any-contains-intro [] ys code h k = cc
any-contains-intro (x ∷ xs) ys code h k =
    ground (arith, any-contains-intro xs ys code, eq_iff x code)

any-contains-elim :
    (xs ys : List String)
    → any (contains ys) xs ≡ true
    → (code : String) × (contains xs code ≡ true) × (contains ys code ≡ true)
unfolding any
any-contains-elim [] ys h = cc
any-contains-elim (x ∷ xs) ys h = elim (Bool-cases (contains ys x)) [
  | inl here ↦ (x, contains-head x xs, here)
  | inr other ↦
      let (code, k, l) = any-contains-elim xs ys (ground arith) in
      (code, contains-cons_of x xs code k, l)
]

any_same : (xs xs' ys : List String) → SameSet xs xs' → any (contains ys) xs ≡ any (contains ys) xs'
any_same xs xs' ys same =
    same_truth _ _
      (λ h.
        let (code, k, l) = any-contains-elim xs ys h in
        any-contains-intro xs' ys code (sym (same code) ∙ k) l)
      (λ h.
        let (code, k, l) = any-contains-elim xs' ys h in
        any-contains-intro xs ys code (same code ∙ k) l)

subset-false :
    (xs ys : List String) (code : String)
    → contains xs code ≡ true
    → contains ys code ≡ false
    → subset xs ys ≡ false
subset-false xs ys code h k = ground (arith, subset-elim xs ys code)

is_empty-false : (xs : List String) (code : String) → contains xs code ≡ true → is_empty xs ≡ false
unfolding is_empty contains
is_empty-false [] code h = sym h
is_empty-false (x ∷ xs) code h = refl

module _ (fl : Float) where
  -- The order of the selected options and repetitions among them do not change the score.
  pub choice_score-SameSet :
      (xs xs' correct : List String)
      → SameSet xs xs'
      → choice_score fl xs correct ≡ choice_score fl xs' correct
  unfolding choice_score
  choice_score-SameSet xs xs' correct same = rw (
    subset_same_left xs xs' correct same,
    subset_same_right correct xs xs' same,
    any_same xs xs' correct same,
  )

  -- On a question with options, an answer that selects an option that is not correct scores
  -- nothing, if all that it selects are options.
  evaluate_wrong_option :
      (q : Question) (s : AnswerSubmission) (code : String)
      → has_options q.type ≡ true
      → subset s.selected_options (known_codes q) ≡ true
      → contains s.selected_options code ≡ true
      → contains (correct_codes q) code ≡ false
      → evaluate fl q s ≡ ok (score_wrong fl, quality_from_score fl (score_wrong fl))
  unfolding evaluate
  evaluate_wrong_option q s code h known selected wrong = ground (
    arith,
    subset-false s.selected_options (correct_codes q) code selected wrong,
    is_empty-false s.selected_options code selected,
  )
