-- ===== src/Seed/Accepted.antt =====
-- What a question has that the checks of backend/app/seed/question_schema.py accept.
use interview_trainer.Prelude.{
  ℕ, ◌≤◌, ◌≡◌, refl, arith, Bool, true, false, ◌&&◌, List, [], ◌∷◌, none, some, String, string_eq,
  if◌then◌else◌, length, leb, all, contains, distinct, lookup,
}
use interview_trainer.Exceptions.{Result, ok, err, ensure, ◌>>=◌, ◌>>◌}
use interview_trainer.Enums.{has_options}
use interview_trainer.Seed.{
  Invalid, unknown_grade, grade_order, check_each, reject_duplicates, is_empty,
}
use interview_trainer.Seed.Unique.{reject_duplicates_lem}
use interview_trainer.Seed.Questions.{
  OptionIn, QuestionIn, Library, check_answer, TaxonomyIndex, grades, check_grades, check_options,
  check_question, option_codes, correct_count, is_right_count, is_grade_code, check_reference,
  check_index,
}

-- Of two checks in a row.
pub both-ok : (m k : Result Invalid (Unit {0})) → (m >> k) ≡ ok tt → (m ≡ ok tt) × (k ≡ ok tt)
both-ok m k h = ground arith

pub ensure-ok : (b : Bool) (e : Invalid) → ensure b e ≡ ok tt → b ≡ true
ensure-ok b e h = ground arith

pub distinct-ok : (values : List String) → reject_duplicates values ≡ ok tt → distinct values ≡ true
distinct-ok values h = ground (arith, reject_duplicates_lem values)

pub record IsAccepted (q : QuestionIn) : Type 0 where
  pub low : ℕ
  pub peak : ℕ
  pub high : ℕ
  pub scale : grades q ≡ ok (low, peak, high)
  pub low_peak : low ≤ peak
  pub peak_high : peak ≤ high
  pub codes : distinct (option_codes q.options) ≡ true
  pub linked : distinct q.specializations ≡ true
  pub options :
      (if has_options q.type
        then leb 2 (length q.options) && is_right_count q.type (correct_count q.options)
        else is_empty q.options)
      ≡ true

abbrev in_order : ℕ × ℕ × ℕ → Bool
in_order g = leb g.0 g.1 && leb g.1 g.2

ordered :
    (m : Result Invalid (Unit {0})) (r : Result Invalid (ℕ × ℕ × ℕ))
    → (m >> (r >>= λ (g : ℕ × ℕ × ℕ). ensure (in_order g) grade_order)) ≡ ok tt
    → (low : ℕ) × (peak : ℕ) × (high : ℕ) × (r ≡ ok (low, peak, high))
      × (low ≤ peak)
      × (peak ≤ high)
ordered m (ok (low, peak, high)) h = (low, peak, high, refl, ground arith, ground arith)
ordered m (err x) h = absurd (ground arith)

ordered-check_grades :
    (q : QuestionIn)
    → check_grades q ≡ ok tt
    → (low : ℕ) × (peak : ℕ) × (high : ℕ) × (grades q ≡ ok (low, peak, high))
      × (low ≤ peak)
      × (peak ≤ high)
unfolding check_grades
ordered-check_grades q h =
    ordered
      (check_each (λ code. ensure (is_grade_code code) unknown_grade)
        (q.min_grade ∷ q.peak_grade ∷ q.max_grade ∷ []))
      (grades q) h

distinct-empty :
    (options : List OptionIn) → is_empty options ≡ true → distinct (option_codes options) ≡ true
unfolding distinct
distinct-empty [] h = refl
distinct-empty (o ∷ os) h = absurd (ground arith)

check_options-ok :
    (q : QuestionIn)
    → check_options q ≡ ok tt
    → (distinct (option_codes q.options) ≡ true)
      × ((if has_options q.type
            then leb 2 (length q.options) && is_right_count q.type (correct_count q.options)
            else is_empty q.options)
          ≡ true)
unfolding check_options
check_options-ok q h =
    ground (arith, reject_duplicates_lem (option_codes q.options), distinct-empty q.options)

module _ (lib : Library) where
  -- The grades of a question that passes are known and in order, its options and specializations are
  -- not repeated, and it has as many right options as its type asks for.
  pub check_question-IsAccepted : (q : QuestionIn) → check_question lib q ≡ ok tt → IsAccepted q
  unfolding check_question
  check_question-IsAccepted q h =
      let passed = check_grades q >> check_options q in
      let (h3, linked) =
        both-ok (passed >> check_answer lib q) (reject_duplicates q.specializations) h in
      let (h2, h_answer) = both-ok passed (check_answer lib q) h3 in
      let (h_grades, h_options) = both-ok (check_grades q) (check_options q) h2 in
      let (low, peak, high, scale, low_peak, peak_high) = ordered-check_grades q h_grades in
      let (codes, options) = check_options-ok q h_options in
      record {
        low = low;
        peak = peak;
        high = high;
        scale = scale;
        low_peak = low_peak;
        peak_high = peak_high;
        codes = codes;
        linked = distinct-ok q.specializations linked;
        options = options;
      }

-- the references of a question into the index
unfoldable pub is_resolved : TaxonomyIndex → QuestionIn → String → Bool
unfolding lookup contains
is_resolved index q specialization = elim (lookup specialization index) [
  | none ↦ false
  | some topics ↦ elim (lookup q.topic topics) [
    | none ↦ false
    | some subtopics ↦ elim q.subtopic [ none ↦ true | some code ↦ contains subtopics code ]
  ]
]

check_reference-is_resolved :
    (index : TaxonomyIndex) (q : QuestionIn) (s : String)
    → check_reference index q s ≡ ok tt
    → is_resolved index q s ≡ true
unfolding check_reference is_resolved
check_reference-is_resolved index q s h = ground arith

module _ {A : Type 0} (f : A → Result Invalid (Unit {0})) (p : A → Bool) where
  pub all-check_each :
      (xs : List A)
      → ((x : A) → f x ≡ ok tt → p x ≡ true)
      → check_each f xs ≡ ok tt
      → all p xs ≡ true
  unfolding check_each all
  all-check_each [] h e = refl
  all-check_each (x ∷ xs) h e =
      let (e1, e2) = both-ok (f x) (check_each f xs) e in
      ground (arith, h x e1, all-check_each xs h e2)

-- A bank that passes refers to topics and subtopics of the taxonomy only.
pub check_index-is_resolved :
    (index : TaxonomyIndex) (questions : List QuestionIn)
    → check_index index questions ≡ ok tt
    → all (λ q. all (is_resolved index q) q.specializations) questions ≡ true
unfolding check_index
check_index-is_resolved index questions h =
    all-check_each (λ (q : QuestionIn). check_each (check_reference index q) q.specializations)
      (λ q. all (is_resolved index q) q.specializations) questions
      (λ q.
        all-check_each (check_reference index q) (is_resolved index q) q.specializations
          (check_reference-is_resolved index q))
      h
