-- ===== src/Practice/Feed.antt =====
-- What is offered next (`next_question` and below, backend/app/services/practice.py). A query with
-- `limit` and no order takes the first rows of the table.
use Prim.Native.String.{compare}
use text.Mathlib.Text.{is_lt}
use interview_trainer.Prelude.{
  ℕ, ◌-◌, Bool, true, false, not, ◌&&◌, List, [], ◌∷◌, Option, none, some, String, ltb, leb, take,
  first, if◌then◌else◌, ◌==◌, nat_eq, string_eq, find, keep, any, contains, sort_by, max_by,
}
use interview_trainer.Prelude.Int.{pos}
use interview_trainer.Exceptions.{not_found, require}
use interview_trainer.Float.{Float, lt, same}
use interview_trainer.Rating.{get_or, normalized_rating, start_rating}
use interview_trainer.Models.{Database, Question, ReviewState, User, UserAnswer}
use interview_trainer.Session.{Action, lift, query, ◌>>=◌}
use interview_trainer.Practice.Lookups.{
  feed_grade, find_profile, topic_weights, topic_ratings, topic_titles, subtopic_titles,
  find_review,
}

abbrev pub candidate_limit : ℕ
candidate_limit = 200

pub record NextQuestion : Type 0 where
  pub question : Question
  pub is_review : Bool
  pub due_at : Option ℕ
  pub topic_title : String
  pub subtopic_title : Option String

-- a question with the time at which its review is due
abbrev pub Due : Type 0
Due = Question × ℕ

-- `ORDER BY due_at, slug`
unfoldable pub due_before : Due → Due → Bool
due_before a b = if a.1 == b.1 then is_lt (compare a.0.slug b.0.slug) else ltb a.1 b.1

unfoldable pub is_linked : String → Question → Bool
unfolding contains
is_linked specialization q = contains q.specializations specialization

-- the grade lies in the question's range
unfoldable pub in_grade_range : ℕ → Question → Bool
in_grade_range grade q = leb q.min_grade grade && leb grade q.max_grade

-- `abs(a - b)`
abbrev pub distance : ℕ → ℕ → ℕ
distance a b = if ltb a b then b - a else a - b

module _ (fl : Float) where
  open fl use {F, hundredths, of_int, add, sub, mul, div}

  unfoldable pub with_titles : String → Question → Bool → Option ℕ → Database fl → NextQuestion
  unfolding topic_titles subtopic_titles get_or
  with_titles specialization question is_review due_at db = record {
    question = question;
    is_review = is_review;
    due_at = due_at;
    topic_title = get_or question.topic_code question.topic_code (topic_titles specialization db);
    subtopic_title = elim question.subtopic_code [
      | none ↦ none
      | some code ↦
          if code == "" then none else some (get_or code code (subtopic_titles specialization db))
    ];
  }

  -- the due reviews of a user among some questions of a specialization, in the order of the table
  unfoldable pub due_reviews : ℕ → ℕ → String → List Question → List (ReviewState fl) → List Due
  unfolding is_linked find
  due_reviews now user specialization questions [] = []
  due_reviews now user specialization questions (r ∷ rs) =
      let rest = due_reviews now user specialization questions rs in
      elim (find (λ q. q.id == r.question_id && is_linked specialization q) questions) [
        | none ↦ rest
        | some q ↦ if r.user_id == user && leb r.due_at now then (q, r.due_at) ∷ rest else rest
      ]

  unfoldable pub next_due_question : ℕ → ℕ → String → Database fl → Option Due
  unfolding due_reviews sort_by due_before
  next_due_question now user specialization db =
      first (sort_by due_before (due_reviews now user specialization db.questions db.review_states))

  -- `Question.id.not_in(answered)`
  unfoldable pub is_answered : ℕ → List (UserAnswer fl) → Question → Bool
  unfolding any
  is_answered user answers q = any (λ a. a.user_id == user && a.question_id == q.id) answers

  unfoldable pub priority : ℕ → List (String × F) → List (String × F) → Question → F
  unfolding get_or
  priority grade weights ratings q =
      let weight = get_or (hundredths 10) q.topic_code weights in
      let gap =
        sub (hundredths 100)
          (normalized_rating fl (get_or (start_rating fl) q.topic_code ratings)) in
      let proximity =
        div (hundredths 100) (add (hundredths 100) (of_int (pos (distance q.peak_grade grade)))) in
      let frequency = div (of_int (pos q.frequency)) (hundredths 500) in
      mul (mul (mul weight gap) proximity) frequency

  -- `<` on the keys `(priority, slug)`
  unfoldable pub key_before : (Question → F) → Question → Question → Bool
  key_before key a b =
      if same fl (key a) (key b) then is_lt (compare a.slug b.slug) else lt fl (key a) (key b)

  -- the condition of the query for new questions
  abbrev pub is_candidate : ℕ → String → ℕ → Database fl → Question → Bool
  is_candidate user specialization grade db q =
      is_linked specialization q
      && (in_grade_range grade q && not (is_answered user db.user_answers q))

  unfoldable pub next_new_question : ℕ → String → ℕ → Database fl → Option Question
  unfolding keep is_linked in_grade_range is_answered topic_weights topic_ratings priority max_by
      key_before
  next_new_question user specialization grade db =
      let key =
        priority grade (topic_weights specialization grade db)
          (topic_ratings user specialization db) in
      elim (take candidate_limit (keep (is_candidate user specialization grade db) db.questions)) [
        | [] ↦ none
        | q ∷ qs ↦ some (max_by (key_before key) q qs)
      ]

  unfoldable pub offer_new : ℕ → String → ℕ → Action fl NextQuestion
  unfolding ◌>>=◌ next_new_question with_titles
  offer_new user specialization grade = do
    fresh ← query (next_new_question user specialization grade)
    question ← lift (require fresh not_found)
    query (with_titles specialization question false none)

  unfoldable pub next_question : ℕ → User → String → Action fl NextQuestion
  unfolding offer_new find_profile feed_grade next_due_question
  next_question now user specialization = do
    found ← query (find_profile user.id specialization)
    profile ← lift (require found not_found)
    due ← query (next_due_question now user.id specialization)
    elim due [
      | some (question, due_at) ↦ query (with_titles specialization question true (some due_at))
      | none ↦ offer_new user.id specialization (feed_grade profile)
    ]

  -- `question_by_id`
  unfoldable pub question_by_id : User → String → ℕ → Action fl NextQuestion
  unfolding ◌>>=◌ find_profile find is_linked with_titles find_review
  question_by_id user specialization question_id = do
    found ← query (find_profile user.id specialization)
    profile ← lift (require found not_found)
    row ← query (λ db. find (λ q. q.id == question_id && is_linked specialization q) db.questions)
    question ← lift (require row not_found)
    state ← query (find_review user.id question.id)
    elim state [
      | some r ↦ query (with_titles specialization question true (some r.due_at))
      | none ↦ query (with_titles specialization question false none)
    ]
