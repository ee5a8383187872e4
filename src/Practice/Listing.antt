-- ===== src/Practice/Listing.antt =====
-- The list of questions and the offline package (`question_list`, `_answer_index`, `_due_index`,
-- `question_package`, backend/app/services/practice.py; the counts of backend/app/api/v1/practice.py).
use Prim.Native.String.{compare}
use text.Mathlib.Text.{is_lt}
use interview_trainer.Prelude.{
  ℕ, ◌+◌, Bool, true, false, ◌&&◌, List, [], ◌∷◌, Option, none, some, String, ltb, length,
  if◌then◌else◌, ◌==◌, nat_eq, string_eq, find, keep, map, sort_by,
}
use interview_trainer.Exceptions.{not_found, require}
use interview_trainer.Enums.{QuestionStatus, unanswered, correct, partial, wrong, from_score}
use interview_trainer.Float.{Float}
use interview_trainer.Rating.{get_or}
use interview_trainer.Models.{Database, Question, ReviewState, Specialization, User, UserAnswer}
use interview_trainer.Session.{Action, pure, lift, query, ◌>>=◌}
use interview_trainer.Practice.Lookups.{feed_grade, find_profile, topic_titles, subtopic_titles}
use interview_trainer.Practice.Feed.{is_linked, in_grade_range}

pub record AnswerSummary : Type 0 where
  pub status : QuestionStatus
  pub count : ℕ
  pub at : Option ℕ

abbrev pub no_answers : AnswerSummary
no_answers = record { status = unanswered; count = 0; at = none }

pub record QuestionListItem : Type 0 where
  pub question : Question
  pub topic_title : String
  pub status : QuestionStatus
  pub answers_count : ℕ
  pub last_answered_at : Option ℕ
  pub due_at : Option ℕ
  pub in_grade_range : Bool

pub record QuestionList : Type 0 where
  pub specialization_id : String
  pub grade : ℕ
  pub items : List QuestionListItem

pub record QuestionPackage : Type 0 where
  pub specialization_id : String
  pub synced_at : ℕ
  pub questions : List Question
  pub topic_titles : List (String × String)
  pub subtopic_titles : List (String × String)

unfoldable pub same_status : QuestionStatus → QuestionStatus → Bool
same_status unanswered unanswered = true
same_status correct correct = true
same_status partial partial = true
same_status wrong wrong = true
same_status _ _ = false

-- `QuestionList.count`
unfoldable pub count_status : QuestionStatus → List QuestionListItem → ℕ
unfolding keep same_status
count_status status items = length (keep (λ i. same_status i.status status) items)

-- `summary[answer.question_id] = …` of `_answer_index`, as a map from ids
abbrev pub Index : Type 0
Index = ℕ → Option AnswerSummary

abbrev pub summary_of : Option AnswerSummary → AnswerSummary
summary_of none = no_answers
summary_of (some s) = s

module _ (fl : Float) where
  unfoldable pub add_answer : UserAnswer fl → Index → Index
  unfolding from_score
  add_answer answer index id =
      if answer.question_id == id
      then some (record {
        status = from_score fl answer.score;
        count = (summary_of (index id)).count + 1;
        at = some answer.answered_at;
      })
      else index id

  -- the loop over the rows
  unfoldable pub summarize : List (UserAnswer fl) → Index → Index
  unfolding add_answer
  summarize [] index = index
  summarize (answer ∷ rest) index = summarize rest (add_answer answer index)

  unfoldable pub answers_of : ℕ → String → Database fl → List (UserAnswer fl)
  unfolding keep
  answers_of user specialization db =
      keep (λ a. a.user_id == user && a.specialization_id == specialization) db.user_answers

  unfoldable pub answer_index : ℕ → String → Database fl → Index
  unfolding summarize answers_of sort_by
  answer_index user specialization db =
      summarize
        (sort_by (λ a b. ltb a.answered_at b.answered_at) (answers_of user specialization db))
        (λ _. none)

  unfoldable pub due_index : ℕ → Database fl → ℕ → Option ℕ
  unfolding find
  due_index user db id =
      elim (find (λ (r : ReviewState fl). r.user_id == user && r.question_id == id)
        db.review_states) [ none ↦ none | some r ↦ some r.due_at ]

  -- `ORDER BY topic_code, slug`
  abbrev pub list_before : Question → Question → Bool
  list_before a b =
      if a.topic_code == b.topic_code
      then is_lt (compare a.slug b.slug)
      else is_lt (compare a.topic_code b.topic_code)

  unfoldable pub list_item :
      ℕ → Index → (ℕ → Option ℕ) → List (String × String) → Question → QuestionListItem
  unfolding get_or in_grade_range
  list_item grade answers due titles q = record {
    question = q;
    topic_title = get_or q.topic_code q.topic_code titles;
    status = (summary_of (answers q.id)).status;
    answers_count = (summary_of (answers q.id)).count;
    last_answered_at = (summary_of (answers q.id)).at;
    due_at = due q.id;
    in_grade_range = in_grade_range grade q;
  }

  unfoldable pub question_list : User → String → Action fl QuestionList
  unfolding ◌>>=◌ find_profile feed_grade keep is_linked sort_by answer_index due_index topic_titles
      list_item
  question_list user specialization = do
    found ← query (find_profile user.id specialization)
    profile ← lift (require found not_found)
    questions ← query (λ db. sort_by list_before (keep (is_linked specialization) db.questions))
    answers ← query (answer_index user.id specialization)
    due ← query (due_index user.id)
    titles ← query (topic_titles specialization)
    pure (record {
      specialization_id = specialization;
      grade = feed_grade profile;
      items = map (list_item (feed_grade profile) answers due titles) questions;
    })

  -- what changed since the last synchronisation
  abbrev pub is_newer : Option ℕ → Question → Bool
  is_newer none q = true
  is_newer (some since) q = ltb since q.updated_at

  unfoldable pub question_package : ℕ → String → Option ℕ → Action fl QuestionPackage
  unfolding ◌>>=◌ find keep is_linked sort_by topic_titles subtopic_titles
  question_package now specialization since = do
    row ← query (λ db. find (λ (x : Specialization). x.id == specialization) db.specializations)
    known ← lift (require row not_found)
    questions ← query (λ db.
        sort_by (λ a b. is_lt (compare a.slug b.slug))
          (keep (λ q. is_linked specialization q && is_newer since q) db.questions))
    topics ← query (topic_titles specialization)
    subtopics ← query (subtopic_titles specialization)
    pure (record {
      specialization_id = specialization;
      synced_at = now;
      questions = questions;
      topic_titles = topics;
      subtopic_titles = subtopics;
    })
