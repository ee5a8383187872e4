-- ===== src/Reports.antt =====
-- backend/app/services/reports.py: questions sent in by users. The text functions of Python's
-- library (`strip`, the length in code points, and `fingerprint`, a SHA-256 of the NFKC case fold)
-- are the record `Text`.
pub mod Queue
mod Samples
use interview_trainer.Prelude.{
  ℕ, ◌-◌, ◌*◌, Bool, true, false, not, ◌&&◌, List, [], ◌∷◌, ◌++◌, Option, none, some, String,
  if◌then◌else◌, ◌==◌, nat_eq, string_eq, find, keep, any, length, ltb, leb,
}
use interview_trainer.Enums.{ReportStatus, new}
use interview_trainer.Exceptions.{not_found, invalid_input, ensure, require}
use interview_trainer.Float.{Float}
use interview_trainer.Models.{Database, QuestionReport, Specialization, Topic, User}
use interview_trainer.Session.{Action, pure, lift, query, write, ◌>>=◌, ◌>>◌}
use interview_trainer.Scheduler.{days}
use interview_trainer.Users.{find_specialization}

abbrev pub daily_limit : ℕ
daily_limit = 20

-- `RATE_WINDOW`
abbrev pub rate_window : ℕ
rate_window = days 1

abbrev pub min_title_length : ℕ
min_title_length = 15

-- What is used of Python's text library and of the database's clock and keys.
pub record Text : Type 0 where
  pub strip : String → String
  pub code_points : String → ℕ
  pub fingerprint : String → String

pub record ReportSubmission : Type 0 where
  pub specialization_id : String
  pub title : String
  pub topic_code : Option String
  pub details : Option String
  pub company : Option String
  pub asked_grade : Option ℕ

pub record ReportResult : Type 0 where
  pub report : QuestionReport
  pub is_duplicate : Bool

-- the reports of a user that the window counts
unfoldable pub is_recent : ℕ → ℕ → QuestionReport → Bool
is_recent now user r = r.user_id == user && leb (now - rate_window) r.created_at

unfoldable pub recent_count : ℕ → ℕ → List QuestionReport → ℕ
unfolding keep is_recent
recent_count now user reports = length (keep (is_recent now user) reports)

unfoldable pub is_same_report : ℕ → String → QuestionReport → Bool
is_same_report user digest r = r.user_id == user && r.title_fingerprint == digest

module _ (text : Text) where
  open text use {strip, code_points, fingerprint}

  -- `_clean`
  unfoldable pub clean : Option String → Option String
  clean none = none
  clean (some value) = let stripped = strip value in if stripped == "" then none else some stripped

  abbrev pub report_row : ℕ → ℕ → User → ReportSubmission → Option String → QuestionReport
  report_row now id user submission topic_code =
      let title = strip submission.title in
      record {
        id = id;
        user_id = user.id;
        specialization_id = submission.specialization_id;
        topic_code = topic_code;
        title = title;
        title_fingerprint = fingerprint title;
        details = clean submission.details;
        company = clean submission.company;
        asked_grade = submission.asked_grade;
        status = new;
        created_at = now;
      }

  module _ {fl : Float} where
    -- `_resolve_topic`
    unfoldable pub resolve_topic : String → Option String → Database fl → Option String
    unfolding any
    resolve_topic specialization none db = none
    resolve_topic specialization (some code) db =
        if any (λ (t : Topic). t.specialization_id == specialization && t.code == code) db.topics
        then some code
        else none

    unfoldable pub find_report : ℕ → String → Database fl → Option QuestionReport
    unfolding find is_same_report
    find_report user digest db = find (is_same_report user digest) db.question_reports

    abbrev pub with_report : QuestionReport → Database fl → Database fl
    with_report report db = record db { question_reports = db.question_reports ++ report ∷ [] }

    -- from `_check_rate_limit` on
    unfoldable pub add_report :
        ℕ → ℕ → User → ReportSubmission → Option String → Action fl ReportResult
    unfolding ◌>>=◌ recent_count clean
    add_report now id user submission topic_code = do
      recent ← query (λ db. recent_count now user.id db.question_reports)
      lift (ensure (ltb recent daily_limit) invalid_input)
      let report = report_row now id user submission topic_code
      write (with_report report)
      pure (record { report = report; is_duplicate = false })

    unfoldable pub submit : ℕ → ℕ → User → ReportSubmission → Action fl ReportResult
    unfolding ◌>>=◌ add_report find_specialization resolve_topic find_report
    submit now id user submission = do
      let title = strip submission.title
      lift (ensure (leb min_title_length (code_points title)) invalid_input)
      row ← query (find_specialization submission.specialization_id)
      specialization ← lift (require row not_found)
      topic_code ← query (resolve_topic submission.specialization_id submission.topic_code)
      existing ← query (find_report user.id (fingerprint title))
      elim existing [
        | some report ↦ pure (record { report = report; is_duplicate = true })
        | none ↦ add_report now id user submission topic_code
      ]
