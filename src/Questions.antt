-- ===== src/Questions.antt =====
-- backend/app/services/questions.py: the seeded questions are brought in line with the files. A row
-- of `questions` holds the rows of its options and links. `now` is what `updated_at` is set to when a
-- column is written. A new question whose id or slug is taken breaks a constraint of the table, and a
-- deleted one takes its answers and reviews along (`ON DELETE CASCADE`).
pub mod Equality
pub mod Stored
pub mod Kept
pub mod Fields
pub mod Links
mod Samples
use interview_trainer.Prelude.{
  ℕ, ◌+◌, Bool, true, false, not, ◌&&◌, ◌||◌, List, [], ◌∷◌, ◌++◌, Option, none, some, String,
  if◌then◌else◌, ◌==◌, string_eq, nat_eq, find, keep, any, contains, map, length,
}
use interview_trainer.Prelude.Int.{ℤ, pos}
use interview_trainer.Exceptions.{Result, ok, err, ensure, ◌>>=◌, ◌>>◌}
use interview_trainer.Enums.{QuestionSource, seed}
use interview_trainer.Float.{Float}
use interview_trainer.Models.{
  Database, Question, QuestionOption, Specialization, UserAnswer, ReviewState,
  difficulty_from_peak_grade,
}
use interview_trainer.Session.{update}
use interview_trainer.Seed.{Invalid, to_set, difference, is_empty}
use interview_trainer.Seed.Questions.{OptionIn, QuestionIn, Library, question_id, grades}
use interview_trainer.Rows.{
  SeedError, integrity_error, unknown_grade, missing_specializations, EntityStats, no_stats,
  one_created, one_updated, Sync, sync_rows,
}
use interview_trainer.Taxonomy.{counts_changes}
use interview_trainer.TaxonomyRows.{bool_eq, enumerate}
use interview_trainer.Questions.Equality.{list_eq, option_eq, int_eq, type_eq, source_eq}
use interview_trainer.QuestionRows.{
  QuestionSyncReport, new_question_report, question_changes, is_seed, blank_question,
  initial_difficulty, next_difficulty, with_fields, same_fields, apply_fields, option_differs,
  options_sync, Loaded, sync_options, count_links,
}

-- the KeyError of `payload.grades()`
abbrev pub loaded_grades : Result Invalid (ℕ × ℕ × ℕ) → Result SeedError (ℕ × ℕ × ℕ)
loaded_grades (ok g) = ok g
loaded_grades (err _) = err unknown_grade

module _ (fl : Float) (lib : Library) where
  abbrev pub known_ids : Database fl → List String
  known_ids db = map (λ (s : Specialization). s.id) db.specializations

  -- `_sync_specializations`
  unfoldable pub sync_links :
      QuestionIn → Question → Database fl → QuestionSyncReport → Result SeedError Loaded
  unfolding to_set keep contains
  sync_links q row db report =
      let wanted = to_set q.specializations in
      let current = row.specializations in
      let found = keep (contains wanted) (known_ids db) in
      if is_empty (difference wanted current) && is_empty (difference current wanted)
      then ok (row, report)
      else ensure (is_empty (difference wanted found)) missing_specializations >>= λ _. ok (
        record row { specializations = found },
        record report {
          links =
              count_links report.links (length (difference wanted current))
                (length (difference current wanted));
        },
      )

  abbrev pub has_id : ℕ → Question → Bool
  has_id uuid r = is_seed r && r.id == uuid

  -- `existing.pop(payload.uuid, None)`
  unfoldable pub popped_question : ℕ → List ℕ → List Question → Option Question
  unfolding find contains
  popped_question uuid existing questions =
      if contains existing uuid then find (has_id uuid) questions else none

  -- whether a unique column of a new question is taken
  unfoldable pub is_taken : ℕ → String → List Question → Bool
  unfolding any
  is_taken uuid slug questions = any (λ (r : Question). r.id == uuid || r.slug == slug) questions

  -- the row with the fields of the file, and the counts
  unfoldable pub load_question :
      ℕ
      → QuestionIn
      → ℕ × ℕ × ℕ
      → List ℕ
      → Database fl
      → QuestionSyncReport
      → Result SeedError Loaded
  unfolding question_id popped_question is_taken blank_question apply_fields
  load_question now q g existing db report =
      let uuid = question_id lib q.slug in
      elim (popped_question uuid existing db.questions) [
        | none ↦
            if is_taken uuid q.slug db.questions
            then err integrity_error
            else ok (
              (apply_fields now true q g (blank_question uuid now q)).0,
              record report { questions = one_created report.questions },
            )
        | some row ↦
            let (row', changed) = apply_fields now false q g row in
            ok (
              row',
              if changed
                  then record report { questions = one_updated report.questions }
                  else report,
            )
      ]

  -- the row of the id, old or new
  unfoldable pub store_question : ℕ → List ℕ → Question → List Question → List Question
  unfolding update contains any
  store_question uuid existing row questions =
      if contains existing uuid && any (has_id uuid) questions
      then update (has_id uuid) (λ _. row) questions
      else questions ++ row ∷ []

  -- The body of the loop.
  unfoldable pub sync_question :
      ℕ
      → QuestionIn
      → List ℕ
      → Database fl
      → QuestionSyncReport
      → Result SeedError (Database fl × QuestionSyncReport)
  unfolding load_question sync_links sync_options store_question grades question_id
  sync_question now q existing db report = loaded_grades (grades q) >>= λ (g : ℕ × ℕ × ℕ).
      load_question now q g existing db report >>= λ (a : Loaded).
      sync_links q a.0 db a.1 >>= λ (b : Loaded). sync_options q b.0 b.1 >>= λ (c : Loaded). ok (
        record db { questions = store_question (question_id lib q.slug) existing c.0 db.questions },
        c.1,
      )

  unfoldable pub sync_questions_each :
      ℕ
      → List QuestionIn
      → List ℕ
      → Database fl
      → QuestionSyncReport
      → Result SeedError (List ℕ × Database fl × QuestionSyncReport)
  unfolding sync_question question_id keep
  sync_questions_each now [] existing db report = ok (existing, db, report)
  sync_questions_each now (q ∷ rest) existing db report =
      sync_question now q existing db report >>= λ (u : Database fl × QuestionSyncReport).
      sync_questions_each now rest (keep (λ k. not (k == question_id lib q.slug)) existing) u.0 u.1

  -- the loop over what is left, with the rows that refer to it
  unfoldable pub delete_questions : List ℕ → Database fl → Database fl
  unfolding keep contains
  delete_questions ids db = record db {
    questions = keep (λ (r : Question). not (is_seed r && contains ids r.id)) db.questions;
    user_answers = keep (λ (r : UserAnswer fl). not (contains ids r.question_id)) db.user_answers;
    review_states =
        keep (λ (r : ReviewState fl). not (contains ids r.question_id)) db.review_states;
  }

  -- `_existing_seed_questions`: the keys of the dict
  unfoldable pub existing_seed_questions : Database fl → List ℕ
  unfolding keep
  existing_seed_questions db = map (λ (r : Question). r.id) (keep is_seed db.questions)

  -- `sync`
  unfoldable pub sync_questions :
      ℕ → List QuestionIn → Database fl → Result SeedError (Database fl × QuestionSyncReport)
  unfolding existing_seed_questions sync_questions_each delete_questions
  sync_questions now incoming db =
      sync_questions_each now incoming (existing_seed_questions db) db new_question_report
      >>= λ (u : List ℕ × Database fl × QuestionSyncReport). ok (
        delete_questions u.0 u.1,
        record u.2 {
          questions = record u.2.questions { deleted = u.2.questions.deleted + length u.0 };
        },
      )
