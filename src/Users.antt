-- ===== src/Users.antt =====
-- backend/app/services/user.py: the profile of a user. One method is one action on the session.
pub mod Primary
pub mod Deletion
mod Samples
use Prim.Native.String.{compare}
use text.Mathlib.Text.{is_lt}
use interview_trainer.Prelude.{
  ℕ, Bool, true, false, not, ◌&&◌, List, [], ◌∷◌, ◌++◌, Option, none, some, String, if◌then◌else◌,
  ◌==◌, nat_eq, string_eq, find, keep, sort_by,
}
use interview_trainer.Exceptions.{not_found, invalid_input, ensure, require}
use interview_trainer.Float.{Float}
use interview_trainer.Models.{
  Database, Specialization, User, UserSpecialization, StudyPlan, QuestionReport, UserTopicRating,
  UserAnswer, ReviewState,
}
use interview_trainer.Session.{Action, update, pure, lift, query, write, ◌>>=◌, ◌>>◌}
use interview_trainer.Practice.Lookups.{is_profile, find_profile}

-- `self_assessed_grade if target_grade is None else target_grade`
unfoldable pub target_or : ℕ → Option ℕ → ℕ
target_or self_assessed_grade none = self_assessed_grade
target_or self_assessed_grade (some target) = target

-- The profile after the choice: a new row counts no answer yet, a row that exists keeps its count.
unfoldable pub chosen : ℕ → String → ℕ → ℕ → Bool → Option UserSpecialization → UserSpecialization
chosen user specialization grade target is_primary none = record {
  user_id = user;
  specialization_id = specialization;
  self_assessed_grade = grade;
  target_grade = target;
  is_primary = is_primary;
  answers_count = 0;
}
chosen user specialization grade target is_primary (some profile) = record profile {
  self_assessed_grade = grade;
  target_grade = target;
  is_primary = is_primary;
}

-- what `_reset_other_primaries` selects
unfoldable pub is_other_primary : ℕ → String → UserSpecialization → Bool
is_other_primary user kept p =
    p.user_id == user && (not (p.specialization_id == kept) && p.is_primary)

abbrev pub without_primary : UserSpecialization → UserSpecialization
without_primary p = record p { is_primary = false }

unfoldable pub reset_other_primaries :
    ℕ → String → List UserSpecialization → List UserSpecialization
unfolding update is_other_primary
reset_other_primaries user kept = update (is_other_primary user kept) without_primary

-- the profile added, or its row changed
unfoldable pub save_profile :
    ℕ
    → String
    → UserSpecialization
    → Option UserSpecialization
    → List UserSpecialization
    → List UserSpecialization
unfolding update is_profile
save_profile user specialization profile none rows = rows ++ profile ∷ []
save_profile user specialization profile (some _) rows =
    update (is_profile user specialization) (λ _. profile) rows

module _ {fl : Float} where
  unfoldable pub find_specialization : String → Database fl → Option Specialization
  unfolding find
  find_specialization specialization db = find (λ r. r.id == specialization) db.specializations

  abbrev pub with_profiles : List UserSpecialization → Database fl → Database fl
  with_profiles rows db = record db { user_specializations = rows }

  unfoldable pub set_specialization :
      User → String → ℕ → Bool → Option ℕ → Action fl UserSpecialization
  unfolding ◌>>=◌ find_specialization find_profile target_or chosen save_profile
      reset_other_primaries
  set_specialization user specialization_id self_assessed_grade is_primary target_grade = do
    row ← query (find_specialization specialization_id)
    specialization ← lift (require row not_found)
    lift (ensure specialization.is_active invalid_input)
    found ← query (find_profile user.id specialization_id)
    let target = target_or self_assessed_grade target_grade
    let profile = chosen user.id specialization_id self_assessed_grade target is_primary found
    write (λ db.
        with_profiles (save_profile user.id specialization_id profile found db.user_specializations)
          db)
    write (λ db.
        if is_primary
        then with_profiles (reset_other_primaries user.id specialization_id db.user_specializations)
            db
        else db)
    pure profile

  -- `delete_account`: the row of the user, and by `ON DELETE CASCADE` every row that refers to it
  unfoldable pub delete_user : ℕ → Database fl → Database fl
  unfolding keep
  delete_user user db = record db {
    users = keep (λ r. not (r.id == user)) db.users;
    user_specializations = keep (λ r. not (r.user_id == user)) db.user_specializations;
    user_topic_ratings = keep (λ r. not (r.user_id == user)) db.user_topic_ratings;
    user_answers = keep (λ r. not (r.user_id == user)) db.user_answers;
    review_states = keep (λ r. not (r.user_id == user)) db.review_states;
    study_plans = keep (λ r. not (r.user_id == user)) db.study_plans;
    question_reports = keep (λ r. not (r.user_id == user)) db.question_reports;
  }

  unfoldable pub delete_account : User → Action fl (Unit {0})
  unfolding write delete_user
  delete_account user = write (delete_user user.id)

  unfoldable pub list_specializations : User → Action fl (List UserSpecialization)
  unfolding query keep sort_by
  list_specializations user = query (λ db.
      sort_by (λ a b. is_lt (compare a.specialization_id b.specialization_id))
        (keep (λ r. r.user_id == user.id) db.user_specializations))
