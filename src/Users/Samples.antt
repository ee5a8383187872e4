-- ===== src/Users/Samples.antt =====
-- Profiles and accounts at concrete inputs.
use interview_trainer.Prelude.{◌≡◌, refl, arith, true, false, none, some}
use interview_trainer.Exceptions.{ok}
use interview_trainer.Models.{UserSpecialization}
use interview_trainer.Practice.Lookups.{find_profile, find_submission, find_review}
use interview_trainer.Users.{set_specialization, delete_account, target_or}
use interview_trainer.Users.Primary.{
  no_other_primary, set_specialization-find_profile, set_specialization-no_other_primary,
}
use interview_trainer.Users.Deletion.{mentions, delete_account_lem}
use interview_trainer.Sample.{ann, ann_python, sample_session}

abbrev chosen_again : UserSpecialization
chosen_again = record ann_python { self_assessed_grade = 4; target_grade = 4 }

set_specialization_again :
    (set_specialization ann "python" 4 true none sample_session).0 ≡ ok chosen_again
unfolding set_specialization
set_specialization_again = refl

set_specialization-find_profile_example :
    (find_profile 1 "python" (set_specialization ann "python" 4 true none sample_session).1.current
      ≡ some chosen_again)
    × (chosen_again.self_assessed_grade ≡ 4)
    × (chosen_again.target_grade ≡ target_or 4 none)
    × (chosen_again.is_primary ≡ true)
set_specialization-find_profile_example =
    set_specialization-find_profile ann "python" 4 true none sample_session chosen_again
      set_specialization_again

set_specialization-no_other_primary_example :
    no_other_primary 1 "python"
      (set_specialization ann "python" 4 true none sample_session).1.current.user_specializations
    ≡ true
set_specialization-no_other_primary_example =
    set_specialization-no_other_primary ann "python" 4 none sample_session chosen_again
      set_specialization_again

delete_account_lem_example :
    let db = (delete_account ann sample_session).1.current in
    (mentions 1 db ≡ false)
    × (find_profile 2 "python" db ≡ find_profile 2 "python" sample_session.current)
    × (find_submission 2 11 db ≡ find_submission 2 11 sample_session.current)
    × (find_review 2 7 db ≡ find_review 2 7 sample_session.current)
delete_account_lem_example =
    delete_account_lem ann 2 "python" 11 7 sample_session (λ h. ground arith)
