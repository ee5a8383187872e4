-- ===== src/Users/Deletion.antt =====
-- What is left of a deleted account (`delete_account`, backend/app/services/user.py, and the
-- `ON DELETE CASCADE` of the tables).
use interview_trainer.Prelude.{
  ℕ, ◌≡◌, ◌≢◌, refl, Bool, true, false, not, ◌||◌, List, [], ◌∷◌, arith, String, ◌==◌, nat_eq,
  ==_iff, any, keep, find,
}
use interview_trainer.Float.{Float}
use interview_trainer.Models.{
  Database, User, UserSpecialization, UserTopicRating, UserAnswer, ReviewState, StudyPlan,
  QuestionReport,
}
use interview_trainer.Session.{Session}
use interview_trainer.Practice.Lookups.{
  find_profile, is_profile, find_submission, is_submission, find_review, is_review,
}
use interview_trainer.Users.{delete_account, delete_user}

module _ {ℓ} {A : Type ℓ} where
  any-keep-not : (p : A → Bool) (xs : List A) → any p (keep (λ x. not (p x)) xs) ≡ false
  unfolding any keep
  any-keep-not p [] = refl
  any-keep-not p (x ∷ xs) = ground (arith, any-keep-not p xs)

  find-keep :
      (p q : A → Bool) (xs : List A)
      → ((x : A) → p x ≡ true → q x ≡ true)
      → find p (keep q xs) ≡ find p xs
  unfolding find keep
  find-keep p q [] h = refl
  find-keep p q (x ∷ xs) h = ground (arith, h x, find-keep p q xs h)

module _ {fl : Float} where
  -- whether some row of the database is of the user
  unfoldable pub mentions : ℕ → Database fl → Bool
  unfolding any
  mentions user db =
      any (λ (r : User). r.id == user) db.users
      || any (λ (r : UserSpecialization). r.user_id == user) db.user_specializations
      || any (λ (r : UserTopicRating fl). r.user_id == user) db.user_topic_ratings
      || any (λ (r : UserAnswer fl). r.user_id == user) db.user_answers
      || any (λ (r : ReviewState fl). r.user_id == user) db.review_states
      || any (λ (r : StudyPlan). r.user_id == user) db.study_plans
      || any (λ (r : QuestionReport). r.user_id == user) db.question_reports

  mentions-delete_account :
      (user : User) (s : Session fl) → mentions user.id (delete_account user s).1.current ≡ false
  unfolding delete_account mentions
  mentions-delete_account user s =
      let db = s.current in
      ground (
        arith,
        any-keep-not (λ (r : User). r.id == user.id) db.users,
        any-keep-not (λ (r : UserSpecialization). r.user_id == user.id) db.user_specializations,
        any-keep-not (λ (r : UserTopicRating fl). r.user_id == user.id) db.user_topic_ratings,
        any-keep-not (λ (r : UserAnswer fl). r.user_id == user.id) db.user_answers,
        any-keep-not (λ (r : ReviewState fl). r.user_id == user.id) db.review_states,
        any-keep-not (λ (r : StudyPlan). r.user_id == user.id) db.study_plans,
        any-keep-not (λ (r : QuestionReport). r.user_id == user.id) db.question_reports,
      )

  -- After an account is deleted, no row of any table is of the user, and what another user chose,
  -- answered and has to review is found as before.
  pub delete_account_lem :
      (user : User) (other : ℕ) (specialization : String) (submission question : ℕ) (s : Session fl)
      → other ≢ user.id
      → let db = (delete_account user s).1.current in
        (mentions user.id db ≡ false)
        × (find_profile other specialization db ≡ find_profile other specialization s.current)
        × (find_submission other submission db ≡ find_submission other submission s.current)
        × (find_review other question db ≡ find_review other question s.current)
  unfolding delete_account find_profile find_submission find_review is_profile is_submission
      is_review delete_user
  delete_account_lem user other specialization submission question s distinct =
      let db = s.current in
      let away : (x : ℕ) → x == other ≡ true → not (x == user.id) ≡ true =
        λ x e. ground (arith, ==_iff x other, ==_iff x user.id) in
      (
        mentions-delete_account user s,
        find-keep (is_profile other specialization) (λ r. not (r.user_id == user.id))
            db.user_specializations (λ r e. ground (arith, away r.user_id)),
        find-keep (is_submission other submission) (λ r. not (r.user_id == user.id)) db.user_answers
            (λ r e. ground (arith, away r.user_id)),
        find-keep (is_review other question) (λ r. not (r.user_id == user.id)) db.review_states
            (λ r e. ground (arith, away r.user_id)),
      )
