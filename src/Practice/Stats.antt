-- ===== src/Practice/Stats.antt =====
-- Statistics and the estimate of the level (`stats`, `_estimate_lock`, `effective_grade`,
-- `answered_count`, backend/app/services/practice.py).
use Prim.Native.String.{compare}
use text.Mathlib.Text.{is_lt}
use interview_trainer.Prelude.{
  ℕ, Bool, List, Option, none, some, String, ltb, length, if◌then◌else◌, map, keep, ◌&&◌, ◌==◌,
  nat_eq, string_eq, sort_by,
}
use interview_trainer.Exceptions.{not_found, require}
use interview_trainer.Float.{Float}
use interview_trainer.Rating.{get_or, grade_from_rating, overall_rating, min_answers_for_estimate}
use interview_trainer.Models.{Database, User, UserSpecialization, UserTopicRating}
use interview_trainer.Session.{Action, pure, lift, query, ◌>>=◌}
use interview_trainer.Practice.Lookups.{find_profile, topic_weights, topic_titles, topic_ratings}
use interview_trainer.Practice.Listing.{answers_of}

pub data LockedReason : Type 0 where
  not_enough_data premium_required : LockedReason

unfoldable pub estimate_lock : User → UserSpecialization → Option LockedReason
estimate_lock user profile =
    if ltb profile.answers_count min_answers_for_estimate
    then some not_enough_data
    else if user.is_premium
    then none
    else some premium_required

module _ (fl : Float) where
  open fl use {F, hundredths}

  pub record TopicStats : Type 0 where
    pub topic_code : String
    pub title : String
    pub rating : F
    pub grade : ℕ
    pub answers_count : ℕ
    pub weight : F

  pub record SpecializationStats : Type 0 where
    pub specialization_id : String
    pub answers_count : ℕ
    pub topics : List TopicStats
    pub overall_rating : Option F
    pub overall_grade : Option ℕ
    pub locked_reason : Option LockedReason

  unfoldable pub ratings_of : ℕ → String → Database fl → List (UserTopicRating fl)
  unfolding keep
  ratings_of user specialization db =
      keep (λ r. r.user_id == user && r.specialization_id == specialization) db.user_topic_ratings

  unfoldable pub topic_stats :
      List (String × String) → List (String × F) → UserTopicRating fl → TopicStats
  unfolding get_or grade_from_rating
  topic_stats titles weights row = record {
    topic_code = row.topic_code;
    title = get_or row.topic_code row.topic_code titles;
    rating = row.rating;
    grade = grade_from_rating fl row.rating;
    answers_count = row.answers_count;
    weight = get_or (hundredths 0) row.topic_code weights;
  }

  abbrev pub grade_of : Option F → Option ℕ
  grade_of none = none
  grade_of (some rating) = some (grade_from_rating fl rating)

  -- the end of `stats`: without a lock the overall level is shown
  unfoldable pub estimate :
      Option LockedReason → String → ℕ → List TopicStats → Option F → SpecializationStats
  unfolding grade_from_rating
  estimate (some reason) specialization answers topics overall = record {
    specialization_id = specialization;
    answers_count = answers;
    topics = topics;
    overall_rating = none;
    overall_grade = none;
    locked_reason = some reason;
  }
  estimate none specialization answers topics overall = record {
    specialization_id = specialization;
    answers_count = answers;
    topics = topics;
    overall_rating = overall;
    overall_grade = grade_of overall;
    locked_reason = none;
  }

  unfoldable pub stats : User → String → Action fl SpecializationStats
  unfolding ◌>>=◌ find_profile topic_weights topic_titles ratings_of topic_stats estimate
      estimate_lock overall_rating sort_by
  stats user specialization = do
    found ← query (find_profile user.id specialization)
    profile ← lift (require found not_found)
    weights ← query (topic_weights specialization profile.target_grade)
    titles ← query (topic_titles specialization)
    rows ← query (ratings_of user.id specialization)
    let topics =
        map (topic_stats titles weights)
          (sort_by (λ a b. is_lt (compare a.topic_code b.topic_code)) rows)
    let overall =
        overall_rating fl (map (λ (r : UserTopicRating fl). (r.topic_code, r.rating)) rows) weights
    pure (estimate (estimate_lock user profile) specialization profile.answers_count topics overall)

  -- `SpecializationStats.is_estimate_available`
  unfoldable pub is_estimate_available : SpecializationStats → Bool
  is_estimate_available s = elim s.overall_grade [ none ↦ Bool.false | some _ ↦ Bool.true ]

  unfoldable pub grade_or : ℕ → Option F → ℕ
  unfolding grade_from_rating
  grade_or default none = default
  grade_or default (some rating) = grade_from_rating fl rating

  unfoldable pub effective_grade : User → UserSpecialization → Database fl → ℕ
  unfolding topic_weights topic_ratings overall_rating grade_or
  effective_grade user profile db =
      if ltb profile.answers_count min_answers_for_estimate
      then profile.self_assessed_grade
      else grade_or profile.self_assessed_grade (
          overall_rating fl (topic_ratings user.id profile.specialization_id db)
            (topic_weights profile.specialization_id profile.target_grade db))

  unfoldable pub answered_count : User → String → Database fl → ℕ
  unfolding answers_of
  answered_count user specialization db = length (answers_of fl user.id specialization db)
