-- ===== src/Practice/Locks.antt =====
-- What the statistics show (`stats`, `_estimate_lock`, backend/app/services/practice.py).
use interview_trainer.Prelude.{
  ◌≡◌, ◌<◌, ◌⊎◌, inl, inr, arith, false, none, some, String, ltb, if◌then◌else◌,
}
use interview_trainer.Exceptions.{ok, Result-cases}
use interview_trainer.Float.{Float}
use interview_trainer.Models.{User, UserSpecialization}
use interview_trainer.Session.{Session}
use interview_trainer.Practice.Lookups.{find_profile}
use interview_trainer.Practice.Stats.{
  not_enough_data, premium_required, SpecializationStats, estimate_lock, estimate, stats,
}

module _ {fl : Float} where
  -- The overall rating and grade are hidden from a user with less than twenty answers, for that
  -- reason, and from a user without premium with twenty or more, as a paid feature; the statistics
  -- are returned all the same, and the session is unchanged.
  pub stats_locked :
      (user : User) (specialization : String) (s : Session fl) (profile : UserSpecialization)
      → find_profile user.id specialization s.current ≡ some profile
      → (profile.answers_count < 20) ⊎ (user.is_premium ≡ false)
      → (r : SpecializationStats fl) × (stats fl user specialization s ≡ (ok r, s))
        × (r.overall_rating ≡ none)
        × (r.overall_grade ≡ none)
        × (r.locked_reason
            ≡ some (if ltb profile.answers_count 20 then not_enough_data else premium_required))
  unfolding stats estimate estimate_lock
  stats_locked user specialization s profile found locked =
      elim (Result-cases (stats fl user specialization s).0) [
        | inr (e, failed) ↦ absurd (ground arith)
        | inl (r, made) ↦ (r, ground arith, ground arith, ground arith, ground arith)
      ]
