-- ===== src/Practice/Times.antt =====
-- The time of an answer (`_resolve_answered_at`, backend/app/services/practice.py).
use interview_trainer.Prelude.{ℕ, ◌+◌, ◌≤◌, arith, none, some, Option}
use interview_trainer.Practice.Lookups.{resolve_answered_at, max_backdating}

-- Whatever a device claims, an answer is dated no later than now and at most thirty days back.
pub resolve_answered_at_bounds :
    (now : ℕ) (claimed : Option ℕ)
    → (resolve_answered_at now claimed ≤ now)
      × (now ≤ resolve_answered_at now claimed + max_backdating)
unfolding resolve_answered_at
resolve_answered_at_bounds now none = omega arith
resolve_answered_at_bounds now (some claimed) = ground arith
