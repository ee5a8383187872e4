-- ===== src/Scheduler/Laws.antt =====
-- What one call of `SM2Scheduler.review` returns (backend/app/services/scheduler.py).
use interview_trainer.Prelude.{ℕ, ◌+◌, ◌≤◌, ◌≡◌, true, false, some, arith, ◌&&◌, ◌↔◌}
use interview_trainer.Prelude.Int.{ℤ, pos, leb_ℤ, ltb_ℤ, max_ℕ-ge, le-max_ℕ}
use interview_trainer.Exceptions.{ok, err, value_error}
use interview_trainer.Float.{Float, FloatLaws, IsExact, max}
use interview_trainer.Scheduler.{
  ReviewSnapshot, review, next_interval, next_easiness_factor, min_quality, max_quality,
  failure_threshold, days,
}

-- The interval is at least a day and the factor at least 1.3.
pub record IsScheduled (fl : Float) (s : ReviewSnapshot fl) : Type 0 where
  pub factor : fl.le (fl.hundredths 130) s.easiness_factor ≡ true
  pub interval : 1 ≤ s.interval_days

module _ (fl : Float) where
  open fl use {F, hundredths, le}

  abbrev pub InRange : ℤ → Type 0
  InRange q = (leb_ℤ min_quality q && leb_ℤ q max_quality) ≡ true

  -- A quality outside 0 to 5 is refused, and only that is.
  review-eq-err_iff :
      (state : ReviewSnapshot fl) (quality : ℤ) (now : ℕ)
      → (review fl state quality now ≡ err value_error)
        ↔ ((leb_ℤ min_quality quality && leb_ℤ quality max_quality) ≡ false)
  unfolding review
  review-eq-err_iff state quality now = (λ h. ground arith, λ h. rw h)

  -- A quality below 3 resets the chain: no repetitions, and the question is due a day later.
  pub review_failure :
      (state next : ReviewSnapshot fl) (quality : ℤ) (now : ℕ)
      → review fl state quality now ≡ ok next
      → ltb_ℤ quality failure_threshold ≡ true
      → (next.repetitions ≡ 0) × (next.interval_days ≡ 1) × (next.due_at ≡ some (now + days 1))
  unfolding review
  review_failure state next quality now h low = ground arith

  pub next_interval_ge : (r i : ℕ) (f : F) → 1 ≤ next_interval fl r i f
  unfolding next_interval
  next_interval_ge r i f = ground (arith, max_ℕ-ge 1 (fl.round (fl.mul (fl.of_int (pos i)) f)))

  module _ (laws : FloatLaws fl) where
    max-ge : (a b : F) → le a (max fl a b) ≡ true
    max-ge a b = ground (arith, laws.le_refl a, laws.le_total b a)

    one-le : (f : F) → le (hundredths 130) f ≡ true → le (hundredths 100) f ≡ true
    one-le f h =
        laws.le_trans (hundredths 100) (hundredths 130) f
          (laws.le_total _ _ (laws.hundredths_lt 100 130 (omega arith) (omega arith))) h

    next_easiness_factor-ge :
        (f : F) (quality : ℤ) → le (hundredths 130) (next_easiness_factor fl f quality) ≡ true
    unfolding next_easiness_factor
    next_easiness_factor-ge f quality = max-ge (hundredths 130) _

    le-next_interval :
        (r i : ℕ) (f : F)
        → 3 ≤ r
        → IsExact (pos i)
        → le (hundredths 130) f ≡ true
        → i ≤ next_interval fl r i f
    unfolding next_interval
    le-next_interval r i f h exact k = ground (
      arith,
      le-max_ℕ 1 i (fl.round (fl.mul (fl.of_int (pos i)) f)),
      laws.le_round (fl.mul (fl.of_int (pos i)) f) (pos i) exact (laws.mul_ge i f (one-le f k)),
    )

    -- Whatever the state before, an accepted answer leaves a factor of at least 1.3 and an interval
    -- of at least a day, and the question is due exactly that interval after the answer.
    pub review-IsScheduled :
        (state next : ReviewSnapshot fl) (quality : ℤ) (now : ℕ)
        → review fl state quality now ≡ ok next
        → IsScheduled fl next × (next.due_at ≡ some (now + days next.interval_days))
    unfolding review
    review-IsScheduled state next quality now h =
        let f = next_easiness_factor fl state.easiness_factor quality in
        ground (
          arith,
          next_easiness_factor-ge state.easiness_factor quality,
          next_interval_ge (state.repetitions + 1) state.interval_days f,
        )

    -- From the third success in a row on, a success never brings the question back sooner.
    pub interval-le-review :
        (state next : ReviewSnapshot fl) (quality : ℤ) (now : ℕ)
        → review fl state quality now ≡ ok next
        → ltb_ℤ quality failure_threshold ≡ false
        → 2 ≤ state.repetitions
        → IsExact (pos state.interval_days)
        → state.interval_days ≤ next.interval_days
    unfolding review
    interval-le-review state next quality now h high old exact =
        let f = next_easiness_factor fl state.easiness_factor quality in
        ground (
          arith,
          next_easiness_factor-ge state.easiness_factor quality,
          le-next_interval (state.repetitions + 1) state.interval_days f,
        )
