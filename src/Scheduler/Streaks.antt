-- ===== src/Scheduler/Streaks.antt =====
-- Answers to one question in a row (backend/app/services/scheduler.py).
use interview_trainer.Prelude.{
  ℕ, ◌+◌, ◌≤◌, ◌≡◌, ◌⊎◌, true, false, refl, arith, ◌&&◌, List, [], ◌∷◌, length, all, inl, inr, ltb,
  Bool-cases,
}
use interview_trainer.Prelude.Int.{ℤ, leb_ℤ}
use interview_trainer.Exceptions.{ok, err, overflow_error, Result-cases}
use interview_trainer.Float.{Float, FloatLaws}
use interview_trainer.Scheduler.{
  ReviewSnapshot, review, review_all, next_interval, next_easiness_factor, max_quality,
  failure_threshold, max_datetime, days,
}
use interview_trainer.Scheduler.Laws.{interval-le-review}

module _ (fl : Float) where
  -- every answer has a quality from 3 to 5
  abbrev AllPassed : List (ℤ × ℕ) → Type 0
  AllPassed answers = all (λ a. leb_ℤ failure_threshold a.0 && leb_ℤ a.0 max_quality) answers ≡ true

  -- the days until the next review, after a success
  abbrev pub following : ReviewSnapshot fl → ℤ → ℕ
  following state quality =
      next_interval fl (state.repetitions + 1) state.interval_days
        (next_easiness_factor fl state.easiness_factor quality)

  -- The answers are accepted up to one whose next review lies past year 9999.
  abbrev pub IsTooLate : List (ℤ × ℕ) → ReviewSnapshot fl → Type 0
  IsTooLate [] state = ⊥
  IsTooLate ((quality, now) ∷ answers) state =
      (ltb max_datetime (now + days (following state quality)) ≡ true)
      ⊎ (next : ReviewSnapshot fl) × (review fl state quality now ≡ ok next)
        × IsTooLate answers next

  success :
      (state next : ReviewSnapshot fl) (quality : ℤ) (now : ℕ)
      → (leb_ℤ failure_threshold quality && leb_ℤ quality max_quality) ≡ true
      → review fl state quality now ≡ ok next
      → (next.repetitions ≡ state.repetitions + 1) × (next.interval_days ≤ 9007199254740992)
  unfolding review
  success state next quality now h e = (ground arith, ground arith)

  too_late :
      (state : ReviewSnapshot fl) (quality : ℤ) (now : ℕ)
      → (leb_ℤ failure_threshold quality && leb_ℤ quality max_quality) ≡ true
      → ltb max_datetime (now + days (following state quality)) ≡ true
      → review fl state quality now ≡ err overflow_error
  unfolding review
  too_late state quality now h late = ground arith

  in_time :
      (state : ReviewSnapshot fl) (quality : ℤ) (now : ℕ)
      → (leb_ℤ failure_threshold quality && leb_ℤ quality max_quality) ≡ true
      → ltb max_datetime (now + days (following state quality)) ≡ false
      → (next : ReviewSnapshot fl) × (review fl state quality now ≡ ok next)
  unfolding review
  in_time state quality now h early = elim (Result-cases (review fl state quality now)) [
    | inl made ↦ made
    | inr (e, raised) ↦ absurd (ground arith)
  ]

  module _ (laws : FloatLaws fl) where
    -- Answers of quality 3 to 5 in a row, to a question with two repetitions or more and an interval
    -- of at most 2 ^ 53 days, are all accepted, each is one repetition more, and the interval at the
    -- end is no shorter than at the start; unless the answers come, all accepted before it, to one
    -- whose next review would lie past year 9999: then the run ends with an OverflowError.
    pub review_all_passed :
        (answers : List (ℤ × ℕ)) (state : ReviewSnapshot fl)
        → AllPassed answers
        → 2 ≤ state.repetitions
        → state.interval_days ≤ 9007199254740992
        → ((final : ReviewSnapshot fl) × (review_all fl answers state ≡ ok final)
            × (final.repetitions ≡ state.repetitions + length answers)
            × (state.interval_days ≤ final.interval_days))
          ⊎ (review_all fl answers state ≡ err overflow_error) × IsTooLate answers state
    unfolding review_all all
    review_all_passed [] state h two small = inl (state, refl, omega arith, omega arith)
    review_all_passed ((quality, now) ∷ answers) state h two small =
        elim (Bool-cases (ltb max_datetime (now + days (following state quality)))) [
          | inl late ↦ inr (rw (too_late state quality now (ground arith) late) refl, inl late)
          | inr early ↦
              let (next, e) = in_time state quality now (ground arith) early in
              let (count, less) = success state next quality now (ground arith) e in
              let step =
                interval-le-review fl laws state next quality now e (ground arith) two
                  (omega arith) in
              elim (review_all_passed answers next (ground arith) (omega arith) less) [
                | inl (final, run, total, longer) ↦ inl (final, rw e run, omega arith, omega arith)
                | inr (run, late) ↦ inr (rw e run, inr (next, e, late))
              ]
        ]
