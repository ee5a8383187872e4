-- ===== src/Scheduler.antt =====
-- backend/app/services/scheduler.py: the SM-2 review scheduler. A `datetime` is a number of
-- microseconds since the start of year 1; `raise ValueError` is the error `value_error`, and a date
-- past year 9999 the error `overflow_error`.
pub mod Laws
pub mod Streaks
mod Samples
use interview_trainer.Prelude.{
  ℕ, ◌+◌, ◌*◌, Bool, ◌&&◌, List, [], ◌∷◌, Option, none, some, if◌then◌else◌, ◌==◌, nat_eq, ltb,
}
use interview_trainer.Prelude.Int.{ℤ, pos, ◌-ℤ◌, leb_ℤ, ltb_ℤ, max_ℕ}
use interview_trainer.Exceptions.{Error, value_error, overflow_error, Result, ok, err, ◌>>=◌}
use interview_trainer.Float.{Float, max}

abbrev pub failure_threshold : ℤ
failure_threshold = pos 3

abbrev pub first_interval_days : ℕ
first_interval_days = 1

abbrev pub second_interval_days : ℕ
second_interval_days = 6

abbrev pub min_quality : ℤ
min_quality = pos 0

abbrev pub max_quality : ℤ
max_quality = pos 5

-- `datetime.max`, the last microsecond of year 9999
abbrev pub max_datetime : ℕ
max_datetime = 315537897599999999

-- `timedelta(days=n)`
abbrev pub days : ℕ → ℕ
days n = n * 86400000000

module _ (fl : Float) where
  open fl use {F, hundredths, of_int, add, sub, mul, le, round}

  abbrev pub min_easiness_factor : F
  min_easiness_factor = hundredths 130

  abbrev pub default_easiness_factor : F
  default_easiness_factor = hundredths 250

  pub record ReviewSnapshot : Type 0 where
    pub easiness_factor : F
    pub repetitions : ℕ
    pub interval_days : ℕ
    pub due_at : Option ℕ

  -- `ReviewSnapshot()`
  abbrev pub new_snapshot : ReviewSnapshot
  new_snapshot = record {
    easiness_factor = default_easiness_factor;
    repetitions = 0;
    interval_days = 0;
    due_at = none;
  }

  unfoldable pub is_new : ReviewSnapshot → Bool
  is_new s = s.repetitions == 0

  unfoldable pub next_easiness_factor : F → ℤ → F
  next_easiness_factor easiness_factor quality =
      let lost = of_int (pos 5 -ℤ quality) in
      let delta = sub (hundredths 10) (mul lost (add (hundredths 8) (mul lost (hundredths 2)))) in
      max fl min_easiness_factor (add easiness_factor delta)

  unfoldable pub next_interval : ℕ → ℕ → F → ℕ
  unfolding max_ℕ
  next_interval repetitions interval_days easiness_factor =
      if repetitions == 1
      then first_interval_days
      else if repetitions == 2
      then second_interval_days
      else max_ℕ first_interval_days (round (mul (of_int (pos interval_days)) easiness_factor))

  -- `SM2Scheduler.review`
  unfoldable pub review : ReviewSnapshot → ℤ → ℕ → Result Error ReviewSnapshot
  review state quality now =
      if leb_ℤ min_quality quality && leb_ℤ quality max_quality
      then (let easiness_factor = next_easiness_factor state.easiness_factor quality in
          let repetitions = if ltb_ℤ quality failure_threshold then 0 else state.repetitions + 1 in
          let interval_days =
            if ltb_ℤ quality failure_threshold
            then first_interval_days
            else next_interval repetitions state.interval_days easiness_factor in
          if ltb max_datetime (now + days interval_days)
          then err overflow_error
          else ok (record {
            easiness_factor = easiness_factor;
            repetitions = repetitions;
            interval_days = interval_days;
            due_at = some (now + days interval_days);
          }))
      else err value_error

  -- Answers to one question, each a quality and its time, the oldest first.
  unfoldable pub review_all : List (ℤ × ℕ) → ReviewSnapshot → Result Error ReviewSnapshot
  review_all [] state = ok state
  review_all ((quality, now) ∷ answers) state =
      review state quality now >>= λ next. review_all answers next
