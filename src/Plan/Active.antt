-- ===== src/Plan/Active.antt =====
-- One active plan for each specialization (`create`, `_deactivate_previous`, `_active_plan`,
-- backend/app/services/plan.py).
use interview_trainer.Prelude.{
  ℕ, ◌≡◌, ◌↔◌, ◌⊎◌, refl, Bool, true, false, List, [], ◌∷◌, ◌++◌, Option, some, String, arith,
  nat_eq, string_eq, ==_self, keep, Option-cases, Bool-cases, inl, inr, sort_by,
}
use interview_trainer.Exceptions.{
  Error, Result, ok, err, premium_required, invalid_input, value_error, Result-cases,
}
use interview_trainer.Float.{Float}
use interview_trainer.Planner.{
  DayPlan, Failure, TopicPriority, plan_error, index_error, out_of_fuel, plan_days, build_plan,
}
use interview_trainer.Models.{StudyPlan, User}
use interview_trainer.Session.{Session, update}
use interview_trainer.Practice.Lookups.{find_profile}
use interview_trainer.Plan.{
  create, is_active_plan, deactivate_previous, active_plan, with_plan, schedule_of,
  topic_priorities, current_day, plan_failure,
}

keep-deactivate_previous :
    (user : ℕ) (specialization : String) (rows : List StudyPlan)
    → keep (is_active_plan user specialization) (deactivate_previous user specialization rows) ≡ []
unfolding keep deactivate_previous is_active_plan update
keep-deactivate_previous user specialization [] = refl
keep-deactivate_previous user specialization (p ∷ ps) =
    ground (arith, keep-deactivate_previous user specialization ps)

keep-append_one :
    {A : Type 0} (p : A → Bool) (xs : List A) (a : A)
    → p a ≡ true
    → keep p xs ≡ []
    → keep p (xs ++ a ∷ []) ≡ a ∷ []
unfolding keep
keep-append_one p [] a h e = ground arith
keep-append_one p (x ∷ xs) a h e = ground (arith, keep-append_one p xs a)

plan_failure-err :
    {A : Type 0} (r : Result Failure A) (e : Error)
    → plan_failure r ≡ err e
    → (e ≡ invalid_input) ⊎ (e ≡ value_error)
unfolding plan_failure
plan_failure-err (ok a) e h = absurd (ground arith)
plan_failure-err (err (plan_error r)) e h = inl (ground arith)
plan_failure-err (err index_error) e h = inr (ground arith)
plan_failure-err (err out_of_fuel) e h = inr (ground arith)

schedule_of-err :
    (fl : Float) (day interview_date : ℕ) (priorities : List (TopicPriority fl)) (capacity : ℕ)
    (e : Error)
    → schedule_of fl day interview_date priorities capacity ≡ err e
    → (e ≡ invalid_input) ⊎ (e ≡ value_error)
unfolding schedule_of
schedule_of-err fl day interview_date priorities capacity e h =
    elim (Result-cases (plan_days day interview_date)) [
      | inr (f, failed) ↦
          let raised : Result Failure (List DayPlan) = err f in
          plan_failure-err raised e (ground arith)
      | inl (dates, made) ↦
          plan_failure-err (build_plan fl priorities dates capacity) e (ground arith)
    ]

module _ {fl : Float} where
  -- what a plan that is created stores
  create-ok :
      (now id : ℕ) (user : User) (specialization : String) (interview_date daily_capacity : ℕ)
      (date : Option ℕ) (s : Session fl) (plan : StudyPlan)
      → (create fl now id user specialization interview_date daily_capacity date s).0 ≡ ok plan
      → (create fl now id user specialization interview_date daily_capacity date s
          ≡ (ok plan, record s { current = with_plan fl user.id specialization plan s.current }))
        × (is_active_plan user.id specialization plan ≡ true)
        × (plan.interview_date ≡ interview_date)
  unfolding create is_active_plan
  create-ok now id user specialization interview_date daily_capacity date s plan h =
      elim (Bool-cases user.is_premium) [
        | inr free ↦ absurd (ground arith)
        | inl paid ↦ elim (Option-cases (find_profile user.id specialization s.current)) [
          | inl absent ↦ absurd (ground arith)
          | inr (profile, found) ↦
              let priorities =
                topic_priorities fl user.id specialization profile.target_grade s.current in
              elim (Result-cases
                (schedule_of fl (current_day now date) interview_date priorities daily_capacity)) [
                  | inr (e, failed) ↦ absurd (ground arith)
                  | inl (schedule, made) ↦ (
                    ground arith,
                    ground (arith, ==_self user.id, ==_self specialization),
                    ground arith,
                  )
                ]
        ]
      ]

  -- A plan that is created is the only active plan of the user for its specialization, and the one
  -- that is used from then on.
  pub create-active_plan :
      (now id : ℕ) (user : User) (specialization : String) (interview_date daily_capacity : ℕ)
      (date : Option ℕ) (s : Session fl) (plan : StudyPlan)
      → (create fl now id user specialization interview_date daily_capacity date s).0 ≡ ok plan
      → let db =
          (create fl now id user specialization interview_date daily_capacity date s).1.current in
        (keep (is_active_plan user.id specialization) db.study_plans ≡ plan ∷ [])
        × (active_plan fl user.id specialization db ≡ some plan)
  unfolding active_plan sort_by
  create-active_plan now id user specialization interview_date daily_capacity date s plan h =
      let (stored, active, day) =
        create-ok now id user specialization interview_date daily_capacity date s plan h in
      let rows = deactivate_previous user.id specialization s.current.study_plans in
      let only =
        keep-append_one (is_active_plan user.id specialization) rows plan active
          (keep-deactivate_previous user.id specialization s.current.study_plans) in
      rw stored (only, ground (arith, only))

  -- A plan that is refused leaves the session as it is, the earlier plan active; and it is refused
  -- as a paid feature exactly for a user without premium.
  pub create-err :
      (now id : ℕ) (user : User) (specialization : String) (interview_date daily_capacity : ℕ)
      (date : Option ℕ) (s : Session fl) (e : Error)
      → (create fl now id user specialization interview_date daily_capacity date s).0 ≡ err e
      → ((create fl now id user specialization interview_date daily_capacity date s).1 ≡ s)
        × ((e ≡ premium_required) ↔ (user.is_premium ≡ false))
  unfolding create
  create-err now id user specialization interview_date daily_capacity date s e h =
      elim (Bool-cases user.is_premium) [
        | inr free ↦ (ground arith, ((λ _. free), λ _. ground arith))
        | inl paid ↦ elim (Option-cases (find_profile user.id specialization s.current)) [
          | inl absent ↦ (ground arith, ((λ k. absurd (ground arith)), λ k. absurd (ground arith)))
          | inr (profile, found) ↦
              let priorities =
                topic_priorities fl user.id specialization profile.target_grade s.current in
              let day = current_day now date in
              elim (Result-cases (schedule_of fl day interview_date priorities daily_capacity)) [
                | inl (schedule, made) ↦ absurd (ground arith)
                | inr (f, failed) ↦
                    let other =
                      schedule_of-err fl day interview_date priorities daily_capacity f failed in
                    (
                      ground arith,
                      ((λ k. absurd (ground (arith, other))), λ k. absurd (ground arith)),
                    )
              ]
        ]
      ]
