-- ===== src/Plan/Today.antt =====
-- What to do today (`today`, `_pick_new_questions`, backend/app/services/plan.py).
use interview_trainer.Prelude.{
  List, [], ◌∷◌, refl, ◌+◌, Bool, any, contains, leb, if◌then◌else◌, ℕ, ◌≡◌, ◌-◌, true, ◌&&◌,
  Option, some, String, arith, ◌==◌, nat_eq, ==_iff, keep, sort_by, all, all-keep, all-take,
  all-sort_by, length, length-sort_by, take, ap, string_eq, zero, suc, Option-cases, Bool-cases,
  inl, inr, ◌∙◌, find, find-test, not,
}
use interview_trainer.Exceptions.{ok}
use interview_trainer.Float.{Float}
use interview_trainer.Models.{
  UserAnswer, Database, Question, ReviewState, StudyPlan, StudyPlanDay, User,
}
use interview_trainer.Session.{Session}
use interview_trainer.Practice.Feed.{is_linked, in_grade_range, is_answered}
use interview_trainer.Plan.{
  TodayPlan, today, active_plan, day_for, current_day, count_due_reviews, pick_new_questions,
  is_new_for, more_frequent, is_due_review,
}

-- the smaller of two numbers
abbrev pub least : ℕ → ℕ → ℕ
least a b = if leb a b then a else b

length-take {ℓ} : {A : Type ℓ} (n : ℕ) (xs : List A) → length (take n xs) ≡ least n (length xs)
length-take zero xs = ground arith
length-take (suc n) [] = ground arith
length-take (suc n) (x ∷ xs) = ground (arith, length-take n xs)

module _ {fl : Float} where
  -- A question of the specialization, of a topic of the day, in whose range the grade of the plan
  -- lies, and that the user has not answered.
  abbrev pub is_eligible :
      ℕ → String → StudyPlan → StudyPlanDay → List (UserAnswer fl) → Question → Bool
  is_eligible user specialization plan day answers q =
      contains q.specializations specialization
      && (contains day.topic_codes q.topic_code
          && ((leb q.min_grade plan.target_grade && leb plan.target_grade q.max_grade)
              && not (
                  any (λ (a : UserAnswer fl). a.user_id == user && a.question_id == q.id) answers)))

  pick_new_questions-is_new_for :
      (user : ℕ) (specialization : String) (plan : StudyPlan) (day : StudyPlanDay) (limit : ℕ)
      (db : Database fl)
      → (all
            (is_eligible user specialization plan day db.user_answers)
            (pick_new_questions fl user specialization plan day limit db)
          ≡ true)
        × (length (pick_new_questions fl user specialization plan day limit db)
            ≡ least limit (
                length
                  (keep (is_eligible user specialization plan day db.user_answers) db.questions)))
  unfolding pick_new_questions is_linked in_grade_range is_answered
  pick_new_questions-is_new_for user specialization plan day limit db =
      let test = is_new_for fl user specialization plan day db in
      let found = keep test db.questions in
      (
        all-take test limit (sort_by more_frequent found)
            (all-sort_by more_frequent test found ∙ all-keep test db.questions),
        length-take limit (sort_by more_frequent found)
            ∙ ap (least limit) (length-sort_by more_frequent found),
      )

  -- Whether the review of a row is due for a user, on a question of a specialization.
  abbrev pub is_due_for : ℕ → ℕ → String → List Question → ReviewState fl → Bool
  is_due_for now user specialization questions r =
      r.user_id == user
      && (leb r.due_at now
          && any
              (λ (q : Question). q.id == r.question_id && contains q.specializations specialization)
              questions)

  -- how many reviews are due, row by row
  abbrev pub due_count : ℕ → ℕ → String → List Question → List (ReviewState fl) → ℕ
  due_count now user specialization questions [] = 0
  due_count now user specialization questions (r ∷ rs) =
      (if is_due_for now user specialization questions r then 1 else 0)
      + due_count now user specialization questions rs

  length-keep_due :
      (now user : ℕ) (specialization : String) (db : Database fl) (rs : List (ReviewState fl))
      → length (keep (is_due_review fl now user specialization db) rs)
        ≡ due_count now user specialization db.questions rs
  unfolding keep is_due_review is_linked
  length-keep_due now user specialization db [] = refl
  length-keep_due now user specialization db (r ∷ rs) =
      ground (arith, length-keep_due now user specialization db rs)

  count_due_reviews_lem :
      (now user : ℕ) (specialization : String) (db : Database fl)
      → count_due_reviews fl now user specialization db
        ≡ due_count now user specialization db.questions db.review_states
  unfolding count_due_reviews
  count_due_reviews_lem now user specialization db =
      length-keep_due now user specialization db db.review_states

  -- The plan of today is of the active plan and of the day asked for, and the session is unchanged.
  -- Its due reviews are the rows of the user with a date that has come, on questions of the
  -- specialization. Every new question in it is of the specialization, of a topic of the day, in
  -- whose range the grade of the plan lies, and not answered yet. There are none on a day for reviews;
  -- on another day reviews come first: there are as many as the day's norm leaves beside the due
  -- reviews, none if these fill it, or all such questions if they are fewer.
  pub today_lem :
      (now : ℕ) (user : User) (specialization : String) (date : Option ℕ) (s : Session fl)
      (t : TodayPlan)
      → (today fl now user specialization date s).0 ≡ ok t
      → ((today fl now user specialization date s).1 ≡ s)
        × (active_plan fl user.id specialization s.current ≡ some t.plan)
        × (t.day.day ≡ current_day now date)
        × (t.due_reviews
            ≡ due_count now user.id specialization s.current.questions s.current.review_states)
        × (all
              (is_eligible user.id specialization t.plan t.day s.current.user_answers)
              t.new_questions
            ≡ true)
        × (length t.new_questions ≡ (
            if t.day.review_only
            then 0
            else least (t.day.new_questions - t.due_reviews) (
                length (
                  keep
                    (is_eligible user.id specialization t.plan t.day s.current.user_answers)
                    s.current.questions))))
  unfolding today day_for all
  today_lem now user specialization date s t h = elim (Bool-cases user.is_premium) [
    | inr free ↦ absurd (ground arith)
    | inl paid ↦ elim (Option-cases (active_plan fl user.id specialization s.current)) [
      | inl absent ↦ absurd (ground arith)
      | inr (plan, active) ↦
          elim (Option-cases
            (find (λ (d : StudyPlanDay). d.day == current_day now date) plan.days)) [
              | inl absent ↦ absurd (ground arith)
              | inr (day, found) ↦
                  let (fit, few) =
                    pick_new_questions-is_new_for user.id specialization plan day
                      (day.new_questions
                        - count_due_reviews fl now user.id specialization s.current)
                      s.current in
                  let same =
                    find-test (λ (d : StudyPlanDay). d.day == current_day now date) plan.days day
                      found in
                  (
                    ground arith,
                    ground arith,
                    ground (arith, same, ==_iff day.day (current_day now date)),
                    ground (arith, count_due_reviews_lem now user.id specialization s.current),
                    ground (arith, fit),
                    ground (arith, few),
                  )
            ]
    ]
  ]
