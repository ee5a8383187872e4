-- ===== src/Planner/Samples.antt =====
-- The planner at concrete inputs.
use Prim.Native.Nat.{min}
use interview_trainer.Prelude.{
  ℕ, ◌≡◌, ◌+◌, ◌-◌, refl, arith, true, List, [], ◌∷◌, ◌++◌, some, String, length, all, map,
  contains, distinct, get_elem?, string_eq, keep,
}
use interview_trainer.Prelude.Int.{pos}
use interview_trainer.Exceptions.{ok}
use interview_trainer.Float.Fixed.{fixed}
use interview_trainer.Planner.{
  TopicPriority, DayPlan, plan_days, fill, distribute, codes_of, build_plan, review_day, last,
  covered_topics,
}
use interview_trainer.Planner.Days.{plan_days_lem}
use interview_trainer.Planner.Ranking.{weighted}
use interview_trainer.Planner.Sequence.{fill_total}
use interview_trainer.Planner.Plans.{is_study_day, build_plan_lem, covered_topics-build_plan}

abbrev some_topics : List (TopicPriority fixed)
some_topics =
    record { topic_code = "db"; weight = pos 20; rating = pos 150000 }
    ∷ record { topic_code = "go"; weight = pos 40; rating = pos 120000 }
    ∷ record { topic_code = "ui"; weight = pos 0; rating = pos 120000 }
    ∷ record { topic_code = "net"; weight = pos 10; rating = pos 100000 }
    ∷ record { topic_code = "os"; weight = pos 30; rating = pos 100000 }
    ∷ []

abbrev some_codes : List String
some_codes = "os" ∷ "go" ∷ "net" ∷ "db" ∷ []

distribute_two_days :
    distribute some_codes 2 ≡ some (("os" ∷ "net" ∷ "go" ∷ []) ∷ ("go" ∷ "db" ∷ "os" ∷ []) ∷ [])
unfolding distribute contains
distribute_two_days = refl

plan_days_lem_example :
    (dates : List ℕ) × (plan_days 100 103 ≡ ok dates)
    × (length dates ≡ 103 - 100)
    × (get_elem? dates 2 ≡ some (100 + 2))
plan_days_lem_example = plan_days_lem 100 103 2 (omega arith) (omega arith) (omega arith)

fill_total_example :
    (result : List String) × (fill 7 6 some_codes [] ≡ some result) × (length result ≡ 6)
fill_total_example = fill_total 7 6 some_codes [] (omega arith) (omega arith) (omega arith)

-- the topics of the sample that have a weight
weighted-some_topics : codes_of fixed (weighted fixed some_topics) ≡ "db" ∷ "go" ∷ "net" ∷ "os" ∷ []
unfolding keep
weighted-some_topics = refl

build_plan_lem_example :
    (study : List DayPlan) × (build_plan fixed some_topics (100 ∷ 101 ∷ 102 ∷ []) 10
      ≡ ok (study ++ review_day 2 (last 100 (101 ∷ 102 ∷ [])) ∷ []))
    × (map (λ (p : DayPlan). p.day) study ++ last 100 (101 ∷ 102 ∷ []) ∷ [] ≡ 100 ∷ 101 ∷ 102 ∷ [])
    × (all (is_study_day (min 3 (length (weighted fixed some_topics))) 10) study ≡ true)
unfolding keep distinct
build_plan_lem_example =
    build_plan_lem fixed some_topics 100 (101 ∷ 102 ∷ []) 10 (omega arith) (omega arith) refl

covered_topics-build_plan_example :
    (plan : List DayPlan) × (build_plan fixed some_topics (100 ∷ 101 ∷ 102 ∷ []) 10 ≡ ok plan)
    × (covered_topics plan "net" ≡ true)
unfolding keep contains
covered_topics-build_plan_example =
    covered_topics-build_plan fixed some_topics 100 101 (102 ∷ []) 10 "net" (omega arith)
      (omega arith) refl
