-- ===== src/Planner.antt =====
-- backend/app/services/planner.py: the preparation plan. A `date` is its ordinal number of days.
-- Python's `sorted` is a stable insertion sort here, and a `while` loop takes fuel.
pub mod Days
pub mod Ranking
pub mod Sequence
pub mod Coverage
pub mod Load
pub mod Fullness
pub mod Plans
mod Samples
use Prim.Native.Nat.{min}
use Prim.Native.String.{compare}
use text.Mathlib.Text.{is_lt}
use interview_trainer.Prelude.{
  ℕ, zero, suc, ◌+◌, ◌-◌, ◌*◌, ◌%◌, Bool, true, false, not, List, [], ◌∷◌, ◌++◌, Option, none, some,
  String, length, take, keep, contains, get_elem?, map, any, ltb, leb, if◌then◌else◌, string_eq,
}
use interview_trainer.Exceptions.{Result, ok, err, ◌>>=◌, ensure, require}
use interview_trainer.Float.{Float, lt, same}
use interview_trainer.Rating.{normalized_rating}

abbrev pub topics_per_day : ℕ
topics_per_day = 3

abbrev pub default_daily_capacity : ℕ
default_daily_capacity = 10

abbrev pub max_plan_days : ℕ
max_plan_days = 30

-- Why a PlanError is raised.
pub data Reason : Type 0 where
  not_in_future too_long no_days bad_capacity no_topics : Reason

-- How planning can end without a plan: a PlanError, an index out of range, a loop without end.
pub data Failure : Type 0 where
  plan_error : Reason → Failure
  index_error out_of_fuel : Failure

-- `[start + timedelta(days=offset) for offset in range(total)]`
unfoldable pub days_from : ℕ → ℕ → List ℕ
days_from start zero = []
days_from start (suc total) = start ∷ days_from (start + 1) total

unfoldable pub plan_days : ℕ → ℕ → Result Failure (List ℕ)
unfolding days_from
plan_days today interview_date =
    if leb interview_date today
    then err (plan_error not_in_future)
    else if ltb max_plan_days (interview_date - today)
    then err (plan_error too_long)
    else ok (days_from today (interview_date - today))

pub record DayPlan : Type 0 where
  pub day_index : ℕ
  pub day : ℕ
  pub topics : List String
  pub new_questions : ℕ
  pub review_only : Bool

-- The `while` loop of `_distribute`: `codes`, over and over, up to `total` slots.
unfoldable pub fill : ℕ → ℕ → List String → List String → Option (List String)
fill zero total codes sequence = none
fill (suc fuel) total codes sequence =
    let longer = fill fuel total codes (sequence ++ take (total - length sequence) codes) in
    if ltb (length sequence) total then longer else some sequence

-- `if code not in day: day.append(code)`
unfoldable pub add_code : String → List String → List String
add_code code day = if contains day code then day else day ++ code ∷ []

-- `l[i] = f(l[i])`
unfoldable pub modify {ℓ} : {A : Type ℓ} → (A → A) → ℕ → List A → List A
modify f i [] = []
modify f zero (x ∷ xs) = f x ∷ xs
modify f (suc i) (x ∷ xs) = x ∷ modify f i xs

unfoldable pub empty_days : ℕ → List (List String)
empty_days zero = []
empty_days (suc n) = [] ∷ empty_days n

-- The loop over `enumerate(sequence)`.
unfoldable pub place : ℕ → ℕ → List String → List (List String) → List (List String)
unfolding modify add_code
place position day_count [] schedule = schedule
place position day_count (code ∷ rest) schedule =
    place (position + 1) day_count rest (modify (add_code code) (position % day_count) schedule)

-- The inner loop of the top-up, which breaks once the day is full.
unfoldable pub top_up : ℕ → List String → List String → List String
unfolding add_code
top_up per_day [] day = day
top_up per_day (code ∷ codes) day =
    let rest = top_up per_day codes (add_code code day) in
    if leb per_day (length day) then day else rest

-- `_distribute`, from the codes of the ranked topics
unfoldable pub distribute : List String → ℕ → Option (List (List String))
unfolding fill place top_up empty_days
distribute codes day_count =
    let per_day = min topics_per_day (length codes) in
    let total_slots = day_count * per_day in
    elim (fill (suc total_slots) total_slots codes []) [
      | none ↦ none
      | some sequence ↦
          some (map (top_up per_day codes) (place 0 day_count sequence (empty_days day_count)))
    ]

-- `days[:-1]` and `days[-1]` of the days `d ∷ ds`
unfoldable pub all_but_last : ℕ → List ℕ → List ℕ
all_but_last d [] = []
all_but_last d (e ∷ es) = d ∷ all_but_last e es

unfoldable pub last : ℕ → List ℕ → ℕ
last d [] = d
last d (e ∷ es) = last e es

abbrev pub review_day : ℕ → ℕ → DayPlan
review_day index day = record {
  day_index = index;
  day = day;
  topics = [];
  new_questions = 0;
  review_only = true;
}

-- The comprehension over `enumerate(study_days)`, from `index` on.
unfoldable pub study_plan : ℕ → List (List String) → ℕ → List ℕ → Result Failure (List DayPlan)
study_plan daily_capacity schedule index [] = ok []
study_plan daily_capacity schedule index (day ∷ rest) = do
  topics ← require (get_elem? schedule index) index_error
  later ← study_plan daily_capacity schedule (index + 1) rest
  ok (
      record {
        day_index = index;
        day = day;
        topics = topics;
        new_questions = daily_capacity;
        review_only = false;
      }
      ∷ later)

unfoldable pub covered_topics : List DayPlan → String → Bool
covered_topics plan topic = any (λ d. contains d.topics topic) plan

-- The rest of `build_plan` for ranked topics and the days `d ∷ ds`.
unfoldable pub plan_ranked : List String → ℕ → List ℕ → ℕ → Result Failure (List DayPlan)
unfolding all_but_last last
plan_ranked codes d [] daily_capacity = ok (review_day 0 d ∷ [])
plan_ranked codes d (e ∷ es) daily_capacity = do
  let study_days = all_but_last d (e ∷ es)
  schedule ← require (distribute codes (length study_days)) out_of_fuel
  plan ← study_plan daily_capacity schedule 0 study_days
  ok (plan ++ review_day (length study_days) (last d (e ∷ es)) ∷ [])

module _ (fl : Float) where
  open fl use {F, hundredths, sub, mul, le}

  pub record TopicPriority : Type 0 where
    pub topic_code : String
    pub weight : F
    pub rating : F

  unfoldable pub priority : TopicPriority → F
  priority t = mul t.weight (sub (hundredths 100) (normalized_rating fl t.rating))

  -- `<` on the sort keys `(-priority, topic_code)`
  unfoldable pub precedes : TopicPriority → TopicPriority → Bool
  precedes a b =
      if same fl (priority a) (priority b)
      then is_lt (compare a.topic_code b.topic_code)
      else lt fl (priority b) (priority a)

  unfoldable pub insert : TopicPriority → List TopicPriority → List TopicPriority
  insert t [] = t ∷ []
  insert t (u ∷ us) = let rest = insert t us in if precedes u t then u ∷ rest else t ∷ u ∷ us

  unfoldable pub ranked : List TopicPriority → List TopicPriority
  unfolding insert
  ranked [] = []
  ranked (t ∷ ts) =
      let rest = ranked ts in if lt fl (hundredths 0) t.weight then insert t rest else rest

  abbrev pub codes_of : List TopicPriority → List String
  codes_of = map (λ t. t.topic_code)

  unfoldable pub build_plan : List TopicPriority → List ℕ → ℕ → Result Failure (List DayPlan)
  unfolding plan_ranked
  build_plan topics [] daily_capacity = err (plan_error no_days)
  build_plan topics (d ∷ ds) daily_capacity =
      if ltb daily_capacity 1 then err (plan_error bad_capacity) else elim (ranked topics) [
        | [] ↦ err (plan_error no_topics)
        | t ∷ ts ↦ plan_ranked (codes_of (t ∷ ts)) d ds daily_capacity
      ]
