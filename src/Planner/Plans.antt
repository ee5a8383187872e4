-- ===== src/Planner/Plans.antt =====
-- The plans that `build_plan` returns (backend/app/services/planner.py).
use Prim.Native.Nat.{min}
use interview_trainer.Prelude.{
  ℕ, zero, suc, ◌+◌, ◌*◌, ◌≤◌, ◌≡◌, refl, some, arith, List, [], ◌∷◌, ◌++◌, length, true, false,
  not, ◌&&◌, String, contains, string_eq, nat_eq, ◌==◌, map, distinct, all, any, any-append, ap,
  ◌∙◌, length-append, length-map, sym, get_elem?, Bool,
}
use mathlib.Core.List.{append_assoc}
use interview_trainer.Exceptions.{ok}
use interview_trainer.Float.{Float}
use interview_trainer.Planner.{
  DayPlan, review_day, study_plan, all_but_last, last, plan_ranked, build_plan, distribute,
  covered_topics, TopicPriority, ranked, codes_of,
}
use interview_trainer.Planner.Coverage.{covered, distribute-covers, one_le_of_contains}
use interview_trainer.Planner.Fullness.{is_full, distribute-is_full}
use interview_trainer.Planner.Ranking.{weighted, length-ranked, contains-ranked, distinct-ranked}

-- the study days with their topics, side by side
entries : ℕ → ℕ → List (List String) → List ℕ → List DayPlan
entries capacity index [] days = []
entries capacity index (topics ∷ rest) [] = []
entries capacity index (topics ∷ rest) (day ∷ days) =
    record {
      day_index = index;
      day = day;
      topics = topics;
      new_questions = capacity;
      review_only = false;
    }
    ∷ entries capacity (index + 1) rest days

get_elem?-append :
    (pre : List (List String)) (x : List String) (xs : List (List String)) (i : ℕ)
    → i ≡ length pre
    → get_elem? (pre ++ x ∷ xs) i ≡ some x
get_elem?-append [] x xs zero e = refl
get_elem?-append [] x xs (suc i) e = absurd (omega arith)
get_elem?-append (y ∷ pre) x xs zero e = absurd (omega arith)
get_elem?-append (y ∷ pre) x xs (suc i) e = get_elem?-append pre x xs i (omega arith)

study_plan-entries :
    (capacity i : ℕ) (pre rest : List (List String)) (days : List ℕ)
    → i ≡ length pre
    → length days ≡ length rest
    → study_plan capacity (pre ++ rest) i days ≡ ok (entries capacity i rest days)
unfolding study_plan entries
study_plan-entries capacity i pre [] [] e h = refl
study_plan-entries capacity i pre [] (day ∷ days) e h = absurd (omega arith)
study_plan-entries capacity i pre (x ∷ rest) [] e h = absurd (omega arith)
study_plan-entries capacity i pre (x ∷ rest) (day ∷ days) e h =
    let later =
      study_plan-entries capacity (i + 1) (pre ++ x ∷ []) rest days
        (omega (arith, length-append pre (x ∷ []))) (omega arith) in
    rw (get_elem?-append pre x rest i e) (rw (rw append_assoc at later))

covered-entries :
    (capacity i : ℕ) (rest : List (List String)) (days : List ℕ) (code : String)
    → length days ≡ length rest
    → covered_topics (entries capacity i rest days) code ≡ covered rest code
unfolding covered_topics entries any
covered-entries capacity i [] days code h = refl
covered-entries capacity i (x ∷ rest) [] code h = absurd (omega arith)
covered-entries capacity i (x ∷ rest) (day ∷ days) code h =
    ground (arith, covered-entries capacity (i + 1) rest days code)

days-entries :
    (capacity i : ℕ) (rest : List (List String)) (days : List ℕ)
    → length days ≡ length rest
    → map (λ (d : DayPlan). d.day) (entries capacity i rest days) ≡ days
unfolding entries
days-entries capacity i [] [] h = refl
days-entries capacity i [] (day ∷ days) h = absurd (omega arith)
days-entries capacity i (x ∷ rest) [] h = absurd (omega arith)
days-entries capacity i (x ∷ rest) (day ∷ days) h =
    ap (◌∷◌ day) (days-entries capacity (i + 1) rest days (omega arith))

length-all_but_last : (d : ℕ) (ds : List ℕ) → length (all_but_last d ds) ≡ length ds
unfolding all_but_last
length-all_but_last d [] = refl
length-all_but_last d (e ∷ es) = ap suc (length-all_but_last e es)

all_but_last-append-last : (d : ℕ) (ds : List ℕ) → all_but_last d ds ++ last d ds ∷ [] ≡ d ∷ ds
unfolding all_but_last last
all_but_last-append-last d [] = refl
all_but_last-append-last d (e ∷ es) = ap (◌∷◌ d) (all_but_last-append-last e es)

-- a day of study: full, at the capacity asked for, and not for reviews only
abbrev pub is_study_day : ℕ → ℕ → DayPlan → Bool
is_study_day k capacity p = is_full k p.topics && p.new_questions == capacity && not p.review_only

all-entries :
    (k capacity i : ℕ) (rest : List (List String)) (days : List ℕ)
    → all (is_full k) rest ≡ true
    → all (is_study_day k capacity) (entries capacity i rest days) ≡ true
unfolding entries all
all-entries k capacity i [] days h = refl
all-entries k capacity i (x ∷ rest) [] h = refl
all-entries k capacity i (x ∷ rest) (day ∷ days) h =
    ground (arith, all-entries k capacity (i + 1) rest days)

plan_ranked-entries :
    (codes : List String) (d e : ℕ) (es : List ℕ) (capacity : ℕ) (schedule : List (List String))
    → distribute codes (length (e ∷ es)) ≡ some schedule
    → length schedule ≡ length (e ∷ es)
    → plan_ranked codes d (e ∷ es) capacity
      ≡ ok (
          entries capacity 0 schedule (all_but_last d (e ∷ es))
          ++ review_day (length (e ∷ es)) (last d (e ∷ es)) ∷ [])
unfolding plan_ranked
plan_ranked-entries codes d e es capacity schedule h l =
    let n = length-all_but_last d (e ∷ es) in
    rw (n, h)
      (rw (study_plan-entries capacity 0 [] schedule (all_but_last d (e ∷ es)) refl (n ∙ sym l)))

-- The plan for topics that differ: one entry for each day in order; every day but the last has
-- three different topics (or all, if there are fewer) and the daily capacity of new questions; the
-- last has no topic and is for reviews only.
plan_ranked_lem :
    (codes : List String) (d : ℕ) (ds : List ℕ) (capacity : ℕ)
    → 1 ≤ length codes
    → distinct codes ≡ true
    → (study : List DayPlan) × (plan_ranked codes d ds capacity
        ≡ ok (study ++ review_day (length ds) (last d ds) ∷ []))
      × (map (λ (p : DayPlan). p.day) study ≡ all_but_last d ds)
      × (all (is_study_day (min 3 (length codes)) capacity) study ≡ true)
unfolding plan_ranked all_but_last all
plan_ranked_lem codes d [] capacity one h = ([], refl, refl, refl)
plan_ranked_lem codes d (e ∷ es) capacity one h =
    let (schedule, made, days, full) =
      distribute-is_full codes (length (e ∷ es)) one (omega arith) h in
    let n = length-all_but_last d (e ∷ es) in
    (
      entries capacity 0 schedule (all_but_last d (e ∷ es)),
      plan_ranked-entries codes d e es capacity schedule made days,
      days-entries capacity 0 schedule (all_but_last d (e ∷ es)) (n ∙ sym days),
      all-entries (min 3 (length codes)) capacity 0 schedule _ full,
    )

covered-append :
    (study : List DayPlan) (final : DayPlan) (code : String)
    → covered_topics study code ≡ true
    → covered_topics (study ++ final ∷ []) code ≡ true
unfolding covered_topics
covered-append study final code h =
    ground (arith, any-append (λ (p : DayPlan). contains p.topics code) study (final ∷ []))

module _ (fl : Float) where
  build_plan-plan_ranked :
      (topics : List (TopicPriority fl)) (d : ℕ) (ds : List ℕ) (capacity : ℕ)
      → 1 ≤ capacity
      → 1 ≤ length (weighted fl topics)
      → build_plan fl topics (d ∷ ds) capacity
        ≡ plan_ranked (codes_of fl (ranked fl topics)) d ds capacity
  unfolding build_plan
  build_plan-plan_ranked topics d ds capacity c n = ground (arith, length-ranked fl topics)

  -- For a capacity of at least one, a day or more, and topics with different codes of which one
  -- has a weight, the plan is built and has one entry for each day, in order. Every day but the
  -- last has three different topics, or all if fewer have a weight, and the daily capacity of new
  -- questions; the last day has no topic and is for reviews only.
  pub build_plan_lem :
      (topics : List (TopicPriority fl)) (d : ℕ) (ds : List ℕ) (capacity : ℕ)
      → 1 ≤ capacity
      → 1 ≤ length (weighted fl topics)
      → distinct (codes_of fl (weighted fl topics)) ≡ true
      → (study : List DayPlan) × (build_plan fl topics (d ∷ ds) capacity
          ≡ ok (study ++ review_day (length ds) (last d ds) ∷ []))
        × (map (λ (p : DayPlan). p.day) study ++ last d ds ∷ [] ≡ d ∷ ds)
        × (all (is_study_day (min 3 (length (weighted fl topics))) capacity) study ≡ true)
  build_plan_lem topics d ds capacity c n h =
      let codes = codes_of fl (ranked fl topics) in
      let count : length codes ≡ length (weighted fl topics) =
        length-map _ _ ∙ length-ranked fl topics in
      let (study, made, days, full) =
        plan_ranked_lem codes d ds capacity (rw count n) (distinct-ranked fl topics ∙ h) in
      (
        study,
        build_plan-plan_ranked topics d ds capacity c n ∙ made,
        rw days (all_but_last-append-last d ds),
        rw count at full,
      )

  -- For two days or more and a capacity of at least one, with at least as many slots as topics
  -- with a weight, a plan is built and each of these topics is in some day of it.
  pub covered_topics-build_plan :
      (topics : List (TopicPriority fl)) (d e : ℕ) (es : List ℕ) (capacity : ℕ) (code : String)
      → 1 ≤ capacity
      → length (weighted fl topics) ≤ length (e ∷ es) * min 3 (length (weighted fl topics))
      → contains (codes_of fl (weighted fl topics)) code ≡ true
      → (plan : List DayPlan) × (build_plan fl topics (d ∷ e ∷ es) capacity ≡ ok plan)
        × (covered_topics plan code ≡ true)
  covered_topics-build_plan topics d e es capacity code c h k =
      let codes = codes_of fl (ranked fl topics) in
      let count : length codes ≡ length (weighted fl topics) =
        length-map _ _ ∙ length-ranked fl topics in
      let k' : contains codes code ≡ true = contains-ranked fl topics code ∙ k in
      let one = one_le_of_contains codes code k' in
      let (schedule, made, days, found) =
        distribute-covers codes (length (e ∷ es)) code (rw count h) k' in
      let n = length-all_but_last d (e ∷ es) in
      let study = entries capacity 0 schedule (all_but_last d (e ∷ es)) in
      let final = review_day (length (e ∷ es)) (last d (e ∷ es)) in
      (
        study ++ final ∷ [],
        build_plan-plan_ranked topics d (e ∷ es) capacity c (omega (arith, count, one))
            ∙ plan_ranked-entries codes d e es capacity schedule made days,
        covered-append study final code (
            covered-entries capacity 0 schedule (all_but_last d (e ∷ es)) code (n ∙ sym days)
            ∙ found),
      )
