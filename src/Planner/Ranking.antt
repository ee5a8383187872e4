-- ===== src/Planner/Ranking.antt =====
-- The ranking of topics in `build_plan` (backend/app/services/planner.py).
use interview_trainer.Prelude.{
  suc, ◌≡◌, refl, true, Bool, ◌&&◌, arith, List, [], ◌∷◌, length, keep, contains, distinct, String,
  string_eq, if◌then◌else◌, eq_iff,
}
use interview_trainer.Float.{Float, FloatLaws, lt}
use interview_trainer.Planner.{TopicPriority, priority, precedes, insert, ranked, codes_of}

module _ (fl : Float) where
  open fl use {F, hundredths, le}

  -- the topics with a weight, in the order in which they came
  abbrev pub weighted : List (TopicPriority fl) → List (TopicPriority fl)
  weighted = keep (λ t. lt fl (hundredths 0) t.weight)

  -- priorities fall, or stay, from `p` on and from each topic to the next
  unfoldable pub descending_from : F → List (TopicPriority fl) → Bool
  descending_from p [] = true
  descending_from p (u ∷ us) = le (priority fl u) p && descending_from (priority fl u) us

  unfoldable pub descending : List (TopicPriority fl) → Bool
  unfolding descending_from
  descending [] = true
  descending (t ∷ ts) = descending_from (priority fl t) ts

  length-insert :
      (t : TopicPriority fl) (us : List (TopicPriority fl))
      → length (insert fl t us) ≡ suc (length us)
  unfolding insert
  length-insert t [] = refl
  length-insert t (u ∷ us) = ground (arith, length-insert t us)

  pub length-ranked : (ts : List (TopicPriority fl)) → length (ranked fl ts) ≡ length (weighted ts)
  unfolding ranked keep
  length-ranked [] = refl
  length-ranked (t ∷ ts) = ground (arith, length-ranked ts, length-insert t (ranked fl ts))

  contains-insert :
      (t : TopicPriority fl) (us : List (TopicPriority fl)) (code : String)
      → contains (codes_of fl (insert fl t us)) code ≡ contains (codes_of fl (t ∷ us)) code
  unfolding insert contains
  contains-insert t [] code = refl
  contains-insert t (u ∷ us) code = ground (arith, contains-insert t us code)

  pub contains-ranked :
      (ts : List (TopicPriority fl)) (code : String)
      → contains (codes_of fl (ranked fl ts)) code ≡ contains (codes_of fl (weighted ts)) code
  unfolding ranked keep contains
  contains-ranked [] code = refl
  contains-ranked (t ∷ ts) code =
      ground (arith, contains-ranked ts code, contains-insert t (ranked fl ts) code)

  distinct-insert :
      (t : TopicPriority fl) (us : List (TopicPriority fl))
      → distinct (codes_of fl (insert fl t us)) ≡ distinct (codes_of fl (t ∷ us))
  unfolding insert distinct contains
  distinct-insert t [] = refl
  distinct-insert t (u ∷ us) = ground (
    arith,
    distinct-insert t us,
    contains-insert t us u.topic_code,
    eq_iff t.topic_code u.topic_code,
    eq_iff u.topic_code t.topic_code,
  )

  pub distinct-ranked :
      (ts : List (TopicPriority fl))
      → distinct (codes_of fl (ranked fl ts)) ≡ distinct (codes_of fl (weighted ts))
  unfolding ranked keep distinct
  distinct-ranked [] = refl
  distinct-ranked (t ∷ ts) =
      ground (
        arith,
        distinct-ranked ts,
        distinct-insert t (ranked fl ts),
        contains-ranked ts t.topic_code,
      )

  module _ (laws : FloatLaws fl) where
    precedes_falls :
        (t u : TopicPriority fl)
        → le
            (if precedes fl u t then priority fl t else priority fl u)
            (if precedes fl u t then priority fl u else priority fl t)
          ≡ true
    unfolding precedes
    precedes_falls t u = ground (
      arith,
      laws.le_total (priority fl u) (priority fl t),
      laws.le_total (priority fl t) (priority fl u),
    )

    descending_from-insert :
        (p : F) (t : TopicPriority fl) (us : List (TopicPriority fl))
        → le (priority fl t) p ≡ true
        → descending_from p us ≡ true
        → descending_from p (insert fl t us) ≡ true
    unfolding insert descending_from
    descending_from-insert p t [] k h = ground arith
    descending_from-insert p t (u ∷ us) k h =
        ground (arith, descending_from-insert (priority fl u) t us, precedes_falls t u)

    descending-insert :
        (t : TopicPriority fl) (us : List (TopicPriority fl))
        → descending us ≡ true
        → descending (insert fl t us) ≡ true
    unfolding insert descending
    descending-insert t [] h = refl
    descending-insert t (u ∷ us) h =
        ground (arith, descending_from-insert (priority fl u) t us, precedes_falls t u)

    descending-ranked : (ts : List (TopicPriority fl)) → descending (ranked fl ts) ≡ true
    unfolding ranked descending
    descending-ranked [] = refl
    descending-ranked (t ∷ ts) =
        ground (arith, descending-ranked ts, descending-insert t (ranked fl ts))

    -- The ranked topics are those with a positive weight, no priority rising from one to the next.
    ranked-descending :
        (ts : List (TopicPriority fl)) (code : String)
        → (descending (ranked fl ts) ≡ true)
          × (length (ranked fl ts) ≡ length (weighted ts))
          × (contains (codes_of fl (ranked fl ts)) code ≡ contains (codes_of fl (weighted ts)) code)
    ranked-descending ts code = (descending-ranked ts, length-ranked ts, contains-ranked ts code)
