-- ===== src/Taxonomy/Cascade.antt =====
-- When nothing is deleted, nothing else goes (backend/app/services/taxonomy.py).
use interview_trainer.Prelude.{
  ℕ, String, ◌≡◌, refl, arith, Bool, true, false, not, List, [], ◌∷◌, Comparable, ==_self,
  string_eq, nat_eq, keep, contains, map,
}
use interview_trainer.Float.{Float}
use interview_trainer.Models.{
  Database, Topic, Question, UserSpecialization, UserTopicRating, UserAnswer, StudyPlan,
  QuestionReport,
}
use interview_trainer.Taxonomy.{cascade_topics, cascade_specializations, cascade_professions}
use interview_trainer.TaxonomyRows.{gone}

module _ {ℓ} {A : Type ℓ} where
  pub keep-true : (p : A → Bool) (xs : List A) → ((x : A) → p x ≡ true) → keep p xs ≡ xs
  unfolding keep
  keep-true p [] h = refl
  keep-true p (x ∷ xs) h = ground (arith, h x, keep-true p xs h)

  keep-false : (p : A → Bool) (xs : List A) → ((x : A) → p x ≡ false) → keep p xs ≡ []
  unfolding keep
  keep-false p [] h = refl
  keep-false p (x ∷ xs) h = ground (arith, h x, keep-false p xs h)

  map-same : (f : A → A) (xs : List A) → ((x : A) → f x ≡ x) → map f xs ≡ xs
  map-same f [] h = refl
  map-same f (x ∷ xs) h = ground (arith, h x, map-same f xs h)

module _ {ℓ} {K : Type ℓ} ⦃c : Comparable K⦄ where
  keep-contained :
      (xs ys : List K)
      → ((k : K) → contains xs k ≡ true → contains ys k ≡ true)
      → keep (λ k. not (contains ys k)) xs ≡ []
  unfolding keep contains
  keep-contained [] ys h = refl
  keep-contained (x ∷ xs) ys h =
      ground (arith, h x, ==_self x, keep-contained xs ys (λ k e. h k (ground arith)))

  pub gone-same : (xs : List K) → gone xs xs ≡ []
  gone-same xs = keep-contained xs xs (λ k e. e)

module _ (fl : Float) (fresh : List ℕ → ℕ) where
  pub cascade_topics-nothing : (db : Database fl) → cascade_topics fl fresh [] db ≡ db
  unfolding cascade_topics contains
  cascade_topics-nothing db = ground (
    arith,
    keep-true (λ _. true) db.subtopics (λ _. refl),
    keep-true (λ _. true) db.topic_weights (λ _. refl),
  )

  pub cascade_specializations-nothing :
      (db : Database fl) → cascade_specializations fl fresh [] db ≡ db
  unfolding cascade_specializations contains
  cascade_specializations-nothing db =
      let same : (A : Type 0) → (xs : List A) → keep (λ _. true) xs ≡ xs =
        λ A xs. keep-true (λ _. true) xs (λ _. refl) in
      rw
        (
          keep-false (λ _. false) db.topics (λ _. refl),
          same Topic db.topics,
          same UserSpecialization db.user_specializations,
          same (UserTopicRating fl) db.user_topic_ratings,
          same (UserAnswer fl) db.user_answers,
          same StudyPlan db.study_plans,
          same QuestionReport db.question_reports,
          map-same
              (λ (q : Question). record q { specializations = keep (λ _. true) q.specializations })
              db.questions (λ q. rw (same String q.specializations) refl),
        )
        (cascade_topics-nothing db)

  pub cascade_professions-nothing : (db : Database fl) → cascade_professions fl fresh [] db ≡ db
  unfolding cascade_professions contains
  cascade_professions-nothing db =
      rw
        (
          keep-false (λ _. false) db.specializations (λ _. refl),
          keep-true (λ _. true) db.specializations (λ _. refl),
        )
        (cascade_specializations-nothing db)
