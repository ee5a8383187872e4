-- ===== src/Practice/Offers.antt =====
-- What may be offered next (`next_question`, `_next_due_question`, `_next_new_question`,
-- backend/app/services/practice.py).
use interview_trainer.Prelude.{
  ℕ, ◌≡◌, ◌⊎◌, inl, inr, refl, true, false, Bool, ◌&&◌, arith, List, [], ◌∷◌, Option, none, some,
  String, leb, ◌==◌, nat_eq, ==_iff, ==_self, ◌∙◌, find, find-test, first, any, all, all-keep,
  all-take, all-max_by, all-sort_by, take, keep, sort_by, max_by, Option-cases,
}
use interview_trainer.Exceptions.{ok}
use interview_trainer.Float.{Float}
use interview_trainer.Models.{Database, Question, ReviewState, User, UserSpecialization}
use interview_trainer.Session.{Session}
use interview_trainer.Practice.Lookups.{find_profile, feed_grade, topic_weights, topic_ratings}
use interview_trainer.Practice.Feed.{
  NextQuestion, Due, due_before, is_linked, due_reviews, next_due_question, is_candidate,
  next_new_question, with_titles, offer_new, next_question, key_before, priority, candidate_limit,
}

module _ {ℓ} {A : Type ℓ} where
  all_mono :
      (p q : A → Bool) (xs : List A)
      → ((x : A) → p x ≡ true → q x ≡ true)
      → all p xs ≡ true
      → all q xs ≡ true
  unfolding all
  all_mono p q [] imp h = refl
  all_mono p q (x ∷ xs) imp h = ground (arith, imp x, all_mono p q xs imp)

  all-first :
      (p : A → Bool) (xs : List A) (x : A) → all p xs ≡ true → first xs ≡ some x → p x ≡ true
  unfolding all
  all-first p [] x h found = cc
  all-first p (y ∷ ys) x h found = ground arith

  -- the largest element of a list, when it has one
  abbrev best : (A → A → Bool) → List A → Option A
  best before [] = none
  best before (x ∷ xs) = some (max_by before x xs)

  best-test :
      (before : A → A → Bool) (p : A → Bool) (xs : List A) (a : A)
      → all p xs ≡ true
      → best before xs ≡ some a
      → p a ≡ true
  unfolding all
  best-test before p [] a h found = cc
  best-test before p (x ∷ xs) a h found =
      let largest = all-max_by before p x xs (ground arith) (ground arith) in
      ground (arith, largest)

module _ {fl : Float} where
  -- the review of one of the user's questions, with the time of the pair
  abbrev pub is_review_of : ℕ → Due → ReviewState fl → Bool
  is_review_of user d r = (r.user_id == user) && ((r.question_id == d.0.id) && (r.due_at == d.1))

  -- A question of the specialization with a review of the user that is due by now.
  abbrev pub is_due : ℕ → ℕ → String → List (ReviewState fl) → Due → Bool
  is_due now user specialization reviews d =
      is_linked specialization d.0 && (leb d.1 now && any (is_review_of user d) reviews)

  all-due_reviews :
      (now user : ℕ) (specialization : String) (questions : List Question)
      (rs : List (ReviewState fl))
      → all
          (is_due now user specialization rs)
          (due_reviews fl now user specialization questions rs)
        ≡ true
  unfolding due_reviews all any
  all-due_reviews now user specialization questions [] = refl
  all-due_reviews now user specialization questions (r ∷ rs) =
      let test : Question → Bool = λ q. (q.id == r.question_id) && is_linked specialization q in
      let weaker =
        all_mono (is_due now user specialization rs) (is_due now user specialization (r ∷ rs))
          (due_reviews fl now user specialization questions rs) (λ d h. ground arith)
          (all-due_reviews now user specialization questions rs) in
      elim (Option-cases (find test questions)) [
        | inl absent ↦ ground (arith, weaker)
        | inr (q, found) ↦
            let passed = find-test test questions q found in
            ground (
              arith,
              weaker,
              passed,
              ==_iff q.id r.question_id,
              ==_iff r.question_id q.id,
              ==_self r.due_at,
            )
      ]

  -- A due question that is offered is linked to the specialization and its review is due.
  next_due_question-is_due :
      (now user : ℕ) (specialization : String) (db : Database fl) (d : Due)
      → next_due_question fl now user specialization db ≡ some d
      → is_due now user specialization db.review_states d ≡ true
  unfolding next_due_question
  next_due_question-is_due now user specialization db d h =
      let test = is_due now user specialization db.review_states in
      let due = due_reviews fl now user specialization db.questions db.review_states in
      all-first test (sort_by due_before due) d
        (all-sort_by due_before test due
          ∙ all-due_reviews now user specialization db.questions db.review_states)
        h

  -- A new question that is offered meets the conditions of the query.
  next_new_question-is_candidate :
      (user : ℕ) (specialization : String) (grade : ℕ) (db : Database fl) (q : Question)
      → next_new_question fl user specialization grade db ≡ some q
      → is_candidate fl user specialization grade db q ≡ true
  unfolding next_new_question
  next_new_question-is_candidate user specialization grade db q h =
      let test = is_candidate fl user specialization grade db in
      let found =
        all-take test candidate_limit (keep test db.questions) (all-keep test db.questions) in
      let weights = topic_weights specialization grade db in
      let ratings = topic_ratings user specialization db in
      best-test (key_before fl (priority fl grade weights ratings)) test
        (take candidate_limit (keep test db.questions)) q found (ground arith)

  -- Whatever is offered, the session is unchanged, and it is either a question of the specialization
  -- whose review is due by now, or a question of the specialization in the range of the user's grade
  -- that the user has not answered.
  pub next_question-offer :
      (now : ℕ) (user : User) (specialization : String) (s : Session fl) (offer : NextQuestion)
      → (next_question fl now user specialization s).0 ≡ ok offer
      → ((next_question fl now user specialization s).1 ≡ s)
        × (((due_at : ℕ) × (offer.is_review ≡ true)
              × (offer.due_at ≡ some due_at)
              × (is_due now user.id specialization s.current.review_states (offer.question, due_at)
                  ≡ true))
            ⊎ ((profile : UserSpecialization) × (find_profile user.id specialization s.current
                  ≡ some profile)
                × (offer.is_review ≡ false)
                × (offer.due_at ≡ none)
                × (is_candidate fl user.id specialization
                      (feed_grade profile)
                      s.current
                      offer.question
                    ≡ true)))
  unfolding next_question offer_new with_titles
  next_question-offer now user specialization s offer h =
      elim (Option-cases (find_profile user.id specialization s.current)) [
        | inl absent ↦ absurd (ground arith)
        | inr (profile, found) ↦
            let grade = feed_grade profile in
            elim (Option-cases (next_due_question fl now user.id specialization s.current)) [
              | inr ((q, at), due) ↦
                  let fits =
                    next_due_question-is_due now user.id specialization s.current (q, at) due in
                  (ground arith, inl (at, ground arith, ground arith, ground (arith, fits)))
              | inl no_review ↦
                  elim (Option-cases
                    (next_new_question fl user.id specialization grade s.current)) [
                      | inl nothing ↦ absurd (ground arith)
                      | inr (q, fresh) ↦
                          let fits =
                            next_new_question-is_candidate user.id specialization grade s.current q
                              fresh in
                          (
                            ground arith,
                            inr (profile, found, ground arith, ground arith, ground (arith, fits)),
                          )
                    ]
            ]
      ]
