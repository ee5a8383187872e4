-- ===== src/Practice/Samples.antt =====
-- Answers and offers at concrete inputs.
use interview_trainer.Prelude.{
  inl, ℕ, ◌≡◌, ◌≤◌, ◌+◌, ◌⊎◌, refl, arith, true, false, [], ◌∷◌, none, some, String, string_eq,
  contains,
}
use interview_trainer.Prelude.Int.{pos, ◌+ℤ◌, ◌-ℤ◌}
use interview_trainer.Exceptions.{ok, err, conflict, not_found}
use interview_trainer.Float.Fixed.{fixed, fixed_round, fixed_mul, fixed_div, fixed_pow, of_int}
use interview_trainer.Rating.{apply_elo, expected_score, user_k_factor, quality_from_score}
use interview_trainer.Scheduler.{review, next_interval}
use interview_trainer.Models.{UserSpecialization}
use interview_trainer.Practice.Lookups.{
  resolve_answered_at, max_backdating, find_profile, feed_grade,
}
use interview_trainer.Practice.Evaluate.{choice_score, evaluate}
use interview_trainer.Practice.Submit.{AnswerResult, submit_answer}
use interview_trainer.Practice.Batch.{upload_answers}
use interview_trainer.Practice.Feed.{NextQuestion, next_question, is_candidate}
use interview_trainer.Practice.Times.{resolve_answered_at_bounds}
use interview_trainer.Practice.Scores.{choice_score-SameSet}
use interview_trainer.Practice.Replay.{submit_answer_again}
use interview_trainer.Practice.Failures.{Failed, submit_answer-Failed}
use interview_trainer.Practice.Lost.{
  accepted_item, rejected_item, upload_answers_loses, committed-submit_answer,
}
use interview_trainer.Practice.Stats.{not_enough_data, SpecializationStats, stats}
use interview_trainer.Practice.Locks.{stats_locked}
use interview_trainer.Practice.Offers.{is_due, next_question-offer}
use interview_trainer.Sample.{ann, ann_python, gil, answer, sample_request, sample_session}

resolve_answered_at_bounds_example :
    (resolve_answered_at 9000000000000 (some 5) ≤ 9000000000000)
    × (9000000000000 ≤ resolve_answered_at 9000000000000 (some 5) + max_backdating)
resolve_answered_at_bounds_example = resolve_answered_at_bounds 9000000000000 (some 5)

-- two spellings of the selection of a and b
same_selection :
    (code : String) → contains ("a" ∷ "b" ∷ []) code ≡ contains ("b" ∷ "a" ∷ "b" ∷ []) code
unfolding contains
same_selection code = ground arith

choice_score-SameSet_example :
    choice_score fixed ("a" ∷ "b" ∷ []) ("a" ∷ [])
    ≡ choice_score fixed ("b" ∷ "a" ∷ "b" ∷ []) ("a" ∷ [])
choice_score-SameSet_example =
    choice_score-SameSet fixed ("a" ∷ "b" ∷ []) ("b" ∷ "a" ∷ "b" ∷ []) ("a" ∷ []) same_selection

abbrev answered : AnswerResult fixed
answered = record {
  question = record gil { difficulty_rating = pos 1388 };
  score = pos 100;
  quality = pos 5;
  rating_before = pos 120000;
  rating_after = pos 121600;
  difficulty_before = pos 1390;
  difficulty_after = pos 1388;
  next_review_at = 9086400000000;
  is_duplicate = false;
}

submit_answer_first :
    (submit_answer fixed sample_request ann (answer 11 "a") sample_session).0 ≡ ok answered
unfolding submit_answer evaluate review quality_from_score apply_elo resolve_answered_at fixed_round
    ◌+ℤ◌ next_interval ◌-ℤ◌ fixed_mul of_int expected_score fixed_div fixed_pow user_k_factor
submit_answer_first = refl

submit_answer_again_example :
    let s' = (submit_answer fixed sample_request ann (answer 11 "a") sample_session).1 in
    submit_answer fixed sample_request ann (answer 11 "b") s'
    ≡ (ok (record answered { is_duplicate = true }), s')
submit_answer_again_example =
    submit_answer_again sample_request sample_request ann (answer 11 "a") (answer 11 "b")
      sample_session answered refl submit_answer_first

submit_answer_unknown :
    (submit_answer fixed sample_request ann
      (record (answer 11 "a") { question_id = 8 })
      sample_session).0
    ≡ err not_found
unfolding submit_answer
submit_answer_unknown = refl

submit_answer-Failed_example :
    Failed sample_request
      (record (answer 11 "a") { question_id = 8 })
      not_found
      sample_session
      (submit_answer fixed sample_request ann
        (record (answer 11 "a") { question_id = 8 })
        sample_session)
submit_answer-Failed_example =
    submit_answer-Failed sample_request ann (record (answer 11 "a") { question_id = 8 })
      sample_session not_found submit_answer_unknown

committed-submit_answer_example :
    (submit_answer fixed sample_request ann (answer 12 "a") sample_session).1.committed
    ≡ sample_session.committed
committed-submit_answer_example =
    committed-submit_answer sample_request ann (answer 12 "a") sample_session

submit_answer_clash :
    (submit_answer fixed sample_request ann
      (answer 12 "a")
      (submit_answer fixed sample_request ann (answer 11 "a") sample_session).1).0
    ≡ err conflict
unfolding submit_answer evaluate review quality_from_score apply_elo resolve_answered_at fixed_round
    ◌+ℤ◌ next_interval ◌-ℤ◌ fixed_mul of_int expected_score fixed_div fixed_pow user_k_factor
submit_answer_clash = refl

upload_answers_loses_example :
    ((upload_answers fixed sample_request ann (answer 11 "a" ∷ answer 12 "a" ∷ []) sample_session).0
      ≡ ok (accepted_item (answer 11 "a") answered ∷ rejected_item (answer 12 "a") conflict ∷ []))
    × ((upload_answers fixed sample_request ann
          (answer 11 "a" ∷ answer 12 "a" ∷ [])
          sample_session).1.committed
        ≡ sample_session.committed)
upload_answers_loses_example =
    upload_answers_loses sample_request ann (answer 11 "a") (answer 12 "a") sample_session answered
      refl submit_answer_first submit_answer_clash

abbrev offered : NextQuestion
offered = record {
  question = gil;
  is_review = false;
  due_at = none;
  topic_title = "Core";
  subtopic_title = none;
}

next_question_gil : (next_question fixed 500 ann "python" sample_session).0 ≡ ok offered
unfolding next_question
next_question_gil = refl

next_question-offer_example :
    ((next_question fixed 500 ann "python" sample_session).1 ≡ sample_session)
    × (((due_at : ℕ) × (false ≡ true)
          × (offered.due_at ≡ some due_at)
          × (is_due 500 1 "python" sample_session.current.review_states (gil, due_at) ≡ true))
        ⊎ ((profile : UserSpecialization) × (find_profile 1 "python" sample_session.current
              ≡ some profile)
            × (offered.is_review ≡ false)
            × (offered.due_at ≡ none)
            × (is_candidate fixed 1 "python" (feed_grade profile) sample_session.current gil
                ≡ true)))
next_question-offer_example =
    next_question-offer 500 ann "python" sample_session offered next_question_gil

stats_locked_example :
    (r : SpecializationStats fixed) × (stats fixed ann "python" sample_session
      ≡ (ok r, sample_session))
    × (r.overall_rating ≡ none)
    × (r.overall_grade ≡ none)
    × (r.locked_reason ≡ some not_enough_data)
unfolding find_profile
stats_locked_example = stats_locked ann "python" sample_session ann_python refl (inl (omega arith))
