-- ===== src/Questions/Fields.antt =====
-- The columns of a question and its difficulty (`_apply_fields`).
use interview_trainer.Prelude.{
  ℕ, ◌≡◌, ◌↔◌, ap, ◌∙◌, arith, Bool, true, false, not, Option, none, some, ◌==◌, ==_self, nat_eq,
  string_eq,
}
use interview_trainer.Prelude.Int.{ℤ, pos}
use interview_trainer.Models.{Question, difficulty_from_peak_grade}
use interview_trainer.Seed.Questions.{QuestionIn}
use interview_trainer.Questions.Equality.{
  list_eq, option_eq, int_eq, type_eq, source_eq, same_int_iff,
}
use interview_trainer.QuestionRows.{
  initial_difficulty, next_difficulty, with_fields, same_fields, apply_fields, blank_question,
}

-- the columns of the file, once they are written, are equal to those of the file
same_fields-with_fields :
    (is_new : Bool) (q : QuestionIn) (g : ℕ × ℕ × ℕ) (row : Question)
    → let row' = with_fields is_new q g row in
      same_fields row' (with_fields false q g row') ≡ (
        row'.difficulty_rating
        == next_difficulty false q.difficulty_rating g.1 row'.difficulty_rating)
unfolding with_fields same_fields
same_fields-with_fields is_new q g row = ground (
  arith,
  ==_self q.slug,
  ==_self q.topic,
  ==_self q.subtopic,
  ==_self g.0,
  ==_self g.1,
  ==_self g.2,
  ==_self q.frequency,
  ==_self q.type,
  ==_self q.title,
  ==_self q.answer_short,
  ==_self q.answer_detailed,
  ==_self q.common_mistakes,
  ==_self q.follow_ups,
  ==_self q.company_tags,
  ==_self q.source,
)

-- the difficulty of a new question is given again at the next load
difficulty_again :
    (given : Option ℤ) (peak : ℕ)
    → ((initial_difficulty given peak
          == next_difficulty false given peak (initial_difficulty given peak))
        ≡ false)
      ↔ (given ≡ some (pos 0))
unfolding initial_difficulty next_difficulty difficulty_from_peak_grade
difficulty_again none peak = ground (
  arith,
  same_int_iff (pos (difficulty_from_peak_grade peak)) (pos (difficulty_from_peak_grade peak)),
)
difficulty_again (some z) peak = ground (
  arith,
  same_int_iff z (pos 0),
  same_int_iff (pos (difficulty_from_peak_grade peak)) z,
  same_int_iff z z,
)

initial_difficulty-nonzero :
    (given : Option ℤ) (peak : ℕ) → (pos 0 == initial_difficulty given peak) ≡ false
unfolding initial_difficulty difficulty_from_peak_grade
initial_difficulty-nonzero none peak =
    ground (arith, same_int_iff (pos 0) (pos (difficulty_from_peak_grade peak)))
initial_difficulty-nonzero (some z) peak = ground (
  arith,
  same_int_iff z (pos 0),
  same_int_iff (pos 0) z,
  same_int_iff (pos 0) (pos (difficulty_from_peak_grade peak)),
)

fields_new :
    (now uuid : ℕ) (q : QuestionIn) (g : ℕ × ℕ × ℕ)
    → (apply_fields now true q g (blank_question uuid now q)).0
      ≡ record (with_fields true q g (blank_question uuid now q)) { updated_at = now }
unfolding apply_fields with_fields same_fields blank_question next_difficulty
fields_new now uuid q g = ground (arith, initial_difficulty-nonzero q.difficulty_rating g.1)

changed-apply_fields :
    (now : ℕ) (q : QuestionIn) (g : ℕ × ℕ × ℕ) (row : Question)
    → (apply_fields now false q g row).1 ≡ not (same_fields row (with_fields false q g row))
unfolding apply_fields
changed-apply_fields now q g row = ground arith

changed_again :
    (now later uuid : ℕ) (q : QuestionIn) (g : ℕ × ℕ × ℕ)
    → (apply_fields later false q g (apply_fields now true q g (blank_question uuid now q)).0).1
      ≡ not (
          initial_difficulty q.difficulty_rating g.1
          == next_difficulty false q.difficulty_rating g.1
              (initial_difficulty q.difficulty_rating g.1))
unfolding with_fields same_fields next_difficulty
changed_again now later uuid q g =
    ap (λ row. (apply_fields later false q g row).1) (fields_new now uuid q g)
    ∙ changed-apply_fields later q g
        (record (with_fields true q g (blank_question uuid now q)) { updated_at = now })
    ∙ ap not (same_fields-with_fields true q g (blank_question uuid now q))

-- The columns of a question that was just created are written again by the next load exactly
-- if its file gives the difficulty 0: it was created with the default difficulty of its grade,
-- since 0 counted as no value there, and gets 0 now.
pub apply_fields_again :
    (now later uuid : ℕ) (q : QuestionIn) (g : ℕ × ℕ × ℕ)
    → ((apply_fields later false q g (apply_fields now true q g (blank_question uuid now q)).0).1
        ≡ true)
      ↔ (q.difficulty_rating ≡ some (pos 0))
apply_fields_again now later uuid q g =
    ground (arith, changed_again now later uuid q g, difficulty_again q.difficulty_rating g.1)
