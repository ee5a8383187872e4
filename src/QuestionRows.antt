-- ===== src/QuestionRows.antt =====
-- The rows of a question (backend/app/services/questions.py): the columns that `_apply_fields` writes,
-- and the options.
use interview_trainer.Prelude.{
  ℕ, ◌+◌, Bool, true, false, not, ◌&&◌, ◌||◌, List, [], Option, none, some, String, if◌then◌else◌,
  ◌==◌, string_eq, nat_eq,
}
use interview_trainer.Prelude.Int.{ℤ, pos}
use interview_trainer.Exceptions.{Result, ok, ◌>>=◌}
use interview_trainer.Enums.{seed}
use interview_trainer.Models.{Question, QuestionOption, difficulty_from_peak_grade}
use interview_trainer.Seed.Questions.{OptionIn, QuestionIn}
use interview_trainer.Rows.{SeedError, EntityStats, no_stats, Sync, sync_rows}
use interview_trainer.Taxonomy.{counts_changes}
use interview_trainer.TaxonomyRows.{bool_eq, enumerate}
use interview_trainer.Questions.Equality.{list_eq, option_eq, int_eq, type_eq, source_eq}

pub record QuestionSyncReport : Type 0 where
  pub questions : EntityStats
  pub options : EntityStats
  pub links : EntityStats

abbrev pub new_question_report : QuestionSyncReport
new_question_report = record { questions = no_stats; options = no_stats; links = no_stats }

abbrev pub question_changes : QuestionSyncReport → Bool
question_changes r =
    counts_changes r.questions || counts_changes r.options || counts_changes r.links

abbrev pub is_seed : Question → Bool
is_seed q = q.source == seed

-- `Question(…, is_verified=False, specializations=[], options=[])`, with the values of the file in
-- the columns that `_apply_fields` sets
unfoldable pub blank_question : ℕ → ℕ → QuestionIn → Question
blank_question uuid now q = record {
  id = uuid;
  slug = q.slug;
  topic_code = q.topic;
  subtopic_code = q.subtopic;
  min_grade = 0;
  peak_grade = 0;
  max_grade = 0;
  difficulty_rating = pos 0;
  frequency = q.frequency;
  type = q.type;
  title = q.title;
  answer_short = q.answer_short;
  answer_detailed = q.answer_detailed;
  common_mistakes = q.common_mistakes;
  follow_ups = q.follow_ups;
  company_tags = q.company_tags;
  is_verified = false;
  source = q.source;
  specializations = [];
  options = [];
  updated_at = now;
}

-- `payload.difficulty_rating or difficulty_from_peak_grade(peak_grade)`: 0 counts as no value
unfoldable pub initial_difficulty : Option ℤ → ℕ → ℤ
unfolding difficulty_from_peak_grade
initial_difficulty none peak = pos (difficulty_from_peak_grade peak)
initial_difficulty (some z) peak = if z == pos 0 then pos (difficulty_from_peak_grade peak) else z

-- the value of the column afterwards
unfoldable pub next_difficulty : Bool → Option ℤ → ℕ → ℤ → ℤ
unfolding initial_difficulty
next_difficulty true given peak current = initial_difficulty given peak
next_difficulty false none peak current = current
next_difficulty false (some z) peak current = z

-- the row with the values of the file
unfoldable pub with_fields : Bool → QuestionIn → ℕ × ℕ × ℕ → Question → Question
unfolding next_difficulty
with_fields is_new q g row = record row {
  slug = q.slug;
  topic_code = q.topic;
  subtopic_code = q.subtopic;
  min_grade = g.0;
  peak_grade = g.1;
  max_grade = g.2;
  frequency = q.frequency;
  type = q.type;
  title = q.title;
  answer_short = q.answer_short;
  answer_detailed = q.answer_detailed;
  common_mistakes = q.common_mistakes;
  follow_ups = q.follow_ups;
  company_tags = q.company_tags;
  source = q.source;
  difficulty_rating = next_difficulty is_new q.difficulty_rating g.1 row.difficulty_rating;
}

-- no column differs
unfoldable pub same_fields : Question → Question → Bool
same_fields a b =
    a.slug == b.slug
    && a.topic_code == b.topic_code
    && a.subtopic_code == b.subtopic_code
    && a.min_grade == b.min_grade
    && a.peak_grade == b.peak_grade
    && a.max_grade == b.max_grade
    && a.frequency == b.frequency
    && a.type == b.type
    && a.title == b.title
    && a.answer_short == b.answer_short
    && a.answer_detailed == b.answer_detailed
    && a.common_mistakes == b.common_mistakes
    && a.follow_ups == b.follow_ups
    && a.company_tags == b.company_tags
    && a.source == b.source
    && a.difficulty_rating == b.difficulty_rating

-- `_apply_fields`: the row, and whether something changed
unfoldable pub apply_fields : ℕ → Bool → QuestionIn → ℕ × ℕ × ℕ → Question → Question × Bool
unfolding with_fields same_fields
apply_fields now is_new q g row =
    let row' = with_fields is_new q g row in
    if same_fields row row' then (row, false) else (record row' { updated_at = now }, true)

abbrev pub option_differs : OptionIn × ℕ → QuestionOption → Bool
option_differs i r =
    not (r.text == i.0.text && r.is_correct == i.0.is_correct && r.sort_order == i.1)

unfoldable pub options_sync : ℕ → Sync String QuestionOption (OptionIn × ℕ)
options_sync question = record {
  is_mine = λ _. true;
  row_key = λ r. r.code;
  in_key = λ i. i.0.code;
  make = λ i _. record {
    question_id = question;
    code = i.0.code;
    text = i.0.text;
    is_correct = i.0.is_correct;
    sort_order = i.1;
  };
  apply = λ i r.
      if option_differs i r
      then record r { text = i.0.text; is_correct = i.0.is_correct; sort_order = i.1 }
      else r;
  differs = option_differs;
}

abbrev pub Loaded : Type 0
Loaded = Question × QuestionSyncReport

-- `_sync_options`
unfoldable pub sync_options : QuestionIn → Question → QuestionSyncReport → Result SeedError Loaded
unfolding sync_rows options_sync
sync_options q row report =
    sync_rows (options_sync row.id) (enumerate q.options) row.options report.options
    >>= λ (t : List QuestionOption × EntityStats).
        ok (record row { options = t.0 }, record report { options = t.1 })

abbrev pub count_links : EntityStats → ℕ → ℕ → EntityStats
count_links s created deleted = record s {
  created = s.created + created;
  deleted = s.deleted + deleted;
}
