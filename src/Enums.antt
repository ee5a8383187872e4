-- ===== src/Enums.antt =====
-- backend/app/core/enums.py.
use interview_trainer.Prelude.{Bool, true, false, if◌then◌else◌}
use interview_trainer.Float.{Float, lt}

pub data QuestionType : Type 0 where
  single_choice multi_choice short_answer open_answer : QuestionType

unfoldable pub has_options : QuestionType → Bool
has_options single_choice = true
has_options multi_choice = true
has_options _ = false

pub data QuestionSource : Type 0 where
  seed crowdsourced imported : QuestionSource

pub data ReportStatus : Type 0 where
  new accepted rejected duplicate : ReportStatus

pub data QuestionStatus : Type 0 where
  unanswered correct partial wrong : QuestionStatus

module _ (fl : Float) where
  open fl use {F, hundredths, le}

  unfoldable pub from_score : F → QuestionStatus
  from_score score =
      if le (hundredths 100) score
      then correct
      else if lt fl (hundredths 0) score
      then partial
      else wrong
