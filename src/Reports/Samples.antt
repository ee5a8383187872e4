-- ===== src/Reports/Samples.antt =====
-- The queue of reports at concrete inputs.
use interview_trainer.Prelude.{◌≡◌, ◌≤◌, refl, arith, true, false, none, some}
use interview_trainer.Exceptions.{ok}
use interview_trainer.Reports.{
  Text, ReportSubmission, ReportResult, submit, report_row, recent_count, daily_limit,
}
use interview_trainer.Reports.Queue.{
  unique_reports, submit-unique_reports, submit-daily_limit, submit_again,
}
use interview_trainer.Sample.{ann, sample_session}

-- no spaces to strip, titles of 16 code points, and the title as its own fingerprint
abbrev plain : Text
plain = record { strip = λ t. t; code_points = λ _. 16; fingerprint = λ t. t }

abbrev asked : ReportSubmission
asked = record {
  specialization_id = "python";
  title = "What is the GIL?";
  topic_code = some "core";
  details = none;
  company = some "";
  asked_grade = none;
}

abbrev accepted : ReportResult
accepted = record { report = report_row plain 500 1 ann asked (some "core"); is_duplicate = false }

submit_asked : (submit plain 500 1 ann asked sample_session).0 ≡ ok accepted
unfolding submit
submit_asked = refl

submit-unique_reports_example :
    unique_reports (submit plain 500 1 ann asked sample_session).1.current.question_reports ≡ true
unfolding unique_reports
submit-unique_reports_example = submit-unique_reports plain 500 1 ann asked sample_session refl

submit-daily_limit_example :
    recent_count 500 1 (submit plain 500 1 ann asked sample_session).1.current.question_reports
    ≤ daily_limit
unfolding recent_count
submit-daily_limit_example = submit-daily_limit plain 500 1 ann asked sample_session (omega arith)

submit_again_example :
    let s' = (submit plain 500 1 ann asked sample_session).1 in
    submit plain 900 2 ann asked s'
    ≡ (ok (record { report = accepted.report; is_duplicate = true }), s')
submit_again_example =
    submit_again plain 500 900 1 2 ann asked asked sample_session accepted submit_asked refl refl
      refl
