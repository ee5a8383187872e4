-- ===== src/Reports/Queue.antt =====
-- The queue of reports (`submit`, backend/app/services/reports.py).
use interview_trainer.Prelude.{
  ℕ, ◌≡◌, ◌≤◌, ◌+◌, refl, Bool, true, false, not, ◌&&◌, ◌||◌, List, [], ◌∷◌, ◌++◌, none, some,
  arith, nat_eq, string_eq, ==_self, ==_iff, find, keep, any, length, leb, ltb, Option-cases,
  Bool-cases, inl, inr, ◌⊎◌, find-append_none,
}
use interview_trainer.Exceptions.{ok}
use interview_trainer.Float.{Float}
use interview_trainer.Models.{QuestionReport, User}
use interview_trainer.Session.{Session}
use interview_trainer.Users.{find_specialization}
use interview_trainer.Reports.{
  Text, ReportSubmission, ReportResult, submit, add_report, report_row, with_report, find_report,
  resolve_topic, recent_count, is_recent, is_same_report, daily_limit, min_title_length,
}

-- no user has two reports with one fingerprint
unfoldable pub unique_reports : List QuestionReport → Bool
unfolding any is_same_report
unique_reports [] = true
unique_reports (r ∷ rs) =
    not (any (is_same_report r.user_id r.title_fingerprint) rs) && unique_reports rs

any-find-none : {A : Type 0} (p : A → Bool) (xs : List A) → find p xs ≡ none → any p xs ≡ false
unfolding find any
any-find-none p [] h = refl
any-find-none p (x ∷ xs) h = ground (arith, any-find-none p xs)

any-append_one :
    {A : Type 0} (p : A → Bool) (xs : List A) (a : A) → any p (xs ++ a ∷ []) ≡ (any p xs || p a)
unfolding any
any-append_one p [] a = ground arith
any-append_one p (x ∷ xs) a = ground (arith, any-append_one p xs a)

length-keep-append_le :
    {A : Type 0} (p : A → Bool) (xs : List A) (a : A)
    → length (keep p (xs ++ a ∷ [])) ≤ length (keep p xs) + 1
unfolding keep
length-keep-append_le p [] a = ground arith
length-keep-append_le p (x ∷ xs) a = ground (arith, length-keep-append_le p xs a)

unique_reports-append :
    (rs : List QuestionReport) (r : QuestionReport)
    → unique_reports rs ≡ true
    → any (is_same_report r.user_id r.title_fingerprint) rs ≡ false
    → unique_reports (rs ++ r ∷ []) ≡ true
unfolding unique_reports any is_same_report
unique_reports-append [] r h absent = refl
unique_reports-append (x ∷ xs) r h absent = ground (
  arith,
  any-append_one (is_same_report x.user_id x.title_fingerprint) xs r,
  unique_reports-append xs r,
  ==_iff x.user_id r.user_id,
  ==_iff r.user_id x.user_id,
  ==_iff x.title_fingerprint r.title_fingerprint,
  ==_iff r.title_fingerprint x.title_fingerprint,
)

module _ (text : Text) {fl : Float} where
  open text use {strip, code_points, fingerprint}

  -- How a submission ends: refused or known, and the session is unchanged; or added to the end of
  -- the queue, under the limit, as a new report with the fingerprint of its title.
  abbrev pub Ends : ℕ → ℕ → User → ReportSubmission → Session fl → Type 0
  Ends now id user submission s =
      (submit text now id user submission s).1 ≡ s
      ⊎ (let report =
            report_row text now id user submission
              (resolve_topic text submission.specialization_id submission.topic_code s.current) in
          (find_report text user.id (fingerprint (strip submission.title)) s.current ≡ none)
          × (ltb (recent_count now user.id s.current.question_reports) daily_limit ≡ true)
          × (submit text now id user submission s ≡ (
            ok (record { report = report; is_duplicate = false }),
            record s { current = with_report text report s.current },
          )))

  submit-Ends :
      (now id : ℕ) (user : User) (submission : ReportSubmission) (s : Session fl)
      → Ends now id user submission s
  unfolding submit add_report
  submit-Ends now id user submission s =
      let title = strip submission.title in
      elim (Bool-cases (leb min_title_length (code_points title))) [
        | inr short ↦ inl (ground arith)
        | inl long ↦
            elim (Option-cases (find_specialization submission.specialization_id s.current)) [
              | inl absent ↦ inl (ground arith)
              | inr (row, named) ↦
                  elim (Option-cases (find_report text user.id (fingerprint title) s.current)) [
                    | inr (report, known) ↦ inl (ground arith)
                    | inl fresh ↦
                        elim (Bool-cases
                          (ltb (recent_count now user.id s.current.question_reports) daily_limit)) [
                            | inr full ↦ inl (ground arith)
                            | inl free ↦ inr (fresh, free, ground arith)
                          ]
                  ]
            ]
      ]

  find_report-with_report :
      (report : QuestionReport) (s : Session fl)
      → find_report text report.user_id report.title_fingerprint s.current ≡ none
      → find_report text report.user_id report.title_fingerprint (with_report text report s.current)
        ≡ some report
  unfolding find_report is_same_report
  find_report-with_report report s fresh =
      find-append_none (is_same_report report.user_id report.title_fingerprint)
        s.current.question_reports report fresh
        (ground (arith, ==_self report.user_id, ==_self report.title_fingerprint))

  -- If no user has two reports with one fingerprint, that is still so after a submission.
  pub submit-unique_reports :
      (now id : ℕ) (user : User) (submission : ReportSubmission) (s : Session fl)
      → unique_reports s.current.question_reports ≡ true
      → unique_reports (submit text now id user submission s).1.current.question_reports ≡ true
  unfolding find_report
  submit-unique_reports now id user submission s h = elim (submit-Ends now id user submission s) [
    | inl same ↦ rw same h
    | inr (fresh, free, added) ↦
        let report =
          report_row text now id user submission
            (resolve_topic text submission.specialization_id submission.topic_code s.current) in
        let absent =
          any-find-none (is_same_report user.id (fingerprint (strip submission.title)))
            s.current.question_reports fresh in
        rw added (unique_reports-append s.current.question_reports report h absent)
  ]

  -- A submission never takes a user who is within the limit of the last day over it.
  pub submit-daily_limit :
      (now id : ℕ) (user : User) (submission : ReportSubmission) (s : Session fl)
      → recent_count now user.id s.current.question_reports ≤ daily_limit
      → recent_count now user.id (submit text now id user submission s).1.current.question_reports
        ≤ daily_limit
  unfolding recent_count
  submit-daily_limit now id user submission s h = elim (submit-Ends now id user submission s) [
    | inl same ↦ rw same h
    | inr (fresh, free, added) ↦
        let report =
          report_row text now id user submission
            (resolve_topic text submission.specialization_id submission.topic_code s.current) in
        let grown =
          length-keep-append_le (is_recent now user.id) s.current.question_reports report in
        rw added (ground (arith, grown))
  ]

  -- A question that was accepted and is sent again by the same user, for the same specialization
  -- and with a title that is long enough and has the same fingerprint, returns in the session that
  -- the first one left the report of the first, marked as a duplicate, and changes nothing.
  pub submit_again :
      (now later id id' : ℕ) (user : User) (submission again : ReportSubmission) (s : Session fl)
      (result : ReportResult)
      → (submit text now id user submission s).0 ≡ ok result
      → again.specialization_id ≡ submission.specialization_id
      → leb min_title_length (code_points (strip again.title)) ≡ true
      → fingerprint (strip again.title) ≡ fingerprint (strip submission.title)
      → let s' = (submit text now id user submission s).1 in
        submit text later id' user again s'
        ≡ (ok (record { report = result.report; is_duplicate = true }), s')
  unfolding submit add_report
  submit_again now later id id' user submission again s result h place long same =
      let digest = fingerprint (strip submission.title) in
      elim (Option-cases (find_report text user.id digest s.current)) [
        | inr (report, known) ↦ ground arith
        | inl fresh ↦
            let report =
              report_row text now id user submission
                (resolve_topic text submission.specialization_id submission.topic_code s.current) in
            let kept = find_report-with_report report s fresh in ground (arith, kept)
      ]
