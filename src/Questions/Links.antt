-- ===== src/Questions/Links.antt =====
-- The links of a question to its specializations (`_sync_specializations`) and its options
-- (`_sync_options`).
use interview_trainer.Prelude.{
  ℕ, ◌≡◌, refl, sym, ap, ◌∙◌, arith, true, false, not, ◌&&◌, List, String, ==_self, nat_eq,
  string_eq, keep, all, contains, ==_iff, distinct, map, length, Bool-cases, inl, inr,
}
use interview_trainer.Exceptions.{ok, err}
use interview_trainer.Float.{Float}
use interview_trainer.Models.{Database, Question, QuestionOption}
use interview_trainer.Seed.{to_set, difference, is_empty}
use interview_trainer.Seed.Unique.{contains-to_set}
use interview_trainer.Seed.Sets.{contains-keep, empty-contains, contains-empty, all-contains}
use interview_trainer.Seed.Questions.{OptionIn, QuestionIn, Library, option_codes}
use interview_trainer.Rows.{missing_specializations, keys_of}
use interview_trainer.Rows.Steps.{SyncLaws}
use interview_trainer.Rows.Agreement.{in_keys, sync_rows_lem}
use interview_trainer.Rows.Content.{Holds, IsAligned-Holds}
use interview_trainer.Rows.Repeat.{sync_rows-same}
use interview_trainer.TaxonomyRows.{bool_eq, enumerate}
use interview_trainer.Taxonomy.Cascade.{keep-true}
use interview_trainer.Taxonomy.Topics.{map-enumerate_from}
use interview_trainer.Questions.{known_ids, sync_links}
use interview_trainer.QuestionRows.{QuestionSyncReport, count_links, options_sync, sync_options}

-- two sets without differences
same-difference :
    (xs ys : List String) (s : String)
    → is_empty (difference xs ys) ≡ true
    → is_empty (difference ys xs) ≡ true
    → contains xs s ≡ contains ys s
same-difference xs ys s h k = ground (
  arith,
  contains-keep (λ x. not (contains ys x)) xs s,
  contains-keep (λ x. not (contains xs x)) ys s,
  empty-contains (difference xs ys) s h,
  empty-contains (difference ys xs) s k,
)

pub options_laws : (question : ℕ) → SyncLaws (options_sync question)
unfolding options_sync
options_laws question = record {
  mine-make = λ i rows. refl;
  key-make = λ i rows. refl;
  mine-apply = λ i r. refl;
  key-apply = λ i r. ground arith;
  differs-make = λ i rows. ground (arith, ==_self i.0.text, ==_self i.0.is_correct, ==_self i.1);
  differs-apply = λ i r. ground (arith, ==_self i.0.text, ==_self i.0.is_correct, ==_self i.1);
  apply-same = λ i r h. ground arith;
}

-- the text, the mark and the place of an option
abbrev pub SameOption : OptionIn × ℕ → QuestionOption → Type 0
SameOption i r = (r.text ≡ i.0.text) × (r.is_correct ≡ i.0.is_correct) × (r.sort_order ≡ i.1)

option_agrees :
    (question : ℕ) (i : OptionIn × ℕ) (r : QuestionOption)
    → (options_sync question).differs i r ≡ false
    → SameOption i r
unfolding options_sync
option_agrees question i r h =
    ground
      (arith, ==_iff r.text i.0.text, ==_iff r.is_correct i.0.is_correct, ==_iff r.sort_order i.1)

-- The options of a question whose codes differ, in the file and in the database, are those of
-- the file afterwards: under each code of the file one option, with the text, the mark and the
-- place of the file, and no others; and loading them again changes nothing.
pub sync_options_again :
    (q : QuestionIn) (row : Question) (report report' : QuestionSyncReport)
    → distinct (option_codes q.options) ≡ true
    → distinct (map (λ (o : QuestionOption). o.code) row.options) ≡ true
    → (options : List QuestionOption) × (after : QuestionSyncReport) × (sync_options q row report
        ≡ ok (record row { options = options }, after))
      × Holds
          (λ (_ : QuestionOption). true)
          (λ o. o.code)
          (λ (i : OptionIn × ℕ). i.0.code)
          SameOption
          (enumerate q.options)
          options
      × (sync_options q (record row { options = options }) report'
          ≡ ok (record row { options = options }, report'))
unfolding sync_options options_sync
sync_options_again q row report report' codes once =
    let sync = options_sync row.id in
    let incoming = enumerate q.options in
    let keys : distinct (in_keys sync incoming) ≡ true =
      ap distinct (map-enumerate_from (λ (o : OptionIn). o.code) 0 q.options) ∙ codes in
    let here : distinct (keys_of sync row.options) ≡ true =
      ap (λ xs. distinct (map (λ (o : QuestionOption). o.code) xs))
        (keep-true (λ _. true) row.options (λ _. refl))
      ∙ once in
    let (options, stats, e, aligned, kept) =
      sync_rows_lem sync (options_laws row.id) incoming row.options report.options keys here in
    (
      options,
      record report { options = stats },
      rw (e) refl,
      IsAligned-Holds sync SameOption (option_agrees row.id) incoming options aligned,
      rw (sync_rows-same sync (options_laws row.id) incoming options report'.options keys aligned)
          refl,
    )

module _ (fl : Float) (lib : Library) where
  -- When all its specializations are in the database, a question is linked to exactly those of the
  -- file; when one of them is not, and the question is not linked to exactly those already, the load
  -- fails.
  pub sync_links_lem :
      (q : QuestionIn) (row : Question) (db : Database fl) (report : QuestionSyncReport)
      → (all (contains (known_ids fl lib db)) q.specializations ≡ true
          → (row' : Question) × (report' : QuestionSyncReport) × (sync_links fl lib q row db report
              ≡ ok (row', report'))
            × ((s : String) → contains row'.specializations s ≡ contains q.specializations s))
        × ((s : String)
            → contains q.specializations s ≡ true
            → contains (known_ids fl lib db) s ≡ false
            → contains row.specializations s ≡ false
            → sync_links fl lib q row db report ≡ err missing_specializations)
  unfolding sync_links
  sync_links_lem q row db report =
      let specs = q.specializations in
      let wanted = to_set specs in
      let current = row.specializations in
      let known = known_ids fl lib db in
      let found = keep (contains wanted) known in
      let in_found : (s : String) → contains found s ≡ (contains known s && contains wanted s) =
        contains-keep (contains wanted) known in
      let lacking : (s : String)
          → contains (difference wanted found) s ≡ (contains wanted s && not (contains found s)) =
        contains-keep (λ x. not (contains found x)) wanted in
      (
        (λ h.
            let there : (s : String) → contains specs s ≡ true → contains known s ≡ true =
              λ s. all-contains (contains known) specs s h in
            let complete =
              contains-empty (difference wanted found)
                (λ s. ground (arith, lacking s, in_found s, contains-to_set specs s, there s)) in
            elim (Bool-cases
              (is_empty (difference wanted current) && is_empty (difference current wanted))) [
                | inl same ↦ (
                  row,
                  report,
                  ground arith,
                  λ s.
                      sym (same-difference wanted current s (ground arith) (ground arith))
                      ∙ contains-to_set specs s,
                )
                | inr other ↦ (
                  record row { specializations = found },
                  record report {
                    links =
                        count_links report.links (length (difference wanted current))
                          (length (difference current wanted));
                  },
                  ground (arith, complete),
                  λ s. ground (arith, in_found s, contains-to_set specs s, there s),
                )
              ]),
        (λ s asked unknown unlinked.
            let missing : contains (difference wanted found) s ≡ true =
              ground (arith, lacking s, in_found s, contains-to_set specs s) in
            let new : contains (difference wanted current) s ≡ true =
              contains-keep (λ x. not (contains current x)) wanted s
              ∙ ground (arith, contains-to_set specs s) in
            ground (
              arith,
              empty-contains (difference wanted found) s,
              empty-contains (difference wanted current) s,
            )),
      )
