-- ===== src/Questions/Stored.antt =====
-- What the load of the questions leaves alone (`sync`): the mark of a verified question, and the
-- questions that do not come from the files.
use interview_trainer.Prelude.{
  ℕ, ◌≡◌, refl, sym, ap, ◌∙◌, arith, Bool, true, false, not, ◌&&◌, ◌||◌, List, [], ◌∷◌, ◌++◌, some,
  ◌==◌, ==_iff, ==_self, nat_eq, string_eq, find, find-test, keep, contains, map, Option-cases,
  Bool-cases, inl, inr,
}
use interview_trainer.Exceptions.{ok}
use interview_trainer.Float.{Float}
use interview_trainer.Models.{Database, Question}
use interview_trainer.Session.{update}
use interview_trainer.Seed.Questions.{QuestionIn, Library, question_id}
use interview_trainer.Questions.Equality.{source_eq}
use interview_trainer.Questions.{has_id, popped_question, load_question, sync_links, store_question}
use interview_trainer.QuestionRows.{
  QuestionSyncReport, Loaded, is_seed, with_fields, same_fields, apply_fields, blank_question,
  sync_options,
}

abbrev pub verified_ids : List Question → List ℕ
verified_ids questions =
    map (λ (r : Question). r.id) (keep (λ (r : Question). r.is_verified) questions)

abbrev pub not_seed : List Question → List Question
not_seed questions = keep (λ r. not (is_seed r)) questions

contains-verified_ids :
    (p : Question → Bool) (questions : List Question) (r : Question)
    → find p questions ≡ some r
    → r.is_verified ≡ true
    → contains (verified_ids questions) r.id ≡ true
unfolding find keep contains
contains-verified_ids p [] r h v = cc
contains-verified_ids p (x ∷ xs) r h v = ground (arith, contains-verified_ids p xs r, ==_self r.id)

-- the columns of a row that the later steps keep
pub record IsKept (row row' : Question) : Type 0 where
  pub same_id : row'.id ≡ row.id
  pub same_source : row'.source ≡ row.source
  pub same_mark : row'.is_verified ≡ row.is_verified

-- `apply_fields` takes the source of the file, and neither the id nor the mark
apply_fields-source :
    (now : ℕ) (is_new : Bool) (q : QuestionIn) (g : ℕ × ℕ × ℕ) (row : Question)
    → ((apply_fields now is_new q g row).0.id ≡ row.id)
      × ((apply_fields now is_new q g row).0.source ≡ q.source)
      × ((apply_fields now is_new q g row).0.is_verified ≡ row.is_verified)
unfolding apply_fields with_fields same_fields
apply_fields-source now is_new q g row = ground (arith, ==_iff row.source q.source)

module _ (fl : Float) (lib : Library) where
  pub sync_links-IsKept :
      (q : QuestionIn) (row : Question) (db : Database fl) (report : QuestionSyncReport)
      (l : Loaded)
      → sync_links fl lib q row db report ≡ ok l
      → IsKept row l.0
  unfolding sync_links
  sync_links-IsKept q row db report l h = record {
    same_id = ground arith;
    same_source = ground arith;
    same_mark = ground arith;
  }

  pub sync_options-IsKept :
      (q : QuestionIn) (row : Question) (report : QuestionSyncReport) (l : Loaded)
      → sync_options q row report ≡ ok l
      → IsKept row l.0
  unfolding sync_options
  sync_options-IsKept q row report l h = record {
    same_id = ground arith;
    same_source = ground arith;
    same_mark = ground arith;
  }

  -- A row that is written for a question of the files.
  pub record IsOwn (q : QuestionIn) (questions : List Question) (row : Question) : Type 0 where
    pub own_id : row.id ≡ question_id lib q.slug
    pub own_source : row.source ≡ q.source
    pub old_mark :
        row.is_verified ≡ true → contains (verified_ids questions) (question_id lib q.slug) ≡ true

  pub load_question-IsOwn :
      (now : ℕ) (q : QuestionIn) (g : ℕ × ℕ × ℕ) (existing : List ℕ) (db : Database fl)
      (report : QuestionSyncReport) (l : Loaded)
      → load_question fl lib now q g existing db report ≡ ok l
      → IsOwn q db.questions l.0
  unfolding load_question popped_question blank_question
  load_question-IsOwn now q g existing db report l h =
      let uuid = question_id lib q.slug in
      elim (Option-cases (popped_question fl lib uuid existing db.questions)) [
        | inl absent ↦
            let (i, o, m) = apply_fields-source now true q g (blank_question uuid now q) in
            record {
              own_id = ground arith;
              own_source = ground arith;
              old_mark = λ v. absurd (ground arith);
            }
        | inr (row, found) ↦
            let (i, o, m) = apply_fields-source now false q g row in
            let seen : find (has_id fl lib uuid) db.questions ≡ some row = ground arith in
            let tested = find-test (has_id fl lib uuid) db.questions row seen in
            let at = (==_iff row.id uuid).0 (ground arith) in
            let marked : row.is_verified ≡ true → contains (verified_ids db.questions) uuid ≡ true =
              λ v.
                ap (contains (verified_ids db.questions)) (sym at)
                ∙ contains-verified_ids (has_id fl lib uuid) db.questions row seen v in
            record {
              own_id = ground arith;
              own_source = ground arith;
              old_mark = λ v. marked (ground arith);
            }
      ]

  pub IsOwn-kept :
      (q : QuestionIn) (questions : List Question) (row row' : Question)
      → IsOwn q questions row
      → IsKept row row'
      → IsOwn q questions row'
  IsOwn-kept q questions row row' own kept = record {
    own_id = kept.same_id ∙ own.own_id;
    own_source = kept.same_source ∙ own.own_source;
    old_mark = λ v. own.old_mark (sym kept.same_mark ∙ v);
  }

  verified_ids-update :
      (uuid k : ℕ) (row : Question) (xs : List Question)
      → contains (verified_ids (update (has_id fl lib uuid) (λ _. row) xs)) k ≡ true
      → (contains (verified_ids xs) k || (row.is_verified && row.id == k)) ≡ true
  unfolding update keep contains
  verified_ids-update uuid k row [] h = absurd (ground arith)
  verified_ids-update uuid k row (x ∷ xs) h = ground (arith, verified_ids-update uuid k row xs)

  verified_ids-append :
      (k : ℕ) (row : Question) (xs : List Question)
      → contains (verified_ids (xs ++ row ∷ [])) k ≡ true
      → (contains (verified_ids xs) k || (row.is_verified && row.id == k)) ≡ true
  unfolding keep contains
  verified_ids-append k row [] h = ground arith
  verified_ids-append k row (x ∷ xs) h = ground (arith, verified_ids-append k row xs)

  not_seed-update :
      (uuid : ℕ) (row : Question) (xs : List Question)
      → is_seed row ≡ true
      → not_seed (update (has_id fl lib uuid) (λ _. row) xs) ≡ not_seed xs
  unfolding update keep
  not_seed-update uuid row [] h = refl
  not_seed-update uuid row (x ∷ xs) h = ground (arith, not_seed-update uuid row xs)

  not_seed-append :
      (row : Question) (xs : List Question)
      → is_seed row ≡ true
      → not_seed (xs ++ row ∷ []) ≡ not_seed xs
  unfolding keep
  not_seed-append row [] h = ground arith
  not_seed-append row (x ∷ xs) h = ground (arith, not_seed-append row xs)

  pub store-verified_ids :
      (q : QuestionIn) (existing : List ℕ) (row : Question) (questions : List Question) (k : ℕ)
      → IsOwn q questions row
      → contains
          (verified_ids (store_question fl lib (question_id lib q.slug) existing row questions))
          k
        ≡ true
      → contains (verified_ids questions) k ≡ true
  unfolding store_question
  store-verified_ids q existing row questions k own h =
      let uuid = question_id lib q.slug in
      let either : (contains (verified_ids questions) k || (row.is_verified && row.id == k))
          ≡ true =
        ground
          (arith, verified_ids-update uuid k row questions, verified_ids-append k row questions) in
      elim (Bool-cases (contains (verified_ids questions) k)) [
        | inl before ↦ before
        | inr absent ↦
            let at = (==_iff row.id k).0 (ground arith) in
            ap (contains (verified_ids questions)) (sym at ∙ own.own_id)
            ∙ own.old_mark (ground arith)
      ]

  pub store-not_seed :
      (uuid : ℕ) (existing : List ℕ) (row : Question) (questions : List Question)
      → is_seed row ≡ true
      → not_seed (store_question fl lib uuid existing row questions) ≡ not_seed questions
  unfolding store_question
  store-not_seed uuid existing row questions h =
      ground (arith, not_seed-update uuid row questions h, not_seed-append row questions h)
