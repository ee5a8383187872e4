-- ===== src/Questions/Kept.antt =====
-- The whole load of the questions (`sync`): no mark of a verified question is set, and the questions
-- that do not come from the files stay.
use interview_trainer.Prelude.{
  ℕ, ◌+◌, length, ◌≡◌, refl, sym, ap, ◌∙◌, arith, Bool, true, not, ◌&&◌, List, [], ◌∷◌, ◌==◌,
  nat_eq, string_eq, keep, all, contains,
}
use interview_trainer.Exceptions.{ok, ◌>>=◌, ok-injective, bind-ok}
use interview_trainer.Enums.{seed}
use interview_trainer.Float.{Float}
use interview_trainer.Models.{Database, Question}
use interview_trainer.Seed.Questions.{QuestionIn, Library, question_id, grades}
use interview_trainer.Questions.Equality.{source_eq}
use interview_trainer.Questions.{
  load_question, sync_links, store_question, sync_question, sync_questions_each, delete_questions,
  existing_seed_questions, sync_questions, loaded_grades,
}
use interview_trainer.QuestionRows.{
  QuestionSyncReport, new_question_report, Loaded, is_seed, sync_options,
}
use interview_trainer.Questions.Stored.{
  verified_ids, not_seed, IsOwn-kept, load_question-IsOwn, sync_links-IsKept, sync_options-IsKept,
  store-verified_ids, store-not_seed, IsOwn,
}

module _ (fl : Float) (lib : Library) where
  -- One turn of the loop.
  sync_question-row :
      (now : ℕ) (q : QuestionIn) (existing : List ℕ) (db db' : Database fl)
      (report report' : QuestionSyncReport)
      → sync_question fl lib now q existing db report ≡ ok (db', report')
      → (row : Question) × IsOwn fl lib q db.questions row
        × (db' ≡ record db {
          questions = store_question fl lib (question_id lib q.slug) existing row db.questions;
        })
  unfolding sync_question
  sync_question-row now q existing db db' report report' h =
      let uuid = question_id lib q.slug in
      let store = λ (c : Loaded). record db {
        questions = store_question fl lib uuid existing c.0 db.questions;
      } in
      let (g, e_g, h_g) =
        bind-ok (loaded_grades (grades q))
          (λ (g : ℕ × ℕ × ℕ). load_question fl lib now q g existing db report >>= λ (a : Loaded).
            sync_links fl lib q a.0 db a.1 >>= λ (b : Loaded).
            sync_options q b.0 b.1 >>= λ (c : Loaded). ok (store c, c.1))
          (db', report') h in
      let (a, e_a, h_a) =
        bind-ok (load_question fl lib now q g existing db report)
          (λ (a : Loaded). sync_links fl lib q a.0 db a.1 >>= λ (b : Loaded).
            sync_options q b.0 b.1 >>= λ (c : Loaded). ok (store c, c.1))
          (db', report') h_g in
      let (b, e_b, h_b) =
        bind-ok (sync_links fl lib q a.0 db a.1)
          (λ (b : Loaded). sync_options q b.0 b.1 >>= λ (c : Loaded). ok (store c, c.1))
          (db', report') h_a in
      let (c, e_c, h_c) =
        bind-ok (sync_options q b.0 b.1) (λ (c : Loaded). ok (store c, c.1)) (db', report') h_b in
      let own =
        IsOwn-kept fl lib q db.questions a.0 b.0
          (load_question-IsOwn fl lib now q g existing db report a e_a)
          (sync_links-IsKept fl lib q a.0 db a.1 b e_b) in
      (
        c.0,
        IsOwn-kept fl lib q db.questions b.0 c.0 own (sync_options-IsKept fl lib q b.0 b.1 c e_c),
        sym (ap (λ t. t.0) (ok-injective (store c, c.1) (db', report') h_c)),
      )

  sync_questions_each-kept :
      (now : ℕ) (incoming : List QuestionIn) (existing existing' : List ℕ) (db db' : Database fl)
      (report report' : QuestionSyncReport) (k : ℕ)
      → sync_questions_each fl lib now incoming existing db report ≡ ok (existing', db', report')
      → (contains (verified_ids db'.questions) k ≡ true
          → contains (verified_ids db.questions) k ≡ true)
        × (all (λ (q : QuestionIn). q.source == seed) incoming ≡ true
            → not_seed db'.questions ≡ not_seed db.questions)
  unfolding sync_questions_each all
  sync_questions_each-kept now [] existing existing' db db' report report' k h =
      let same = ap (λ t. t.1) (ok-injective (existing, db, report) (existing', db', report') h) in
      (
        (λ v. ap (λ (d : Database fl). contains (verified_ids d.questions) k) same ∙ v),
        (λ v. ap (λ (d : Database fl). not_seed d.questions) (sym same)),
      )
  sync_questions_each-kept now (q ∷ rest) existing existing' db db' report report' k h =
      let uuid = question_id lib q.slug in
      let (u, e_u, h_u) =
        bind-ok (sync_question fl lib now q existing db report)
          (λ (u : Database fl × QuestionSyncReport).
            sync_questions_each fl lib now rest (keep (λ k. not (k == uuid)) existing) u.0 u.1)
          (existing', db', report') h in
      let (row, own, stored) = sync_question-row now q existing db u.0 report u.1 e_u in
      let (marks, others) =
        sync_questions_each-kept now rest (keep (λ k. not (k == uuid)) existing) existing' u.0 db'
          u.1 report' k h_u in
      (
        (λ v. store-verified_ids fl lib q existing row db.questions k own (
            ap (λ (d : Database fl). contains (verified_ids d.questions) k) (sym stored)
            ∙ marks v)),
        (λ v.
            others (ground arith)
            ∙ ap (λ (d : Database fl). not_seed d.questions) stored
            ∙ store-not_seed fl lib uuid existing row db.questions
                (ap (λ x. x == seed) own.own_source ∙ ground arith)),
      )

  verified_ids-keep :
      (p : Question → Bool) (k : ℕ) (xs : List Question)
      → contains (verified_ids (keep p xs)) k ≡ true
      → contains (verified_ids xs) k ≡ true
  unfolding keep contains
  verified_ids-keep p k [] h = h
  verified_ids-keep p k (x ∷ xs) h = ground (arith, verified_ids-keep p k xs)

  not_seed-keep :
      (ids : List ℕ) (xs : List Question)
      → not_seed (keep (λ (r : Question). not (is_seed r && contains ids r.id)) xs) ≡ not_seed xs
  unfolding keep
  not_seed-keep ids [] = refl
  not_seed-keep ids (x ∷ xs) = ground (arith, not_seed-keep ids xs)

  -- A load of the files that succeeds never marks a question as verified: one that is verified
  -- afterwards was so before. If every question of the files has the source `seed`, the
  -- questions with another source are the same rows afterwards.
  pub sync_questions-kept :
      (now : ℕ) (incoming : List QuestionIn) (db db' : Database fl) (report : QuestionSyncReport)
      (k : ℕ)
      → sync_questions fl lib now incoming db ≡ ok (db', report)
      → (contains (verified_ids db'.questions) k ≡ true
          → contains (verified_ids db.questions) k ≡ true)
        × (all (λ (q : QuestionIn). q.source == seed) incoming ≡ true
            → not_seed db'.questions ≡ not_seed db.questions)
  unfolding sync_questions delete_questions
  sync_questions-kept now incoming db db' report k h =
      let (u, e_u, h_u) =
        bind-ok
          (sync_questions_each fl lib now incoming (existing_seed_questions fl lib db) db
            new_question_report)
          (λ (u : List ℕ × Database fl × QuestionSyncReport). ok (
            delete_questions fl lib u.0 u.1,
            record u.2 {
              questions = record u.2.questions { deleted = u.2.questions.deleted + length u.0 };
            },
          ))
          (db', report) h in
      let (marks, others) =
        sync_questions_each-kept now incoming (existing_seed_questions fl lib db) u.0 db u.1
          new_question_report u.2 k e_u in
      let same = ap (λ t. t.0) (ok-injective _ (db', report) h_u) in
      (
        (λ v. marks (
            verified_ids-keep (λ (r : Question). not (is_seed r && contains u.0 r.id)) k
              u.1.questions
              (ap (λ (d : Database fl). contains (verified_ids d.questions) k) same ∙ v))),
        (λ v.
            ap (λ (d : Database fl). not_seed d.questions) (sym same)
            ∙ not_seed-keep u.0 u.1.questions
            ∙ others v),
      )
