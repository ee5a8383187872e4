-- ===== src/Taxonomy.antt =====
-- backend/app/services/taxonomy.py: the tables of the taxonomy are brought in line with the file, and
-- the tree is read. A deletion takes along the rows that refer to the deleted one, as
-- `ON DELETE CASCADE` says in backend/app/db/models. A key of the database (`autoincrement`) is a
-- parameter: any function that gives a number that is not in use.
pub mod Laws
pub mod Cascade
pub mod Topics
pub mod Whole
pub mod Again
pub mod Losses
pub mod Checked
pub mod Content
mod Samples
use Prim.Native.String.{String}
use interview_trainer.Prelude.{
  ℕ, ◌+◌, Bool, true, false, not, ◌&&◌, ◌||◌, List, [], ◌∷◌, ◌++◌, ◌≡◌, ◌↔◌, Option, none, some,
  if◌then◌else◌, arith, Comparable, ◌==◌, ==_iff, string_eq, nat_eq, find, keep, any, contains, map,
  ltb, sort_by,
}
use interview_trainer.Exceptions.{Result, ok, err, ensure, ◌>>=◌, ◌>>◌}
use interview_trainer.Float.{Float, same}
use interview_trainer.Models.{
  Database, Profession, Specialization, Topic, Subtopic, TopicWeight, Question, UserSpecialization,
  UserTopicRating, UserAnswer, StudyPlan, QuestionReport,
}
use interview_trainer.Session.{Session}
use interview_trainer.Seed.{
  Invalid, SubtopicIn, TopicIn, SpecializationIn, ProfessionIn, TaxonomyFile, weights_by_grade,
}
use interview_trainer.Rows.{
  SeedError, integrity_error, unknown_grade, EntityStats, no_stats, Sync, sync_one, sync_rows,
  keys_of, delete_stale, without,
}
use interview_trainer.TaxonomyRows.{
  enumerate_from, enumerate, pair_same_iff, bool_same_iff, pair_eq, bool_eq, profession_differs,
  professions_sync, Placed, place_specializations, specialization_differs, specializations_sync,
  visible_topics, gone, PlacedTopic, place_topics, topic_differs, topics_sync, subtopic_differs,
  subtopics_sync, weights_sync,
}

pub record SyncReport : Type 0 where
  pub professions : EntityStats
  pub specializations : EntityStats
  pub topics : EntityStats
  pub subtopics : EntityStats
  pub weights : EntityStats

abbrev pub new_report : SyncReport
new_report = record {
  professions = no_stats;
  specializations = no_stats;
  topics = no_stats;
  subtopics = no_stats;
  weights = no_stats;
}

abbrev pub counts_changes : EntityStats → Bool
counts_changes s = ltb 0 s.created || ltb 0 s.updated || ltb 0 s.deleted

unfoldable pub has_changes : SyncReport → Bool
has_changes r =
    counts_changes r.professions
    || counts_changes r.specializations
    || counts_changes r.topics
    || counts_changes r.subtopics
    || counts_changes r.weights

module _ (fl : Float) (fresh : List ℕ → ℕ) where
  open fl use {F}

  -- What goes with deleted topics, specializations and professions.
  unfoldable pub cascade_topics : List ℕ → Database fl → Database fl
  unfolding keep contains
  cascade_topics ids db = record db {
    subtopics = keep (λ (r : Subtopic). not (contains ids r.topic_id)) db.subtopics;
    topic_weights = keep (λ (r : TopicWeight fl). not (contains ids r.topic_id)) db.topic_weights;
  }

  unfoldable pub cascade_specializations : List String → Database fl → Database fl
  unfolding keep contains cascade_topics
  cascade_specializations ids db =
      let stays = λ (s : String). not (contains ids s) in
      let topic_ids =
        map (λ (t : Topic). t.id)
          (keep (λ (t : Topic). contains ids t.specialization_id) db.topics) in
      cascade_topics topic_ids (record db {
        topics = keep (λ (r : Topic). stays r.specialization_id) db.topics;
        user_specializations =
            keep (λ (r : UserSpecialization). stays r.specialization_id) db.user_specializations;
        user_topic_ratings =
            keep (λ (r : UserTopicRating fl). stays r.specialization_id) db.user_topic_ratings;
        user_answers = keep (λ (r : UserAnswer fl). stays r.specialization_id) db.user_answers;
        study_plans = keep (λ (r : StudyPlan). stays r.specialization_id) db.study_plans;
        question_reports =
            keep (λ (r : QuestionReport). stays r.specialization_id) db.question_reports;
        questions =
            map (λ (q : Question). record q { specializations = keep stays q.specializations })
              db.questions;
      })

  unfoldable pub cascade_professions : List String → Database fl → Database fl
  unfolding keep contains cascade_specializations
  cascade_professions ids db =
      let gone_specializations =
        map (λ (s : Specialization). s.id)
          (keep (λ (s : Specialization). contains ids s.profession_id) db.specializations) in
      cascade_specializations gone_specializations (record db {
        specializations =
            keep (λ (r : Specialization). not (contains ids r.profession_id)) db.specializations;
      })

  abbrev pub profession_ids : Database fl → List String
  profession_ids db = map (λ (r : Profession). r.id) db.professions

  abbrev pub specialization_ids : Database fl → List String
  specialization_ids db = map (λ (r : Specialization). r.id) db.specializations

  abbrev pub topic_ids : Database fl → List ℕ
  topic_ids db = map (λ (r : Topic). r.id) db.topics

  abbrev pub Synced : Type 0
  Synced = Result SeedError (Database fl × SyncReport)

  -- what is written once the rows are known, with what goes along
  abbrev pub store_professions : Database fl → SyncReport → List Profession × EntityStats → Synced
  store_professions db report t =
      let db' = record db { professions = t.0 } in
      ok (
        cascade_professions (gone (profession_ids db) (profession_ids db')) db',
        record report { professions = t.1 },
      )

  unfoldable pub sync_professions : TaxonomyFile fl → Database fl → SyncReport → Synced
  unfolding sync_rows professions_sync enumerate_from cascade_professions
  sync_professions payload db report =
      sync_rows professions_sync (enumerate payload.professions) db.professions report.professions
      >>= store_professions db report

  abbrev pub store_specializations :
      Database fl → SyncReport → List Specialization × EntityStats → Synced
  store_specializations db report t =
      let db' = record db { specializations = t.0 } in
      ok (
        cascade_specializations (gone (specialization_ids db) (specialization_ids db')) db',
        record report { specializations = t.1 },
      )

  unfoldable pub sync_specializations : TaxonomyFile fl → Database fl → SyncReport → Synced
  unfolding sync_rows specializations_sync place_specializations cascade_specializations
  sync_specializations payload db report =
      sync_rows specializations_sync (place_specializations payload.professions) db.specializations
        report.specializations
      >>= store_specializations db report

  unfoldable pub sync_subtopics : Topic → TopicIn fl → Database fl → SyncReport → Synced
  unfolding sync_rows subtopics_sync enumerate_from
  sync_subtopics topic incoming db report =
      sync_rows (subtopics_sync fl fresh topic.id) (enumerate incoming.subtopics) db.subtopics
        report.subtopics
      >>= λ (t : List Subtopic × EntityStats).
          ok (record db { subtopics = t.0 }, record report { subtopics = t.1 })

  -- the KeyError of `weights_by_grade`
  abbrev pub loaded_weights : Result Invalid (List (ℕ × F)) → Result SeedError (List (ℕ × F))
  loaded_weights (ok ws) = ok ws
  loaded_weights (err _) = err unknown_grade

  unfoldable pub sync_weights : Topic → TopicIn fl → Database fl → SyncReport → Synced
  unfolding sync_rows weights_sync weights_by_grade
  sync_weights topic incoming db report =
      loaded_weights (weights_by_grade fl incoming) >>= λ (ws : List (ℕ × F)).
      sync_rows (weights_sync fl fresh topic.id) ws db.topic_weights report.weights
      >>= λ (t : List (TopicWeight fl) × EntityStats).
          ok (record db { topic_weights = t.0 }, record report { weights = t.1 })

  -- The body of the loop over the topics. A topic of an unknown specialization breaks a foreign key.
  unfoldable pub sync_topic :
      (PlacedTopic fl fresh) → List (String × String) → Database fl → SyncReport → Synced
  unfolding sync_one topics_sync sync_subtopics sync_weights any
  sync_topic i existing db report =
      (if any (λ (s : Specialization). s.id == i.0) db.specializations
        then sync_one (topics_sync fl fresh) i existing db.topics report.topics
        else err integrity_error)
      >>= λ (t : Topic × List Topic × EntityStats).
          sync_subtopics t.0 i.1 (record db { topics = t.1 }) (record report { topics = t.2 })
          >>= λ (u : Database fl × SyncReport). sync_weights t.0 i.1 u.0 u.1

  unfoldable pub sync_topics_each :
      List (PlacedTopic fl fresh)
      → List (String × String)
      → Database fl
      → SyncReport
      → Result SeedError (List (String × String) × Database fl × SyncReport)
  unfolding sync_topic
  sync_topics_each [] existing db report = ok (existing, db, report)
  sync_topics_each (i ∷ rest) existing db report =
      sync_topic i existing db report >>= λ (u : Database fl × SyncReport).
      sync_topics_each rest
        (without (topics_sync fl fresh) ((topics_sync fl fresh).in_key i) existing) u.0 u.1

  abbrev pub delete_topics : Database fl → SyncReport → List Topic × EntityStats → Synced
  delete_topics db report t =
      let db' = record db { topics = t.0 } in
      ok (cascade_topics (gone (topic_ids db) (topic_ids db')) db', record report { topics = t.1 })

  unfoldable pub sync_topics : TaxonomyFile fl → Database fl → SyncReport → Synced
  unfolding sync_topics_each place_topics delete_stale cascade_topics
  sync_topics payload db report =
      sync_topics_each (place_topics fl fresh payload.topics)
        (keys_of (topics_sync fl fresh) db.topics) db report
      >>= λ (u : List (String × String) × Database fl × SyncReport).
          delete_topics u.1 u.2 (delete_stale (topics_sync fl fresh) u.0 u.1.topics u.2.topics)

  -- `sync`
  unfoldable pub sync_taxonomy : TaxonomyFile fl → Database fl → Synced
  unfolding sync_professions sync_specializations sync_topics
  sync_taxonomy payload db =
      sync_professions payload db new_report >>= λ (a : Database fl × SyncReport).
      sync_specializations payload a.0 a.1 >>= λ (b : Database fl × SyncReport).
      sync_topics payload b.0 b.1

  -- `session.commit()`; after an error, what is not committed is gone with the session.
  abbrev pub commit_synced : Synced → Session fl → Result SeedError SyncReport × Session fl
  commit_synced (ok t) s = (ok t.1, record { committed = t.0; current = t.0 })
  commit_synced (err e) s = (err e, record s { current = s.committed })

  -- `seed_taxonomy` of backend/app/seed/taxonomy.py, for a file that was read
  unfoldable pub seed_taxonomy :
      TaxonomyFile fl → Session fl → Result SeedError SyncReport × Session fl
  unfolding sync_taxonomy
  seed_taxonomy payload s = commit_synced (sync_taxonomy payload s.current) s

  -- `get_tree`: the professions in their order
  unfoldable pub get_tree : Database fl → List Profession
  unfolding sort_by
  get_tree db = sort_by (λ (a b : Profession). ltb a.sort_order b.sort_order) db.professions
