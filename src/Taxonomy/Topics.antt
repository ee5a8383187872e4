-- ===== src/Taxonomy/Topics.antt =====
-- One turn of the loop over the topics (`sync_topic`): the row of the topic, its subtopics and its
-- weights are those of the file, and those of every other topic stay as they are.
pub mod Ids
pub mod Loop
pub mod Rest
use interview_trainer.Prelude.{
  ℕ, ◌+◌, ◌≡◌, ◌≢◌, refl, sym, ap, ◌∙◌, arith, Bool, true, false, not, ◌&&◌, List, [], ◌∷◌, ◌++◌,
  Option, none, some, String, ◌==◌, ==_iff, ==_self, string_eq, nat_eq, if◌then◌else◌, find, keep,
  any, all, contains, distinct, map, Bool-cases, inl, inr,
}
use interview_trainer.Exceptions.{Result, ok, err}
use interview_trainer.Float.{Float, FloatLaws}
use interview_trainer.Models.{Database, Topic, Subtopic, TopicWeight, Specialization}
use interview_trainer.Seed.{SubtopicIn, TopicIn, weights_by_grade}
use interview_trainer.Rows.{EntityStats, has, keys_of, sync_one, sync_rows}
use interview_trainer.Rows.Steps.{is_some, IsTurn, sync_one_lem}
use interview_trainer.Rows.Agreement.{in_keys, foreign, IsAligned, IsAligned-same, sync_rows_lem}
use interview_trainer.Rows.Repeat.{sync_rows-same, sync_one-same}
use interview_trainer.Rows.Apart.{find-apart, keys_of-apart}
use interview_trainer.Taxonomy.{SyncReport, sync_topic, sync_subtopics, sync_weights, topic_ids}
use interview_trainer.TaxonomyRows.{
  pair_eq, PlacedTopic, enumerate, enumerate_from, topics_sync, subtopics_sync, weights_sync,
  topic_differs,
}
use interview_trainer.Taxonomy.Topics.Ids.{ids}
use interview_trainer.Taxonomy.Laws.{topics_laws, subtopics_laws, weights_laws}

pub map-enumerate_from {ℓ κ} :
    {A : Type ℓ} {B : Type κ} (f : A → B) (n : ℕ) (xs : List A)
    → map (λ (e : A × ℕ). f e.0) (enumerate_from n xs) ≡ map f xs
unfolding enumerate_from
map-enumerate_from f n [] = refl
map-enumerate_from f n (x ∷ xs) = ap (λ ys. f x ∷ ys) (map-enumerate_from f (n + 1) xs)

module _ (fl : Float) (fresh : List ℕ → ℕ) where
  open fl use {F}

  abbrev pub topic_key : PlacedTopic fl fresh → String × String
  topic_key i = (topics_sync fl fresh).in_key i

  -- What the checks of the file ensure of a topic.
  pub record IsValid (topic : TopicIn fl) : Type 0 where
    pub weights : List (ℕ × F)
    pub loaded : weights_by_grade fl topic ≡ ok weights
    pub grades : distinct (map (λ e. e.0) weights) ≡ true
    pub codes : distinct (map (λ (s : SubtopicIn). s.code) topic.subtopics) ≡ true

  -- The unique constraints of the tables.
  pub record IsSound (db : Database fl) : Type 0 where
    pub ids_once : distinct (ids fl fresh db.topics) ≡ true
    pub topics_once : distinct (keys_of (topics_sync fl fresh) db.topics) ≡ true
    pub subtopics_once :
        (id : ℕ) → distinct (keys_of (subtopics_sync fl fresh id) db.subtopics) ≡ true
    pub weights_once :
        (id : ℕ) → distinct (keys_of (weights_sync fl fresh id) db.topic_weights) ≡ true

  -- The topic is in the database as the file has it.
  pub record IsDone (i : PlacedTopic fl fresh) (valid : IsValid i.1) (row : Topic)
      (db : Database fl) : Type 0 where
    pub found : find (has (topics_sync fl fresh) (topic_key i)) db.topics ≡ some row
    pub agrees : (topics_sync fl fresh).differs i row ≡ false
    pub subtopics :
        IsAligned (subtopics_sync fl fresh row.id) (enumerate i.1.subtopics) db.subtopics
    pub weights : IsAligned (weights_sync fl fresh row.id) valid.weights db.topic_weights

  -- What a turn does: `row` is the row of its topic.
  pub record IsStep (i : PlacedTopic fl fresh) (valid : IsValid i.1) (row : Topic)
      (db db' : Database fl) : Type 0 where
    pub done : IsDone i valid row db'
    pub turn : IsTurn (topics_sync fl fresh) (topics_laws fl fresh) i db.topics db'.topics row
    pub other_subtopics :
        foreign (subtopics_sync fl fresh row.id) db'.subtopics
        ≡ foreign (subtopics_sync fl fresh row.id) db.subtopics
    pub other_weights :
        foreign (weights_sync fl fresh row.id) db'.topic_weights
        ≡ foreign (weights_sync fl fresh row.id) db.topic_weights
    pub same_specializations : db'.specializations ≡ db.specializations
    pub same_professions : db'.professions ≡ db.professions

  abbrev pub is_known : PlacedTopic fl fresh → Database fl → Bool
  is_known i db = any (λ (s : Specialization). s.id == i.0) db.specializations

  pub subtopic_keys :
      (id : ℕ) (topic : TopicIn fl)
      → IsValid topic
      → distinct (in_keys (subtopics_sync fl fresh id) (enumerate topic.subtopics)) ≡ true
  unfolding subtopics_sync
  subtopic_keys id topic valid =
      ap distinct (map-enumerate_from (λ (s : SubtopicIn). s.code) 0 topic.subtopics) ∙ valid.codes

  pub weight_keys :
      (id : ℕ) (topic : TopicIn fl) (valid : IsValid topic)
      → distinct (in_keys (weights_sync fl fresh id) valid.weights) ≡ true
  unfolding weights_sync
  weight_keys id topic valid = valid.grades

  module _ (laws : FloatLaws fl) where
    pub sync_topic_lem :
        (i : PlacedTopic fl fresh) (valid : IsValid i.1) (existing : List (String × String))
        (db : Database fl) (report : SyncReport)
        → IsSound db
        → is_known i db ≡ true
        → (is_some (find (has (topics_sync fl fresh) (topic_key i)) db.topics) ≡ true
            → contains existing (topic_key i) ≡ true)
        → (row : Topic) × (db' : Database fl) × (report' : SyncReport) × (stats' : EntityStats)
          × (sync_one (topics_sync fl fresh) i existing db.topics report.topics
              ≡ ok (row, db'.topics, stats'))
          × (sync_topic fl fresh i existing db report ≡ ok (db', report'))
          × IsStep i valid row db db'
    unfolding sync_topic sync_subtopics sync_weights
    sync_topic_lem i valid existing db report sound known loaded =
        let (row, topics', stats', e, turn) =
          sync_one_lem (topics_sync fl fresh) (topics_laws fl fresh) i existing db.topics
            report.topics loaded in
        let (subtopics', stats_s, e_s, aligned_s, other_s) =
          sync_rows_lem (subtopics_sync fl fresh row.id) (subtopics_laws fl fresh row.id)
            (enumerate i.1.subtopics) db.subtopics report.subtopics (subtopic_keys row.id i.1 valid)
            (sound.subtopics_once row.id) in
        let (weights', stats_w, e_w, aligned_w, other_w) =
          sync_rows_lem (weights_sync fl fresh row.id) (weights_laws fl fresh laws row.id)
            valid.weights db.topic_weights report.weights (weight_keys row.id i.1 valid)
            (sound.weights_once row.id) in
        (
          row,
          record db { topics = topics'; subtopics = subtopics'; topic_weights = weights' },
          record report { topics = stats'; subtopics = stats_s; weights = stats_w },
          stats',
          e,
          rw (known, e, e_s, valid.loaded, e_w) refl,
          record {
            done = record {
              found = turn.own;
              agrees = turn.agrees;
              subtopics = aligned_s;
              weights = aligned_w;
            };
            turn = turn;
            other_subtopics = other_s;
            other_weights = other_w;
            same_specializations = refl;
            same_professions = refl;
          },
        )
