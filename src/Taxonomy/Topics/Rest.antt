-- ===== src/Taxonomy/Topics/Rest.antt =====
-- After the loop the topics that the file does not have are deleted, with their subtopics and weights
-- (`sync_topics`): those of the file stay as the loop left them.
use interview_trainer.Prelude.{
  ℕ, ◌≡◌, refl, ap, ◌∙◌, arith, true, false, not, List, [], ◌∷◌, some, String, ==_iff, ==_self,
  string_eq, nat_eq, Comparable, find, keep, contains, distinct,
}
use interview_trainer.Exceptions.{ok}
use interview_trainer.Float.{Float, FloatLaws}
use interview_trainer.Models.{Database, Topic, Subtopic, TopicWeight}
use interview_trainer.Seed.{TaxonomyFile}
use interview_trainer.Rows.{has, keys_of, is_stale, delete_stale}
use interview_trainer.Rows.Steps.{find-has-keep, contains-keys_of}
use interview_trainer.Rows.Agreement.{
  in_keys, left, contains-left, IsAligned-same, IsAligned, IsAligned-synced,
}
use interview_trainer.Rows.Apart.{find-spared, keys_of-spared}
use interview_trainer.Taxonomy.{SyncReport, cascade_topics, sync_topics}
use interview_trainer.TaxonomyRows.{
  pair_eq, PlacedTopic, place_topics, topics_sync, subtopics_sync, weights_sync, gone,
}
use interview_trainer.Taxonomy.Laws.{topics_laws}
use interview_trainer.Taxonomy.Topics.{topic_key, IsValid, IsSound, IsDone}
use interview_trainer.Taxonomy.Topics.Ids.{ids, contains-ids}
use interview_trainer.Taxonomy.Topics.Loop.{AllValid, AllDone, are_known, sync_topics_each_lem}

module _ {ℓ} {K : Type ℓ} ⦃c : Comparable K⦄ where
  contains-gone : (xs ys : List K) (k : K) → contains ys k ≡ true → contains (gone xs ys) k ≡ false
  unfolding keep contains
  contains-gone [] ys k h = refl
  contains-gone (x ∷ xs) ys k h = ground (arith, contains-gone xs ys k h, ==_iff x k)

module _ (fl : Float) (fresh : List ℕ → ℕ) where
  -- the deletion
  abbrev remove_stale : List (String × String) → Database fl → Database fl
  remove_stale rest db =
      let topics' = keep (λ r. not (is_stale (topics_sync fl fresh) rest r)) db.topics in
      cascade_topics fl fresh (gone (ids fl fresh db.topics) (ids fl fresh topics'))
        (record db { topics = topics' })

  subtopics_spared :
      (g : List ℕ) (id : ℕ)
      → contains g id ≡ false
      → (r : Subtopic) → (subtopics_sync fl fresh id).is_mine r ≡ true
      → not (contains g r.topic_id) ≡ true
  unfolding subtopics_sync
  subtopics_spared g id h r e = ap (λ k. not (contains g k)) ((==_iff r.topic_id id).0 e) ∙ ap not h

  weights_spared :
      (g : List ℕ) (id : ℕ)
      → contains g id ≡ false
      → (r : TopicWeight fl) → (weights_sync fl fresh id).is_mine r ≡ true
      → not (contains g r.topic_id) ≡ true
  unfolding weights_sync
  weights_spared g id h r e = ap (λ k. not (contains g k)) ((==_iff r.topic_id id).0 e) ∙ ap not h

  IsDone-remove_stale :
      (i : PlacedTopic fl fresh) (v : IsValid fl fresh i.1) (row : Topic)
      (rest : List (String × String)) (db : Database fl)
      → contains rest (topic_key fl fresh i) ≡ false
      → IsDone fl fresh i v row db
      → IsDone fl fresh i v row (remove_stale rest db)
  unfolding cascade_topics
  IsDone-remove_stale i v row rest db h done =
      let topics' = keep (λ r. not (is_stale (topics_sync fl fresh) rest r)) db.topics in
      let g = gone (ids fl fresh db.topics) (ids fl fresh topics') in
      let key = topic_key fl fresh i in
      let found : find (has (topics_sync fl fresh) key) topics' ≡ some row =
        find-has-keep (topics_sync fl fresh) rest db.topics key ∙ rw (h) done.found in
      let stays =
        contains-gone (ids fl fresh db.topics) (ids fl fresh topics') row.id
          (contains-ids fl fresh (has (topics_sync fl fresh) key) topics' row found) in
      let s = subtopics_spared g row.id stays in
      let w = weights_spared g row.id stays in
      record {
        found = found;
        agrees = done.agrees;
        subtopics =
            IsAligned-same (subtopics_sync fl fresh row.id) _ db.subtopics
              (keep (λ (r : Subtopic). not (contains g r.topic_id)) db.subtopics)
              (λ k.
                find-spared (subtopics_sync fl fresh row.id) (λ r. not (contains g r.topic_id))
                  db.subtopics k s)
              (keys_of-spared (subtopics_sync fl fresh row.id) (λ r. not (contains g r.topic_id))
                db.subtopics s)
              done.subtopics;
        weights =
            IsAligned-same (weights_sync fl fresh row.id) _ db.topic_weights
              (keep (λ (r : TopicWeight fl). not (contains g r.topic_id)) db.topic_weights)
              (λ k.
                find-spared (weights_sync fl fresh row.id) (λ r. not (contains g r.topic_id))
                  db.topic_weights k w)
              (keys_of-spared (weights_sync fl fresh row.id) (λ r. not (contains g r.topic_id))
                db.topic_weights w)
              done.weights;
      }

  AllDone-remove_stale :
      (topics : List (PlacedTopic fl fresh)) (valid : AllValid fl fresh topics)
      (rest : List (String × String)) (db : Database fl)
      → ((k : String × String)
          → contains (in_keys (topics_sync fl fresh) topics) k ≡ true
          → contains rest k ≡ false)
      → AllDone fl fresh topics valid db
      → AllDone fl fresh topics valid (remove_stale rest db)
  unfolding contains
  AllDone-remove_stale [] valid rest db h done = tt
  AllDone-remove_stale (i ∷ is) (v, vs) rest db h ((row, d), ds) =
      let key = topic_key fl fresh i in
      (
        (row, IsDone-remove_stale i v row rest db (h key (ground (arith, ==_self key))) d),
        AllDone-remove_stale is vs rest db (λ k e. h k (ground arith)) ds,
      )

  -- The topics are those of the file, each with its subtopics and weights.
  pub record IsTree (topics : List (PlacedTopic fl fresh)) (valid : AllValid fl fresh topics)
      (db : Database fl) : Type 0 where
    pub aligned : IsAligned (topics_sync fl fresh) topics db.topics
    pub all_done : AllDone fl fresh topics valid db

  module _ (laws : FloatLaws fl) (fresh_lem : (ks : List ℕ) → contains ks (fresh ks) ≡ false) where
    pub sync_topics_lem :
        (payload : TaxonomyFile fl)
        (valid : AllValid fl fresh (place_topics fl fresh payload.topics)) (db : Database fl)
        (report : SyncReport)
        → IsSound fl fresh db
        → distinct (in_keys (topics_sync fl fresh) (place_topics fl fresh payload.topics)) ≡ true
        → are_known fl fresh (place_topics fl fresh payload.topics) db ≡ true
        → (db' : Database fl) × (report' : SyncReport) × (sync_topics fl fresh payload db report
            ≡ ok (db', report'))
          × IsTree (place_topics fl fresh payload.topics) valid db'
          × (db'.specializations ≡ db.specializations)
          × (db'.professions ≡ db.professions)
    unfolding sync_topics delete_stale cascade_topics
    sync_topics_lem payload valid db report sound d known =
        let sync = topics_sync fl fresh in
        let topics = place_topics fl fresh payload.topics in
        let rest = left sync topics (keys_of sync db.topics) in
        let (db1, report1, e, looped) =
          sync_topics_each_lem fl fresh laws fresh_lem topics valid (keys_of sync db.topics) db
            report sound d known (λ k h e. contains-keys_of sync db.topics k ∙ e) in
        (
          remove_stale rest db1,
          record report1 { topics = (delete_stale sync rest db1.topics report1.topics).1 },
          rw (e) refl,
          record {
            aligned =
                IsAligned-synced sync (topics_laws fl fresh) topics db.topics db1.topics
                  sound.topics_once looped.synced;
            all_done =
                AllDone-remove_stale topics valid rest db1
                  (λ k h. ground (arith, contains-left sync topics (keys_of sync db.topics) k))
                  looped.all_done;
          },
          looped.same_specializations,
          looped.same_professions,
        )
