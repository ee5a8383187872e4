-- ===== src/Taxonomy/Again.antt =====
-- A file that is loaded already changes nothing when it is loaded again (`sync`).
use interview_trainer.Prelude.{
  ℕ, ◌≡◌, refl, ap, ◌∙◌, arith, true, List, [], ◌∷◌, String, ==_iff, ==_self, string_eq, nat_eq,
  all, contains, distinct,
}
use interview_trainer.Exceptions.{ok}
use interview_trainer.Float.{Float, FloatLaws}
use interview_trainer.Models.{Database, Topic}
use interview_trainer.Seed.{TaxonomyFile}
use interview_trainer.Rows.{EntityStats, keys_of, without}
use interview_trainer.Rows.Steps.{contains-keys_of, contains-without}
use interview_trainer.Rows.Agreement.{in_keys, left}
use interview_trainer.Rows.Repeat.{
  sync_rows-same, sync_one-same, nothing-left, delete_stale-nothing,
}
use interview_trainer.Taxonomy.{
  SyncReport, cascade_topics, sync_topic, sync_subtopics, sync_weights, sync_topics_each,
  delete_topics, sync_topics,
}
use interview_trainer.TaxonomyRows.{
  pair_eq, PlacedTopic, enumerate, place_topics, topics_sync, subtopics_sync, weights_sync,
}
use interview_trainer.Taxonomy.Cascade.{gone-same, cascade_topics-nothing}
use interview_trainer.Taxonomy.Laws.{topics_laws, subtopics_laws, weights_laws}
use interview_trainer.Taxonomy.Topics.{
  topic_key, IsValid, IsDone, is_known, subtopic_keys, weight_keys,
}
use interview_trainer.Taxonomy.Topics.Ids.{ids}
use interview_trainer.Taxonomy.Topics.Loop.{AllValid, AllDone, are_known}
use interview_trainer.Taxonomy.Topics.Rest.{IsTree}

module _ (fl : Float) (fresh : List ℕ → ℕ) (laws : FloatLaws fl) where
  sync_topic-same :
      (i : PlacedTopic fl fresh) (v : IsValid fl fresh i.1) (row : Topic)
      (existing : List (String × String)) (db : Database fl) (report : SyncReport)
      → distinct (keys_of (topics_sync fl fresh) db.topics) ≡ true
      → IsDone fl fresh i v row db
      → is_known fl fresh i db ≡ true
      → contains existing (topic_key fl fresh i) ≡ true
      → sync_topic fl fresh i existing db report ≡ ok (db, report)
  unfolding sync_topic sync_subtopics sync_weights
  sync_topic-same i v row existing db report u done known loaded =
      rw
        (
          known,
          sync_one-same (topics_sync fl fresh) (topics_laws fl fresh) i existing db.topics
              report.topics row u done.found done.agrees loaded,
          sync_rows-same (subtopics_sync fl fresh row.id) (subtopics_laws fl fresh row.id)
              (enumerate i.1.subtopics) db.subtopics report.subtopics
              (subtopic_keys fl fresh row.id i.1 v) done.subtopics,
          v.loaded,
          sync_rows-same (weights_sync fl fresh row.id) (weights_laws fl fresh laws row.id)
              v.weights db.topic_weights report.weights (weight_keys fl fresh row.id i.1 v)
              done.weights,
        )
        refl

  sync_topics_each-same :
      (topics : List (PlacedTopic fl fresh)) (valid : AllValid fl fresh topics)
      (existing : List (String × String)) (db : Database fl) (report : SyncReport)
      → distinct (in_keys (topics_sync fl fresh) topics) ≡ true
      → distinct (keys_of (topics_sync fl fresh) db.topics) ≡ true
      → AllDone fl fresh topics valid db
      → are_known fl fresh topics db ≡ true
      → ((k : String × String)
          → contains (in_keys (topics_sync fl fresh) topics) k ≡ true
          → contains existing k ≡ true)
      → sync_topics_each fl fresh topics existing db report
        ≡ ok (left (topics_sync fl fresh) topics existing, db, report)
  unfolding sync_topics_each left all distinct contains
  sync_topics_each-same [] valid existing db report d u done known loaded = refl
  sync_topics_each-same (i ∷ rest) (v, vs) existing db report d u ((row, done), dones) known
        loaded =
      let key = topic_key fl fresh i in
      rw
        (sync_topic-same i v row existing db report u done (ground arith)
          (loaded key (ground (arith, ==_self key))))
        (sync_topics_each-same rest vs (without (topics_sync fl fresh) key existing) db report
          (ground arith) u dones (ground arith)
          (λ k h. ground (
            arith,
            loaded k,
            contains-without (topics_sync fl fresh) key k existing,
            ==_iff key k,
            ==_iff k key,
          )))

  pub sync_topics-same :
      (payload : TaxonomyFile fl) (valid : AllValid fl fresh (place_topics fl fresh payload.topics))
      (db : Database fl) (report : SyncReport)
      → distinct (in_keys (topics_sync fl fresh) (place_topics fl fresh payload.topics)) ≡ true
      → are_known fl fresh (place_topics fl fresh payload.topics) db ≡ true
      → IsTree fl fresh (place_topics fl fresh payload.topics) valid db
      → sync_topics fl fresh payload db report ≡ ok (db, report)
  unfolding sync_topics
  sync_topics-same payload valid db report d known tree =
      let sync = topics_sync fl fresh in
      let topics = place_topics fl fresh payload.topics in
      rw
        (
          sync_topics_each-same topics valid (keys_of sync db.topics) db report d tree.aligned.once
              tree.all_done known
              (λ k h. contains-keys_of sync db.topics k ∙ tree.aligned.domain k ∙ h),
          nothing-left sync (topics_laws fl fresh) topics db.topics tree.aligned,
        )
        (ap (λ (t : List Topic × EntityStats). delete_topics fl fresh db report t)
            (delete_stale-nothing sync (topics_laws fl fresh) db.topics report.topics)
          ∙ ap (λ g. ok (cascade_topics fl fresh g db, report)) (gone-same (ids fl fresh db.topics))
          ∙ ap (λ d. ok (d, report)) (cascade_topics-nothing fl fresh db))
