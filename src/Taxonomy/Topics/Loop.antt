-- ===== src/Taxonomy/Topics/Loop.antt =====
-- The loop over the topics (`sync_topics_each`): every topic of the list is done at the end, since a
-- later turn leaves the rows of the earlier ones.
use interview_trainer.Prelude.{
  ℕ, ◌≡◌, refl, sym, ap, ◌∙◌, arith, Bool, true, false, not, List, [], ◌∷◌, String, ◌==◌, ==_iff,
  ==_self, string_eq, nat_eq, find, contains, distinct, all, any, Bool-cases, inl, inr,
}
use interview_trainer.Exceptions.{ok}
use interview_trainer.Float.{Float, FloatLaws}
use interview_trainer.Models.{Database, Specialization, Topic, Subtopic, TopicWeight}
use interview_trainer.Rows.{has, keys_of, without}
use interview_trainer.Rows.Steps.{is_some}
use interview_trainer.Rows.Agreement.{
  in_keys, left, IsAligned-same, IsSynced, IsSynced-turn, known_after,
}
use interview_trainer.Rows.Apart.{find-apart, keys_of-apart}
use interview_trainer.Taxonomy.{SyncReport, sync_topics_each}
use interview_trainer.TaxonomyRows.{pair_eq, PlacedTopic, topics_sync, subtopics_sync, weights_sync}
use interview_trainer.Taxonomy.Laws.{topics_laws}
use interview_trainer.Taxonomy.Topics.{
  topic_key, IsValid, IsSound, IsDone, IsStep, is_known, sync_topic_lem,
}
use interview_trainer.Taxonomy.Topics.Ids.{ids, ids_apart, sync_one-ids}

module _ (fl : Float) (fresh : List ℕ → ℕ) where
  abbrev pub AllValid : List (PlacedTopic fl fresh) → Type 0
  AllValid [] = Unit {0}
  AllValid (i ∷ rest) = IsValid fl fresh i.1 × AllValid rest

  abbrev pub AllDone :
      (topics : List (PlacedTopic fl fresh)) → AllValid topics → Database fl → Type 0
  AllDone [] valid db = Unit {0}
  AllDone (i ∷ rest) valid db =
      ((row : Topic) × IsDone fl fresh i valid.0 row db) × AllDone rest valid.1 db

  -- the rows of two topics are apart
  apart_ids : (a b : ℕ) → (b == a) ≡ false → (x : ℕ) → (x == a) ≡ true → not (x == b) ≡ true
  apart_ids a b n x e = ground (arith, ==_iff x a, ==_iff x b, ==_iff b a)

  subtopics_apart :
      (a b : ℕ)
      → (b == a) ≡ false
      → (r : Subtopic) → (subtopics_sync fl fresh a).is_mine r ≡ true
      → not ((subtopics_sync fl fresh b).is_mine r) ≡ true
  unfolding subtopics_sync
  subtopics_apart a b n r e = apart_ids a b n r.topic_id e

  weights_apart :
      (a b : ℕ)
      → (b == a) ≡ false
      → (r : TopicWeight fl) → (weights_sync fl fresh a).is_mine r ≡ true
      → not ((weights_sync fl fresh b).is_mine r) ≡ true
  unfolding weights_sync
  weights_apart a b n r e = apart_ids a b n r.topic_id e

  IsDone-step :
      (i j : PlacedTopic fl fresh) (vi : IsValid fl fresh i.1) (vj : IsValid fl fresh j.1)
      (ri rj : Topic) (db db' : Database fl)
      → IsDone fl fresh i vi ri db
      → IsStep fl fresh j vj rj db db'
      → distinct (ids fl fresh db'.topics) ≡ true
      → (topic_key fl fresh j == topic_key fl fresh i) ≡ false
      → IsDone fl fresh i vi ri db'
  IsDone-step i j vi vj ri rj db db' done step u n =
      let found = step.turn.others (topic_key fl fresh i) n ∙ done.found in
      let n_ids =
        ids_apart fl fresh (topic_key fl fresh j) (topic_key fl fresh i) db'.topics rj ri u
          step.done.found found n in
      record {
        found = found;
        agrees = done.agrees;
        subtopics =
            IsAligned-same (subtopics_sync fl fresh ri.id) _ db.subtopics db'.subtopics
              (λ k.
                find-apart (subtopics_sync fl fresh ri.id) (subtopics_sync fl fresh rj.id)
                  (subtopics_apart ri.id rj.id n_ids) db.subtopics db'.subtopics k
                  step.other_subtopics)
              (keys_of-apart (subtopics_sync fl fresh ri.id) (subtopics_sync fl fresh rj.id)
                (subtopics_apart ri.id rj.id n_ids) db.subtopics db'.subtopics step.other_subtopics)
              done.subtopics;
        weights =
            IsAligned-same (weights_sync fl fresh ri.id) _ db.topic_weights db'.topic_weights
              (λ k.
                find-apart (weights_sync fl fresh ri.id) (weights_sync fl fresh rj.id)
                  (weights_apart ri.id rj.id n_ids) db.topic_weights db'.topic_weights k
                  step.other_weights)
              (keys_of-apart (weights_sync fl fresh ri.id) (weights_sync fl fresh rj.id)
                (weights_apart ri.id rj.id n_ids) db.topic_weights db'.topic_weights
                step.other_weights)
              done.weights;
      }

  IsSound-step :
      (j : PlacedTopic fl fresh) (vj : IsValid fl fresh j.1) (rj : Topic) (db db' : Database fl)
      → IsSound fl fresh db
      → IsStep fl fresh j vj rj db db'
      → distinct (ids fl fresh db'.topics) ≡ true
      → IsSound fl fresh db'
  IsSound-step j vj rj db db' sound step u = record {
    ids_once = u;
    topics_once = step.turn.unique sound.topics_once;
    subtopics_once = λ id. elim (Bool-cases (rj.id == id)) [
      | inl e ↦
          ap (λ k. distinct (keys_of (subtopics_sync fl fresh k) db'.subtopics))
            (sym ((==_iff rj.id id).0 e))
          ∙ step.done.subtopics.once
      | inr n ↦
          ap distinct (
            keys_of-apart (subtopics_sync fl fresh id) (subtopics_sync fl fresh rj.id)
              (subtopics_apart id rj.id n) db.subtopics db'.subtopics step.other_subtopics)
          ∙ sound.subtopics_once id
    ];
    weights_once = λ id. elim (Bool-cases (rj.id == id)) [
      | inl e ↦
          ap (λ k. distinct (keys_of (weights_sync fl fresh k) db'.topic_weights))
            (sym ((==_iff rj.id id).0 e))
          ∙ step.done.weights.once
      | inr n ↦
          ap distinct (
            keys_of-apart (weights_sync fl fresh id) (weights_sync fl fresh rj.id)
              (weights_apart id rj.id n) db.topic_weights db'.topic_weights step.other_weights)
          ∙ sound.weights_once id
    ];
  }

  -- What the loop does.
  pub record IsLooped (topics : List (PlacedTopic fl fresh)) (valid : AllValid topics)
      (db db' : Database fl) : Type 0 where
    pub all_done : AllDone topics valid db'
    pub synced : IsSynced (topics_sync fl fresh) topics db.topics db'.topics
    pub sound : IsSound fl fresh db'
    pub stays :
        (i : PlacedTopic fl fresh) (v : IsValid fl fresh i.1) (row : Topic)
        → contains (in_keys (topics_sync fl fresh) topics) (topic_key fl fresh i) ≡ false
        → IsDone fl fresh i v row db
        → IsDone fl fresh i v row db'
    pub same_specializations : db'.specializations ≡ db.specializations
    pub same_professions : db'.professions ≡ db.professions

  abbrev pub are_known : List (PlacedTopic fl fresh) → Database fl → Bool
  are_known topics db = all (λ i. is_known fl fresh i db) topics

  IsLooped-step :
      (i : PlacedTopic fl fresh) (rest : List (PlacedTopic fl fresh)) (v : IsValid fl fresh i.1)
      (vs : AllValid rest) (row : Topic) (db db1 db2 : Database fl)
      → distinct (in_keys (topics_sync fl fresh) (i ∷ rest)) ≡ true
      → distinct (ids fl fresh db1.topics) ≡ true
      → IsStep fl fresh i v row db db1
      → IsLooped rest vs db1 db2
      → IsLooped (i ∷ rest) (v, vs) db db2
  unfolding distinct contains
  IsLooped-step i rest v vs row db db1 db2 d u step looped = record {
    all_done = ((row, looped.stays i v row (ground arith) step.done), looped.all_done);
    synced =
        IsSynced-turn (topics_sync fl fresh) (topics_laws fl fresh) i rest db.topics db1.topics
          db2.topics row d step.turn looped.synced;
    sound = looped.sound;
    stays = λ j w r fresh_key done.
        looped.stays j w r (ground arith)
          (IsDone-step j i w v r row db db1 done step u (ground arith));
    same_specializations = looped.same_specializations ∙ step.same_specializations;
    same_professions = looped.same_professions ∙ step.same_professions;
  }

  module _ (laws : FloatLaws fl) (fresh_lem : (ks : List ℕ) → contains ks (fresh ks) ≡ false) where
    pub sync_topics_each_lem :
        (topics : List (PlacedTopic fl fresh)) (valid : AllValid topics)
        (existing : List (String × String)) (db : Database fl) (report : SyncReport)
        → IsSound fl fresh db
        → distinct (in_keys (topics_sync fl fresh) topics) ≡ true
        → are_known topics db ≡ true
        → ((k : String × String)
            → contains (in_keys (topics_sync fl fresh) topics) k ≡ true
            → is_some (find (has (topics_sync fl fresh) k) db.topics) ≡ true
            → contains existing k ≡ true)
        → (db' : Database fl) × (report' : SyncReport) × (sync_topics_each fl fresh topics existing
              db report
            ≡ ok (left (topics_sync fl fresh) topics existing, db', report'))
          × IsLooped topics valid db db'
    unfolding sync_topics_each left all distinct contains
    sync_topics_each_lem [] valid existing db report sound d known loaded = (
      db,
      report,
      refl,
      record {
        all_done = tt;
        synced = record { lined = refl; others = λ k h. refl; unique = λ u. u; kept = refl };
        sound = sound;
        stays = λ i v row h done. done;
        same_specializations = refl;
        same_professions = refl;
      },
    )
    sync_topics_each_lem (i ∷ rest) (v, vs) existing db report sound d known loaded =
        let key = topic_key fl fresh i in
        let (row, db1, report1, stats1, e_one, e, step) =
          sync_topic_lem fl fresh laws i v existing db report sound (ground arith)
            (loaded key (ground (arith, ==_self key))) in
        let u =
          sync_one-ids fl fresh fresh_lem i existing db.topics db1.topics row report.topics stats1
            e_one sound.ids_once in
        let (db2, report2, e2, looped) =
          sync_topics_each_lem rest vs (without (topics_sync fl fresh) key existing) db1 report1
            (IsSound-step i v row db db1 sound step u) (ground arith)
            (ap
                (λ ss.
                  all (λ (j : PlacedTopic fl fresh). any (λ (s : Specialization). s.id == j.0) ss)
                    rest)
                step.same_specializations
              ∙ ground arith)
            (λ k h.
              known_after (topics_sync fl fresh) (topics_laws fl fresh) i rest existing db.topics
                db1.topics row d step.turn k (loaded k (ground arith)) h) in
        (db2, report2, rw (e) e2, IsLooped-step i rest v vs row db db1 db2 d u step looped)
