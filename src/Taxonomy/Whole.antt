-- ===== src/Taxonomy/Whole.antt =====
-- Loading a file of the taxonomy (`sync`): afterwards the tables are those of the file, and loading it
-- again changes nothing.
use interview_trainer.Prelude.{
  ℕ, ◌≡◌, refl, ap, ◌∙◌, arith, Bool, true, false, not, List, [], ◌∷◌, String, ◌==◌, string_eq,
  nat_eq, Comparable, keep, all, any, contains, distinct, map,
}
use interview_trainer.Exceptions.{ok}
use interview_trainer.Float.{Float, FloatLaws}
use interview_trainer.Models.{Database, Profession, Specialization, Topic}
use interview_trainer.Seed.{TaxonomyFile, ProfessionIn}
use interview_trainer.Rows.{keys_of}
use interview_trainer.Rows.Steps.{any-is_some-find}
use interview_trainer.Rows.Agreement.{in_keys, IsAligned, sync_rows_lem}
use interview_trainer.Rows.Repeat.{sync_rows-same}
use interview_trainer.Taxonomy.{
  SyncReport, new_report, profession_ids, specialization_ids, cascade_topics,
  cascade_specializations, cascade_professions, sync_professions, sync_specializations,
  sync_taxonomy,
}
use interview_trainer.TaxonomyRows.{
  pair_eq, PlacedTopic, enumerate, place_specializations, place_topics, professions_sync,
  specializations_sync, topics_sync, subtopics_sync, weights_sync, gone,
}
use interview_trainer.Taxonomy.Cascade.{
  gone-same, cascade_specializations-nothing, cascade_professions-nothing,
}
use interview_trainer.Taxonomy.Laws.{professions_laws, specializations_laws}
use interview_trainer.Taxonomy.Topics.{IsSound, map-enumerate_from}
use interview_trainer.Taxonomy.Topics.Loop.{AllValid, are_known}
use interview_trainer.Taxonomy.Topics.Rest.{IsTree, sync_topics_lem}
use interview_trainer.Taxonomy.Again.{sync_topics-same}

module _ {ℓ κ} {A : Type ℓ} {K : Type κ} ⦃c : Comparable K⦄ (f : A → K) where
  contains-map-keep :
      (q : A → Bool) (xs : List A) (k : K)
      → contains (map f xs) k ≡ false
      → contains (map f (keep q xs)) k ≡ false
  unfolding keep contains
  contains-map-keep q [] k h = h
  contains-map-keep q (x ∷ xs) k h = ground (arith, contains-map-keep q xs k)

  distinct-map-keep :
      (q : A → Bool) (xs : List A)
      → distinct (map f xs) ≡ true
      → distinct (map f (keep q xs)) ≡ true
  unfolding keep distinct
  distinct-map-keep q [] h = h
  distinct-map-keep q (x ∷ xs) h =
      ground (arith, distinct-map-keep q xs, contains-map-keep q xs (f x))

  keep-swap : (p q : A → Bool) (xs : List A) → keep p (keep q xs) ≡ keep q (keep p xs)
  unfolding keep
  keep-swap p q [] = refl
  keep-swap p q (x ∷ xs) = ground (arith, keep-swap p q xs)

  distinct-keys_keep :
      (p q : A → Bool) (xs : List A)
      → distinct (map f (keep p xs)) ≡ true
      → distinct (map f (keep p (keep q xs))) ≡ true
  distinct-keys_keep p q xs h =
      ap (λ ys. distinct (map f ys)) (keep-swap p q xs) ∙ distinct-map-keep q (keep p xs) h

module _ (fl : Float) (fresh : List ℕ → ℕ) where
  -- The unique constraints of the tables of the taxonomy.
  pub record IsConsistent (db : Database fl) : Type 0 where
    pub professions_once : distinct (keys_of professions_sync db.professions) ≡ true
    pub specializations_once : distinct (keys_of specializations_sync db.specializations) ≡ true
    pub sound : IsSound fl fresh db

  -- What a file has to have: no id twice, and topics of its own specializations that are valid.
  pub record IsLoadable (file : TaxonomyFile fl) : Type 0 where
    pub profession_ids : distinct (map (λ (p : ProfessionIn). p.id) file.professions) ≡ true
    pub specialization_ids :
        distinct (in_keys specializations_sync (place_specializations file.professions)) ≡ true
    pub topic_keys :
        distinct (in_keys (topics_sync fl fresh) (place_topics fl fresh file.topics)) ≡ true
    pub known :
        all
          (λ (i : PlacedTopic fl fresh).
            contains (in_keys specializations_sync (place_specializations file.professions)) i.0)
          (place_topics fl fresh file.topics)
        ≡ true
    pub valid : AllValid fl fresh (place_topics fl fresh file.topics)

  -- The tables are those of the file.
  pub record IsLoaded (file : TaxonomyFile fl) (loadable : IsLoadable file) (db : Database fl)
      : Type 0 where
    pub professions : IsAligned professions_sync (enumerate file.professions) db.professions
    pub specializations :
        IsAligned specializations_sync (place_specializations file.professions) db.specializations
    pub tree : IsTree fl fresh (place_topics fl fresh file.topics) loadable.valid db

  profession_keys :
      (file : TaxonomyFile fl)
      → IsLoadable file
      → distinct (in_keys professions_sync (enumerate file.professions)) ≡ true
  unfolding professions_sync
  profession_keys file loadable =
      ap distinct (map-enumerate_from (λ (p : ProfessionIn). p.id) 0 file.professions)
      ∙ loadable.profession_ids

  IsSound-cascade_specializations :
      (gone_ids : List String) (ps : List Profession) (ss : List Specialization) (db : Database fl)
      → IsSound fl fresh db
      → IsSound fl fresh (
          cascade_specializations fl fresh gone_ids
            (record db { professions = ps; specializations = ss }))
  unfolding cascade_specializations cascade_topics
  IsSound-cascade_specializations gone_ids ps ss db sound = record {
    ids_once = distinct-map-keep (λ (t : Topic). t.id) _ db.topics sound.ids_once;
    topics_once =
        distinct-keys_keep (topics_sync fl fresh).row_key (topics_sync fl fresh).is_mine _ db.topics
          sound.topics_once;
    subtopics_once = λ id.
        distinct-keys_keep (subtopics_sync fl fresh id).row_key (subtopics_sync fl fresh id).is_mine
          _ db.subtopics (sound.subtopics_once id);
    weights_once = λ id.
        distinct-keys_keep (weights_sync fl fresh id).row_key (weights_sync fl fresh id).is_mine _
          db.topic_weights (sound.weights_once id);
  }

  -- a specialization that the file declares has a row
  specialization_known :
      (file : TaxonomyFile fl) (db : Database fl) (s : String)
      → IsAligned specializations_sync (place_specializations file.professions) db.specializations
      → contains (in_keys specializations_sync (place_specializations file.professions)) s ≡ true
      → any (λ (r : Specialization). r.id == s) db.specializations ≡ true
  unfolding specializations_sync
  specialization_known file db s aligned h =
      any-is_some-find (λ (r : Specialization). r.id == s) db.specializations ∙ aligned.domain s ∙ h

  all_known :
      (file : TaxonomyFile fl) (db : Database fl) (topics : List (PlacedTopic fl fresh))
      → IsAligned specializations_sync (place_specializations file.professions) db.specializations
      → all
          (λ (i : PlacedTopic fl fresh).
            contains (in_keys specializations_sync (place_specializations file.professions)) i.0)
          topics
        ≡ true
      → are_known fl fresh topics db ≡ true
  unfolding all
  all_known file db [] aligned h = refl
  all_known file db (i ∷ is) aligned h =
      ground (arith, specialization_known file db i.0 aligned, all_known file db is aligned)

  sync_professions-same :
      (file : TaxonomyFile fl) (loadable : IsLoadable file) (db : Database fl) (report : SyncReport)
      → IsAligned professions_sync (enumerate file.professions) db.professions
      → sync_professions fl fresh file db report ≡ ok (db, report)
  unfolding sync_professions
  sync_professions-same file loadable db report aligned =
      rw
        (sync_rows-same professions_sync professions_laws (enumerate file.professions)
          db.professions report.professions (profession_keys file loadable) aligned)
        (ap (λ g. ok (cascade_professions fl fresh g db, report))
            (gone-same (profession_ids fl fresh db))
          ∙ ap (λ d. ok (d, report)) (cascade_professions-nothing fl fresh db))

  sync_specializations-same :
      (file : TaxonomyFile fl) (loadable : IsLoadable file) (db : Database fl) (report : SyncReport)
      → IsAligned specializations_sync (place_specializations file.professions) db.specializations
      → sync_specializations fl fresh file db report ≡ ok (db, report)
  unfolding sync_specializations
  sync_specializations-same file loadable db report aligned =
      rw
        (sync_rows-same specializations_sync specializations_laws
          (place_specializations file.professions) db.specializations report.specializations
          loadable.specialization_ids aligned)
        (ap (λ g. ok (cascade_specializations fl fresh g db, report))
            (gone-same (specialization_ids fl fresh db))
          ∙ ap (λ d. ok (d, report)) (cascade_specializations-nothing fl fresh db))

  sync_professions_lem :
      (file : TaxonomyFile fl) (loadable : IsLoadable file) (db : Database fl) (report : SyncReport)
      → IsConsistent db
      → (db' : Database fl) × (report' : SyncReport) × (sync_professions fl fresh file db report
          ≡ ok (db', report'))
        × IsAligned professions_sync (enumerate file.professions) db'.professions
        × (distinct (keys_of specializations_sync db'.specializations) ≡ true)
        × IsSound fl fresh db'
  unfolding sync_professions cascade_professions cascade_specializations cascade_topics
  sync_professions_lem file loadable db report consistent =
      let (rows, stats, e, aligned, kept) =
        sync_rows_lem professions_sync professions_laws (enumerate file.professions) db.professions
          report.professions (profession_keys file loadable) consistent.professions_once in
      let g =
        gone (profession_ids fl fresh db)
          (profession_ids fl fresh (record db { professions = rows })) in
      let stay =
        keep (λ (r : Specialization). not (contains g r.profession_id)) db.specializations in
      let lost =
        map (λ (r : Specialization). r.id)
          (keep (λ (r : Specialization). contains g r.profession_id) db.specializations) in
      (
        cascade_professions fl fresh g (record db { professions = rows }),
        record report { professions = stats },
        rw (e) refl,
        aligned,
        distinct-keys_keep specializations_sync.row_key specializations_sync.is_mine _
            db.specializations consistent.specializations_once,
        IsSound-cascade_specializations lost rows stay db consistent.sound,
      )

  sync_specializations_lem :
      (file : TaxonomyFile fl) (loadable : IsLoadable file) (db : Database fl) (report : SyncReport)
      → distinct (keys_of specializations_sync db.specializations) ≡ true
      → IsSound fl fresh db
      → (db' : Database fl) × (report' : SyncReport) × (sync_specializations fl fresh file db report
          ≡ ok (db', report'))
        × IsAligned specializations_sync
            (place_specializations file.professions)
            db'.specializations
        × (db'.professions ≡ db.professions)
        × IsSound fl fresh db'
  unfolding sync_specializations cascade_specializations cascade_topics
  sync_specializations_lem file loadable db report once sound =
      let (rows, stats, e, aligned, kept) =
        sync_rows_lem specializations_sync specializations_laws
          (place_specializations file.professions) db.specializations report.specializations
          loadable.specialization_ids once in
      let g =
        gone (specialization_ids fl fresh db)
          (specialization_ids fl fresh (record db { specializations = rows })) in
      (
        cascade_specializations fl fresh g (record db { specializations = rows }),
        record report { specializations = stats },
        rw (e) refl,
        aligned,
        refl,
        IsSound-cascade_specializations g db.professions rows db sound,
      )

  module _ (laws : FloatLaws fl) (fresh_lem : (ks : List ℕ) → contains ks (fresh ks) ≡ false) where
    sync_taxonomy_lem :
        (file : TaxonomyFile fl) (loadable : IsLoadable file) (db : Database fl)
        → IsConsistent db
        → (db' : Database fl) × (report : SyncReport) × (sync_taxonomy fl fresh file db
            ≡ ok (db', report))
          × IsLoaded file loadable db'
    unfolding sync_taxonomy
    sync_taxonomy_lem file loadable db consistent =
        let (db1, report1, e1, professions, once, sound1) =
          sync_professions_lem file loadable db new_report consistent in
        let (db2, report2, e2, specializations, same_professions, sound2) =
          sync_specializations_lem file loadable db1 report1 once sound1 in
        let (db3, report3, e3, tree, same_specializations, same_professions3) =
          sync_topics_lem fl fresh laws fresh_lem file loadable.valid db2 report2 sound2
            loadable.topic_keys
            (all_known file db2 (place_topics fl fresh file.topics) specializations
              loadable.known) in
        (
          db3,
          report3,
          rw (e1, e2) e3,
          record {
            professions = rw (same_professions3, same_professions) professions;
            specializations = rw (same_specializations) specializations;
            tree = tree;
          },
        )

    sync_taxonomy-IsLoaded :
        (file : TaxonomyFile fl) (loadable : IsLoadable file) (db : Database fl)
        → IsLoaded file loadable db
        → sync_taxonomy fl fresh file db ≡ ok (db, new_report)
    unfolding sync_taxonomy
    sync_taxonomy-IsLoaded file loadable db loaded =
        rw
          (
            sync_professions-same file loadable db new_report loaded.professions,
            sync_specializations-same file loadable db new_report loaded.specializations,
          )
          (sync_topics-same fl fresh laws file loadable.valid db new_report loadable.topic_keys
            (all_known file db (place_topics fl fresh file.topics) loaded.specializations
              loadable.known)
            loaded.tree)

    pub sync_taxonomy_again :
        (file : TaxonomyFile fl) (loadable : IsLoadable file) (db : Database fl)
        → IsConsistent db
        → (db' : Database fl) × (report : SyncReport) × (sync_taxonomy fl fresh file db
            ≡ ok (db', report))
          × IsLoaded file loadable db'
          × (sync_taxonomy fl fresh file db' ≡ ok (db', new_report))
    sync_taxonomy_again file loadable db consistent =
        let (db', report, e, loaded) = sync_taxonomy_lem file loadable db consistent in
        (db', report, e, loaded, sync_taxonomy-IsLoaded file loadable db' loaded)
