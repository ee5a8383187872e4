-- ===== src/Taxonomy/Checked.antt =====
-- A file that passes the checks of backend/app/seed/schema.py can be loaded.
pub mod Weights
pub mod Keys
use interview_trainer.Prelude.{
  ℕ, ◌+◌, ◌≡◌, refl, sym, ap, ◌∙◌, arith, Bool, true, false, not, ◌&&◌, List, [], ◌∷◌, ◌++◌, String,
  ◌==◌, ==_iff, ==_self, string_eq, nat_eq, Comparable, all, contains, contains-append, distinct,
  map,
}
use interview_trainer.Exceptions.{ok, ensure, ◌>>◌}
use interview_trainer.Float.{Float, FloatLaws}
use interview_trainer.Models.{Database}
use interview_trainer.Session.{Session}
use interview_trainer.Seed.{
  Invalid, unknown_specialization, empty_topics, no_topics, TopicIn, TaxonomyFile, ProfessionIn,
  SpecializationIn, check_each, check_file, check_specializations, check_topic,
  check_cross_references, reject_duplicates, is_empty, sorted, known_specializations,
  active_specializations, specializations_of, specialization_ids, topic_keys, topic_codes,
  weight_codes, to_set,
}
use interview_trainer.Seed.Unique.{contains-to_set}
use interview_trainer.Seed.Accepted.{both-ok, ensure-ok, distinct-ok, all-check_each}
use interview_trainer.Rows.Agreement.{in_keys}
use interview_trainer.Taxonomy.{SyncReport, new_report, commit_synced, seed_taxonomy}
use interview_trainer.TaxonomyRows.{
  pair_eq, PlacedTopic, enumerate_from, place_topics, place_specializations, specializations_sync,
  topics_sync,
}
use interview_trainer.Taxonomy.Losses.{in_keys-place_specializations, map-append}
use interview_trainer.Taxonomy.Topics.{IsValid}
use interview_trainer.Taxonomy.Topics.Loop.{AllValid}
use interview_trainer.Taxonomy.Whole.{IsConsistent, IsLoadable, sync_taxonomy_again}
use interview_trainer.Taxonomy.Content.{HoldsFile, IsLoaded-HoldsFile}
use interview_trainer.Taxonomy.Checked.Weights.{IsValid-check_topic}
use interview_trainer.Taxonomy.Checked.Keys.{Entry, in_keys-place_topics, distinct-keys_in}

module _ {ℓ} {A : Type ℓ} where
  all-append : (p : A → Bool) (xs ys : List A) → all p (xs ++ ys) ≡ (all p xs && all p ys)
  unfolding all
  all-append p [] ys = refl
  all-append p (x ∷ xs) ys = ground (arith, all-append p xs ys)

module _ (fl : Float) (fresh : List ℕ → ℕ) where
  AllValid-append :
      (xs ys : List (PlacedTopic fl fresh))
      → AllValid fl fresh xs
      → AllValid fl fresh ys
      → AllValid fl fresh (xs ++ ys)
  AllValid-append [] ys v w = w
  AllValid-append (x ∷ xs) ys (v, vs) w = (v, AllValid-append xs ys vs w)

  AllValid-entry :
      (s : String) (n : ℕ) (ts : List (TopicIn fl))
      → check_each (check_topic fl) ts ≡ ok tt
      → all (λ (t : TopicIn fl). distinct (weight_codes fl t)) ts ≡ true
      → AllValid fl fresh (map (λ (t : TopicIn fl × ℕ). (s, t.0, t.1)) (enumerate_from n ts))
  unfolding check_each all enumerate_from
  AllValid-entry s n [] h d = tt
  AllValid-entry s n (t ∷ ts) h d =
      let (h1, h2) = both-ok (check_topic fl t) (check_each (check_topic fl) ts) h in
      (
        IsValid-check_topic fl fresh t h1 (ground arith),
        AllValid-entry s (n + 1) ts h2 (ground arith),
      )

  AllValid-place_topics :
      (es : List (Entry fl fresh))
      → check_each (λ (e : (Entry fl fresh)). check_each (check_topic fl) e.1) es ≡ ok tt
      → all
          (λ (e : (Entry fl fresh)). all (λ (t : TopicIn fl). distinct (weight_codes fl t)) e.1)
          es
        ≡ true
      → AllValid fl fresh (place_topics fl fresh es)
  unfolding check_each all place_topics
  AllValid-place_topics [] h d = tt
  AllValid-place_topics (e ∷ es) h d =
      let (h1, h2) =
        both-ok (check_each (check_topic fl) e.1)
          (check_each (λ (x : (Entry fl fresh)). check_each (check_topic fl) x.1) es) h in
      AllValid-append (map (λ (t : TopicIn fl × ℕ). (e.0, t.0, t.1)) (enumerate_from 0 e.1))
        (place_topics fl fresh es) (AllValid-entry e.0 0 e.1 h1 (ground arith))
        (AllValid-place_topics es h2 (ground arith))

  all-entry :
      (p : String → Bool) (s : String) (n : ℕ) (ts : List (TopicIn fl))
      → p s ≡ true
      → all
          (λ (i : PlacedTopic fl fresh). p i.0)
          (map (λ (t : TopicIn fl × ℕ). (s, t.0, t.1)) (enumerate_from n ts))
        ≡ true
  unfolding all enumerate_from
  all-entry p s n [] h = refl
  all-entry p s n (t ∷ ts) h = ground (arith, all-entry p s (n + 1) ts h)

  all-place_topics :
      (p : String → Bool) (es : List (Entry fl fresh))
      → all p (map (λ e. e.0) es) ≡ true
      → all (λ (i : PlacedTopic fl fresh). p i.0) (place_topics fl fresh es) ≡ true
  unfolding all place_topics
  all-place_topics p [] h = refl
  all-place_topics p (e ∷ es) h =
      all-append (λ (i : PlacedTopic fl fresh). p i.0)
        (map (λ (t : TopicIn fl × ℕ). (e.0, t.0, t.1)) (enumerate_from 0 e.1))
        (place_topics fl fresh es)
      ∙ ground (arith, all-entry p e.0 0 e.1, all-place_topics p es)

  -- The keys of the dicts of the file differ.
  unfoldable pub has_dicts : TaxonomyFile fl → Bool
  unfolding distinct all
  has_dicts file =
      distinct (topic_keys fl file)
      && all (λ (e : (Entry fl fresh)). all (λ (t : TopicIn fl). distinct (weight_codes fl t)) e.1)
          file.topics

  -- A file that passes the checks can be loaded, if no two professions declare the same
  -- specialization.
  pub check_file-IsLoadable :
      (file : TaxonomyFile fl)
      → check_file fl file ≡ ok tt
      → has_dicts file ≡ true
      → distinct (specialization_ids fl file.professions) ≡ true
      → IsLoadable fl fresh file
  unfolding check_file check_cross_references has_dicts known_specializations
  check_file-IsLoadable file h dicts once =
      let parts = check_each check_specializations file.professions in
      let topics_pass =
        check_each (λ (e : (Entry fl fresh)). check_each (check_topic fl) e.1) file.topics in
      let (h_parts, cross) = both-ok (parts >> topics_pass) (check_cross_references fl file) h in
      let (h_professions, h_topics) = both-ok parts topics_pass h_parts in
      let ids = reject_duplicates (map (λ (p : ProfessionIn). p.id) file.professions) in
      let specs = reject_duplicates (sorted (known_specializations fl file)) in
      let known =
        check_each
          (λ (s : String).
            ensure (contains (known_specializations fl file) s) unknown_specialization)
          (topic_keys fl file) in
      let entries =
        check_each
          (λ (e : (Entry fl fresh)).
            ensure (not (is_empty e.1)) empty_topics >> reject_duplicates (topic_codes fl e.1))
          file.topics in
      let actives =
        check_each (λ (s : String). ensure (contains (topic_keys fl file) s) no_topics)
          (active_specializations fl file) in
      let (c4, e_active) = both-ok (ids >> specs >> known >> entries) actives cross in
      let (c3, e_entries) = both-ok (ids >> specs >> known) entries c4 in
      let (c2, e_known) = both-ok (ids >> specs) known c3 in
      let (e_ids, e_specs) = both-ok ids specs c2 in
      let placed = in_keys-place_specializations fl fresh file.professions in
      record {
        profession_ids = distinct-ok (map (λ (p : ProfessionIn). p.id) file.professions) e_ids;
        specialization_ids = ap distinct placed ∙ once;
        topic_keys =
            ap distinct (in_keys-place_topics fl fresh file.topics)
            ∙ distinct-keys_in fl fresh file.topics (ground arith) (
                all-check_each
                  (λ (e : (Entry fl fresh)).
                    ensure (not (is_empty e.1)) empty_topics
                    >> reject_duplicates (topic_codes fl e.1))
                  (λ (e : (Entry fl fresh)). distinct (topic_codes fl e.1)) file.topics
                  (λ e passed.
                    distinct-ok (topic_codes fl e.1)
                      (both-ok (ensure (not (is_empty e.1)) empty_topics)
                        (reject_duplicates (topic_codes fl e.1)) passed).1)
                  e_entries);
        known =
            all-place_topics
              (contains (in_keys specializations_sync (place_specializations file.professions)))
              file.topics
              (all-check_each
                (λ (s : String).
                  ensure (contains (known_specializations fl file) s) unknown_specialization)
                (contains (in_keys specializations_sync (place_specializations file.professions)))
                (topic_keys fl file)
                (λ s passed.
                  ap (λ ks. contains ks s) placed
                  ∙ sym (contains-to_set (specialization_ids fl file.professions) s)
                  ∙ ensure-ok (contains (known_specializations fl file) s) unknown_specialization
                      passed)
                e_known);
        valid = AllValid-place_topics file.topics h_topics (ground arith);
      }

  module _ (laws : FloatLaws fl) (fresh_lem : (ks : List ℕ) → contains ks (fresh ks) ≡ false) where
    -- A file that passes the checks, and in which no two professions declare the same specialization,
    -- is loaded and committed, over any database that keeps its unique constraints: afterwards the
    -- tables hold exactly what the file says (professions, specializations and topics with their
    -- titles, places and marks, the subtopics and the weights of each topic, and no others), and the
    -- next run of the seed succeeds, counts no change and leaves the database as it is.
    pub seed_taxonomy_again :
        (file : TaxonomyFile fl) (s : Session fl)
        → check_file fl file ≡ ok tt
        → has_dicts file ≡ true
        → distinct (specialization_ids fl file.professions) ≡ true
        → IsConsistent fl fresh s.current
        → (db : Database fl) × (report : SyncReport) × (seed_taxonomy fl fresh file s
            ≡ (ok report, record { committed = db; current = db }))
          × HoldsFile fl fresh file db
          × (seed_taxonomy fl fresh file (record { committed = db; current = db })
              ≡ (ok new_report, record { committed = db; current = db }))
    unfolding seed_taxonomy
    seed_taxonomy_again file s h dicts once consistent =
        let loadable = check_file-IsLoadable file h dicts once in
        let (db, report, e, loaded, again) =
          sync_taxonomy_again fl fresh laws fresh_lem file loadable s.current consistent in
        (
          db,
          report,
          ap (λ r. commit_synced fl fresh r s) e,
          IsLoaded-HoldsFile fl fresh file loadable db loaded,
          ap (λ r. commit_synced fl fresh r (record { committed = db; current = db })) again,
        )
