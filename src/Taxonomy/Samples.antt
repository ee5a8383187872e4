-- ===== src/Taxonomy/Samples.antt =====
-- A taxonomy is loaded over a database that has another one.
use interview_trainer.Prelude.{
  ℕ, ◌+◌, ◌<◌, ◌≡◌, refl, arith, true, false, List, [], ◌∷◌, String, nat_eq, string_eq, ==_iff,
  contains, keep, distinct,
}
use interview_trainer.Prelude.Int.{ℤ, pos}
use interview_trainer.Exceptions.{ok}
use interview_trainer.Float.Fixed.{fixed, fixed_laws}
use interview_trainer.Seed.{
  check_file, SubtopicIn, TopicIn, SpecializationIn, ProfessionIn, TaxonomyFile,
}
use interview_trainer.Taxonomy.{
  seed_taxonomy, SyncReport, new_report, sync_taxonomy, sync_specializations,
}
use interview_trainer.TaxonomyRows.{weights_sync}
use interview_trainer.Taxonomy.Whole.{IsConsistent}
use interview_trainer.Taxonomy.Content.{HoldsFile}
use interview_trainer.Taxonomy.Losses.{has_progress, sync_specializations_lost}
use interview_trainer.Models.{Database}
use interview_trainer.Taxonomy.Checked.{seed_taxonomy_again}
use interview_trainer.Sample.{sample_session, sample_db}

-- a key above all that are in use
abbrev next_id : List ℕ → ℕ
next_id [] = 1
next_id (k ∷ ks) = k + next_id ks

next_id_pos : (ks : List ℕ) → 0 < next_id ks
next_id_pos [] = omega arith
next_id_pos (k ∷ ks) = omega (arith, next_id_pos ks)

lt-next_id : (ks : List ℕ) (k : ℕ) → contains ks k ≡ true → k < next_id ks
unfolding contains
lt-next_id [] k h = absurd (ground arith)
lt-next_id (j ∷ ks) k h = ground (arith, lt-next_id ks k, ==_iff j k, next_id_pos ks)

next_id-fresh : (ks : List ℕ) → contains ks (next_id ks) ≡ false
next_id-fresh ks = ground (arith, lt-next_id ks (next_id ks))

abbrev all_weights : List (String × ℤ)
all_weights =
    ("intern", pos 10)
    ∷ ("junior", pos 50)
    ∷ ("junior_plus", pos 60)
    ∷ ("middle", pos 100)
    ∷ ("middle_plus", pos 100)
    ∷ ("senior", pos 80)
    ∷ ("lead", pos 40)
    ∷ []

abbrev asyncio : TopicIn fixed
asyncio = record {
  code = "asyncio";
  title = "Asyncio";
  weights = all_weights;
  subtopics = record { code = "loop"; title = "Event loop" } ∷ [];
}

abbrev file : TaxonomyFile fixed
file = record {
  version = 1;
  professions =
      record {
        id = "backend";
        title = "Backend";
        specializations =
            record { id = "python"; title = "Python"; is_active = true }
            ∷ record { id = "go"; title = "Go"; is_active = false }
            ∷ [];
      }
      ∷ [];
  topics = ("python", asyncio ∷ []) ∷ [];
}

file_passes : check_file fixed file ≡ ok tt
unfolding check_file
file_passes = refl

sample_db-IsConsistent : IsConsistent fixed next_id sample_db
unfolding distinct keep interview_trainer.TaxonomyRows.specializations_sync
    interview_trainer.TaxonomyRows.topics_sync
sample_db-IsConsistent = record {
  professions_once = refl;
  specializations_once = refl;
  sound = record {
    ids_once = refl;
    topics_once = refl;
    subtopics_once = λ id. refl;
    weights_once = λ id. ground arith;
  };
}

seed_taxonomy_again_example :
    (db : Database fixed) × (report : SyncReport) × (seed_taxonomy fixed next_id file sample_session
      ≡ (ok report, record { committed = db; current = db }))
    × HoldsFile fixed next_id file db
    × (seed_taxonomy fixed next_id file (record { committed = db; current = db })
        ≡ (ok new_report, record { committed = db; current = db }))
unfolding interview_trainer.Taxonomy.Checked.has_dicts interview_trainer.Seed.specializations_of
seed_taxonomy_again_example =
    seed_taxonomy_again fixed next_id fixed_laws next_id-fresh file sample_session file_passes refl
      refl sample_db-IsConsistent

-- The file of the next month has no python.
abbrev go_only : TaxonomyFile fixed
go_only = record file {
  professions =
      record {
        id = "backend";
        title = "Backend";
        specializations = record { id = "go"; title = "Go"; is_active = false } ∷ [];
      }
      ∷ [];
  topics = [];
}

sync_specializations_lost_example :
    (db' : Database fixed) × (report' : SyncReport) × (sync_specializations fixed next_id go_only
        sample_db new_report
      ≡ ok (db', report'))
    × (has_progress fixed next_id "python" db' ≡ false)
unfolding distinct interview_trainer.Seed.specializations_of
sync_specializations_lost_example =
    sync_specializations_lost fixed next_id go_only sample_db new_report "python" refl refl refl
      refl
