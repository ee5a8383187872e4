-- ===== src/Taxonomy/Laws.antt =====
-- The five ways of synchronising a table (backend/app/services/taxonomy.py) obey the laws: a new row
-- is in line with its element, and `_apply` brings a row in line and keeps its key.
use interview_trainer.Prelude.{ℕ, refl, arith, List, ==_self, string_eq, nat_eq}
use interview_trainer.Float.{Float, FloatLaws}
use interview_trainer.Rows.Steps.{SyncLaws}
use interview_trainer.TaxonomyRows.{
  bool_eq, pair_eq, professions_sync, specializations_sync, topics_sync, subtopics_sync,
  weights_sync,
}

pub professions_laws : SyncLaws professions_sync
unfolding professions_sync
professions_laws = record {
  mine-make = λ i rows. refl;
  key-make = λ i rows. refl;
  mine-apply = λ i r. refl;
  key-apply = λ i r. ground arith;
  differs-make = λ i rows. ground (arith, ==_self i.0.title, ==_self i.1);
  differs-apply = λ i r. ground (arith, ==_self i.0.title, ==_self i.1);
  apply-same = λ i r h. ground arith;
}

pub specializations_laws : SyncLaws specializations_sync
unfolding specializations_sync
specializations_laws = record {
  mine-make = λ i rows. refl;
  key-make = λ i rows. refl;
  mine-apply = λ i r. refl;
  key-apply = λ i r. ground arith;
  differs-make =
      λ i rows. ground (arith, ==_self i.0, ==_self i.1.title, ==_self i.1.is_active, ==_self i.2);
  differs-apply =
      λ i r. ground (arith, ==_self i.0, ==_self i.1.title, ==_self i.1.is_active, ==_self i.2);
  apply-same = λ i r h. ground arith;
}

module _ (fl : Float) (fresh : List ℕ → ℕ) where
  pub topics_laws : SyncLaws (topics_sync fl fresh)
  unfolding topics_sync
  topics_laws = record {
    mine-make = λ i rows. refl;
    key-make = λ i rows. refl;
    mine-apply = λ i r. refl;
    key-apply = λ i r. ground arith;
    differs-make = λ i rows. ground (arith, ==_self i.1.title, ==_self i.2);
    differs-apply = λ i r. ground (arith, ==_self i.1.title, ==_self i.2);
    apply-same = λ i r h. ground arith;
  }

  pub subtopics_laws : (topic : ℕ) → SyncLaws (subtopics_sync fl fresh topic)
  unfolding subtopics_sync
  subtopics_laws topic = record {
    mine-make = λ i rows. ==_self topic;
    key-make = λ i rows. refl;
    mine-apply = λ i r. ground arith;
    key-apply = λ i r. ground arith;
    differs-make = λ i rows. ground (arith, ==_self i.0.title, ==_self i.1);
    differs-apply = λ i r. ground (arith, ==_self i.0.title, ==_self i.1);
    apply-same = λ i r h. ground arith;
  }

  pub weights_laws : FloatLaws fl → (topic : ℕ) → SyncLaws (weights_sync fl fresh topic)
  unfolding weights_sync
  weights_laws laws topic = record {
    mine-make = λ i rows. ==_self topic;
    key-make = λ i rows. refl;
    mine-apply = λ i r. ground arith;
    key-apply = λ i r. ground arith;
    differs-make = λ i rows. ground (arith, laws.le_refl i.1);
    differs-apply = λ i r. ground (arith, laws.le_refl i.1);
    apply-same = λ i r h. ground arith;
  }
