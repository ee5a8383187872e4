-- ===== src/Taxonomy/Content.antt =====
-- The tables of the taxonomy hold a file (backend/app/services/taxonomy.py): what that means, column by
-- column.
use interview_trainer.Prelude.{
  ℕ, ◌≡◌, ◌∙◌, arith, true, false, find, List, [], ◌∷◌, some, String, ◌==◌, ==_iff, string_eq,
  nat_eq, lookup,
}
use interview_trainer.Exceptions.{ok}
use interview_trainer.Float.{Float, same}
use interview_trainer.Grades.{grade_values}
use interview_trainer.Models.{Database, Profession, Specialization, Topic, Subtopic, TopicWeight}
use interview_trainer.Seed.{
  SubtopicIn, TopicIn, ProfessionIn, TaxonomyFile, weights_from, weights_by_grade,
}
use interview_trainer.Rows.Steps.{any-is_some-find}
use interview_trainer.Rows.{has}
use interview_trainer.Rows.Content.{Each, Holds, IsAligned-Holds}
use interview_trainer.TaxonomyRows.{
  bool_eq, pair_eq, Placed, PlacedTopic, enumerate, place_specializations, place_topics,
  professions_sync, specializations_sync, topics_sync, subtopics_sync, weights_sync,
}
use interview_trainer.Taxonomy.Topics.{IsValid, IsDone}
use interview_trainer.Taxonomy.Topics.Loop.{AllValid, AllDone}
use interview_trainer.Taxonomy.Topics.Rest.{IsTree}
use interview_trainer.Taxonomy.Whole.{IsLoadable, IsLoaded}
use interview_trainer.Taxonomy.Checked.Weights.{weights_from-cons}

-- the title and the place of a profession
abbrev pub SameProfession : ProfessionIn × ℕ → Profession → Type 0
SameProfession i r = (r.title ≡ i.0.title) × (r.sort_order ≡ i.1)

abbrev pub SameSpecialization : Placed → Specialization → Type 0
SameSpecialization i r =
    (r.profession_id ≡ i.0)
    × (r.title ≡ i.1.title)
    × (r.is_active ≡ i.1.is_active)
    × (r.sort_order ≡ i.2)

abbrev pub SameSubtopic : SubtopicIn × ℕ → Subtopic → Type 0
SameSubtopic i r = (r.title ≡ i.0.title) × (r.sort_order ≡ i.1)

module _ (fl : Float) (fresh : List ℕ → ℕ) where
  open fl use {F}

  -- the weights of a file, by the values of their grades
  abbrev pub SameWeights : List (String × F) → List (ℕ × F) → Type 0
  SameWeights [] [] = Unit {0}
  SameWeights [] (_ ∷ _) = ⊥
  SameWeights (_ ∷ _) [] = ⊥
  SameWeights (w ∷ ws) (g ∷ gs) =
      (lookup w.0 grade_values ≡ some g.0) × (g.1 ≡ w.1) × SameWeights ws gs

  abbrev pub SameWeight : ℕ × F → TopicWeight fl → Type 0
  SameWeight i r = same fl r.weight i.1 ≡ true

  -- A topic: its title and place, its subtopics, and its weights.
  abbrev pub SameTopic : Database fl → PlacedTopic fl fresh → Topic → Type 0
  SameTopic db i r =
      (r.title ≡ i.1.title)
      × (r.sort_order ≡ i.2)
      × Holds (λ (s : Subtopic). s.topic_id == r.id) (λ s. s.code)
          (λ (e : SubtopicIn × ℕ). e.0.code) SameSubtopic (enumerate i.1.subtopics) db.subtopics
      × ((gs : List (ℕ × F)) × SameWeights i.1.weights gs
          × Holds (λ (w : TopicWeight fl). w.topic_id == r.id) (λ w. w.grade) (λ (e : ℕ × F). e.0)
              SameWeight gs db.topic_weights)

  -- The tables hold the file: every profession, specialization, topic, subtopic and weight of it,
  -- under its key and with the values of the file, and no others.
  pub record HoldsFile (file : TaxonomyFile fl) (db : Database fl) : Type 0 where
    pub professions :
        Holds
          (λ (_ : Profession). true)
          (λ r. r.id)
          (λ (i : ProfessionIn × ℕ). i.0.id)
          SameProfession
          (enumerate file.professions)
          db.professions
    pub specializations :
        Holds
          (λ (_ : Specialization). true)
          (λ r. r.id)
          (λ (i : Placed). i.1.id)
          SameSpecialization
          (place_specializations file.professions)
          db.specializations
    pub topics :
        Holds {K = String × String}
          (λ (_ : Topic). true)
          (λ r. (r.specialization_id, r.code))
          (λ (i : PlacedTopic fl fresh). (i.0, i.1.code))
          (SameTopic db)
          (place_topics fl fresh file.topics)
          db.topics

  weights_from-SameWeights :
      (ws : List (String × F)) (gs : List (ℕ × F)) → weights_from fl ws ≡ ok gs → SameWeights ws gs
  unfolding weights_from
  weights_from-SameWeights [] [] h = tt
  weights_from-SameWeights [] (g ∷ gs) h = absurd (ground arith)
  weights_from-SameWeights (w ∷ ws) [] h =
      let (g, gs0, found, rest, all_gs) = weights_from-cons fl fresh w.0 w.1 ws [] h in
      absurd (ground arith)
  weights_from-SameWeights (w ∷ ws) (g ∷ gs) h =
      let (g0, gs0, found, rest, all_gs) = weights_from-cons fl fresh w.0 w.1 ws (g ∷ gs) h in
      let same_rest : gs ≡ gs0 = ground arith in
      (ground arith, ground arith, weights_from-SameWeights ws gs (rw same_rest rest))

  weights_by_grade-SameWeights :
      (t : TopicIn fl) (gs : List (ℕ × F))
      → weights_by_grade fl t ≡ ok gs
      → SameWeights t.weights gs
  unfolding weights_by_grade
  weights_by_grade-SameWeights t gs h = weights_from-SameWeights t.weights gs h

  subtopic_agrees :
      (topic : ℕ) (i : SubtopicIn × ℕ) (r : Subtopic)
      → (subtopics_sync fl fresh topic).differs i r ≡ false
      → SameSubtopic i r
  unfolding subtopics_sync
  subtopic_agrees topic i r h = ground (arith, ==_iff r.title i.0.title, ==_iff r.sort_order i.1)

  weight_agrees :
      (topic : ℕ) (i : ℕ × F) (r : TopicWeight fl)
      → (weights_sync fl fresh topic).differs i r ≡ false
      → SameWeight i r
  unfolding weights_sync
  weight_agrees topic i r h = ground arith

  IsDone-SameTopic :
      (i : PlacedTopic fl fresh) (v : IsValid fl fresh i.1) (row : Topic) (db : Database fl)
      → IsDone fl fresh i v row db
      → SameTopic db i row
  unfolding topics_sync subtopics_sync weights_sync
  IsDone-SameTopic i v row db done = (
    ground (arith, done.agrees, ==_iff row.title i.1.title, ==_iff row.sort_order i.2),
    ground (arith, done.agrees, ==_iff row.title i.1.title, ==_iff row.sort_order i.2),
    IsAligned-Holds (subtopics_sync fl fresh row.id) SameSubtopic (subtopic_agrees row.id)
        (enumerate i.1.subtopics) db.subtopics done.subtopics,
    (
      v.weights,
      weights_by_grade-SameWeights i.1 v.weights v.loaded,
      IsAligned-Holds (weights_sync fl fresh row.id) SameWeight (weight_agrees row.id) v.weights
          db.topic_weights done.weights,
    ),
  )

  AllDone-Each :
      (topics : List (PlacedTopic fl fresh)) (valid : AllValid fl fresh topics) (db : Database fl)
      → AllDone fl fresh topics valid db
      → Each
          (λ (i : PlacedTopic fl fresh).
            (r : Topic) × (find
                (has (topics_sync fl fresh) ((topics_sync fl fresh).in_key i))
                db.topics
              ≡ some r)
            × SameTopic db i r)
          topics
  AllDone-Each [] valid db done = tt
  AllDone-Each (i ∷ rest) valid db ((row, own), others) =
      ((row, own.found, IsDone-SameTopic i valid.0 row db own), AllDone-Each rest valid.1 db others)

  IsTree-Holds :
      (topics : List (PlacedTopic fl fresh)) (valid : AllValid fl fresh topics) (db : Database fl)
      → IsTree fl fresh topics valid db
      → Holds {K = String × String}
          (λ (_ : Topic). true)
          (λ r. (r.specialization_id, r.code))
          (λ (i : PlacedTopic fl fresh). (i.0, i.1.code))
          (SameTopic db)
          topics
          db.topics
  unfolding topics_sync
  IsTree-Holds topics valid db tree = record {
    each = AllDone-Each topics valid db tree.all_done;
    only = λ k. any-is_some-find (has (topics_sync fl fresh) k) db.topics ∙ tree.aligned.domain k;
    once = tree.aligned.once;
  }

  profession_agrees :
      (i : ProfessionIn × ℕ) (r : Profession)
      → professions_sync.differs i r ≡ false
      → SameProfession i r
  unfolding professions_sync
  profession_agrees i r h = ground (arith, ==_iff r.title i.0.title, ==_iff r.sort_order i.1)

  specialization_agrees :
      (i : Placed) (r : Specialization)
      → specializations_sync.differs i r ≡ false
      → SameSpecialization i r
  unfolding specializations_sync
  specialization_agrees i r h = ground (
    arith,
    ==_iff r.profession_id i.0,
    ==_iff r.title i.1.title,
    ==_iff r.is_active i.1.is_active,
    ==_iff r.sort_order i.2,
  )

  pub IsLoaded-HoldsFile :
      (file : TaxonomyFile fl) (loadable : IsLoadable fl fresh file) (db : Database fl)
      → IsLoaded fl fresh file loadable db
      → HoldsFile file db
  unfolding professions_sync specializations_sync
  IsLoaded-HoldsFile file loadable db loaded = record {
    professions =
        IsAligned-Holds professions_sync SameProfession profession_agrees
          (enumerate file.professions) db.professions loaded.professions;
    specializations =
        IsAligned-Holds specializations_sync SameSpecialization specialization_agrees
          (place_specializations file.professions) db.specializations loaded.specializations;
    topics = IsTree-Holds (place_topics fl fresh file.topics) loadable.valid db loaded.tree;
  }
