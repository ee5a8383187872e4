-- ===== src/Seed.antt =====
-- backend/app/seed/schema.py: the file content/taxonomy.yaml and the checks of its models. What
-- pydantic checks of a single field (patterns, lengths, `min_length=1`) is left to it, and an error
-- is its cause, without the text. A `dict` is the list of its items, in order.
pub mod Questions
pub mod Unique
pub mod Sets
pub mod Accepted
mod Samples
use text.Mathlib.Text.{is_lt}
use Prim.Native.String.{compare}
use interview_trainer.Prelude.{
  ℕ, Bool, true, false, not, ◌&&◌, List, [], ◌∷◌, ◌++◌, Option, none, some, String, if◌then◌else◌,
  ◌==◌, string_eq, keep, contains, map, lookup, sort_by,
}
use interview_trainer.Exceptions.{Result, ok, err, ensure, require, ◌>>=◌, ◌>>◌}
use interview_trainer.Grades.{grade_values, all_grades}
use interview_trainer.Float.{Float}

-- The ValueErrors of the checks, and the KeyError of an unknown code of a grade.
pub data Invalid : Type 0 where
  missing_grades unknown_grades weight_range duplicate_values : Invalid
  unknown_specialization empty_topics no_topics : Invalid
  unknown_grade grade_order options_not_allowed too_few_options wrong_correct : Invalid
  missing_levels unknown_topic unknown_subtopic key_error : Invalid

-- `for x in xs: …` whose body only raises
unfoldable pub check_each :
    {A : Type 0} → (A → Result Invalid (Unit {0})) → List A → Result Invalid (Unit {0})
check_each f [] = ok tt
check_each f (x ∷ xs) = f x >> check_each f xs

-- the loop of `reject_duplicates`: what is in `duplicates` at the end
unfoldable pub duplicates_from : List String → List String → List String → List String
unfolding contains
duplicates_from [] seen duplicates = duplicates
duplicates_from (value ∷ values) seen duplicates = duplicates_from values (value ∷ seen) (
    if contains seen value && not (contains duplicates value)
    then duplicates ++ value ∷ []
    else duplicates)

abbrev pub is_empty {ℓ} : {A : Type ℓ} → List A → Bool
is_empty [] = true
is_empty (_ ∷ _) = false

unfoldable pub reject_duplicates : List String → Result Invalid (Unit {0})
unfolding duplicates_from
reject_duplicates values = ensure (is_empty (duplicates_from values [] [])) duplicate_values

-- `set(xs)`
unfoldable pub to_set : List String → List String
unfolding contains
to_set [] = []
to_set (x ∷ xs) = let rest = to_set xs in if contains rest x then rest else x ∷ rest

-- `sorted` of texts
unfoldable pub sorted : List String → List String
unfolding sort_by
sorted = sort_by (λ x y. is_lt (compare x y))

-- `a - b` of sets
abbrev pub difference : List String → List String → List String
difference xs ys = keep (λ x. not (contains ys x)) xs

pub record SubtopicIn : Type 0 where
  pub code : String
  pub title : String

pub record SpecializationIn : Type 0 where
  pub id : String
  pub title : String
  pub is_active : Bool

pub record ProfessionIn : Type 0 where
  pub id : String
  pub title : String
  pub specializations : List SpecializationIn

unfoldable pub check_specializations : ProfessionIn → Result Invalid (Unit {0})
unfolding reject_duplicates
check_specializations p = reject_duplicates (map (λ (s : SpecializationIn). s.id) p.specializations)

abbrev pub grade_names : List String
grade_names = map (λ e. e.0) grade_values

module _ (fl : Float) where
  open fl use {F, hundredths, le}

  pub record TopicIn : Type 0 where
    pub code : String
    pub title : String
    pub weights : List (String × F)
    pub subtopics : List SubtopicIn

  abbrev pub weight_codes : TopicIn → List String
  weight_codes topic = map (λ e. e.0) topic.weights

  -- `check_weights_and_subtopics`
  unfoldable pub check_topic : TopicIn → Result Invalid (Unit {0})
  unfolding keep contains check_each reject_duplicates
  check_topic topic =
      ensure (is_empty (difference grade_names (weight_codes topic))) missing_grades
      >> ensure (is_empty (difference (weight_codes topic) grade_names)) unknown_grades
      >> check_each
          (λ (e : String × F).
            ensure (le (hundredths 0) e.1 && le e.1 (hundredths 100)) weight_range)
          topic.weights
      >> reject_duplicates (map (λ (s : SubtopicIn). s.code) topic.subtopics)

  -- the items of the dict, and the KeyError of `GRADE_VALUES[code]`
  unfoldable pub weights_from : List (String × F) → Result Invalid (List (ℕ × F))
  unfolding lookup
  weights_from [] = ok []
  weights_from ((code, weight) ∷ rest) =
      require (lookup code grade_values) key_error >>= λ (grade : ℕ).
      weights_from rest >>= λ (ws : List (ℕ × F)). ok ((grade, weight) ∷ ws)

  unfoldable pub weights_by_grade : TopicIn → Result Invalid (List (ℕ × F))
  unfolding weights_from
  weights_by_grade topic = weights_from topic.weights

  pub record TaxonomyFile : Type 0 where
    pub version : ℕ
    pub professions : List ProfessionIn
    pub topics : List (String × List TopicIn)

  -- `for profession in professions for spec in profession.specializations`
  unfoldable pub specializations_of : List ProfessionIn → List SpecializationIn
  specializations_of [] = []
  specializations_of (p ∷ ps) = p.specializations ++ specializations_of ps

  abbrev pub specialization_ids : List ProfessionIn → List String
  specialization_ids ps = map (λ (s : SpecializationIn). s.id) (specializations_of ps)

  unfoldable pub known_specializations : TaxonomyFile → List String
  unfolding specializations_of to_set
  known_specializations file = to_set (specialization_ids file.professions)

  unfoldable pub active_specializations : TaxonomyFile → List String
  unfolding specializations_of keep
  active_specializations file =
      map (λ (s : SpecializationIn). s.id)
        (keep (λ (s : SpecializationIn). s.is_active) (specializations_of file.professions))

  abbrev pub topic_keys : TaxonomyFile → List String
  topic_keys file = map (λ e. e.0) file.topics

  abbrev pub topic_codes : List TopicIn → List String
  topic_codes topics = map (λ (t : TopicIn). t.code) topics

  unfoldable pub check_cross_references : TaxonomyFile → Result Invalid (Unit {0})
  unfolding reject_duplicates known_specializations active_specializations sorted check_each
      contains
  check_cross_references file =
      reject_duplicates (map (λ (p : ProfessionIn). p.id) file.professions)
      >> reject_duplicates (sorted (known_specializations file))
      >> check_each
          (λ (s : String). ensure (contains (known_specializations file) s) unknown_specialization)
          (topic_keys file)
      >> check_each
          (λ (e : String × List TopicIn).
            ensure (not (is_empty e.1)) empty_topics >> reject_duplicates (topic_codes e.1))
          file.topics
      >> check_each (λ (s : String). ensure (contains (topic_keys file) s) no_topics)
          (active_specializations file)

  -- What pydantic runs: the checks of the parts, then those of the whole.
  unfoldable pub check_file : TaxonomyFile → Result Invalid (Unit {0})
  unfolding check_each check_specializations check_topic check_cross_references
  check_file file =
      check_each check_specializations file.professions
      >> check_each (λ (e : String × List TopicIn). check_each check_topic e.1) file.topics
      >> check_cross_references file
