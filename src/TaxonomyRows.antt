-- ===== src/TaxonomyRows.antt =====
-- The rows of the taxonomy (backend/app/services/taxonomy.py): for each of the five tables, which rows
-- the file speaks of, and what is written to them.
use Prim.Native.String.{String}
use interview_trainer.Prelude.{
  ℕ, ◌+◌, Bool, true, not, ◌&&◌, List, [], ◌∷◌, ◌++◌, ◌≡◌, ◌↔◌, if◌then◌else◌, arith, Comparable,
  ◌==◌, ==_iff, string_eq, nat_eq, keep, contains, map,
}
use interview_trainer.Float.{Float, same}
use interview_trainer.Models.{Profession, Specialization, Topic, Subtopic, TopicWeight}
use interview_trainer.Seed.{SubtopicIn, TopicIn, SpecializationIn, ProfessionIn}
use interview_trainer.Rows.{Sync}

-- `enumerate(xs)` from a number
unfoldable pub enumerate_from {ℓ} : {A : Type ℓ} → ℕ → List A → List (A × ℕ)
enumerate_from n [] = []
enumerate_from n (x ∷ xs) = (x, n) ∷ enumerate_from (n + 1) xs

abbrev pub enumerate {ℓ} : {A : Type ℓ} → List A → List (A × ℕ)
enumerate xs = enumerate_from 0 xs

pub pair_same_iff : (a b : String × String) → ((a.0 == b.0 && a.1 == b.1) ≡ true) ↔ (a ≡ b)
pair_same_iff a b = ground (arith, ==_iff a.0 b.0, ==_iff a.1 b.1)

pub bool_same_iff : (a b : Bool) → ((if a then b else not b) ≡ true) ↔ (a ≡ b)
bool_same_iff a b = ground arith

instance abbrev pub pair_eq : Comparable (String × String)
pair_eq = record { same = λ a b. a.0 == b.0 && a.1 == b.1; same_iff = pair_same_iff }

instance abbrev pub bool_eq : Comparable Bool
bool_eq = record { same = λ a b. if a then b else not b; same_iff = bool_same_iff }

-- `_apply`: only what differs is written.
abbrev pub profession_differs : ProfessionIn × ℕ → Profession → Bool
profession_differs i r = not (r.title == i.0.title && r.sort_order == i.1)

unfoldable pub professions_sync : Sync String Profession (ProfessionIn × ℕ)
professions_sync = record {
  is_mine = λ _. true;
  row_key = λ r. r.id;
  in_key = λ i. i.0.id;
  make = λ i _. record { id = i.0.id; title = i.0.title; sort_order = i.1 };
  apply =
      λ i r. if profession_differs i r then record r { title = i.0.title; sort_order = i.1 } else r;
  differs = profession_differs;
}

-- A specialization with its profession and its place.
abbrev pub Placed : Type 0
Placed = String × SpecializationIn × ℕ

unfoldable pub place_specializations : List ProfessionIn → List Placed
unfolding enumerate_from
place_specializations [] = []
place_specializations (p ∷ ps) =
    map (λ (e : SpecializationIn × ℕ). (p.id, e.0, e.1)) (enumerate p.specializations)
    ++ place_specializations ps

abbrev pub specialization_differs : Placed → Specialization → Bool
specialization_differs i r = not (
    r.profession_id == i.0
    && r.title == i.1.title
    && r.is_active == i.1.is_active
    && r.sort_order == i.2)

unfoldable pub specializations_sync : Sync String Specialization Placed
specializations_sync = record {
  is_mine = λ _. true;
  row_key = λ r. r.id;
  in_key = λ i. i.1.id;
  make = λ i _. record {
    id = i.1.id;
    profession_id = i.0;
    title = i.1.title;
    is_active = i.1.is_active;
    sort_order = i.2;
  };
  apply = λ i r.
      if specialization_differs i r
      then record r {
        profession_id = i.0;
        title = i.1.title;
        is_active = i.1.is_active;
        sort_order = i.2;
      }
      else r;
  differs = specialization_differs;
}

unfoldable pub visible_topics : Specialization → List Topic → List Topic
visible_topics s topics = if s.is_active then topics else []

-- The keys that were there and are not any more.
abbrev pub gone {ℓ} : {K : Type ℓ} → ⦃c : Comparable K⦄ → List K → List K → List K
gone before after = keep (λ k. not (contains after k)) before

module _ (fl : Float) (fresh : List ℕ → ℕ) where
  open fl use {F}

  -- A topic with its specialization and its place.
  abbrev pub PlacedTopic : Type 0
  PlacedTopic = String × TopicIn fl × ℕ

  unfoldable pub place_topics : List (String × List (TopicIn fl)) → List PlacedTopic
  unfolding enumerate_from
  place_topics [] = []
  place_topics (e ∷ es) =
      map (λ (t : TopicIn fl × ℕ). (e.0, t.0, t.1)) (enumerate e.1) ++ place_topics es

  abbrev pub topic_differs : PlacedTopic → Topic → Bool
  topic_differs i r = not (r.title == i.1.title && r.sort_order == i.2)

  unfoldable pub topics_sync : Sync (String × String) Topic PlacedTopic
  topics_sync = record {
    is_mine = λ _. true;
    row_key = λ r. (r.specialization_id, r.code);
    in_key = λ i. (i.0, i.1.code);
    make = λ i rows. record {
      id = fresh (map (λ (t : Topic). t.id) rows);
      specialization_id = i.0;
      code = i.1.code;
      title = i.1.title;
      sort_order = i.2;
    };
    apply =
        λ i r. if topic_differs i r then record r { title = i.1.title; sort_order = i.2 } else r;
    differs = topic_differs;
  }

  abbrev pub subtopic_differs : SubtopicIn × ℕ → Subtopic → Bool
  subtopic_differs i r = not (r.title == i.0.title && r.sort_order == i.1)

  unfoldable pub subtopics_sync : ℕ → Sync String Subtopic (SubtopicIn × ℕ)
  subtopics_sync topic = record {
    is_mine = λ r. r.topic_id == topic;
    row_key = λ r. r.code;
    in_key = λ i. i.0.code;
    make = λ i rows. record {
      id = fresh (map (λ (s : Subtopic). s.id) rows);
      topic_id = topic;
      code = i.0.code;
      title = i.0.title;
      sort_order = i.1;
    };
    apply =
        λ i r. if subtopic_differs i r then record r { title = i.0.title; sort_order = i.1 } else r;
    differs = subtopic_differs;
  }

  unfoldable pub weights_sync : ℕ → Sync ℕ (TopicWeight fl) (ℕ × F)
  weights_sync topic = record {
    is_mine = λ r. r.topic_id == topic;
    row_key = λ r. r.grade;
    in_key = λ i. i.0;
    make = λ i _. record { topic_id = topic; grade = i.0; weight = i.1 };
    apply = λ i r. if not (same fl r.weight i.1) then record r { weight = i.1 } else r;
    differs = λ i r. not (same fl r.weight i.1);
  }
