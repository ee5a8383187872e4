-- ===== src/Taxonomy/Topics/Ids.antt =====
-- The keys of the topics in the database: a new topic has a new one, so the rows of two topics of the
-- file have different ones.
use interview_trainer.Prelude.{
  ℕ, ◌≡◌, refl, sym, ap, ◌∙◌, arith, Bool, true, false, List, [], ◌∷◌, ◌++◌, some, String, ◌==◌,
  ==_iff, ==_self, string_eq, nat_eq, find, any, contains, distinct, map, Option-cases, Bool-cases,
  inl, inr,
}
use interview_trainer.Exceptions.{Result, ok, err}
use interview_trainer.Session.{update}
use interview_trainer.Float.{Float}
use interview_trainer.Models.{Topic}
use interview_trainer.Rows.{SeedError, EntityStats, has, popped, sync_one}
use interview_trainer.Rows.Steps.{distinct-append}
use interview_trainer.TaxonomyRows.{pair_eq, PlacedTopic, topics_sync}

module _ (fl : Float) (fresh : List ℕ → ℕ) where
  abbrev pub ids : List Topic → List ℕ
  ids topics = map (λ (t : Topic). t.id) topics

  ids-update :
      (p : Topic → Bool) (i : PlacedTopic fl fresh) (topics : List Topic)
      → ids (update p ((topics_sync fl fresh).apply i) topics) ≡ ids topics
  unfolding update topics_sync
  ids-update p i [] = refl
  ids-update p i (t ∷ ts) = ground (arith, ids-update p i ts)

  ids-append : (topics : List Topic) (t : Topic) → ids (topics ++ t ∷ []) ≡ ids topics ++ t.id ∷ []
  ids-append [] t = refl
  ids-append (x ∷ xs) t = ap (λ ys. x.id ∷ ys) (ids-append xs t)

  -- the table after a turn, none after an error
  abbrev table_of : Result SeedError (Topic × List Topic × EntityStats) → List Topic
  table_of (ok t) = t.1
  table_of (err _) = []

  pub contains-ids :
      (p : Topic → Bool) (topics : List Topic) (a : Topic)
      → find p topics ≡ some a
      → contains (ids topics) a.id ≡ true
  unfolding find contains
  contains-ids p [] a h = cc
  contains-ids p (t ∷ ts) a h = ground (arith, contains-ids p ts a, ==_self a.id)

  -- The rows of different keys have different ids.
  pub ids_apart :
      (k l : String × String) (topics : List Topic) (a b : Topic)
      → distinct (ids topics) ≡ true
      → find (has (topics_sync fl fresh) k) topics ≡ some a
      → find (has (topics_sync fl fresh) l) topics ≡ some b
      → (k == l) ≡ false
      → (a.id == b.id) ≡ false
  unfolding find distinct
  ids_apart k l [] a b u h e n = cc
  ids_apart k l (t ∷ ts) a b u h e n = ground (
    arith,
    ids_apart k l ts a b,
    contains-ids (has (topics_sync fl fresh) k) ts a,
    contains-ids (has (topics_sync fl fresh) l) ts b,
    ==_iff ((topics_sync fl fresh).row_key t) k,
    ==_iff ((topics_sync fl fresh).row_key t) l,
    ==_iff k l,
    ==_iff a.id b.id,
  )

  module _ (fresh_lem : (ks : List ℕ) → contains ks (fresh ks) ≡ false) where
    distinct-make :
        (i : PlacedTopic fl fresh) (topics : List Topic)
        → distinct (ids topics) ≡ true
        → distinct (ids (topics ++ (topics_sync fl fresh).make i topics ∷ [])) ≡ true
    unfolding topics_sync
    distinct-make i topics u =
        rw (ids-append topics ((topics_sync fl fresh).make i topics))
          (distinct-append (ids topics) (fresh (ids topics)) u (fresh_lem (ids topics)))

    distinct-table_of :
        (i : PlacedTopic fl fresh) (existing : List (String × String)) (topics : List Topic)
        (stats : EntityStats)
        → distinct (ids topics) ≡ true
        → distinct (ids (table_of (sync_one (topics_sync fl fresh) i existing topics stats))) ≡ true
    unfolding sync_one distinct
    distinct-table_of i existing topics stats u =
        let key = (topics_sync fl fresh).in_key i in
        elim (Option-cases (popped (topics_sync fl fresh) key existing topics)) [
          | inl none_left ↦ elim (Bool-cases (any (has (topics_sync fl fresh) key) topics)) [
            | inl taken ↦ ground arith
            | inr free ↦ ground (arith, distinct-make i topics u)
          ]
          | inr (r, found) ↦ ground (arith, ids-update (has (topics_sync fl fresh) key) i topics)
        ]

    pub sync_one-ids :
        (i : PlacedTopic fl fresh) (existing : List (String × String)) (topics topics' : List Topic)
        (r : Topic) (stats stats' : EntityStats)
        → sync_one (topics_sync fl fresh) i existing topics stats ≡ ok (r, topics', stats')
        → distinct (ids topics) ≡ true
        → distinct (ids topics') ≡ true
    sync_one-ids i existing topics topics' r stats stats' h u =
        ap (λ t. distinct (ids (table_of t))) (sym h) ∙ distinct-table_of i existing topics stats u
