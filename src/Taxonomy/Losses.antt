-- ===== src/Taxonomy/Losses.antt =====
-- What goes with a specialization that the file no longer has (`_sync_specializations`).
use interview_trainer.Prelude.{
  ℕ, ◌+◌, ◌≡◌, refl, sym, ap, ◌∙◌, arith, Bool, true, false, not, ◌||◌, List, [], ◌∷◌, ◌++◌, String,
  ◌==◌, ==_iff, string_eq, nat_eq, keep, any, contains, distinct, map,
}
use interview_trainer.Exceptions.{ok}
use interview_trainer.Float.{Float}
use interview_trainer.Models.{
  Database, Specialization, UserAnswer, UserTopicRating, UserSpecialization, StudyPlan,
}
use interview_trainer.Seed.{TaxonomyFile, ProfessionIn, SpecializationIn, specializations_of}
use interview_trainer.Rows.{keys_of}
use interview_trainer.Rows.Steps.{contains-keys_of}
use interview_trainer.Rows.Agreement.{in_keys, sync_rows_lem}
use interview_trainer.Taxonomy.{
  SyncReport, specialization_ids, cascade_specializations, cascade_topics, sync_specializations,
}
use interview_trainer.TaxonomyRows.{
  Placed, enumerate, enumerate_from, place_specializations, specializations_sync, gone,
}
use interview_trainer.Taxonomy.Cascade.{keep-true}
use interview_trainer.Taxonomy.Laws.{specializations_laws}

pub map-append {ℓ κ} :
    {A : Type ℓ} {B : Type κ} (f : A → B) (xs ys : List A) → map f (xs ++ ys) ≡ map f xs ++ map f ys
map-append f [] ys = refl
map-append f (x ∷ xs) ys = ap (λ zs. f x ∷ zs) (map-append f xs ys)

placed_ids :
    (p : String) (n : ℕ) (xs : List SpecializationIn)
    → map
        (λ (i : Placed). i.1.id)
        (map (λ (e : SpecializationIn × ℕ). (p, e.0, e.1)) (enumerate_from n xs))
      ≡ map (λ (s : SpecializationIn). s.id) xs
unfolding enumerate_from
placed_ids p n [] = refl
placed_ids p n (x ∷ xs) = ap (λ ys. x.id ∷ ys) (placed_ids p (n + 1) xs)

module _ (fl : Float) (fresh : List ℕ → ℕ) where
  pub in_keys-place_specializations :
      (ps : List ProfessionIn)
      → in_keys specializations_sync (place_specializations ps)
        ≡ map (λ (s : SpecializationIn). s.id) (specializations_of fl ps)
  unfolding specializations_sync place_specializations specializations_of
  in_keys-place_specializations [] = refl
  in_keys-place_specializations (p ∷ ps) =
      map-append (λ (i : Placed). i.1.id)
        (map (λ (e : SpecializationIn × ℕ). (p.id, e.0, e.1)) (enumerate p.specializations))
        (place_specializations ps)
      ∙ rw (placed_ids p.id 0 p.specializations, in_keys-place_specializations ps)
          (sym (
            map-append (λ (s : SpecializationIn). s.id) p.specializations
              (specializations_of fl ps)))

  all_mine :
      (rows : List Specialization)
      → keys_of specializations_sync rows ≡ map (λ (r : Specialization). r.id) rows
  unfolding specializations_sync
  all_mine rows = ap (map (λ (r : Specialization). r.id)) (keep-true (λ _. true) rows (λ _. refl))

  contains-gone-true :
      (before after : List String) (s : String)
      → contains before s ≡ true
      → contains after s ≡ false
      → contains (gone before after) s ≡ true
  unfolding keep contains
  contains-gone-true [] after s h n = h
  contains-gone-true (x ∷ xs) after s h n =
      ground (arith, contains-gone-true xs after s, ==_iff x s)

  none_of :
      {A : Type 0} (of : A → String) (g : List String) (s : String) (xs : List A)
      → contains g s ≡ true
      → any (λ x. of x == s) (keep (λ x. not (contains g (of x))) xs) ≡ false
  unfolding any keep
  none_of of g s [] h = refl
  none_of of g s (x ∷ xs) h =
      let same : of x == s ≡ true → contains g (of x) ≡ true =
        λ e. ap (contains g) ((==_iff (of x) s).0 e) ∙ h in
      ground (arith, none_of of g s xs h, same)

  -- the user's rows of a specialization
  unfoldable pub has_progress : String → Database fl → Bool
  unfolding any
  has_progress s db =
      any (λ (r : UserAnswer fl). r.specialization_id == s) db.user_answers
      || any (λ (r : UserTopicRating fl). r.specialization_id == s) db.user_topic_ratings
      || any (λ (r : UserSpecialization). r.specialization_id == s) db.user_specializations
      || any (λ (r : StudyPlan). r.specialization_id == s) db.study_plans

  -- When the file no longer has a specialization that the database has, and neither has an id
  -- of a specialization twice, the synchronisation of the specializations succeeds and deletes
  -- every answer, rating, profile and plan that users have in it, whatever these are.
  pub sync_specializations_lost :
      (file : TaxonomyFile fl) (db : Database fl) (report : SyncReport) (s : String)
      → distinct (specialization_ids fl fresh db) ≡ true
      → distinct (map (λ (x : SpecializationIn). x.id) (specializations_of fl file.professions))
        ≡ true
      → contains (specialization_ids fl fresh db) s ≡ true
      → contains (map (λ (x : SpecializationIn). x.id) (specializations_of fl file.professions)) s
        ≡ false
      → (db' : Database fl) × (report' : SyncReport) × (sync_specializations fl fresh file db report
          ≡ ok (db', report'))
        × (has_progress s db' ≡ false)
  unfolding sync_specializations cascade_specializations cascade_topics has_progress
  sync_specializations_lost file db report s once distinct_file here absent =
      let placed = place_specializations file.professions in
      let (rows, stats, e, aligned, kept) =
        sync_rows_lem specializations_sync specializations_laws placed db.specializations
          report.specializations
          (ap distinct (in_keys-place_specializations file.professions) ∙ distinct_file)
          (ap distinct (all_mine db.specializations) ∙ once) in
      let after = record db { specializations = rows } in
      let g = gone (specialization_ids fl fresh db) (specialization_ids fl fresh after) in
      let away =
        ap (λ ks. contains ks s) (sym (all_mine rows))
        ∙ contains-keys_of specializations_sync rows s
        ∙ aligned.domain s
        ∙ ap (λ ks. contains ks s) (in_keys-place_specializations file.professions)
        ∙ absent in
      let lost =
        contains-gone-true (specialization_ids fl fresh db) (specialization_ids fl fresh after) s
          here away in
      (
        cascade_specializations fl fresh g after,
        record report { specializations = stats },
        rw (e) refl,
        rw
            (
              none_of (λ (r : UserAnswer fl). r.specialization_id) g s db.user_answers lost,
              none_of (λ (r : UserTopicRating fl). r.specialization_id) g s db.user_topic_ratings
                  lost,
              none_of (λ (r : UserSpecialization). r.specialization_id) g s db.user_specializations
                  lost,
              none_of (λ (r : StudyPlan). r.specialization_id) g s db.study_plans lost,
            )
            refl,
      )
