-- ===== src/Seed/Unique.antt =====
-- What `reject_duplicates` accepts (backend/app/seed/schema.py).
use Prim.Native.String.{compare}
use text.Mathlib.Text.{is_lt}
use interview_trainer.Prelude.{
  ◌≡◌, refl, ap, ◌∙◌, arith, Bool, true, false, not, ◌&&◌, List, [], ◌∷◌, ◌++◌, String, ==_iff,
  string_eq, if◌then◌else◌, all, contains, distinct, insert_by, sort_by,
}
use interview_trainer.Exceptions.{ok, ensure}
use interview_trainer.Seed.{
  duplicate_values, duplicates_from, is_empty, reject_duplicates, to_set, sorted, TaxonomyFile,
  known_specializations, specialization_ids,
}
use interview_trainer.Float.{Float}

abbrev unseen : List String → List String → Bool
unseen seen values = all (λ v. not (contains seen v)) values

unseen-cons :
    (x : String) (seen values : List String)
    → unseen (x ∷ seen) values ≡ (not (contains values x) && unseen seen values)
unfolding all contains
unseen-cons x seen [] = refl
unseen-cons x seen (v ∷ values) = ground (arith, unseen-cons x seen values, ==_iff x v, ==_iff v x)

append_is_full : (ds : List String) (d : String) → is_empty (ds ++ d ∷ []) ≡ false
append_is_full [] d = refl
append_is_full (x ∷ ds) d = refl

duplicates_stay :
    (values seen ds : List String)
    → is_empty ds ≡ false
    → is_empty (duplicates_from values seen ds) ≡ false
unfolding duplicates_from
duplicates_stay [] seen ds h = h
duplicates_stay (v ∷ values) seen ds h =
    duplicates_stay values (v ∷ seen)
      (if contains seen v && not (contains ds v) then ds ++ v ∷ [] else ds)
      (ground (arith, append_is_full ds v))

duplicates_from_lem :
    (values seen : List String)
    → is_empty (duplicates_from values seen []) ≡ (unseen seen values && distinct values)
unfolding duplicates_from all distinct contains
duplicates_from_lem [] seen = refl
duplicates_from_lem (v ∷ values) seen = ground (
  arith,
  duplicates_from_lem values (v ∷ seen),
  duplicates_stay values (v ∷ seen) (v ∷ []),
  unseen-cons v seen values,
)

all-true : (values : List String) → unseen [] values ≡ true
unfolding all contains
all-true [] = refl
all-true (v ∷ values) = all-true values

-- A list passes exactly if no value stands in it twice.
pub reject_duplicates_lem :
    (values : List String) → reject_duplicates values ≡ ensure (distinct values) duplicate_values
unfolding reject_duplicates
reject_duplicates_lem values =
    ap (λ b. ensure b duplicate_values)
      (duplicates_from_lem values [] ∙ ground (arith, all-true values))

distinct-to_set : (xs : List String) → distinct (to_set xs) ≡ true
unfolding to_set distinct
distinct-to_set [] = refl
distinct-to_set (x ∷ xs) = ground (arith, distinct-to_set xs)

pub contains-to_set : (xs : List String) (a : String) → contains (to_set xs) a ≡ contains xs a
unfolding to_set contains
contains-to_set [] a = refl
contains-to_set (x ∷ xs) a = ground (arith, contains-to_set xs a, contains-to_set xs x, ==_iff x a)

module _ (before : String → String → Bool) where
  contains-insert_by :
      (x : String) (xs : List String) (a : String)
      → contains (insert_by before x xs) a ≡ contains (x ∷ xs) a
  unfolding insert_by contains
  contains-insert_by x [] a = refl
  contains-insert_by x (y ∷ ys) a = ground (arith, contains-insert_by x ys a)

  distinct-insert_by :
      (x : String) (xs : List String) → distinct (insert_by before x xs) ≡ distinct (x ∷ xs)
  unfolding insert_by distinct contains
  distinct-insert_by x [] = refl
  distinct-insert_by x (y ∷ ys) =
      ground (arith, distinct-insert_by x ys, contains-insert_by x ys y, ==_iff x y, ==_iff y x)

  contains-sort_by :
      (xs : List String) (a : String) → contains (sort_by before xs) a ≡ contains xs a
  unfolding sort_by contains
  contains-sort_by [] a = refl
  contains-sort_by (x ∷ xs) a =
      ground (arith, contains-insert_by x (sort_by before xs) a, contains-sort_by xs a)

  distinct-sort_by : (xs : List String) → distinct (sort_by before xs) ≡ distinct xs
  unfolding sort_by distinct
  distinct-sort_by [] = refl
  distinct-sort_by (x ∷ xs) =
      ground (
        arith,
        distinct-insert_by x (sort_by before xs),
        contains-sort_by xs x,
        distinct-sort_by xs,
      )

module _ (fl : Float) where
  -- The check of the ids of the specializations passes whatever the file is, since it reads a set:
  -- an id that two professions declare is not refused.
  pub reject_duplicates-known_specializations :
      (file : TaxonomyFile fl) → reject_duplicates (sorted (known_specializations fl file)) ≡ ok tt
  unfolding sorted known_specializations
  reject_duplicates-known_specializations file =
      let ids = specialization_ids fl file.professions in
      reject_duplicates_lem (sorted (to_set ids))
      ∙ ap (λ b. ensure b duplicate_values)
          (distinct-sort_by (λ x y. is_lt (compare x y)) (to_set ids) ∙ distinct-to_set ids)
