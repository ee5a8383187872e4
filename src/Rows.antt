-- ===== src/Rows.antt =====
-- Bringing the rows of a table in line with a list, as the services of the seed do it: five times
-- in backend/app/services/taxonomy.py, and for the options in backend/app/services/questions.py.
-- A dictionary `existing` from keys to loaded rows is the list of its keys: the row of a key is
-- read from the table, which holds what was written to it.
pub mod Steps
pub mod Agreement
pub mod Repeat
pub mod Apart
pub mod Content
use interview_trainer.Prelude.{
  ℕ, ◌+◌, Bool, true, false, not, ◌&&◌, ◌||◌, List, [], ◌∷◌, ◌++◌, Option, none, some, String,
  if◌then◌else◌, Comparable, ◌==◌, find, keep, any, contains, map, length,
}
use interview_trainer.Exceptions.{Result, ok, err, ◌>>=◌}
use interview_trainer.Session.{update}

-- Why a load of content fails: a constraint of the database, the KeyError of an unknown grade, or
-- the ValueError of a question without its specializations.
pub data SeedError : Type 0 where
  integrity_error : SeedError
  unknown_grade : SeedError
  missing_specializations : SeedError

pub record EntityStats : Type 0 where
  pub created : ℕ
  pub updated : ℕ
  pub deleted : ℕ

abbrev pub no_stats : EntityStats
no_stats = record { created = 0; updated = 0; deleted = 0 }

abbrev pub one_created : EntityStats → EntityStats
one_created s = record s { created = s.created + 1 }

abbrev pub one_updated : EntityStats → EntityStats
one_updated s = record s { updated = s.updated + 1 }

-- How one kind of row is brought in line: the rows that the query reads, the keys, the new row for
-- an element, what `_apply` writes, and whether it changes anything.
pub record Sync (K Row In : Type 0) : Type 0 where
  pub is_mine : Row → Bool
  pub row_key : Row → K
  pub in_key : In → K
  pub make : In → List Row → Row
  pub apply : In → Row → Row
  pub differs : In → Row → Bool

module _ {K Row In : Type 0} ⦃c : Comparable K⦄ (sync : Sync K Row In) where
  open sync use {is_mine, row_key, in_key, make, apply, differs}

  -- the row of a key
  abbrev pub has : K → Row → Bool
  has k r = is_mine r && row_key r == k

  -- `{row.key: row for row in …}`
  abbrev pub keys_of : List Row → List K
  keys_of rows = map row_key (keep is_mine rows)

  -- `existing.pop(key, None)`: the rest, and the row
  abbrev pub without : K → List K → List K
  without k existing = keep (λ j. not (j == k)) existing

  unfoldable pub popped : K → List K → List Row → Option Row
  unfolding find contains
  popped k existing rows = if contains existing k then find (has k) rows else none

  -- One turn of the loop: the row, the table and the counts.
  unfoldable pub sync_one :
      In → List K → List Row → EntityStats → Result SeedError (Row × List Row × EntityStats)
  unfolding popped any update
  sync_one i existing rows stats = elim (popped (in_key i) existing rows) [
    | none ↦
        if any (has (in_key i)) rows
        then err integrity_error
        else ok (make i rows, rows ++ make i rows ∷ [], one_created stats)
    | some r ↦ ok (
      apply i r,
      update (has (in_key i)) (apply i) rows,
      if differs i r then one_updated stats else stats,
    )
  ]

  -- The loop: what is left of `existing`, the table and the counts.
  unfoldable pub sync_each :
      List In → List K → List Row → EntityStats → Result SeedError (List K × List Row × EntityStats)
  unfolding sync_one
  sync_each [] existing rows stats = ok (existing, rows, stats)
  sync_each (i ∷ rest) existing rows stats =
      sync_one i existing rows stats >>= λ (t : Row × List Row × EntityStats).
      sync_each rest (without (in_key i) existing) t.1 t.2

  abbrev pub is_stale : List K → Row → Bool
  is_stale existing r = is_mine r && contains existing (row_key r)

  -- the loop over what is left
  unfoldable pub delete_stale : List K → List Row → EntityStats → List Row × EntityStats
  unfolding keep
  delete_stale existing rows stats = (
    keep (λ r. not (is_stale existing r)) rows,
    record stats { deleted = stats.deleted + length existing },
  )

  unfoldable pub sync_rows :
      List In → List Row → EntityStats → Result SeedError (List Row × EntityStats)
  unfolding sync_each delete_stale
  sync_rows incoming rows stats =
      sync_each incoming (keys_of rows) rows stats >>= λ (t : List K × List Row × EntityStats).
      ok (delete_stale t.0 t.1 t.2)
