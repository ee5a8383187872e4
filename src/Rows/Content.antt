-- ===== src/Rows/Content.antt =====
-- What the rows of a table say, read off the columns alone (for the loops of
-- backend/app/services/taxonomy.py and backend/app/services/questions.py).
use interview_trainer.Prelude.{
  ◌≡◌, ◌∙◌, arith, Bool, true, false, ◌&&◌, List, [], ◌∷◌, some, Comparable, ◌==◌, find, keep, all,
  any, contains, distinct, map, Option-cases, inl, inr,
}
use interview_trainer.Rows.{Sync, has}
use interview_trainer.Rows.Steps.{any-is_some-find}
use interview_trainer.Rows.Agreement.{in_line, IsAligned}

abbrev pub Each {ℓ} : {A : Type ℓ} → (A → Type 0) → List A → Type 0
Each P [] = Unit {0}
Each P (x ∷ xs) = P x × Each P xs

-- Among the rows that `mine` takes, the first with the key of an element is one that `Matches` it,
-- there is a row for no other key, and no key comes twice.
pub record Holds {K Row In : Type 0} ⦃c : Comparable K⦄ (mine : Row → Bool) (row_key : Row → K)
    (in_key : In → K) (Matches : In → Row → Type 0) (incoming : List In) (rows : List Row)
    : Type 0 where
  pub each :
      Each
        (λ i. (r : Row) × (find (λ x. mine x && row_key x == in_key i) rows ≡ some r) × Matches i r)
        incoming
  pub only : (k : K) → any (λ x. mine x && row_key x == k) rows ≡ contains (map in_key incoming) k
  pub once : distinct (map row_key (keep mine rows)) ≡ true

module _ {K Row In : Type 0} ⦃c : Comparable K⦄ (sync : Sync K Row In) (Matches : In → Row → Type 0)
    (agree : (i : In) (r : Row) → sync.differs i r ≡ false → Matches i r) where
  Each-in_line :
      (incoming : List In) (rows : List Row)
      → all (in_line sync rows) incoming ≡ true
      → Each
          (λ i. (r : Row) × (find (has sync (sync.in_key i)) rows ≡ some r) × Matches i r)
          incoming
  unfolding all in_line
  Each-in_line [] rows h = tt
  Each-in_line (i ∷ rest) rows h = (
    elim (Option-cases (find (has sync (sync.in_key i)) rows)) [
      | inl absent ↦ absurd (ground arith)
      | inr (r, found) ↦ (r, found, agree i r (ground arith))
    ],
    Each-in_line rest rows (ground arith),
  )

  pub IsAligned-Holds :
      (incoming : List In) (rows : List Row)
      → IsAligned sync incoming rows
      → Holds sync.is_mine sync.row_key sync.in_key Matches incoming rows
  IsAligned-Holds incoming rows aligned = record {
    each = Each-in_line incoming rows aligned.lined;
    only = λ k. any-is_some-find (has sync k) rows ∙ aligned.domain k;
    once = aligned.once;
  }
