-- ===== src/Rows/Repeat.antt =====
-- A second run over rows in line with the list changes nothing.
use interview_trainer.Prelude.{
  ◌≡◌, refl, sym, ap, ◌∙◌, arith, Bool, true, false, List, [], ◌∷◌, none, some, Comparable, ==_iff,
  ==_self, find, keep, all, contains, distinct, Bool-cases, Option-cases, inl, inr,
}
use interview_trainer.Exceptions.{ok}
use interview_trainer.Session.{update}
use interview_trainer.Rows.{
  Sync, EntityStats, has, keys_of, without, popped, sync_one, sync_each, sync_rows, delete_stale,
}
use interview_trainer.Rows.Steps.{SyncLaws, contains-keys_of, contains-without}
use interview_trainer.Rows.Agreement.{in_line, in_keys, left, contains-left, IsAligned}

module _ {ℓ} {A : Type ℓ} where
  update_nothing : (p : A → Bool) (f : A → A) (xs : List A) → find p xs ≡ none → update p f xs ≡ xs
  unfolding update find
  update_nothing p f [] h = refl
  update_nothing p f (x ∷ xs) h = ground (arith, update_nothing p f xs)

  nothing-contained : ⦃c : Comparable A⦄ (xs : List A) → ((a : A) → contains xs a ≡ false) → xs ≡ []
  unfolding contains
  nothing-contained [] h = refl
  nothing-contained (x ∷ xs) h = ground (arith, h x, ==_self x)

module _ {K Row In : Type 0} ⦃c : Comparable K⦄ (sync : Sync K Row In) (laws : SyncLaws sync) where
  open sync use {in_key, differs, apply}

  -- a write of what is there already
  update-same :
      (i : In) (rows : List Row) (r : Row)
      → distinct (keys_of sync rows) ≡ true
      → find (has sync (in_key i)) rows ≡ some r
      → differs i r ≡ false
      → update (has sync (in_key i)) (apply i) rows ≡ rows
  unfolding update find distinct keep
  update-same i [] r u h e = refl
  update-same i (x ∷ rows) r u h e =
      let k = in_key i in
      elim (Bool-cases (has sync k x)) [
        | inl own ↦
            let at : sync.row_key x ≡ k = (==_iff (sync.row_key x) k).0 (ground arith) in
            let it : x ≡ r = ground arith in
            let fresh : contains (keys_of sync rows) k ≡ false =
              ap (contains (keys_of sync rows)) (sym at) ∙ ground arith in
            let same : differs i x ≡ false = ap (differs i) it ∙ e in
            ground (
              arith,
              laws.apply-same i x same,
              contains-keys_of sync rows k,
              update_nothing (has sync k) (apply i) rows,
            )
        | inr other ↦ ground (arith, update-same i rows r)
      ]

  pub sync_one-same :
      (i : In) (existing : List K) (rows : List Row) (stats : EntityStats) (r : Row)
      → distinct (keys_of sync rows) ≡ true
      → find (has sync (in_key i)) rows ≡ some r
      → differs i r ≡ false
      → contains existing (in_key i) ≡ true
      → sync_one sync i existing rows stats ≡ ok (r, rows, stats)
  unfolding sync_one popped
  sync_one-same i existing rows stats r u found same known =
      ground (arith, update-same i rows r u found same, laws.apply-same i r same)

  pub line_row :
      (rows : List Row) (i : In)
      → in_line sync rows i ≡ true
      → (r : Row) × (find (has sync (in_key i)) rows ≡ some r) × (differs i r ≡ false)
  unfolding in_line
  line_row rows i l = elim (Option-cases (find (has sync (in_key i)) rows)) [
    | inl absent ↦ absurd (ground arith)
    | inr (r, found) ↦ (r, found, ground arith)
  ]

  sync_each-same :
      (incoming : List In) (existing : List K) (rows : List Row) (stats : EntityStats)
      → distinct (in_keys sync incoming) ≡ true
      → distinct (keys_of sync rows) ≡ true
      → all (in_line sync rows) incoming ≡ true
      → ((k : K) → contains (in_keys sync incoming) k ≡ true → contains existing k ≡ true)
      → sync_each sync incoming existing rows stats ≡ ok (left sync incoming existing, rows, stats)
  unfolding sync_each left all contains distinct
  sync_each-same [] existing rows stats d u l known = refl
  sync_each-same (i ∷ rest) existing rows stats d u l known =
      let (r, found, same) = line_row rows i (ground arith) in
      rw
        (sync_one-same i existing rows stats r u found same
          (known (in_key i) (ground (arith, ==_self (in_key i)))))
        (sync_each-same rest (without sync (in_key i) existing) rows stats (ground arith) u
          (ground arith)
          (λ k h. ground (
            arith,
            known k,
            contains-without sync (in_key i) k existing,
            ==_iff (in_key i) k,
            ==_iff k (in_key i),
          )))

  pub nothing-left :
      (incoming : List In) (rows : List Row)
      → IsAligned sync incoming rows
      → left sync incoming (keys_of sync rows) ≡ []
  nothing-left incoming rows aligned =
      nothing-contained (left sync incoming (keys_of sync rows)) (λ k. ground (
        arith,
        contains-left sync incoming (keys_of sync rows) k,
        contains-keys_of sync rows k,
        aligned.domain k,
      ))

  pub delete_stale-nothing :
      (rows : List Row) (stats : EntityStats) → delete_stale sync [] rows stats ≡ (rows, stats)
  unfolding delete_stale keep contains
  delete_stale-nothing [] stats = ground arith
  delete_stale-nothing (r ∷ rows) stats = ground (arith, delete_stale-nothing rows stats)

  -- Rows in line with the list stay as they are, and nothing is counted.
  pub sync_rows-same :
      (incoming : List In) (rows : List Row) (stats : EntityStats)
      → distinct (in_keys sync incoming) ≡ true
      → IsAligned sync incoming rows
      → sync_rows sync incoming rows stats ≡ ok (rows, stats)
  unfolding sync_rows delete_stale
  sync_rows-same incoming rows stats d aligned =
      let rest = left sync incoming (keys_of sync rows) in
      let none_left = nothing-left incoming rows aligned in
      rw
        (
          sync_each-same incoming (keys_of sync rows) rows stats d aligned.once aligned.lined
              (λ k h. contains-keys_of sync rows k ∙ aligned.domain k ∙ h),
          none_left,
        )
        (ground (arith, delete_stale-nothing rows stats))
