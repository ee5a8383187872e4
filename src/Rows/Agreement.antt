-- ===== src/Rows/Agreement.antt =====
-- After the loop over the incoming elements, and the deletion of the rest, the rows are those of the
-- list (`sync_each`, `sync_rows`).
use interview_trainer.Prelude.{
  ◌+◌, ◌≡◌, refl, sym, ap, ◌∙◌, arith, length, ==_self, Bool, true, false, not, ◌&&◌, List, [], ◌∷◌,
  none, some, Comparable, ◌==◌, ==_iff, find, keep, all, contains, distinct, map, Bool-cases, inl,
  inr,
}
use interview_trainer.Exceptions.{ok}
use interview_trainer.Rows.{
  Sync, EntityStats, has, keys_of, without, sync_each, sync_rows, delete_stale, is_stale,
}
use interview_trainer.Rows.Steps.{
  SyncLaws, is_some, contains-keys_of, contains-without, find-has-keep, IsTurn, sync_one_lem,
}

module _ {K Row In : Type 0} ⦃c : Comparable K⦄ (sync : Sync K Row In) where
  open sync use {is_mine, in_key, differs}

  -- The element's key has a row, and nothing is left to write to it.
  unfoldable pub in_line : List Row → In → Bool
  unfolding find
  in_line rows i = elim (find (has sync (in_key i)) rows) [
    | none ↦ false
    | some r ↦ not (differs i r)
  ]

  abbrev pub in_keys : List In → List K
  in_keys incoming = map in_key incoming

  abbrev pub foreign : List Row → List Row
  foreign rows = keep (λ r. not (is_mine r)) rows

  -- what is left of `existing` when every key of the list is popped
  unfoldable pub left : List In → List K → List K
  left [] existing = existing
  left (i ∷ rest) existing = left rest (without sync (in_key i) existing)

  pub contains-left :
      (incoming : List In) (existing : List K) (k : K)
      → contains (left incoming existing) k
        ≡ (contains existing k && not (contains (in_keys incoming) k))
  unfolding left contains
  contains-left [] existing k = ground arith
  contains-left (i ∷ rest) existing k = ground (
    arith,
    contains-left rest (without sync (in_key i) existing) k,
    contains-without sync (in_key i) k existing,
    ==_iff (in_key i) k,
    ==_iff k (in_key i),
  )

  in_line_same :
      (rows rows' : List Row) (i : In)
      → find (has sync (in_key i)) rows' ≡ find (has sync (in_key i)) rows
      → in_line rows' i ≡ in_line rows i
  unfolding in_line
  in_line_same rows rows' i e = ap (λ o. elim o [ none ↦ false | some r ↦ not (differs i r) ]) e

  pub all-in_line_same :
      (xs : List In) (rows rows' : List Row)
      → ((k : K)
          → contains (in_keys xs) k ≡ true
          → find (has sync k) rows' ≡ find (has sync k) rows)
      → all (in_line rows') xs ≡ all (in_line rows) xs
  unfolding all contains
  all-in_line_same [] rows rows' h = refl
  all-in_line_same (x ∷ xs) rows rows' h =
      let own = in_line_same rows rows' x (h (in_key x) (ground (arith, ==_self (in_key x)))) in
      let rest = all-in_line_same xs rows rows' (λ k e. h k (ground arith)) in ground arith

  some-lined :
      (xs : List In) (rows : List Row) (k : K)
      → all (in_line rows) xs ≡ true
      → contains (in_keys xs) k ≡ true
      → is_some (find (has sync k) rows) ≡ true
  unfolding all contains in_line
  some-lined [] rows k h e = cc
  some-lined (x ∷ xs) rows k h e = elim (Bool-cases (in_key x == k)) [
    | inl same ↦
        let at : in_key x ≡ k = (==_iff (in_key x) k).0 same in
        let own : is_some (find (has sync (in_key x)) rows) ≡ true = ground arith in
        ap (λ j. is_some (find (has sync j) rows)) (sym at) ∙ own
    | inr other ↦ some-lined xs rows k (ground arith) (ground arith)
  ]

  foreign-keep :
      (existing : List K) (rows : List Row)
      → foreign (keep (λ r. not (is_stale sync existing r)) rows) ≡ foreign rows
  unfolding keep
  foreign-keep existing [] = refl
  foreign-keep existing (r ∷ rows) = ground (arith, foreign-keep existing rows)

  distinct-keep :
      (existing : List K) (rows : List Row)
      → distinct (keys_of sync rows) ≡ true
      → distinct (keys_of sync (keep (λ r. not (is_stale sync existing r)) rows)) ≡ true
  unfolding distinct keep
  distinct-keep existing [] h = refl
  distinct-keep existing (r ∷ rows) h = ground (
    arith,
    distinct-keep existing rows,
    contains-keys_of sync rows (sync.row_key r),
    contains-keys_of sync (keep (λ r. not (is_stale sync existing r)) rows) (sync.row_key r),
    find-has-keep sync existing rows (sync.row_key r),
  )

  -- The rows are those of the list: each element has one, in line with it, and there are no others.
  pub record IsAligned (incoming : List In) (rows : List Row) : Type 0 where
    pub lined : all (in_line rows) incoming ≡ true
    pub domain : (k : K) → is_some (find (has sync k) rows) ≡ contains (in_keys incoming) k
    pub once : distinct (keys_of sync rows) ≡ true

  pub IsAligned-same :
      (incoming : List In) (rows rows' : List Row)
      → ((k : K) → find (has sync k) rows' ≡ find (has sync k) rows)
      → keys_of sync rows' ≡ keys_of sync rows
      → IsAligned incoming rows
      → IsAligned incoming rows'
  IsAligned-same incoming rows rows' finds keys aligned = record {
    lined = all-in_line_same incoming rows rows' (λ k e. finds k) ∙ aligned.lined;
    domain = λ k. ap is_some (finds k) ∙ aligned.domain k;
    once = ap distinct keys ∙ aligned.once;
  }

  -- What the loop does to the table.
  pub record IsSynced (incoming : List In) (rows rows' : List Row) : Type 0 where
    pub lined : all (in_line rows') incoming ≡ true
    pub others :
        (k : K)
        → contains (in_keys incoming) k ≡ false
        → find (has sync k) rows' ≡ find (has sync k) rows
    pub unique : distinct (keys_of sync rows) ≡ true → distinct (keys_of sync rows') ≡ true
    pub kept : foreign rows' ≡ foreign rows

  module _ (laws : SyncLaws sync) where
    in_line-turn :
        (i : In) (rows rows' : List Row) (r : Row)
        → IsTurn sync laws i rows rows' r
        → in_line rows' i ≡ true
    unfolding in_line
    in_line-turn i rows rows' r turn = ground (arith, turn.own, turn.agrees)

    pub other_key :
        (i : In) (rest : List In) (k : K)
        → distinct (in_keys (i ∷ rest)) ≡ true
        → contains (in_keys rest) k ≡ true
        → (in_key i == k) ≡ false
    unfolding distinct contains
    other_key i rest k d h = ground (arith, ==_iff (in_key i) k)

    pub IsSynced-turn :
        (i : In) (rest : List In) (rows rows1 rows2 : List Row) (r : Row)
        → distinct (in_keys (i ∷ rest)) ≡ true
        → IsTurn sync laws i rows rows1 r
        → IsSynced rest rows1 rows2
        → IsSynced (i ∷ rest) rows rows2
    unfolding all contains distinct
    IsSynced-turn i rest rows rows1 rows2 r d turn done = record {
      lined = ground (
        arith,
        done.lined,
        in_line-turn i rows rows1 r turn,
        in_line_same rows1 rows2 i (done.others (in_key i) (ground arith)),
      );
      others = λ k h. done.others k (ground arith) ∙ turn.others k (ground arith);
      unique = λ u. done.unique (turn.unique u);
      kept = done.kept ∙ turn.kept;
    }

    pub known_after :
        (i : In) (rest : List In) (existing : List K) (rows rows1 : List Row) (r : Row)
        → distinct (in_keys (i ∷ rest)) ≡ true
        → IsTurn sync laws i rows rows1 r
        → (k : K) → (is_some (find (has sync k) rows) ≡ true → contains existing k ≡ true)
        → contains (in_keys rest) k ≡ true
        → is_some (find (has sync k) rows1) ≡ true
        → contains (without sync (in_key i) existing) k ≡ true
    known_after i rest existing rows rows1 r d turn k known h e =
        let other = other_key i rest k d h in
        let before = known (ap is_some (sym (turn.others k other)) ∙ e) in
        ground (
          arith,
          contains-without sync (in_key i) k existing,
          ==_iff (in_key i) k,
          ==_iff k (in_key i),
        )

    -- Distinct keys, each of whose rows was loaded: the loop ends, with what `left` says.
    pub sync_each_lem :
        (incoming : List In) (existing : List K) (rows : List Row) (stats : EntityStats)
        → distinct (in_keys incoming) ≡ true
        → ((k : K)
            → contains (in_keys incoming) k ≡ true
            → is_some (find (has sync k) rows) ≡ true
            → contains existing k ≡ true)
        → (rows' : List Row) × (stats' : EntityStats) × (sync_each sync incoming existing rows stats
            ≡ ok (left incoming existing, rows', stats'))
          × IsSynced incoming rows rows'
    unfolding sync_each left all contains distinct
    sync_each_lem [] existing rows stats d known = (
      rows,
      stats,
      refl,
      record { lined = refl; others = λ k h. refl; unique = λ u. u; kept = refl },
    )
    sync_each_lem (i ∷ rest) existing rows stats d known =
        let (r, rows1, stats1, e, turn) =
          sync_one_lem sync laws i existing rows stats
            (known (in_key i) (ground (arith, ==_self (in_key i)))) in
        let (rows2, stats2, e2, done) =
          sync_each_lem rest (without sync (in_key i) existing) rows1 stats1 (ground arith)
            (λ k h. known_after i rest existing rows rows1 r d turn k (known k (ground arith)) h) in
        (rows2, stats2, rw (e) e2, IsSynced-turn i rest rows rows1 rows2 r d turn done)

    -- What is left is deleted.
    pub IsAligned-synced :
        (incoming : List In) (rows rows1 : List Row)
        → distinct (keys_of sync rows) ≡ true
        → IsSynced incoming rows rows1
        → let rest = left incoming (keys_of sync rows) in
          IsAligned incoming (keep (λ r. not (is_stale sync rest r)) rows1)
    IsAligned-synced incoming rows rows1 once done =
        let rest = left incoming (keys_of sync rows) in
        record {
          lined =
              all-in_line_same incoming rows1 (keep (λ r. not (is_stale sync rest r)) rows1) (λ k h.
                ground (
                  arith,
                  contains-left incoming (keys_of sync rows) k,
                  find-has-keep sync rest rows1 k,
                ))
              ∙ done.lined;
          domain = λ k. ground (
            arith,
            contains-left incoming (keys_of sync rows) k,
            find-has-keep sync rest rows1 k,
            contains-keys_of sync rows k,
            done.others k,
            some-lined incoming rows1 k done.lined,
          );
          once = distinct-keep rest rows1 (done.unique once);
        }

    -- Whatever the rows were, they are those of the list afterwards, and the others are untouched.
    pub sync_rows_lem :
        (incoming : List In) (rows : List Row) (stats : EntityStats)
        → distinct (in_keys incoming) ≡ true
        → distinct (keys_of sync rows) ≡ true
        → (rows' : List Row) × (stats' : EntityStats) × (sync_rows sync incoming rows stats
            ≡ ok (rows', stats'))
          × IsAligned incoming rows'
          × (foreign rows' ≡ foreign rows)
    unfolding sync_rows delete_stale
    sync_rows_lem incoming rows stats d once =
        let (rows1, stats1, e, done) =
          sync_each_lem incoming (keys_of sync rows) rows stats d
            (λ k h e. contains-keys_of sync rows k ∙ e) in
        let rest = left incoming (keys_of sync rows) in
        (
          keep (λ r. not (is_stale sync rest r)) rows1,
          record stats1 { deleted = stats1.deleted + length rest },
          rw (e) refl,
          IsAligned-synced incoming rows rows1 once done,
          foreign-keep rest rows1 ∙ done.kept,
        )
