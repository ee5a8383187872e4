-- ===== src/Rows/Steps.antt =====
-- One turn of the loop over a table (`sync_one`), key by key.
use interview_trainer.Prelude.{
  ◌≡◌, refl, ◌∙◌, arith, Bool, true, false, not, ◌&&◌, List, [], ◌∷◌, ◌++◌, Option, none, some,
  if◌then◌else◌, Comparable, ◌==◌, ==_iff, ==_self, find, keep, any, contains, contains-append,
  distinct, Option-cases, inl, inr, find-test, find-append_none,
}
use interview_trainer.Exceptions.{ok}
use interview_trainer.Session.{update}
use interview_trainer.Session.Laws.{find-update}
use interview_trainer.Rows.{
  Sync, EntityStats, has, keys_of, without, popped, sync_one, is_stale, one_created, one_updated,
}

-- What `make`, `apply` and `differs` have to do with one another.
pub record SyncLaws {K Row In : Type 0} (sync : Sync K Row In) : Type 0 where
  pub mine-make : (i : In) (rows : List Row) → sync.is_mine (sync.make i rows) ≡ true
  pub key-make : (i : In) (rows : List Row) → sync.row_key (sync.make i rows) ≡ sync.in_key i
  pub mine-apply : (i : In) (r : Row) → sync.is_mine (sync.apply i r) ≡ sync.is_mine r
  pub key-apply : (i : In) (r : Row) → sync.row_key (sync.apply i r) ≡ sync.row_key r
  pub differs-make : (i : In) (rows : List Row) → sync.differs i (sync.make i rows) ≡ false
  pub differs-apply : (i : In) (r : Row) → sync.differs i (sync.apply i r) ≡ false
  pub apply-same : (i : In) (r : Row) → sync.differs i r ≡ false → sync.apply i r ≡ r

abbrev pub is_some {ℓ} : {A : Type ℓ} → Option A → Bool
is_some none = false
is_some (some _) = true

module _ {ℓ} {A : Type ℓ} where
  pub any-is_some-find : (p : A → Bool) (xs : List A) → any p xs ≡ is_some (find p xs)
  unfolding any find
  any-is_some-find p [] = refl
  any-is_some-find p (x ∷ xs) = ground (arith, any-is_some-find p xs)

  -- a key that `p` and `q` do not share
  pub find-append_other :
      (p : A → Bool) (xs : List A) (a : A) → p a ≡ false → find p (xs ++ a ∷ []) ≡ find p xs
  unfolding find
  find-append_other p [] a h = ground arith
  find-append_other p (x ∷ xs) a h = ground (arith, find-append_other p xs a)

  pub find-update_other :
      (p q : A → Bool) (f : A → A) (xs : List A)
      → ((x : A) → q x ≡ true → p x ≡ false)
      → ((x : A) → q x ≡ true → p (f x) ≡ false)
      → find p (update q f xs) ≡ find p xs
  unfolding find update
  find-update_other p q f [] h k = refl
  find-update_other p q f (x ∷ xs) h k = ground (arith, h x, k x, find-update_other p q f xs h k)

module _ {ℓ} {A : Type ℓ} ⦃c : Comparable A⦄ where
  pub distinct-append :
      (ks : List A) (k : A)
      → distinct ks ≡ true
      → contains ks k ≡ false
      → distinct (ks ++ k ∷ []) ≡ true
  unfolding distinct contains
  distinct-append [] k h e = refl
  distinct-append (j ∷ ks) k h e =
      ground (arith, distinct-append ks k, contains-append ks (k ∷ []) j, ==_iff k j, ==_iff j k)

module _ {K Row In : Type 0} ⦃c : Comparable K⦄ (sync : Sync K Row In) where
  pub contains-keys_of :
      (rows : List Row) (k : K) → contains (keys_of sync rows) k ≡ is_some (find (has sync k) rows)
  unfolding contains keep find
  contains-keys_of [] k = refl
  contains-keys_of (r ∷ rows) k = ground (arith, contains-keys_of rows k)

  pub contains-without :
      (k j : K) (existing : List K)
      → contains (without sync k existing) j ≡ (contains existing j && not (j == k))
  unfolding contains keep
  contains-without k j [] = refl
  contains-without k j (x ∷ xs) =
      ground (arith, contains-without k j xs, ==_iff x k, ==_iff x j, ==_iff j k)

  pub find-has-keep :
      (existing : List K) (rows : List Row) (k : K)
      → find (has sync k) (keep (λ r. not (is_stale sync existing r)) rows)
        ≡ (if contains existing k then none else find (has sync k) rows)
  unfolding find keep
  find-has-keep existing [] k = ground arith
  find-has-keep existing (r ∷ rows) k =
      ground (arith, find-has-keep existing rows k, ==_iff (sync.row_key r) k)

  module _ (laws : SyncLaws sync) where
    has-make :
        (i : In) (rows : List Row) (k : K) → has sync k (sync.make i rows) ≡ (sync.in_key i == k)
    has-make i rows k = rw (laws.mine-make i rows, laws.key-make i rows) refl

    has-apply : (i : In) (r : Row) (k : K) → has sync k (sync.apply i r) ≡ has sync k r
    has-apply i r k = rw (laws.mine-apply i r, laws.key-apply i r) refl

    has_apart : (k j : K) (x : Row) → (k == j) ≡ false → has sync k x ≡ true → has sync j x ≡ false
    has_apart k j x e h =
        ground (arith, ==_iff (sync.row_key x) k, ==_iff (sync.row_key x) j, ==_iff k j)

    keys_of-update :
        (p : Row → Bool) (i : In) (rows : List Row)
        → keys_of sync (update p (sync.apply i) rows) ≡ keys_of sync rows
    unfolding keep update
    keys_of-update p i [] = refl
    keys_of-update p i (r ∷ rows) =
        ground (arith, keys_of-update p i rows, laws.mine-apply i r, laws.key-apply i r)

    keys_of-make :
        (i : In) (made rows : List Row)
        → keys_of sync (rows ++ sync.make i made ∷ []) ≡ keys_of sync rows ++ sync.in_key i ∷ []
    unfolding keep
    keys_of-make i made [] = ground (arith, laws.mine-make i made, laws.key-make i made)
    keys_of-make i made (r ∷ rows) = ground (arith, keys_of-make i made rows)

    foreign-make :
        (i : In) (made rows : List Row)
        → keep (λ x. not (sync.is_mine x)) (rows ++ sync.make i made ∷ [])
          ≡ keep (λ x. not (sync.is_mine x)) rows
    unfolding keep
    foreign-make i made [] = ground (arith, laws.mine-make i made)
    foreign-make i made (r ∷ rows) = ground (arith, foreign-make i made rows)

    foreign-update :
        (k : K) (i : In) (rows : List Row)
        → keep (λ x. not (sync.is_mine x)) (update (has sync k) (sync.apply i) rows)
          ≡ keep (λ x. not (sync.is_mine x)) rows
    unfolding keep update
    foreign-update k i [] = refl
    foreign-update k i (r ∷ rows) = ground (arith, foreign-update k i rows, laws.mine-apply i r)

    -- What one turn does: it gives the element's key the row that it returns, which then agrees with
    -- the element, and leaves every other key its row.
    pub record IsTurn (i : In) (rows rows' : List Row) (r : Row) : Type 0 where
      pub own : find (has sync (sync.in_key i)) rows' ≡ some r
      pub agrees : sync.differs i r ≡ false
      pub others :
          (k : K) → (sync.in_key i == k) ≡ false → find (has sync k) rows' ≡ find (has sync k) rows
      pub unique : distinct (keys_of sync rows) ≡ true → distinct (keys_of sync rows') ≡ true
      pub kept : keep (λ x. not (sync.is_mine x)) rows' ≡ keep (λ x. not (sync.is_mine x)) rows

    pub sync_one_lem :
        (i : In) (existing : List K) (rows : List Row) (stats : EntityStats)
        → (is_some (find (has sync (sync.in_key i)) rows) ≡ true
            → contains existing (sync.in_key i) ≡ true)
        → (r : Row) × (rows' : List Row) × (stats' : EntityStats) × (sync_one sync i existing rows
              stats
            ≡ ok (r, rows', stats'))
          × IsTurn i rows rows' r
    unfolding sync_one popped
    sync_one_lem i existing rows stats known =
        let k = sync.in_key i in
        let p = has sync k in
        elim (Option-cases (find p rows)) [
          | inl absent ↦
              let fresh = any-is_some-find p rows in
              (
                sync.make i rows,
                rows ++ sync.make i rows ∷ [],
                one_created stats,
                ground (arith, fresh),
                record {
                  own =
                      find-append_none p rows (sync.make i rows) absent
                        (has-make i rows k ∙ ==_self k);
                  agrees = laws.differs-make i rows;
                  others = λ j e.
                      find-append_other (has sync j) rows (sync.make i rows)
                        (has-make i rows j ∙ e);
                  unique = λ u. rw (keys_of-make i rows rows) (
                      distinct-append (keys_of sync rows) k u
                        (ground (arith, contains-keys_of rows k)));
                  kept = foreign-make i rows rows;
                },
              )
          | inr (r, found) ↦ (
            sync.apply i r,
            update p (sync.apply i) rows,
            (if sync.differs i r then one_updated stats else stats),
            ground (arith, known),
            record {
              own =
                  find-update p p (sync.apply i) rows (λ x h. has-apply i x k) r found
                  ∙ rw (find-test p rows r found);
              agrees = laws.differs-apply i r;
              others = λ j e.
                  find-update_other (has sync j) p (sync.apply i) rows (λ x h. has_apart k j x e h)
                    (λ x h. has-apply i x j ∙ has_apart k j x e h);
              unique = λ u. rw (keys_of-update p i rows) u;
              kept = foreign-update k i rows;
            },
          )
        ]
