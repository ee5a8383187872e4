-- ===== src/Rows/Apart.antt =====
-- Two ways of synchronising one table that read different rows, such as the subtopics of two topics.
use interview_trainer.Prelude.{
  ◌≡◌, refl, sym, ap, ◌∙◌, arith, Bool, true, not, List, [], ◌∷◌, Comparable, find, keep, map,
}
use interview_trainer.Rows.{Sync, has, keys_of}
use interview_trainer.Rows.Agreement.{foreign}

module _ {ℓ} {A : Type ℓ} where
  pub find-keep :
      (p q : A → Bool) (xs : List A)
      → ((x : A) → p x ≡ true → q x ≡ true)
      → find p (keep q xs) ≡ find p xs
  unfolding find keep
  find-keep p q [] h = refl
  find-keep p q (x ∷ xs) h = ground (arith, h x, find-keep p q xs h)

  pub keep-keep :
      (p q : A → Bool) (xs : List A)
      → ((x : A) → p x ≡ true → q x ≡ true)
      → keep p (keep q xs) ≡ keep p xs
  unfolding keep
  keep-keep p q [] h = refl
  keep-keep p q (x ∷ xs) h = ground (arith, h x, keep-keep p q xs h)

module _ {K Row In : Type 0} ⦃c : Comparable K⦄ (s : Sync K Row In) where
  -- a deletion that spares the rows of `s`
  pub find-spared :
      (q : Row → Bool) (rows : List Row) (k : K)
      → ((r : Row) → s.is_mine r ≡ true → q r ≡ true)
      → find (has s k) (keep q rows) ≡ find (has s k) rows
  find-spared q rows k h = find-keep (has s k) q rows (λ r e. h r (ground arith))

  pub keys_of-spared :
      (q : Row → Bool) (rows : List Row)
      → ((r : Row) → s.is_mine r ≡ true → q r ≡ true)
      → keys_of s (keep q rows) ≡ keys_of s rows
  keys_of-spared q rows h = ap (map s.row_key) (keep-keep s.is_mine q rows h)

  module _ {L Other : Type 0} ⦃d : Comparable L⦄ (t : Sync L Row Other)
      (apart : (r : Row) → s.is_mine r ≡ true → not (t.is_mine r) ≡ true) where
    pub find-apart :
        (rows rows' : List Row) (k : K)
        → foreign t rows' ≡ foreign t rows
        → find (has s k) rows' ≡ find (has s k) rows
    find-apart rows rows' k e =
        sym (find-spared (λ r. not (t.is_mine r)) rows' k apart)
        ∙ ap (find (has s k)) e
        ∙ find-spared (λ r. not (t.is_mine r)) rows k apart

    pub keys_of-apart :
        (rows rows' : List Row)
        → foreign t rows' ≡ foreign t rows
        → keys_of s rows' ≡ keys_of s rows
    keys_of-apart rows rows' e =
        sym (keys_of-spared (λ r. not (t.is_mine r)) rows' apart)
        ∙ ap (keys_of s) e
        ∙ keys_of-spared (λ r. not (t.is_mine r)) rows apart
