-- ===== src/Session/Laws.antt =====
-- Rows under the writes of a session.
use interview_trainer.Prelude.{
  ◌≡◌, refl, true, Bool, arith, List, [], ◌∷◌, Option, none, some, find, if◌then◌else◌,
}
use interview_trainer.Session.{update}

module _ {ℓ} {A : Type ℓ} where
  abbrev pub map_option : (A → A) → Option A → Option A
  map_option f none = none
  map_option f (some a) = some (f a)

  -- A write that keeps the keys reaches the row that is found.
  pub find-update :
      (p q : A → Bool) (f : A → A) (xs : List A)
      → ((x : A) → q x ≡ true → p (f x) ≡ p x)
      → (a : A) → find p xs ≡ some a
      → find p (update q f xs) ≡ some (if q a then f a else a)
  unfolding find update
  find-update p q f [] keep_keys a h = cc
  find-update p q f (x ∷ xs) keep_keys a h =
      ground (arith, keep_keys x, find-update p q f xs keep_keys a)

  pub find-update-none :
      (p q : A → Bool) (f : A → A) (xs : List A)
      → ((x : A) → q x ≡ true → p (f x) ≡ p x)
      → find p xs ≡ none
      → find p (update q f xs) ≡ none
  unfolding find update
  find-update-none p q f [] keep_keys h = refl
  find-update-none p q f (x ∷ xs) keep_keys h =
      ground (arith, keep_keys x, find-update-none p q f xs keep_keys)
