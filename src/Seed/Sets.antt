-- ===== src/Seed/Sets.antt =====
-- Lists of texts that stand for sets.
use interview_trainer.Prelude.{
  ◌≡◌, refl, ap, arith, Bool, true, false, ◌&&◌, List, [], ◌∷◌, String, ◌==◌, ==_iff, ==_self,
  string_eq, keep, all, contains,
}
use interview_trainer.Seed.{is_empty}

pub contains-keep :
    (p : String → Bool) (xs : List String) (s : String)
    → contains (keep p xs) s ≡ (contains xs s && p s)
unfolding contains keep
contains-keep p [] s = refl
contains-keep p (x ∷ xs) s =
    let same : x == s ≡ true → p x ≡ p s = λ e. ap p ((==_iff x s).0 e) in
    ground (arith, contains-keep p xs s, same)

pub empty-contains : (xs : List String) (s : String) → is_empty xs ≡ true → contains xs s ≡ false
unfolding contains
empty-contains [] s h = refl
empty-contains (x ∷ xs) s h = absurd (ground arith)

pub contains-empty :
    (xs : List String) → ((s : String) → contains xs s ≡ false) → is_empty xs ≡ true
unfolding contains
contains-empty [] h = refl
contains-empty (x ∷ xs) h = ground (arith, h x, ==_self x)

pub all-contains :
    (p : String → Bool) (xs : List String) (s : String)
    → all p xs ≡ true
    → contains xs s ≡ true
    → p s ≡ true
unfolding all contains
all-contains p [] s h e = cc
all-contains p (x ∷ xs) s h e =
    let same : x == s ≡ true → p x ≡ p s = λ e. ap p ((==_iff x s).0 e) in
    ground (arith, all-contains p xs s, same)
