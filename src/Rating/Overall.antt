-- ===== src/Rating/Overall.antt =====
-- The weighted mean over the topics (`overall_rating` of backend/app/services/rating.py).
use interview_trainer.Prelude.{
  ◌≡◌, ◌↔◌, refl, true, false, Bool, arith, List, [], ◌∷◌, String, none, all, Bool-cases, inl, inr,
}
use interview_trainer.Float.{Float, FloatLaws}
use interview_trainer.Rating.{get_or, weigh, overall_rating}

module _ (fl : Float) (weights : List (String × fl.F)) where
  open fl use {F, hundredths, le}

  -- `weight <= 0.0`, the test by which the loop passes an item over
  abbrev pub is_unweighted : String × F → Bool
  is_unweighted e = le (get_or (hundredths 0) e.0 weights) (hundredths 0)

  module _ (laws : FloatLaws fl) where
    weigh_pos :
        (xs : List (String × F)) (n d : F)
        → le d (hundredths 0) ≡ false
        → le (weigh fl weights (n, d) xs).1 (hundredths 0) ≡ false
    unfolding weigh
    weigh_pos [] n d h = h
    weigh_pos (x ∷ xs) n d h = elim (Bool-cases (is_unweighted x)) [
      | inl skipped ↦ rw skipped (weigh_pos xs n d h)
      | inr counts ↦ rw counts (weigh_pos xs _ _ (laws.add_pos d _ (laws.le_total _ _ h) counts))
    ]

    weigh_none :
        (xs : List (String × F)) (acc : F × F)
        → all is_unweighted xs ≡ true
        → weigh fl weights acc xs ≡ acc
    unfolding weigh all
    weigh_none [] acc h = refl
    weigh_none (x ∷ xs) acc h = ground (arith, weigh_none xs acc)

    weigh_some :
        (xs : List (String × F)) (n d : F)
        → le (hundredths 0) d ≡ true
        → all is_unweighted xs ≡ false
        → le (weigh fl weights (n, d) xs).1 (hundredths 0) ≡ false
    unfolding weigh all
    weigh_some [] n d k h = cc
    weigh_some (x ∷ xs) n d k h = elim (Bool-cases (is_unweighted x)) [
      | inl skipped ↦ rw skipped (weigh_some xs n d k (ground arith))
      | inr counts ↦ rw counts (weigh_pos xs _ _ (laws.add_pos d _ k counts))
    ]

    -- There is no mean exactly when no rated topic has a positive weight.
    overall_rating-eq-none_iff :
        (ratings : List (String × F))
        → (overall_rating fl ratings weights ≡ none) ↔ (all is_unweighted ratings ≡ true)
    unfolding overall_rating
    overall_rating-eq-none_iff ratings = (
      λ h.
          ground
            (arith, weigh_some ratings (hundredths 0) (hundredths 0) (laws.le_refl (hundredths 0))),
      λ h.
          ground
            (arith, weigh_none ratings (hundredths 0, hundredths 0) h, laws.le_refl (hundredths 0)),
    )
