-- ===== src/Questions/Equality.antt =====
-- The comparisons `!=` of the columns of a question.
use interview_trainer.Prelude.{
  ℕ, ◌≡◌, ◌↔◌, arith, Bool, true, false, ◌&&◌, List, [], ◌∷◌, Option, none, some, Comparable, ◌==◌,
  ==_iff, nat_eq, nat_beq, nat_beq_iff,
}
use interview_trainer.Prelude.Int.{ℤ, pos, negsuc}
use interview_trainer.Enums.{
  QuestionType, QuestionSource, single_choice, multi_choice, short_answer, open_answer, seed,
  crowdsourced, imported,
}

module _ {ℓ} {A : Type ℓ} ⦃c : Comparable A⦄ where
  unfoldable pub same_list : List A → List A → Bool
  same_list [] [] = true
  same_list [] (_ ∷ _) = false
  same_list (_ ∷ _) [] = false
  same_list (x ∷ xs) (y ∷ ys) = x == y && same_list xs ys

  pub same_list_iff : (xs ys : List A) → (same_list xs ys ≡ true) ↔ (xs ≡ ys)
  unfolding same_list
  same_list_iff [] [] = ground arith
  same_list_iff [] (y ∷ ys) = ground arith
  same_list_iff (x ∷ xs) [] = ground arith
  same_list_iff (x ∷ xs) (y ∷ ys) = ground (arith, same_list_iff xs ys, ==_iff x y)

  unfoldable pub same_option : Option A → Option A → Bool
  same_option none none = true
  same_option none (some _) = false
  same_option (some _) none = false
  same_option (some x) (some y) = x == y

  pub same_option_iff : (x y : Option A) → (same_option x y ≡ true) ↔ (x ≡ y)
  unfolding same_option
  same_option_iff none none = ground arith
  same_option_iff none (some y) = ground arith
  same_option_iff (some x) none = ground arith
  same_option_iff (some x) (some y) = ground (arith, ==_iff x y)

  instance abbrev pub list_eq : Comparable (List A)
  list_eq = record { same = same_list; same_iff = same_list_iff }

  instance abbrev pub option_eq : Comparable (Option A)
  option_eq = record { same = same_option; same_iff = same_option_iff }

unfoldable pub same_int : ℤ → ℤ → Bool
same_int (pos m) (pos n) = nat_beq m n
same_int (negsuc m) (negsuc n) = nat_beq m n
same_int (pos _) (negsuc _) = false
same_int (negsuc _) (pos _) = false

pub same_int_iff : (a b : ℤ) → (same_int a b ≡ true) ↔ (a ≡ b)
unfolding same_int
same_int_iff (pos m) (pos n) = ground (arith, nat_beq_iff m n)
same_int_iff (negsuc m) (negsuc n) = ground (arith, nat_beq_iff m n)
same_int_iff (pos m) (negsuc n) = ground arith
same_int_iff (negsuc m) (pos n) = ground arith

instance abbrev pub int_eq : Comparable ℤ
int_eq = record { same = same_int; same_iff = same_int_iff }

abbrev pub type_code : QuestionType → ℕ
type_code single_choice = 0
type_code multi_choice = 1
type_code short_answer = 2
type_code open_answer = 3

pub type_code_iff : (a b : QuestionType) → (nat_beq (type_code a) (type_code b) ≡ true) ↔ (a ≡ b)
type_code_iff a b = ground arith

instance abbrev pub type_eq : Comparable QuestionType
type_eq = record { same = λ a b. nat_beq (type_code a) (type_code b); same_iff = type_code_iff }

abbrev pub source_code : QuestionSource → ℕ
source_code seed = 0
source_code crowdsourced = 1
source_code imported = 2

pub source_code_iff :
    (a b : QuestionSource) → (nat_beq (source_code a) (source_code b) ≡ true) ↔ (a ≡ b)
source_code_iff a b = ground arith

instance abbrev pub source_eq : Comparable QuestionSource
source_eq = record {
  same = λ a b. nat_beq (source_code a) (source_code b);
  same_iff = source_code_iff;
}
