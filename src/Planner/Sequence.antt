-- ===== src/Planner/Sequence.antt =====
-- The sequence of slots (`while` loop of `_distribute`, backend/app/services/planner.py).
use Prim.Native.Nat.{min}
use interview_trainer.Prelude.{
  ℕ, zero, suc, ◌+◌, ◌-◌, ◌≤◌, ◌<◌, ◌≡◌, refl, some, arith, List, [], ◌∷◌, ◌++◌, length, take, true,
  String, contains, contains-append, ltb, Bool-cases, inl, inr, string_eq, length-append,
}
use interview_trainer.Planner.{fill}

length-take : (n : ℕ) (xs : List String) → length (take n xs) ≡ min n (length xs)
length-take zero xs = omega arith
length-take (suc n) [] = omega arith
length-take (suc n) (x ∷ xs) = omega (arith, length-take n xs)

-- For one code or more and a sequence that is not too long, with more fuel than slots are missing
-- the loop ends, with exactly `total` slots.
pub fill_total :
    (fuel total : ℕ) (codes sequence : List String)
    → total < length sequence + fuel
    → length sequence ≤ total
    → 1 ≤ length codes
    → (result : List String) × (fill fuel total codes sequence ≡ some result)
      × (length result ≡ total)
unfolding fill
fill_total zero total codes sequence enough fits h = absurd (omega arith)
fill_total (suc fuel) total codes sequence enough fits h =
    elim (Bool-cases (ltb (length sequence) total)) [
      | inl more ↦
          let chunk = take (total - length sequence) codes in
          let added = length-append sequence chunk in
          let taken = length-take (total - length sequence) codes in
          rw more (fill_total fuel total codes (sequence ++ chunk) (ground arith) (ground arith) h)
      | inr done ↦ (sequence, rw done, ground arith)
    ]

-- What is in the sequence stays in it.
contains-fill :
    (fuel total : ℕ) (codes sequence : List String) (code : String) (result : List String)
    → fill fuel total codes sequence ≡ some result
    → contains sequence code ≡ true
    → contains result code ≡ true
unfolding fill
contains-fill zero total codes sequence code result h k = cc
contains-fill (suc fuel) total codes sequence code result h k =
    let chunk = take (total - length sequence) codes in
    ground (
      arith,
      contains-fill fuel total codes (sequence ++ chunk) code result,
      contains-append sequence chunk code,
    )

take_of_length-le : (n : ℕ) (xs : List String) → length xs ≤ n → take n xs ≡ xs
take_of_length-le (suc n) [] h = refl
take_of_length-le zero [] h = refl
take_of_length-le zero (x ∷ xs) h = absurd (omega arith)
take_of_length-le (suc n) (x ∷ xs) h = rw (take_of_length-le n xs (omega arith))

-- With a slot for every code, every code gets one.
pub contains-fill_all :
    (total : ℕ) (codes : List String) (code : String) (result : List String)
    → fill (suc total) total codes [] ≡ some result
    → 1 ≤ length codes
    → length codes ≤ total
    → contains codes code ≡ true
    → contains result code ≡ true
unfolding fill
contains-fill_all total codes code result h n k c =
    ground (arith, contains-fill total total codes codes code result, take_of_length-le total codes)
