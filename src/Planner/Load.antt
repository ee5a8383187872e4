-- ===== src/Planner/Load.antt =====
-- How full the days of `_distribute` are (backend/app/services/planner.py).
use Prim.Native.Nat.{min}
use interview_trainer.Prelude.{
  ℕ, zero, suc, ◌+◌, ◌*◌, ◌%◌, ◌≤◌, ◌<◌, ◌≡◌, arith, List, [], ◌∷◌, length, String, string_eq,
  Bool-cases, ltb, inl, inr, length-append,
}
use interview_trainer.Planner.{add_code, modify, place}
use interview_trainer.Planner.Coverage.{length-modify}

-- at most `a + 1` topics in the first `r` days, and at most `a` in the others
abbrev pub Fits : ℕ → ℕ → List (List String) → Type 0
Fits a r [] = Unit
Fits a zero (day ∷ days) = (length day ≤ a) × Fits a zero days
Fits a (suc r) (day ∷ days) = (length day ≤ a + 1) × Fits a r days

pub length-add_code-le :
    (code : String) (day : List String) → length (add_code code day) ≤ length day + 1
unfolding add_code
length-add_code-le code day = ground (arith, length-append day (code ∷ []))

Fits-modify :
    (code : String) (a r : ℕ) (schedule : List (List String))
    → Fits a r schedule
    → Fits a (suc r) (modify (add_code code) r schedule)
unfolding modify
Fits-modify code a r [] h = tt
Fits-modify code a zero (day ∷ days) h = (omega (arith, length-add_code-le code day), h.1)
Fits-modify code a (suc r) (day ∷ days) h = (h.0, Fits-modify code a r days h.1)

Fits-wrap :
    (a : ℕ) (schedule : List (List String))
    → Fits a (length schedule) schedule
    → Fits (a + 1) 0 schedule
Fits-wrap a [] h = tt
Fits-wrap a (day ∷ days) h = (h.0, Fits-wrap a days h.1)

Fits-le :
    (a k r : ℕ) (schedule : List (List String))
    → a + min r 1 ≤ k
    → Fits a r schedule
    → Fits k 0 schedule
Fits-le a k r [] e h = tt
Fits-le a k zero (day ∷ days) e h = (omega arith, Fits-le a k zero days e h.1)
Fits-le a k (suc r) (day ∷ days) e h = (omega arith, Fits-le a k r days (omega arith) h.1)

turn_mod : (a r n : ℕ) → r < n → (a * n + r) % n ≡ r
turn_mod a r n h = grind arith

mul_gap : (k a n : ℕ) → k < a → k * n + n ≤ a * n
mul_gap k a n h = let le : suc k * n ≤ a * n = grind arith in omega arith

rounds_le : (a k r n : ℕ) → r < n → a * n + r ≤ k * n → a + min r 1 ≤ k
rounds_le a k r n h e = ground (arith, mul_gap k a n)

pub Fits-place :
    (k a r n p : ℕ) (sequence : List String) (schedule : List (List String))
    → p ≡ a * n + r
    → r < n
    → length schedule ≡ n
    → p + length sequence ≤ k * n
    → Fits a r schedule
    → Fits k 0 (place p n sequence schedule)
unfolding place
Fits-place k a r n p [] schedule e h l fits f =
    Fits-le a k r schedule (rounds_le a k r n h (omega arith)) f
Fits-place k a r n p (code ∷ rest) schedule e h l fits f =
    let next = modify (add_code code) r schedule in
    let turn : p % n ≡ r = rw e (turn_mod a r n h) in
    let same_length = length-modify (add_code code) r schedule in
    let f' = Fits-modify code a r schedule f in
    rw turn (elim (Bool-cases (ltb (r + 1) n)) [
      | inl more ↦
          Fits-place k a (suc r) n (p + 1) rest next (omega arith) (ground arith) (omega arith)
            (omega arith) f'
      | inr last ↦
          let full : suc r ≡ length next = ground arith in
          Fits-place k (a + 1) 0 n (p + 1) rest next (grind arith) (omega arith) (omega arith)
            (omega arith) (Fits-wrap a next (rw (← full) f'))
    ])
