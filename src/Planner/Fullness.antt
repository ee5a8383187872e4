-- ===== src/Planner/Fullness.antt =====
-- Every day of `_distribute` is full, and names no topic twice
-- (backend/app/services/planner.py).
use Prim.Native.Nat.{min}
use interview_trainer.Prelude.{
  ℕ, zero, suc, ◌+◌, ◌*◌, ◌%◌, ◌≤◌, ◌<◌, ◌≡◌, refl, some, arith, List, [], ◌∷◌, ◌++◌, length, true,
  false, ◌&&◌, String, contains, contains-append, string_eq, nat_eq, map, distinct, all, ◌==◌, ◌∙◌,
  length-map, Bool, eq_iff, if◌then◌else◌,
}
use interview_trainer.Planner.{add_code, modify, place, top_up, distribute, empty_days}
use interview_trainer.Planner.Sequence.{fill_total}
use interview_trainer.Planner.Coverage.{
  length-empty_days, length-place, contains-add_code_self, contains-top_up,
}
use interview_trainer.Planner.Load.{Fits, Fits-place, length-add_code-le}

-- a list without the first `x`
remove : String → List String → List String
remove x [] = []
remove x (y ∷ ys) = let rest = remove x ys in if y == x then ys else y ∷ rest

length-remove :
    (x : String) (ys : List String) → contains ys x ≡ true → length (remove x ys) + 1 ≡ length ys
unfolding remove contains
length-remove x [] h = cc
length-remove x (y ∷ ys) h = ground (arith, length-remove x ys)

contains-remove :
    (x z : String) (ys : List String)
    → (x == z) ≡ false
    → contains ys z ≡ true
    → contains (remove x ys) z ≡ true
unfolding remove contains
contains-remove x z [] d h = h
contains-remove x z (y ∷ ys) d h =
    ground (arith, contains-remove x z ys, eq_iff y x, eq_iff y z, eq_iff x z)

all-contains-remove :
    (x : String) (zs ys : List String)
    → contains zs x ≡ false
    → all (contains ys) zs ≡ true
    → all (contains (remove x ys)) zs ≡ true
unfolding all contains
all-contains-remove x [] ys d h = refl
all-contains-remove x (z ∷ zs) ys d h =
    ground (arith, all-contains-remove x zs ys, contains-remove x z ys, eq_iff z x, eq_iff x z)

-- Different values in a list number no more than it has places.
length-le_of_distinct :
    (xs ys : List String) → distinct xs ≡ true → all (contains ys) xs ≡ true → length xs ≤ length ys
unfolding distinct all
length-le_of_distinct [] ys d h = omega arith
length-le_of_distinct (x ∷ xs) ys d h =
    ground (
      arith,
      length-le_of_distinct xs (remove x ys),
      all-contains-remove x xs ys,
      length-remove x ys,
    )

distinct-snoc :
    (day : List String) (code : String)
    → distinct day ≡ true
    → contains day code ≡ false
    → distinct (day ++ code ∷ []) ≡ true
unfolding distinct contains
distinct-snoc [] code d h = refl
distinct-snoc (x ∷ xs) code d h =
    ground
      (arith, distinct-snoc xs code, contains-append xs (code ∷ []) x, eq_iff x code, eq_iff code x)

distinct-add_code :
    (code : String) (day : List String) → distinct day ≡ true → distinct (add_code code day) ≡ true
unfolding add_code
distinct-add_code code day d = ground (arith, distinct-snoc day code)

AllDistinct-modify :
    (code : String) (i : ℕ) (schedule : List (List String))
    → all distinct schedule ≡ true
    → all distinct (modify (add_code code) i schedule) ≡ true
unfolding modify all
AllDistinct-modify code i [] h = h
AllDistinct-modify code zero (day ∷ days) h = ground (arith, distinct-add_code code day)
AllDistinct-modify code (suc i) (day ∷ days) h = ground (arith, AllDistinct-modify code i days)

AllDistinct-place :
    (p n : ℕ) (sequence : List String) (schedule : List (List String))
    → all distinct schedule ≡ true
    → all distinct (place p n sequence schedule) ≡ true
unfolding place
AllDistinct-place p n [] schedule h = h
AllDistinct-place p n (code ∷ rest) schedule h =
    AllDistinct-place (p + 1) n rest _ (AllDistinct-modify code (p % n) schedule h)

distinct-top_up :
    (k : ℕ) (codes day : List String) → distinct day ≡ true → distinct (top_up k codes day) ≡ true
unfolding top_up
distinct-top_up k [] day d = d
distinct-top_up k (code ∷ codes) day d =
    ground (arith, distinct-top_up k codes (add_code code day), distinct-add_code code day)

length-top_up-le :
    (k : ℕ) (codes day : List String) → length day ≤ k → length (top_up k codes day) ≤ k
unfolding top_up
length-top_up-le k [] day h = h
length-top_up-le k (code ∷ codes) day h =
    ground (arith, length-top_up-le k codes (add_code code day), length-add_code-le code day)

-- A top-up that stops short of a full day has put in every code.
top_up_short :
    (k : ℕ) (codes day : List String)
    → length (top_up k codes day) < k
    → all (contains (top_up k codes day)) codes ≡ true
unfolding top_up all
top_up_short k [] day h = refl
top_up_short k (code ∷ codes) day h = ground (
  arith,
  top_up_short k codes (add_code code day),
  contains-top_up k codes (add_code code day) code,
  contains-add_code_self code day,
)

length-top_up :
    (k : ℕ) (codes day : List String)
    → distinct codes ≡ true
    → k ≤ length codes
    → length day ≤ k
    → length (top_up k codes day) ≡ k
length-top_up k codes day d n h = ground (
  arith,
  length-top_up-le k codes day,
  top_up_short k codes day,
  length-le_of_distinct codes (top_up k codes day) d,
)

abbrev pub is_full : ℕ → List String → Bool
is_full k day = length day == k && distinct day

all-top_up :
    (k : ℕ) (codes : List String) (schedule : List (List String))
    → distinct codes ≡ true
    → k ≤ length codes
    → Fits k 0 schedule
    → all distinct schedule ≡ true
    → all (is_full k) (map (top_up k codes) schedule) ≡ true
unfolding all
all-top_up k codes [] d n f a = refl
all-top_up k codes (day ∷ days) d n f a = ground (
  arith,
  all-top_up k codes days d n f.1,
  length-top_up k codes day d n f.0,
  distinct-top_up k codes day,
)

Fits-empty_days : (n : ℕ) → Fits 0 0 (empty_days n)
unfolding empty_days
Fits-empty_days zero = tt
Fits-empty_days (suc n) = (omega arith, Fits-empty_days n)

AllDistinct-empty_days : (n : ℕ) → all distinct (empty_days n) ≡ true
unfolding empty_days all distinct
AllDistinct-empty_days zero = refl
AllDistinct-empty_days (suc n) = AllDistinct-empty_days n

-- For one day or more and one topic or more, all different, the loop ends, and every day has three
-- different topics, or all of them if there are fewer.
pub distribute-is_full :
    (codes : List String) (day_count : ℕ)
    → 1 ≤ length codes
    → 1 ≤ day_count
    → distinct codes ≡ true
    → (schedule : List (List String)) × (distribute codes day_count ≡ some schedule)
      × (length schedule ≡ day_count)
      × (all (is_full (min 3 (length codes))) schedule ≡ true)
unfolding distribute
distribute-is_full codes day_count one some_days d =
    let k = min 3 (length codes) in
    let total = day_count * k in
    let (sequence, filled, slots) =
      fill_total (suc total) total codes [] (omega arith) (omega arith) one in
    let start = empty_days day_count in
    let placed = place 0 day_count sequence start in
    let same_days = length-empty_days day_count in
    let fits =
      Fits-place k 0 0 day_count 0 sequence start (omega arith) some_days same_days (grind arith)
        (Fits-empty_days day_count) in
    (
      map (top_up k codes) placed,
      rw (filled, distribute),
      length-map _ placed ∙ length-place 0 day_count sequence start ∙ same_days,
      all-top_up k codes placed d (omega arith) fits
          (AllDistinct-place 0 day_count sequence start (AllDistinct-empty_days day_count)),
    )
