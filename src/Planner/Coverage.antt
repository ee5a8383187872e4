-- ===== src/Planner/Coverage.antt =====
-- Which topics `_distribute` gives a day (backend/app/services/planner.py).
use Prim.Native.Nat.{min}
use native.Mathlib.Nat.{mod-lt}
use interview_trainer.Prelude.{
  ℕ, zero, suc, ◌+◌, ◌*◌, ◌%◌, ◌≤◌, ◌<◌, ◌≡◌, refl, some, arith, List, [], ◌∷◌, length, true,
  String, contains, contains-append, contains-append_self, string_eq, any, map, Bool-cases, inl,
  inr, Bool, ==_iff, ◌==◌, ap, ◌∙◌, length-map,
}
use interview_trainer.Planner.{add_code, modify, place, top_up, distribute, empty_days}
use interview_trainer.Planner.Sequence.{fill_total, contains-fill_all}

-- the code stands in some day
abbrev pub covered : List (List String) → String → Bool
covered schedule code = any (λ day. contains day code) schedule

pub contains-add_code_self :
    (code : String) (day : List String) → contains (add_code code day) code ≡ true
unfolding add_code
contains-add_code_self code day = ground (arith, contains-append_self day code)

contains-add_code :
    (new code : String) (day : List String)
    → contains day code ≡ true
    → contains (add_code new day) code ≡ true
unfolding add_code
contains-add_code new code day h = ground (arith, contains-append day (new ∷ []) code)

covered-modify_self :
    (code : String) (i : ℕ) (schedule : List (List String))
    → i < length schedule
    → covered (modify (add_code code) i schedule) code ≡ true
unfolding modify any
covered-modify_self code i [] h = elim h [ ]
covered-modify_self code zero (day ∷ days) h = ground (arith, contains-add_code_self code day)
covered-modify_self code (suc i) (day ∷ days) h = ground (arith, covered-modify_self code i days)

covered-modify :
    (new code : String) (i : ℕ) (schedule : List (List String))
    → covered schedule code ≡ true
    → covered (modify (add_code new) i schedule) code ≡ true
unfolding modify any
covered-modify new code i [] h = h
covered-modify new code zero (day ∷ days) h = ground (arith, contains-add_code new code day)
covered-modify new code (suc i) (day ∷ days) h = ground (arith, covered-modify new code i days)

pub length-modify :
    (f : List String → List String) (i : ℕ) (schedule : List (List String))
    → length (modify f i schedule) ≡ length schedule
unfolding modify
length-modify f i [] = refl
length-modify f zero (day ∷ days) = refl
length-modify f (suc i) (day ∷ days) = ap suc (length-modify f i days)

pub length-place :
    (position day_count : ℕ) (sequence : List String) (schedule : List (List String))
    → length (place position day_count sequence schedule) ≡ length schedule
unfolding place
length-place position day_count [] schedule = refl
length-place position day_count (code ∷ rest) schedule =
    length-place (position + 1) day_count rest _ ∙ length-modify _ _ schedule

covered-place_kept :
    (position day_count : ℕ) (sequence : List String) (schedule : List (List String))
    (code : String)
    → covered schedule code ≡ true
    → covered (place position day_count sequence schedule) code ≡ true
unfolding place
covered-place_kept position day_count [] schedule code h = h
covered-place_kept position day_count (new ∷ rest) schedule code h =
    covered-place_kept (position + 1) day_count rest _ code (covered-modify new code _ schedule h)

-- Every code of the sequence is put into a day.
covered-place :
    (position day_count : ℕ) (sequence : List String) (schedule : List (List String))
    (code : String)
    → length schedule ≡ day_count
    → 1 ≤ day_count
    → contains sequence code ≡ true
    → covered (place position day_count sequence schedule) code ≡ true
unfolding place contains
covered-place position day_count [] schedule code e h k = cc
covered-place position day_count (new ∷ rest) schedule code e h k =
    elim (Bool-cases (new == code)) [
      | inl here ↦ covered-place_kept (position + 1) day_count rest _ code (
          rw (← (==_iff new code).0 here)
            (covered-modify_self new (position % day_count) schedule (grind (arith, mod-lt))))
      | inr other ↦
          covered-place (position + 1) day_count rest _ code (length-modify _ _ schedule ∙ e) h
            (ground arith)
    ]

pub contains-top_up :
    (per_day : ℕ) (codes day : List String) (code : String)
    → contains day code ≡ true
    → contains (top_up per_day codes day) code ≡ true
unfolding top_up
contains-top_up per_day [] day code h = h
contains-top_up per_day (new ∷ codes) day code h =
    ground
      (arith, contains-top_up per_day codes (add_code new day) code, contains-add_code new code day)

covered-top_up :
    (per_day : ℕ) (codes : List String) (schedule : List (List String)) (code : String)
    → covered schedule code ≡ true
    → covered (map (top_up per_day codes) schedule) code ≡ true
unfolding any
covered-top_up per_day codes [] code h = h
covered-top_up per_day codes (day ∷ days) code h =
    ground (arith, covered-top_up per_day codes days code, contains-top_up per_day codes day code)

pub length-empty_days : (n : ℕ) → length (empty_days n) ≡ n
unfolding empty_days
length-empty_days zero = refl
length-empty_days (suc n) = ap suc (length-empty_days n)

pub one_le_of_contains : (xs : List String) (x : String) → contains xs x ≡ true → 1 ≤ length xs
unfolding contains
one_le_of_contains [] x h = cc
one_le_of_contains (y ∷ ys) x h = omega arith

-- With at least as many slots as topics, the schedule has all the days and every topic a day.
pub distribute-covers :
    (codes : List String) (day_count : ℕ) (code : String)
    → length codes ≤ day_count * min 3 (length codes)
    → contains codes code ≡ true
    → (schedule : List (List String)) × (distribute codes day_count ≡ some schedule)
      × (length schedule ≡ day_count)
      × (covered schedule code ≡ true)
unfolding distribute
distribute-covers codes day_count code h c =
    let n = one_le_of_contains codes code c in
    let total = day_count * min 3 (length codes) in
    let (sequence, filled, slots) =
      fill_total (suc total) total codes [] (omega arith) (omega arith) n in
    let placed = place 0 day_count sequence (empty_days day_count) in
    (
      map (top_up (min 3 (length codes)) codes) placed,
      rw (filled, distribute),
      length-map _ placed ∙ length-place 0 day_count sequence _ ∙ length-empty_days day_count,
      covered-top_up _ codes placed code (
          covered-place 0 day_count sequence _ code (length-empty_days day_count) (grind arith)
            (contains-fill_all total codes code sequence filled n h c)),
    )
