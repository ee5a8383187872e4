-- ===== src/RateLimit/Samples.antt =====
-- The limit on attempts, over a store that is a function from keys.
use interview_trainer.Prelude.{
  ℕ, ◌+◌, ◌-◌, ◌≡◌, refl, arith, [], ◌∷◌, Option, none, some, String, if◌then◌else◌, ◌==◌,
  string_eq, ==_self, ltb,
}
use interview_trainer.Prelude.Int.{ℤ, pos, negsuc}
use interview_trainer.Exceptions.{ok, err, rate_limited}
use interview_trainer.RateLimit.{Redis, RedisLaws, Limit, check_all}
use interview_trainer.RateLimit.Window.{is_window, expected, check_all_lem}

abbrev Value : Type 0
Value = Option (ℕ × Option ℕ)

-- a value as it stands at a time: none once it has expired
abbrev live : ℕ → Value → Value
live now none = none
live now (some (n, none)) = some (n, none)
live now (some (n, some end)) = if ltb now end then some (n, some end) else none

abbrev put : String → Value → (String → Value) → String → Value
put key value s k = if k == key then value else s k

abbrev counted : Value → ℕ × Value
counted none = (1, some (1, none))
counted (some (n, end)) = (n + 1, some (n + 1, end))

abbrev expiring : ℕ → Value → Value
expiring end none = none
expiring end (some (n, _)) = some (n, some end)

abbrev remaining : ℕ → Value → ℤ
remaining now none = negsuc 1
remaining now (some (n, none)) = negsuc 0
remaining now (some (n, some end)) = pos (end - now)

abbrev table : Redis
table = record {
  Store = String → Value;
  incr = λ now key s. let (n, value) = counted (live now (s key)) in (n, put key value s);
  expire = λ now key seconds s. put key (expiring (now + seconds) (live now (s key))) s;
  ttl = λ now key s. remaining now (live now (s key));
}

table_laws : RedisLaws table
table_laws = record {
  entry = λ now key s. live now (s key);
  incr_new = λ now key s h. (ground arith, ground (arith, ==_self key));
  incr_old = λ now key s n end h. (ground arith, ground (arith, ==_self key));
  expire_at = λ now key seconds s n end one h. ground (arith, ==_self key);
  ttl_left = λ now key s n end h. ground arith;
  kept = λ now later key s n end h k l. ground arith;
}

-- two attempts in a minute
abbrev two_a_minute : Limit
two_a_minute = record { attempts = 2; window_seconds = 60 }

check_all_lem_example :
    check_all table (100 ∷ 110 ∷ 120 ∷ 150 ∷ []) "login:ip" "::1" two_a_minute (λ _. none)
    ≡ expected 2 0 160 (100 ∷ 110 ∷ 120 ∷ 150 ∷ [])
unfolding is_window table_laws
check_all_lem_example =
    check_all_lem table table_laws 100 (110 ∷ 120 ∷ 150 ∷ []) "login:ip" "::1" two_a_minute
      (λ _. none) refl (omega arith) (omega arith) refl

expected_four :
    expected 2 0 160 (100 ∷ 110 ∷ 120 ∷ 150 ∷ [])
    ≡ ok tt ∷ ok tt ∷ err (rate_limited 40) ∷ err (rate_limited 10) ∷ []
unfolding expected
expected_four = refl
