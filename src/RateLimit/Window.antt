-- ===== src/RateLimit/Window.antt =====
-- What one window lets through (`check`, backend/app/core/rate_limit.py).
use interview_trainer.Prelude.{
  ℕ, ◌+◌, ◌-◌, ◌≡◌, ◌≤◌, ◌<◌, refl, arith, Bool, true, ◌&&◌, List, [], ◌∷◌, none, some, String,
  if◌then◌else◌, nat_eq, ltb, leb,
}
use interview_trainer.Exceptions.{Error, Result, ok, err, rate_limited}
use interview_trainer.RateLimit.{
  Redis, RedisLaws, Limit, retry_after, ratelimit_key, verdict, check, check_all,
}

-- times that do not fall, from `start` on and before `end`
unfoldable pub is_window : ℕ → ℕ → List ℕ → Bool
is_window start end [] = true
is_window start end (now ∷ times) = leb start now && (ltb now end && is_window now end times)

-- What the limit is to say on attempts before `end`, of which `used` were made: the first
-- `attempts` pass, each later one is told to wait for the end.
unfoldable pub expected : ℕ → ℕ → ℕ → List ℕ → List (Result Error (Unit {0}))
expected attempts used end [] = []
expected attempts used end (now ∷ times) =
    (if ltb used attempts then ok tt else err (rate_limited (end - now)))
    ∷ expected attempts (used + 1) end times

module _ (redis : Redis) (laws : RedisLaws redis) where
  -- an attempt inside an open window
  check-inside :
      (now : ℕ) (scope identity : String) (limit : Limit) (s : redis.Store) (n end : ℕ)
      → laws.entry now (ratelimit_key scope identity) s ≡ some (n, some end)
      → 1 ≤ n
      → now < end
      → ((check redis now scope identity limit s).0
          ≡ (if ltb n limit.attempts then ok tt else err (rate_limited (end - now))))
        × (laws.entry now (ratelimit_key scope identity) (check redis now scope identity limit s).1
            ≡ some (n + 1, some end))
  unfolding check verdict retry_after
  check-inside now scope identity limit s n end h one inside =
      let key = ratelimit_key scope identity in
      let (used, counted) = laws.incr_old now key s n (some end) h in
      let left = laws.ttl_left now key (redis.incr now key s).1 (n + 1) end counted in
      (ground (arith, used, left), ground (arith, used, counted))

  check_all-inside :
      (times : List ℕ) (start : ℕ) (scope identity : String) (limit : Limit) (s : redis.Store)
      (n end : ℕ)
      → laws.entry start (ratelimit_key scope identity) s ≡ some (n, some end)
      → 1 ≤ n
      → is_window start end times ≡ true
      → check_all redis times scope identity limit s ≡ expected limit.attempts n end times
  unfolding check_all expected is_window
  check_all-inside [] start scope identity limit s n end h one w = refl
  check_all-inside (now ∷ times) start scope identity limit s n end h one w =
      let key = ratelimit_key scope identity in
      let here = laws.kept start now key s n end h (ground arith) (ground arith) in
      let (result, after) = check-inside now scope identity limit s n end here one (ground arith) in
      let rest =
        check_all-inside times now scope identity limit (check redis now scope identity limit s).1
          (n + 1) end after (omega arith) (ground arith) in
      ground (arith, result, rest)

  -- For a limit of an attempt or more in a second or more, and from a key without a count, of attempts whose times do not fall and stay inside the window that
  -- the first one opens exactly the first `attempts` pass, however many follow; each later one is
  -- told to wait for the end of the window, which no attempt moves.
  pub check_all_lem :
      (now : ℕ) (times : List ℕ) (scope identity : String) (limit : Limit) (s : redis.Store)
      → laws.entry now (ratelimit_key scope identity) s ≡ none
      → 1 ≤ limit.attempts
      → 1 ≤ limit.window_seconds
      → is_window now (now + limit.window_seconds) times ≡ true
      → check_all redis (now ∷ times) scope identity limit s
        ≡ expected limit.attempts 0 (now + limit.window_seconds) (now ∷ times)
  unfolding check_all expected check verdict
  check_all_lem now times scope identity limit s h some_attempts some_window w =
      let key = ratelimit_key scope identity in
      let (used, counted) = laws.incr_new now key s h in
      let opened =
        laws.expire_at now key limit.window_seconds (redis.incr now key s).1 1 none some_window
          counted in
      let rest =
        check_all-inside times now scope identity limit
          (redis.expire now key limit.window_seconds (redis.incr now key s).1) 1
          (now + limit.window_seconds) opened (omega arith) w in
      ground (arith, used, rest)
