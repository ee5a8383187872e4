-- ===== src/RateLimit.antt =====
-- backend/app/core/rate_limit.py: the limit on attempts. Redis is the interface `Redis`: a store
-- whose commands are given the time, in seconds, at which they run.
pub mod Window
mod Samples
use Prim.Native.String.{◌++◌}
use interview_trainer.Prelude.{
  ℕ, ◌+◌, ◌-◌, ◌≡◌, ◌≤◌, ◌<◌, Bool, true, false, List, [], ◌∷◌, Option, none, some, String,
  if◌then◌else◌, ◌==◌, nat_eq, ltb,
}
use interview_trainer.Prelude.Int.{ℤ, pos, negsuc}
use interview_trainer.Exceptions.{Error, Result, ok, err, rate_limited}

-- the commands that are used: `INCR`, `EXPIRE` and `TTL`
pub record Redis : Type 1 where
  pub Store : Type 0
  pub incr : ℕ → String → Store → ℕ × Store
  pub expire : ℕ → String → ℕ → Store → Store
  pub ttl : ℕ → String → Store → ℤ

-- What the commands are documented to do. `entry` is the number under a key and the time at which
-- it expires, if it does.
pub record RedisLaws (redis : Redis) : Type 0 where
  pub entry : ℕ → String → redis.Store → Option (ℕ × Option ℕ)
  pub incr_new :
      (now : ℕ) (key : String) (s : redis.Store)
      → entry now key s ≡ none
      → ((redis.incr now key s).0 ≡ 1) × (entry now key (redis.incr now key s).1 ≡ some (1, none))
  pub incr_old :
      (now : ℕ) (key : String) (s : redis.Store) (n : ℕ) (end : Option ℕ)
      → entry now key s ≡ some (n, end)
      → ((redis.incr now key s).0 ≡ n + 1)
        × (entry now key (redis.incr now key s).1 ≡ some (n + 1, end))
  pub expire_at :
      (now : ℕ) (key : String) (seconds : ℕ) (s : redis.Store) (n : ℕ) (end : Option ℕ)
      → 1 ≤ seconds
      → entry now key s ≡ some (n, end)
      → entry now key (redis.expire now key seconds s) ≡ some (n, some (now + seconds))
  pub ttl_left :
      (now : ℕ) (key : String) (s : redis.Store) (n end : ℕ)
      → entry now key s ≡ some (n, some end)
      → redis.ttl now key s ≡ pos (end - now)
  pub kept :
      (now later : ℕ) (key : String) (s : redis.Store) (n end : ℕ)
      → entry now key s ≡ some (n, some end)
      → now ≤ later
      → later < end
      → entry later key s ≡ some (n, some end)

pub record Limit : Type 0 where
  pub attempts : ℕ
  pub window_seconds : ℕ

abbrev pub login : Limit
login = record { attempts = 10; window_seconds = 300 }

abbrev pub register : Limit
register = record { attempts = 5; window_seconds = 3600 }

-- `ttl if ttl > 0 else limit.window_seconds`
unfoldable pub retry_after : ℤ → ℕ → ℕ
retry_after (pos n) window = if n == 0 then window else n
retry_after (negsuc _) window = window

unfoldable pub ratelimit_key : String → String → String
ratelimit_key scope identity = "ratelimit:" ++ scope ++ ":" ++ identity

module _ (redis : Redis) where
  open redis use {Store, incr, expire, ttl}

  -- The end of `check`, after `used` attempts.
  unfoldable pub verdict : ℕ → String → Limit → ℕ → Store → Result Error (Unit {0})
  unfolding retry_after
  verdict now key limit used s =
      if ltb limit.attempts used
      then err (rate_limited (retry_after (ttl now key s) limit.window_seconds))
      else ok tt

  unfoldable pub check : ℕ → String → String → Limit → Store → Result Error (Unit {0}) × Store
  unfolding verdict
  check now scope identity limit s =
      let key = ratelimit_key scope identity in
      let (used, counted) = incr now key s in
      let s' = if used == 1 then expire now key limit.window_seconds counted else counted in
      (verdict now key limit used s', s')

  -- The verdicts on attempts at some times, of one scope and identity.
  unfoldable pub check_all :
      List ℕ → String → String → Limit → Store → List (Result Error (Unit {0}))
  unfolding check
  check_all [] scope identity limit s = []
  check_all (now ∷ times) scope identity limit s =
      let (result, s') = check now scope identity limit s in
      result ∷ check_all times scope identity limit s'
