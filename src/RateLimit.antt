-- ===== src/RateLimit.antt =====
-- internal/middleware/ratelimit.go: a token bucket for each tenant, and one for all. The bucket of
-- golang.org/x/time/rate is a parameter. Times are nanoseconds.
pub mod Bounds
pub mod Tests
use agentic_paasd.Prelude.{
  ℕ, ◌+◌, ◌-◌, ◌*◌, ◌/◌, Bool, true, false, Option, none, some, List, Text, is_empty, drop_all, ltb,
  if◌then◌else◌,
}
use agentic_paasd.BoundedMap.{get, put, evict}

abbrev pub max_rate_limit_entries : ℕ
max_rate_limit_entries = 10000

-- rate.Limiter: a new one, Allow, and the delay that a reservation would have.
pub record Buckets (B : Type 0) : Type 0 where
  pub new_limiter : B
  pub take : ℕ → B → Bool × B
  pub delay : ℕ → B → ℕ

-- rateLimitEntry
pub record RateLimitEntry (B : Type 0) : Type 0 where
  pub limiter : B
  pub last_seen : ℕ

pub data Verdict : Type 0 where
  -- next.ServeHTTP
  served : Verdict
  internal_error : Verdict
  -- 429, with Retry-After in seconds
  too_many : ℕ → Verdict

-- retryAfterFromLimiter, of the delay
abbrev pub retry_after : ℕ → ℕ
retry_after delay =
    let secs = (delay + 999999999) / 1000000000 in
    if ltb secs 1 then 1 else if ltb 60 secs then 60 else secs

module _ {B : Type 0} (b : Buckets B) where
  abbrev pub RateLimiter : Type 0
  RateLimiter = List (Text × RateLimitEntry B)

  abbrev pub entry_at : ℕ → B → RateLimitEntry B
  entry_at now l = record { limiter = l; last_seen = now }

  abbrev pub limiter_of : ℕ → Text → Option (RateLimitEntry B) → RateLimiter → B × RateLimiter
  limiter_of now key (some e) m = (e.limiter, put key (entry_at now e.limiter) m)
  limiter_of now key none m = (
    b.new_limiter,
    put key (entry_at now b.new_limiter) (evict max_rate_limit_entries (λ e. e.last_seen) m),
  )

  -- (*RateLimiter).getLimiter
  unfoldable pub get_limiter : ℕ → Text → RateLimiter → B × RateLimiter
  get_limiter now key m = limiter_of now key (get key m) m

  abbrev pub verdict_of : ℕ → Bool × B → Verdict
  verdict_of now (ok, l) = if ok then served else too_many (retry_after (b.delay now l))

  -- The limiter in the map is the one that Allow changes.
  abbrev pub serve : ℕ → Text → B × RateLimiter → Verdict × RateLimiter
  serve now tenant (l, m) =
      (verdict_of now (b.take now l), put tenant (entry_at now (b.take now l).1) m)

  -- (*RateLimiter).Middleware, for the tenant of the context
  unfoldable pub middleware : ℕ → Text → RateLimiter → Verdict × RateLimiter
  middleware now tenant m =
      if is_empty tenant then (internal_error, m) else serve now tenant (get_limiter now tenant m)

  -- (*GlobalRateLimiter).Middleware
  unfoldable pub global_middleware : ℕ → B → Verdict × B
  global_middleware now l = (verdict_of now (b.take now l), (b.take now l).1)

  -- One turn of (*RateLimiter).cleanup.
  unfoldable pub cleanup : ℕ → RateLimiter → RateLimiter
  cleanup now m = drop_all (λ e. ltb e.1.last_seen (now - 3600 * 1000000000)) m
