-- ===== src/RateLimit.antt =====
-- The rate limiter of ldfd/api/ratelimit.go. The map of windows is a function from keys, the time is
-- a number of nanoseconds. A negative limit, which the code takes as 0, is not represented.
pub mod Budget
pub mod Burst
pub mod Cleanup
use ldf.Prelude.{
  ℕ, ◌+◌, Text, text_eq, Bool, true, false, not, ◌||◌, ltb, leb, ◌==◌, if◌then◌else◌, Option, none,
  some,
}

pub record RateLimitConfig : Type 0 where
  pub enabled : Bool
  pub auth_requests_per_min : ℕ
  pub api_requests_per_min : ℕ
  pub trust_proxy : Bool

unfoldable pub default_rate_limit_config : RateLimitConfig
default_rate_limit_config = record {
  enabled = true;
  auth_requests_per_min = 10;
  api_requests_per_min = 120;
  trust_proxy = false;
}

pub record Window : Type 0 where
  pub count : ℕ
  pub expires_at : ℕ

pub record RateLimiter : Type 0 where
  pub windows : Text → Option Window
  pub config : RateLimitConfig

abbrev pub minute : ℕ
minute = 60000000000

unfoldable pub new_rate_limiter : RateLimitConfig → RateLimiter
new_rate_limiter cfg = record { windows = λ _. none; config = cfg }

abbrev pub store : Text → Window → (Text → Option Window) → Text → Option Window
store key w windows other = if text_eq key other then some w else windows other

-- `now.After(w.expiresAt)`
abbrev pub is_expired : ℕ → Window → Bool
is_expired now w = ltb w.expires_at now

fresh : RateLimiter → ℕ → Text → RateLimiter × Bool
fresh rl now key = (
  record rl { windows = store key (record { count = 1; expires_at = now + minute }) rl.windows },
  true,
)

count_request : RateLimiter → Text → ℕ → Window → RateLimiter × Bool
count_request rl key limit w =
    if leb limit w.count
    then (rl, false)
    else (record rl { windows = store key (record w { count = w.count + 1 }) rl.windows }, true)

unfoldable pub allow : RateLimiter → ℕ → Text → ℕ → RateLimiter × Bool
unfolding fresh count_request text_eq
allow rl now key limit =
    if not rl.config.enabled || limit == 0 then (rl, true) else elim (rl.windows key) [
      | none ↦ fresh rl now key
      | some w ↦ if is_expired now w then fresh rl now key else count_request rl key limit w
    ]

live : ℕ → Option Window → Option Window
live now none = none
live now (some w) = if is_expired now w then none else some w

-- One tick of `cleanup`: the expired windows are deleted.
unfoldable pub cleanup : RateLimiter → ℕ → RateLimiter
unfolding live
cleanup rl now = record rl { windows = λ key. live now (rl.windows key) }
