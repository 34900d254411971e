-- ===== src/Tests/Requests.antt =====
-- Requests to the rate limiter of ldfd/api/ratelimit.go.
use ldf.Prelude.{suc, codes, true, false, List, [], ◌∷◌, none, some, ◌≡◌, inl, refl, arith}
use Prim.Native.Nat.{min}
use ldf.RateLimit.{RateLimiter, cleanup}
use ldf.RateLimit.Budget.{Request, granted, asked, minute_budget}
use ldf.RateLimit.Burst.{burst, request, granted-burst}
use ldf.RateLimit.Cleanup.{granted-cleanup}

abbrev limiter : RateLimiter
limiter = record {
  windows = λ _. some (record { count = 1; expires_at = 100 });
  config = record {
    enabled = true;
    auth_requests_per_min = 10;
    api_requests_per_min = 120;
    trust_proxy = false;
  };
}

abbrev empty_limiter : RateLimiter
empty_limiter = record limiter { windows = λ _. none }

abbrev three_requests : List Request
three_requests = request (codes "a") 50 ∷ request (codes "b") 60 ∷ request (codes "a") 70 ∷ []

minute_budget_example :
    granted (codes "a") 2 empty_limiter (record { at = 40; key = codes "a" } ∷ three_requests)
    ≡ min (suc (asked (codes "a") three_requests)) 2
minute_budget_example =
    minute_budget (codes "a") 2 40 three_requests empty_limiter refl (omega arith) (inl refl)
      (omega arith)

granted-burst_example : granted (codes "a") 4 empty_limiter (burst (codes "a") 3 0) ≡ 8
granted-burst_example = granted-burst (codes "a") 3 0 empty_limiter refl refl

granted-cleanup_example :
    granted (codes "a") 2 (cleanup limiter 50) three_requests
    ≡ granted (codes "a") 2 limiter three_requests
granted-cleanup_example = granted-cleanup (codes "a") 2 50 three_requests limiter (omega arith)
