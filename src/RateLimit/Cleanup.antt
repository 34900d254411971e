-- ===== src/RateLimit/Cleanup.antt =====
-- The cleanup of ldfd/api/ratelimit.go cannot be seen from outside.
use ldf.Prelude.{
  ℕ, ◌≤◌, Text, text_eq_iff, true, List, [], ◌∷◌, Option, none, some, Bool-cases, ◌≡◌, ◌⊎◌, inl,
  inr, arith, All, refl,
}
use ldf.RateLimit.{Window, RateLimiter, is_expired, allow, cleanup, live}
use ldf.RateLimit.Budget.{Request, granted}

-- The second limiter lacks nothing but windows that have expired by `t`.
record IsCleaned (t : ℕ) (rl rl' : RateLimiter) : Type 0 where
  config : rl'.config ≡ rl.config
  windows :
      (key : Text)
      → (rl'.windows key ≡ rl.windows key)
        ⊎ ((rl'.windows key ≡ none)
            × ((w : Window) × (rl.windows key ≡ some w) × (is_expired t w ≡ true)))

live-cases :
    (t : ℕ) (o : Option Window)
    → (live t o ≡ o) ⊎ ((live t o ≡ none) × ((w : Window) × (o ≡ some w) × (is_expired t w ≡ true)))
unfolding live
live-cases t none = inl refl
live-cases t (some w) = elim (Bool-cases (is_expired t w)) [
  | inl e ↦ inr (rw e, (w, refl, e))
  | inr e ↦ inl (rw e)
]

cleanup-IsCleaned : (rl : RateLimiter) (t : ℕ) → IsCleaned t rl (cleanup rl t)
unfolding cleanup
cleanup-IsCleaned rl t = record { config = refl; windows = λ key. live-cases t (rl.windows key) }

allow-IsCleaned :
    (rl rl' : RateLimiter) (t now : ℕ) (key : Text) (limit : ℕ)
    → t ≤ now
    → IsCleaned t rl rl'
    → ((allow rl' now key limit).1 ≡ (allow rl now key limit).1)
      × IsCleaned t (allow rl now key limit).0 (allow rl' now key limit).0
unfolding allow
allow-IsCleaned rl rl' t now key limit h c = (
  ground (arith, c.windows key),
  record {
    config = ground (arith, c.windows key);
    windows = λ other. ground (arith, c.windows key, c.windows other, text_eq_iff key other);
  },
)

granted-IsCleaned :
    (key : Text) (limit t : ℕ) (rs : List Request) (rl rl' : RateLimiter)
    → All (λ r. t ≤ r.at) rs
    → IsCleaned t rl rl'
    → granted key limit rl' rs ≡ granted key limit rl rs
unfolding granted
granted-IsCleaned key limit t [] rl rl' h c = refl
granted-IsCleaned key limit t (r ∷ rs) rl rl' h c =
    let (same, c') = allow-IsCleaned rl rl' t r.at r.key limit h.0 c in
    rw (
      same,
      granted-IsCleaned key limit t rs (allow rl r.at r.key limit).0 (allow rl' r.at r.key limit).0
          h.1 c',
    )

-- Deleting the expired windows changes no answer: a run of requests that begins no earlier than the
-- cleanup grants every key as many requests after it as without it.
pub granted-cleanup :
    (key : Text) (limit t : ℕ) (rs : List Request) (rl : RateLimiter)
    → All (λ r. t ≤ r.at) rs
    → granted key limit (cleanup rl t) rs ≡ granted key limit rl rs
granted-cleanup key limit t rs rl h =
    granted-IsCleaned key limit t rs rl (cleanup rl t) h (cleanup-IsCleaned rl t)
