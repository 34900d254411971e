-- ===== src/RateLimit/Burst.antt =====
-- Two windows of the rate limiter of ldfd/api/ratelimit.go side by side.
use ldf.Prelude.{
  ℕ, zero, suc, ◌+◌, ◌≤◌, Text, text_eq_refl, true, List, [], ◌∷◌, ◌++◌, none, some, ◌≡◌, refl,
  append-nil, arith, inl, inr, replicate,
}
use ldf.RateLimit.{Window, RateLimiter, minute, allow}
use ldf.RateLimit.Budget.{Request, granted, allow-config, allow-live, allow-fresh}

abbrev pub request : Text → ℕ → Request
request key at = record { at = at; key = key }

-- One request a minute before the window's end, the rest of the budget at its end, and the whole
-- budget of the next window right behind it.
abbrev pub burst : Text → ℕ → ℕ → List Request
burst key l at =
    request key at
    ∷ (replicate l (request key (at + minute)) ++ replicate (suc l) (request key (at + minute + 1)))

module _ (key : Text) (limit : ℕ) where
  granted-nil : (rl : RateLimiter) → granted key limit rl [] ≡ 0
  unfolding granted
  granted-nil rl = refl

  granted-cons :
      (now : ℕ) (rs : List Request) (rl : RateLimiter)
      → (allow rl now key limit).1 ≡ true
      → granted key limit rl (request key now ∷ rs)
        ≡ suc (granted key limit (allow rl now key limit).0 rs)
  unfolding granted
  granted-cons now rs rl ok = rw (text_eq_refl key, ok)

  -- All of n requests that fit into a live window are granted; the run goes on with n more counted.
  granted-replicate :
      (n now : ℕ) (rs : List Request) (rl : RateLimiter) (w : Window)
      → rl.config.enabled ≡ true
      → rl.windows key ≡ some w
      → now ≤ w.expires_at
      → w.count + n ≤ limit
      → (rl' : RateLimiter) × (rl'.config.enabled ≡ true)
        × (rl'.windows key ≡ some (record w { count = w.count + n }))
        × (granted key limit rl (replicate n (request key now) ++ rs)
            ≡ n + granted key limit rl' rs)
  unfolding granted
  granted-replicate zero now rs rl w e h k l = (rl, e, ground arith, ground arith)
  granted-replicate (suc n) now rs rl w e h k l =
      let (ok, kept) = allow-live rl now key limit e h k (omega arith) in
      let (rl', e', h', g) =
        granted-replicate n now rs (allow rl now key limit).0 (record w { count = suc w.count })
          (rw (allow-config rl now key limit) e) kept k (omega arith) in
      (rl', e', ground arith, rw (text_eq_refl key, ok) (ground arith))

-- For every limit and every key with no window, twice the limit is granted within a minute and a
-- nanosecond, all but one of these requests within the last nanosecond.
pub granted-burst :
    (key : Text) (l at : ℕ) (rl : RateLimiter)
    → rl.config.enabled ≡ true
    → rl.windows key ≡ none
    → granted key (suc l) rl (burst key l at) ≡ suc l + suc l
granted-burst key l at rl e h =
    let late = at + minute + 1 in
    let rl₁ = (allow rl at key (suc l)).0 in
    let (ok₁, kept₁) = allow-fresh rl at key (suc l) e (omega arith) (inl h) in
    let (rl₂, e₂, kept₂, g₂) =
      granted-replicate key (suc l) l (at + minute) (replicate (suc l) (request key late)) rl₁
        (record { count = 1; expires_at = at + minute }) (rw (allow-config rl at key (suc l)) e)
        kept₁ (omega arith) (omega arith) in
    let rl₃ = (allow rl₂ late key (suc l)).0 in
    let (ok₃, kept₃) =
      allow-fresh rl₂ late key (suc l) e₂ (omega arith) (inr (_, kept₂, omega arith)) in
    let (rl₄, e₄, kept₄, g₄) =
      granted-replicate key (suc l) l late [] rl₃ (record { count = 1; expires_at = late + minute })
        (rw (allow-config rl₂ late key (suc l)) e₂) kept₃ (omega arith) (omega arith) in
    omega (
      arith,
      granted-cons key (suc l) at
          (replicate l (request key (at + minute)) ++ replicate (suc l) (request key late)) rl ok₁,
      g₂,
      granted-cons key (suc l) late (replicate l (request key late)) rl₂ ok₃,
      rw append-nil at g₄,
      granted-nil key (suc l) rl₄,
    )
