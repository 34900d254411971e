-- ===== src/RateLimit/Budget.antt =====
-- How many requests the limiter of ldfd/api/ratelimit.go lets through.
use ldf.Prelude.{
  ℕ, suc, ◌+◌, ◌-◌, ◌≤◌, ◌<◌, Text, text_eq, text_eq_iff, text_eq_sound, text_eq_refl, ltb, ltb→lt,
  Bool, true, false, if◌then◌else◌, List, [], ◌∷◌, none, some, ◌≡◌, subst, arith, All, ◌⊎◌, inl,
  inr, Bool-cases,
}
use Prim.Native.Nat.{min}
use ldf.RateLimit.{Window, RateLimiter, minute, allow}

pub record Request : Type 0 where
  pub at : ℕ
  pub key : Text

-- How many requests of one key are granted in a run of requests of any keys.
unfoldable pub granted : Text → ℕ → RateLimiter → List Request → ℕ
granted key limit rl [] = 0
granted key limit rl (r ∷ rs) =
    let (rl', ok) = allow rl r.at r.key limit in
    let rest = granted key limit rl' rs in
    if text_eq key r.key then (if ok then suc rest else rest) else rest

-- How many requests of one key there are.
unfoldable pub asked : Text → List Request → ℕ
asked key [] = 0
asked key (r ∷ rs) = let rest = asked key rs in if text_eq key r.key then suc rest else rest

pub allow-config :
    (rl : RateLimiter) (now : ℕ) (key : Text) (limit : ℕ)
    → (allow rl now key limit).0.config ≡ rl.config
unfolding allow
allow-config rl now key limit = ground arith

-- A request changes no other key's window.
pub allow-other :
    (rl : RateLimiter) (now : ℕ) (key other : Text) (limit : ℕ)
    → text_eq other key ≡ false
    → (allow rl now key limit).0.windows other ≡ rl.windows other
unfolding allow
allow-other rl now key other limit h = ground (arith, text_eq_iff key other, text_eq_iff other key)

pub allow-live :
    (rl : RateLimiter) (now : ℕ) (key : Text) (limit : ℕ) {w : Window}
    → rl.config.enabled ≡ true
    → rl.windows key ≡ some w
    → now ≤ w.expires_at
    → w.count < limit
    → ((allow rl now key limit).1 ≡ true)
      × ((allow rl now key limit).0.windows key ≡ some (record w { count = suc w.count }))
unfolding allow
allow-live rl now key limit e h k l = ground (arith, text_eq_iff key key)

allow-full :
    (rl : RateLimiter) (now : ℕ) (key : Text) (limit : ℕ) {w : Window}
    → rl.config.enabled ≡ true
    → 0 < limit
    → rl.windows key ≡ some w
    → now ≤ w.expires_at
    → limit ≤ w.count
    → ((allow rl now key limit).1 ≡ false) × ((allow rl now key limit).0.windows key ≡ some w)
unfolding allow
allow-full rl now key limit e p h k l = ground (arith, text_eq_iff key key)

pub allow-fresh :
    (rl : RateLimiter) (now : ℕ) (key : Text) (limit : ℕ)
    → rl.config.enabled ≡ true
    → 0 < limit
    → (rl.windows key ≡ none) ⊎ ((w : Window) × (rl.windows key ≡ some w) × (w.expires_at < now))
    → ((allow rl now key limit).1 ≡ true)
      × ((allow rl now key limit).0.windows key
          ≡ some (record { count = 1; expires_at = now + minute }))
unfolding allow
allow-fresh rl now key limit e p (inl h) = ground (arith, text_eq_iff key key)
allow-fresh rl now key limit e p (inr (w, h, k)) = ground (arith, text_eq_iff key key)

-- What a request of the key does to the key's live window.
abbrev Spent : Text → ℕ → Window → RateLimiter × Bool → Type 0
Spent key limit w (rl, ok) =
    ((ok ≡ true) × (w.count < limit) × (rl.windows key ≡ some (record w { count = suc w.count })))
    ⊎ ((ok ≡ false) × (limit ≤ w.count) × (rl.windows key ≡ some w))

allow-Spent :
    (rl : RateLimiter) (now : ℕ) (key : Text) (limit : ℕ) {w : Window}
    → rl.config.enabled ≡ true
    → 0 < limit
    → rl.windows key ≡ some w
    → now ≤ w.expires_at
    → Spent key limit w (allow rl now key limit)
allow-Spent rl now key limit {w} e p h k = elim (Bool-cases (ltb w.count limit)) [
  | inl l ↦
      let (ok, kept) = allow-live rl now key limit e h k (ltb→lt _ _ l) in
      inl (ok, ltb→lt _ _ l, kept)
  | inr l ↦
      let full : limit ≤ w.count = ground arith in
      let (ok, kept) = allow-full rl now key limit e p h k full in inr (ok, full, kept)
]

-- While a key's window lives, exactly the requests that it has left are granted, whatever the other
-- keys ask.
window_budget :
    (key : Text) (limit : ℕ) (rs : List Request) (rl : RateLimiter) (w : Window)
    → rl.config.enabled ≡ true
    → 0 < limit
    → rl.windows key ≡ some w
    → w.count ≤ limit
    → All (λ r. r.at ≤ w.expires_at) rs
    → granted key limit rl rs ≡ min (asked key rs) (limit - w.count)
unfolding granted asked
window_budget key limit [] rl w e p h c a = omega arith
window_budget key limit (r ∷ rs) rl w e p h c (now, later) = elim (Bool-cases (text_eq key r.key)) [
  | inl same ↦
      let k : key ≡ r.key = text_eq_sound key r.key same in
      let rl' : RateLimiter = (allow rl r.at r.key limit).0 in
      let e' : rl'.config.enabled ≡ true = rw (allow-config rl r.at r.key limit) e in
      let spent : Spent key limit w (allow rl r.at r.key limit) =
        subst (λ j. Spent key limit w (allow rl r.at j limit)) k
          (allow-Spent rl r.at key limit e p h now) in
      elim spent [
        | inl (ok, l, kept) ↦
            rw (same, ok)
              (omega (
                arith,
                window_budget key limit rs rl' (record w { count = suc w.count }) e' p kept l later,
              ))
        | inr (ok, l, kept) ↦
            rw (same, ok) (omega (arith, window_budget key limit rs rl' w e' p kept c later))
      ]
  | inr other ↦ rw other (
      window_budget key limit rs (allow rl r.at r.key limit).0 w
        (rw (allow-config rl r.at r.key limit) e) p
        (rw (allow-other rl r.at r.key key limit other) h) c later)
]

-- Fixed windows: with the limiter on and a positive limit, a run that begins with a request of a key
-- that has no live window, and stays within a minute of it, grants the key as many requests as it
-- asks for, up to the limit, whatever the other keys ask.
pub minute_budget :
    (key : Text) (limit at : ℕ) (rs : List Request) (rl : RateLimiter)
    → rl.config.enabled ≡ true
    → 0 < limit
    → (rl.windows key ≡ none) ⊎ ((w : Window) × (rl.windows key ≡ some w) × (w.expires_at < at))
    → All (λ r. r.at ≤ at + minute) rs
    → granted key limit rl (record { at = at; key = key } ∷ rs) ≡ min (suc (asked key rs)) limit
unfolding granted
minute_budget key limit at rs rl e p h a =
    let (ok, kept) = allow-fresh rl at key limit e p h in
    rw (text_eq_refl key, ok)
      (omega (
        arith,
        window_budget key limit rs (allow rl at key limit).0
            (record { count = 1; expires_at = at + minute }) (rw (allow-config rl at key limit) e) p
            kept p a,
      ))
