-- ===== src/Download/Throttle/Budget.antt =====
-- How many bytes the token bucket of ldfd/download/throttle.go lets through, in rounds of `Wait` of any number of
-- workers.
use ldf.Prelude.{ℕ, ◌+◌, ◌*◌, ◌≤◌, if◌then◌else◌, List, [], ◌∷◌, ◌≡◌}
use ldf.Download.Throttle.{second, Limiter, take_tokens}

-- A relative error of one part in this many.
abbrev pub precision : ℕ
precision = 1125899906842624

-- One round of a wait: its time, and the bytes that it is for.
pub record Attempt : Type 0 where
  pub now : ℕ
  pub needed : ℕ

-- The bytes that a sequence of rounds grants.
unfoldable pub taken : Limiter → List Attempt → ℕ
unfolding take_tokens
taken rl [] = 0
taken rl (a ∷ attempts) =
    let (rl', enough) = take_tokens rl a.now a.needed in
    let rest = taken rl' attempts in if enough then a.needed + rest else rest

-- What a limiter has left and has spent is paid for by the time that has gone by.
abbrev Paid : Limiter → Limiter → ℕ → Type 0
Paid rl rl' spent =
    (rl'.bytes_per_sec ≡ rl.bytes_per_sec)
    × ((spent + rl'.tokens) * second * precision
          + rl.last_refill * rl.bytes_per_sec * (precision + 1)
        ≤ rl.tokens * second * precision + rl'.last_refill * rl.bytes_per_sec * (precision + 1))
