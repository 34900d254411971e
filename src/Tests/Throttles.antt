-- ===== src/Tests/Throttles.antt =====
-- The token bucket of ldfd/download/throttle.go on concrete runs.
use ldf.Prelude.{false, List, [], ◌∷◌, none, some, ◌≡◌, refl}
use ldf.Download.Throttle.{
  Limiter, granted, new_rate_limiter, new_tokens_of, wait_duration, wait, read, active,
}
use ldf.Download.Throttle.Budget.{Attempt, taken}

-- A time and a limit whose product is a little below ten million tokens is rounded up to them.
rounded_up : new_tokens_of 100000001 99999999 ≡ 10000000
unfolding new_tokens_of
rounded_up = refl

-- Three tokens at a rate of seven a second.
three_sevenths : wait_duration 3 7 ≡ 428571428
unfolding wait_duration
three_sevenths = refl

abbrev two_attempts : List Attempt
two_attempts = record { now = 10; needed = 65536 } ∷ record { now = 500000010; needed = 40000 } ∷ []

both_granted : taken (new_rate_limiter 100000 10) two_attempts ≡ 105536
unfolding taken new_rate_limiter
both_granted = refl

abbrev empty_bucket : Limiter
empty_bucket = record { bytes_per_sec = 100000; tokens = 0; max_tokens = 100000; last_refill = 0 }

-- A wait that is granted in its second round.
second_round :
    (wait empty_bucket 32768 (
      record { now = 1000; ends_in = λ sleep. false }
      ∷ record { now = 400000000; ends_in = λ sleep. false }
      ∷ [])).1
    ≡ granted
unfolding wait
second_round = refl

-- A read takes no more than 32 KiB, for a buffer of 64 KiB too.
one_read :
    (read
      ((empty_bucket, record { now = 1000000000; ends_in = λ sleep. false } ∷ []) ∷ [])
      65536
      (λ k. k)).0
    ≡ 32768
unfolding read
one_read = refl

-- A missing limiter is left out.
one_active : active (none ∷ some empty_bucket ∷ []) ≡ empty_bucket ∷ []
unfolding active
one_active = refl
