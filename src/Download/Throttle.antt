-- ===== src/Download/Throttle.antt =====
-- The token bucket and the throttled reader of ldfd/download/throttle.go. A limit below 0 is one of 0, and
-- the conversion of a float above 63 bits is not represented. A round of `Wait` holds the mutex, so that
-- the rounds of several workers may alternate.
pub mod Budget
use ldf.Prelude.{
  ◌*◌, ◌/◌, ◌%◌, Float, of_int, add_float, mul_float, div_float, trunc, ℕ, ◌+◌, ◌-◌, ltb, leb, Bool,
  true, false, not, ◌||◌, ◌==◌, if◌then◌else◌, List, [], ◌∷◌, is_nil, map, Option, none, some,
}

pub record ThrottleConfig : Type 0 where
  pub per_worker_bytes_per_sec : ℕ
  pub global_bytes_per_sec : ℕ

-- `rateLimiter`; the time is in nanoseconds.
pub record Limiter : Type 0 where
  pub bytes_per_sec : ℕ
  pub tokens : ℕ
  pub max_tokens : ℕ
  pub last_refill : ℕ

-- `newRateLimiter`
unfoldable pub new_rate_limiter : ℕ → ℕ → Limiter
new_rate_limiter bytes_per_sec now =
    let max_tokens = if ltb bytes_per_sec 65536 then 65536 else bytes_per_sec in
    record {
      bytes_per_sec = bytes_per_sec;
      tokens = max_tokens;
      max_tokens = max_tokens;
      last_refill = now;
    }

-- What the clock answers in one round of `Wait`, and whether the context ends before a sleep of a given
-- length is over.
pub record Round : Type 0 where
  pub now : ℕ
  pub ends_in : ℕ → Bool

pub data Waited : Type 0 where
  granted : Waited
  cancelled : Waited
  waiting : Waited

-- A second, in nanoseconds, as `time.Second` and as a float.
abbrev pub second : ℕ
second = 1000000000

abbrev pub float_second : Float
float_second = record { num = second; den = 1 }

-- `Duration.Seconds`
unfoldable pub seconds : ℕ → Float
unfolding of_int add_float div_float
seconds elapsed =
    add_float (of_int (elapsed / second)) (div_float (of_int (elapsed % second)) float_second)

-- The tokens that a time is worth.
unfoldable pub new_tokens_of : ℕ → ℕ → ℕ
unfolding seconds of_int mul_float trunc
new_tokens_of elapsed bytes_per_sec = trunc (mul_float (seconds elapsed) (of_int bytes_per_sec))

-- How long a wait sleeps for the tokens that are missing.
unfoldable pub wait_duration : ℕ → ℕ → ℕ
unfolding of_int div_float mul_float trunc
wait_duration deficit bytes_per_sec =
    trunc (mul_float (div_float (of_int deficit) (of_int bytes_per_sec)) float_second)

-- The refill at the beginning of a round.
unfoldable pub refilled : Limiter → ℕ → Limiter
unfolding new_tokens_of
refilled rl now =
    let new_tokens = new_tokens_of (now - rl.last_refill) rl.bytes_per_sec in
    let tokens = rl.tokens + new_tokens in
    if ltb 0 new_tokens
    then record rl {
      tokens = if ltb rl.max_tokens tokens then rl.max_tokens else tokens;
      last_refill = now;
    }
    else rl

-- What a round does under the mutex, and whether the tokens were enough.
unfoldable pub take_tokens : Limiter → ℕ → ℕ → Limiter × Bool
unfolding refilled
take_tokens rl now needed =
    let rl' = refilled rl now in
    if leb needed rl'.tokens
    then (record rl' { tokens = rl'.tokens - needed }, true)
    else (rl', false)

unfoldable pub wait_from : Limiter → ℕ → List Round → Limiter × Waited
unfolding take_tokens wait_duration
wait_from rl needed [] = (rl, waiting)
wait_from rl needed (round ∷ rounds) =
    let (rl', enough) = take_tokens rl round.now needed in
    let later = wait_from rl' needed rounds in
    let sleep = wait_duration (needed - rl'.tokens) rl'.bytes_per_sec in
    if enough then (rl', granted) else if round.ends_in sleep then (rl', cancelled) else later

-- `Wait`, in as many rounds as are given.
unfoldable pub wait : Limiter → ℕ → List Round → Limiter × Waited
unfolding wait_from
wait rl needed rounds = if rl.bytes_per_sec == 0 then (rl, granted) else wait_from rl needed rounds

-- The loop of `Read` over the limiters; it ends at the first that does not grant.
unfoldable pub wait_all : List (Limiter × List Round) → ℕ → List Limiter × Waited
unfolding wait
wait_all [] needed = ([], granted)
wait_all ((rl, rounds) ∷ limiters) needed =
    let (rl', waited) = wait rl needed rounds in
    let (rest, later) = wait_all limiters needed in
    elim waited [
      | granted ↦ (rl' ∷ rest, later)
      | cancelled ↦ (rl' ∷ map (λ l. l.0) limiters, cancelled)
      | waiting ↦ (rl' ∷ map (λ l. l.0) limiters, waiting)
    ]

-- `Read`, for what the underlying reader reads into a buffer of a given length: the number of bytes that
-- were read, and how the waiting for them ended.
unfoldable pub read : List (Limiter × List Round) → ℕ → (ℕ → ℕ) → ℕ × List Limiter × Waited
unfolding wait_all
read limiters length_p reader =
    let max_read = if ltb 32768 length_p then 32768 else length_p in
    let n = if is_nil limiters then reader length_p else reader max_read in
    let idle = map (λ l. l.0) limiters in
    let (limiters', waited) = wait_all limiters n in
    if is_nil limiters || not (ltb 0 n) then (n, idle, granted) else (n, limiters', waited)

-- The limiters that `newThrottledReader` keeps.
unfoldable pub active : List (Option Limiter) → List Limiter
active [] = []
active (none ∷ limiters) = active limiters
active (some rl ∷ limiters) = rl ∷ active limiters
