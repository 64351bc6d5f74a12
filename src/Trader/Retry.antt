-- ===== src/Trader/Retry.antt =====
-- trader/order/retry.go: the submission of an order that is tried again while the order API answers 429.
-- Durations are in nanoseconds. What the source calls, the submission itself, the waiting and the
-- random number, is the record Outside over a world that they change.
pub mod Attempts
use Prim.Native.String.{String}
use project_final_1team.Prelude.{
  ℕ, zero, suc, ◌+◌, ◌*◌, ◌/◌, ◌^◌, Option, none, some, if◌then◌else◌, ltb,
}

-- What a submission returns: the order's id, an error that is ErrTooManyRequests, or another one.
pub data Outcome (E : Type 0) : Type 0 where
  submitted : String → Outcome E
  too_many_requests : Outcome E
  failed : E → Outcome E

pub record Outside (W E : Type 0) : Type 0 where
  -- Next.Submit of the order.
  pub submit_next : W → Outcome E × W
  -- rand.Int63n
  pub random_below : ℕ → W → ℕ × W
  -- The waiting, with the error of a context that is done.
  pub sleep : ℕ → W → Option E × W

abbrev pub max_retries : ℕ
max_retries = 5

abbrev pub base_retry_backoff : ℕ
base_retry_backoff = 500000000

abbrev pub max_retry_backoff : ℕ
max_retry_backoff = 10000000000

-- The wait before the jitter.
unfoldable pub capped : ℕ → ℕ
capped attempt =
    let d = base_retry_backoff * 2 ^ attempt in
    if ltb max_retry_backoff d then max_retry_backoff else d

module _ {W E : Type 0} (outside : Outside W E) where
  unfoldable pub backoff_duration : ℕ → W → ℕ × W
  unfolding capped
  backoff_duration attempt w =
      let d = capped attempt in
      let jitter = outside.random_below (d / 5 + 1) w in (d + jitter.0, jitter.1)

  unfoldable pub wait_before : ℕ → W → Option E × W
  unfolding backoff_duration
  wait_before attempt w = let wait = backoff_duration attempt w in outside.sleep wait.0 wait.1

  -- What an attempt returns, given its answer, the waiting after it and the rest of the loop.
  unfoldable pub answer_or_retry : Outcome E × W → Option E × W → Outcome E × W → Outcome E × W
  answer_or_retry (submitted id, w) waited rest = (submitted id, w)
  answer_or_retry (failed e, w) waited rest = (failed e, w)
  answer_or_retry (too_many_requests, w) (some e, w') rest = (failed e, w')
  answer_or_retry (too_many_requests, w) (none, w') rest = rest

  -- The loop from an attempt on, with the number of retries that are left.
  unfoldable pub try_from : ℕ → ℕ → W → Outcome E × W
  unfolding wait_before answer_or_retry
  try_from zero attempt w = outside.submit_next w
  try_from (suc left) attempt w =
      let answer = outside.submit_next w in
      let waited = wait_before attempt answer.1 in
      let rest = try_from left (suc attempt) waited.1 in answer_or_retry answer waited rest

  unfoldable pub submit_retrying : W → Outcome E × W
  unfolding try_from
  submit_retrying w = try_from max_retries 0 w
