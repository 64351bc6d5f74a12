-- ===== src/Trader/Retry/Attempts.antt =====
-- trader/order/retry.go: the attempts of one submission and the bounds of a wait.
use project_final_1team.Prelude.{
  ℕ, zero, suc, ◌+◌, ◌/◌, ◌^◌, ◌≤◌, ◌<◌, ◌*◌, Option, Bool, true, false, none, inl, inr, ◌⊎◌, ◌≡◌,
  refl, sym, ◌∙◌, arith,
}
use project_final_1team.Trader.Retry.{
  Outcome, submitted, too_many_requests, failed, Outside, backoff_duration, wait_before,
  answer_or_retry, try_from, submit_retrying, max_retries, base_retry_backoff, capped,
}

capped-below :
    (attempt : ℕ) → attempt < max_retries → capped attempt ≡ base_retry_backoff * 2 ^ attempt
unfolding capped
capped-below zero h = refl
capped-below (suc zero) h = refl
capped-below (suc (suc zero)) h = refl
capped-below (suc (suc (suc zero))) h = refl
capped-below (suc (suc (suc (suc zero)))) h = refl
capped-below (suc (suc (suc (suc (suc n))))) h = absurd (omega (arith, h))

abbrev pub is_rejection : {E : Type 0} → Outcome E → Bool
is_rejection (submitted id) = false
is_rejection too_many_requests = true
is_rejection (failed e) = false

module _ {W E : Type 0} (outside : Outside W E) where
  -- From a number of retries left, an attempt and a world to later ones, by attempts that are each
  -- answered with 429 and waited after.
  pub data Rejected : ℕ → ℕ → W → ℕ → ℕ → W → Type 0 where
    tried : {left attempt : ℕ} {w : W} → Rejected left attempt w left attempt w
    rejected :
        {left attempt left' attempt' : ℕ} {w asked waited last : W}
        → outside.submit_next w ≡ (too_many_requests, asked)
        → wait_before outside attempt asked ≡ (none, waited)
        → Rejected left (suc attempt) waited left' attempt' last
        → Rejected (suc left) attempt w left' attempt' last

  retried :
      (asked waited : W) (rest : Outcome E × W)
      → answer_or_retry outside (too_many_requests, asked) (none, waited) rest ≡ rest
  unfolding answer_or_retry
  retried asked waited rest = refl

  settled :
      (answer : Outcome E × W) (waited : Option E × W) (rest : Outcome E × W)
      → is_rejection answer.0 ≡ false
      → answer_or_retry outside answer waited rest ≡ answer
  unfolding answer_or_retry
  settled (submitted id, w) waited rest n = refl
  settled (failed e, w) waited rest n = refl
  settled (too_many_requests, w) waited rest n = absurd (ground arith)

  rejected_once :
      (left attempt : ℕ) (w asked waited : W)
      → outside.submit_next w ≡ (too_many_requests, asked)
      → wait_before outside attempt asked ≡ (none, waited)
      → try_from outside (suc left) attempt w ≡ try_from outside left (suc attempt) waited
  unfolding try_from
  rejected_once left attempt w asked waited asks waits = rw (asks, waits) (retried asked waited _)

  try_from-Rejected :
      (left attempt left' attempt' : ℕ) (w last : W)
      → Rejected left attempt w left' attempt' last
      → (try_from outside left attempt w ≡ try_from outside left' attempt' last)
        × (attempt + left ≡ attempt' + left')
  try_from-Rejected _ _ _ _ _ _ tried = (refl, refl)
  try_from-Rejected _ _ left' attempt' _ last
        (rejected {left} {attempt} {w = w} {asked = asked} {waited = waited} asks waits r) =
      let ih = try_from-Rejected left (suc attempt) left' attempt' waited last r in
      (rejected_once left attempt w asked waited asks waits ∙ ih.0, omega arith)

  try_from-settled :
      (left attempt : ℕ) (w : W)
      → (left ≡ 0) ⊎ (is_rejection (outside.submit_next w).0 ≡ false)
      → try_from outside left attempt w ≡ outside.submit_next w
  unfolding try_from
  try_from-settled zero attempt w h = refl
  try_from-settled (suc left) attempt w (inl e) = absurd (ground arith)
  try_from-settled (suc left) attempt w (inr n) = settled _ _ _ n

  -- When the attempts before one were each answered with 429 and waited after, and it is the last
  -- that the retries allow or is answered otherwise, Submit returns the answer of that attempt with
  -- the world it leaves; the attempts before it and the retries that are left make up maxRetries.
  pub submit_retrying-Rejected :
      (left attempt : ℕ) (w last : W)
      → Rejected max_retries 0 w left attempt last
      → (left ≡ 0) ⊎ (is_rejection (outside.submit_next last).0 ≡ false)
      → (submit_retrying outside w ≡ outside.submit_next last) × (attempt + left ≡ max_retries)
  unfolding submit_retrying
  submit_retrying-Rejected left attempt w last r h =
      let run = try_from-Rejected max_retries 0 left attempt w last r in
      (run.0 ∙ try_from-settled left attempt last h, sym run.1)

  -- If the random number below n + 1 is at most n, then the wait before each retry of Submit is at
  -- least the base backoff times the power of two of the attempt and at most six fifths of that.
  pub backoff_duration-bounds :
      (attempt : ℕ) (w : W)
      → attempt < max_retries
      → ((n : ℕ) → (outside.random_below (n + 1) w).0 ≤ n)
      → (base_retry_backoff * 2 ^ attempt ≤ (backoff_duration outside attempt w).0)
        × ((backoff_duration outside attempt w).0
            ≤ base_retry_backoff * 2 ^ attempt + base_retry_backoff * 2 ^ attempt / 5)
  unfolding backoff_duration
  backoff_duration-bounds attempt w few below =
      let b = capped-below attempt few in
      let j = below (base_retry_backoff * 2 ^ attempt / 5) in rw b (omega arith, omega arith)
