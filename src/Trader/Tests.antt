-- ===== src/Trader/Tests.antt =====
-- Concrete runs of the traders: a price that is rounded to its tick, an order that is rejected twice.
use project_final_1team.Prelude.{
  ℕ, zero, suc, ◌≤◌, ◌^◌, inr, arith, ◌+◌, ◌-◌, ◌*◌, ◌/◌, ltb, not, none, ◌≡◌, refl, if◌then◌else◌,
  ◌==◌,
}
use project_final_1team.OrderApi.Validate.{Float, tick_in, tick_size_for}
use project_final_1team.Trader.TickSize.{tier_in, tick_tier, round_to_tick}
use project_final_1team.Trader.TickSize.Agreement.{round_to_tick-tick_size_for}
use project_final_1team.Trader.Retry.{
  Outside, submitted, too_many_requests, backoff_duration, wait_before, submit_retrying,
  max_retries, base_retry_backoff,
}
use project_final_1team.Trader.Retry.Attempts.{
  Rejected, tried, rejected, submit_retrying-Rejected, backoff_duration-bounds,
}

-- Whole prices from 1000 on, with a division that rounds to the nearest.
abbrev amounts : Float ℕ
amounts = record {
  parse_float = λ _. none;
  format_float = λ _. "";
  literal = λ t.
      if t == "2000000"
      then 2000000
      else (if t == "1000000"
          then 1000000
          else (if t == "500000"
              then 500000
              else (if t == "100000"
                  then 100000
                  else (if t == "10000"
                      then 10000
                      else (if t == "1000"
                          then 1000
                          else (if t == "500"
                              then 500
                              else (if t == "100"
                                  then 100
                                  else (if t == "50"
                                      then 50
                                      else (if t == "10"
                                          then 10
                                          else (if t == "0" then 0 else 1))))))))));
  greater_or_equal = λ a b. not (ltb a b);
  less_than = ltb;
  divide = λ a b. (a + b / 2) / b;
  subtract = λ a b. a - b;
  round = λ a. a;
  absolute = λ a. a;
}

rounded_up : (round_to_tick amounts (λ a b. a * b) 2345678).price ≡ 2346000
unfolding round_to_tick tick_tier tier_in
rounded_up = refl

rounded_down : (round_to_tick amounts (λ a b. a * b) 123456).price ≡ 123450
unfolding round_to_tick tick_tier tier_in
rounded_down = refl

tick_of_validation : tick_size_for amounts 123456 ≡ 50
unfolding tick_size_for tick_in
tick_of_validation = refl

round_to_tick-tick_size_for_example :
    (round_to_tick amounts (λ a b. a * b) 123456).price
    ≡ (amounts.round (amounts.divide 123456 (tick_size_for amounts 123456)))
      * tick_size_for amounts 123456
round_to_tick-tick_size_for_example = round_to_tick-tick_size_for amounts (λ a b. a * b) 123456

-- The world is the number of answers 429 that are to come.
abbrev busy : Outside ℕ ℕ
busy = record {
  submit_next = λ w. elim w [ zero ↦ (submitted "o1", 0) | suc n ↦ (too_many_requests, n) ];
  random_below = λ _ w. (0, w);
  sleep = λ _ w. (none, w);
}

Rejected-twice : Rejected busy max_retries 0 2 3 2 0
unfolding wait_before backoff_duration
Rejected-twice = rejected refl refl (rejected refl refl tried)

submit_retrying-Rejected_example :
    (submit_retrying busy 2 ≡ (submitted "o1", 0)) × (2 + 3 ≡ max_retries)
submit_retrying-Rejected_example = submit_retrying-Rejected busy 3 2 2 0 Rejected-twice (inr refl)

backoff_duration-bounds_example :
    (base_retry_backoff * 2 ^ 3 ≤ (backoff_duration busy 3 2).0)
    × ((backoff_duration busy 3 2).0 ≤ base_retry_backoff * 2 ^ 3 + base_retry_backoff * 2 ^ 3 / 5)
backoff_duration-bounds_example = backoff_duration-bounds busy 3 2 (omega arith) (λ n. omega arith)
