-- ===== src/OrderApi/Cleanup/Limits.antt =====
-- orderapi/sessioncleanup.go: how many requests to the recorder, notes on the run and published cancellations
-- the automatic cleanup makes.
use project_final_1team.Prelude.{
  ℕ, ◌+◌, ◌-◌, ◌*◌, ◌≤◌, ◌≡◌, zero, suc, String, Bool, true, false, Option, none, some, List, [],
  ◌∷◌, ◌==◌, Bool-cases, inl, inr, arith, length, if◌then◌else◌,
}
use project_final_1team.OrderApi.Cleanup.{
  UnresolvedOrder, Outside, lag_note, fetch_note, rest_note, orders_of, retry_fetch,
  cleanup_fetch_max_attempts, fetch_all, fetch_from, fetch_all_with_retry, cancel_all, after_pass,
  pass, sweep_from, sweep_unless_lagging, cleanup_unresolved_orders,
}

abbrev pub reported : Option (List UnresolvedOrder) → ℕ
reported none = 0
reported (some os) = length os

-- What the counters of a world count.
pub record Tally : Type 0 where
  pub requests : ℕ
  pub notes : ℕ
  pub cancellations : ℕ

abbrev Same : Tally → Tally → Type 0
Same a b = (a.requests ≡ b.requests) × (a.notes ≡ b.notes) × (a.cancellations ≡ b.cancellations)

-- Each operation is counted once, and an answer reports at most so many orders.
pub record Counts {W : Type 0} (out : Outside W) (count : W → Tally) (most : ℕ) : Type 0 where
  pub reports : (w : W) → reported (orders_of out (out.get_unresolved w).0) ≤ most
  pub requested :
      (w : W)
      → Same
          (count (out.get_unresolved w).1)
          (record (count w) { requests = suc (count w).requests })
  pub retried : (w : W) → Same (count (out.wait_retry w).1) (count w)
  pub swept : (w : W) → Same (count (out.wait_sweep w).1) (count w)
  pub asked : (w : W) → Same (count (out.lag_active w).1) (count w)
  pub noted :
      (w : W) (run_id note : String)
      → Same
          (count (out.append_last_run_note run_id note w))
          (record (count w) { notes = suc (count w).notes })
  pub canceled :
      (w : W) (id market canceled_at : String)
      → Same
          (count (out.publish_cancel id market canceled_at w).1)
          (record (count w) { cancellations = suc (count w).cancellations })

-- The later tally exceeds the earlier one by at most so many of each.
abbrev pub Within : Tally → Tally → Tally → Type 0
Within limit a b =
    (b.requests ≤ a.requests + limit.requests)
    × (b.notes ≤ a.notes + limit.notes)
    × (b.cancellations ≤ a.cancellations + limit.cancellations)

abbrev limits : ℕ → ℕ → ℕ → Tally
limits r n c = record { requests = r; notes = n; cancellations = c }

-- The limits of the passes that are left, and of the whole cleanup.
abbrev repeated : ℕ → ℕ → ℕ
repeated zero n = 0
repeated (suc k) n = n + repeated k n

abbrev pub most_of_cleanup : Option Bool → ℕ → Tally
most_of_cleanup none most = limits 12 1 (4 * most)
most_of_cleanup (some false) most = limits 12 1 (4 * most)
most_of_cleanup (some true) most = limits 0 1 0

module _ {W : Type 0} (out : Outside W) (count : W → Tally) (most : ℕ) (c : Counts out count most)
    (run_id : String) where
  -- The requests that are left, and no more.
  retry_fetch-Within :
      (o : Option (List UnresolvedOrder)) (next : W → Option (List UnresolvedOrder) × W) (left : ℕ)
      (w : W)
      → reported o ≤ most
      → ((v : W)
          → (reported (next v).0 ≤ most) × Within (limits left 0 0) (count v) (count (next v).1))
      → (reported (retry_fetch out o next w).0 ≤ most)
        × Within (limits left 0 0) (count w) (count (retry_fetch out o next w).1)
  unfolding retry_fetch
  retry_fetch-Within (some orders) next left w r more = (r, (omega arith, omega arith, omega arith))
  retry_fetch-Within none next left w r more = elim (Bool-cases (out.wait_retry w).0) [
    | inl e ↦
        let (few, (a, b, d)) = more (out.wait_retry w).1 in
        let (x, y, z) = c.retried w in rw e (few, (omega arith, omega arith, omega arith))
    | inr n ↦
        let (x, y, z) = c.retried w in rw n (omega arith, (omega arith, omega arith, omega arith))
  ]

  fetch_from-Within :
      (left : ℕ) (w : W)
      → (reported (fetch_from out left w).0 ≤ most)
        × Within (limits (suc left) 0 0) (count w) (count (fetch_from out left w).1)
  unfolding fetch_from fetch_all
  fetch_from-Within zero w =
      let (x, y, z) = c.requested w in (c.reports w, (omega arith, omega arith, omega arith))
  fetch_from-Within (suc left) w =
      let (few, (a, b, d)) =
        retry_fetch-Within (orders_of out (out.get_unresolved w).0) (fetch_from out left) (suc left)
          (out.get_unresolved w).1 (c.reports w) (fetch_from-Within left) in
      let (x, y, z) = c.requested w in (few, (omega arith, omega arith, omega arith))

  cancel_all-Within :
      (canceled_at : String) (os : List UnresolvedOrder) (n : ℕ) (w : W)
      → Within (limits 0 0 (length os)) (count w) (count (cancel_all out canceled_at os n w).1)
  unfolding cancel_all
  cancel_all-Within canceled_at [] n w = (omega arith, omega arith, omega arith)
  cancel_all-Within canceled_at (o ∷ os) n w =
      let published = out.publish_cancel o.order_id o.market canceled_at w in
      let (a, b, d) =
        cancel_all-Within canceled_at os (if published.0 then suc n else n) published.1 in
      let (x, y, z) = c.canceled w o.order_id o.market canceled_at in
      (omega arith, omega arith, omega arith)

  after_pass-Within :
      (left : ℕ) (next : W → W) (limit : Tally) (w : W)
      → ((v : W) → Within limit (count v) (count (next v)))
      → Within limit (count w) (count (after_pass out left next w))
  unfolding after_pass
  after_pass-Within zero next limit w more = more w
  after_pass-Within (suc left) next limit w more = elim (Bool-cases (out.wait_sweep w).0) [
    | inl e ↦
        let (a, b, d) = more (out.wait_sweep w).1 in
        let (x, y, z) = c.swept w in rw e (omega arith, omega arith, omega arith)
    | inr n ↦ let (x, y, z) = c.swept w in rw n (omega arith, omega arith, omega arith)
  ]

  pass-Within :
      (o : Option (List UnresolvedOrder)) (next : W → W) (r k : ℕ) (w : W)
      → reported o ≤ most
      → ((v : W) → Within (limits r 1 k) (count v) (count (next v)))
      → Within (limits r 1 (most + k)) (count w) (count (pass out run_id o next w))
  unfolding pass
  pass-Within none next r k w few more =
      let (x, y, z) = c.noted w run_id fetch_note in (omega arith, omega arith, omega arith)
  pass-Within (some []) next r k w few more = (omega arith, omega arith, omega arith)
  pass-Within (some (o ∷ os)) next r k w few more =
      let (x, y, z) = cancel_all-Within (out.now_text w) (o ∷ os) 0 w in
      let (a, b, d) = more (cancel_all out (out.now_text w) (o ∷ os) 0 w).1 in
      (omega arith, omega arith, omega arith)

  sweep_from-Within :
      (left : ℕ) (w : W)
      → Within
          (limits (repeated left 3) 1 (repeated left most))
          (count w)
          (count (sweep_from out run_id left w))
  unfolding sweep_from fetch_all_with_retry
  sweep_from-Within zero w =
      let (x, y, z) = c.noted w run_id rest_note in (omega arith, omega arith, omega arith)
  sweep_from-Within (suc left) w =
      let fetched = fetch_from out (cleanup_fetch_max_attempts - 1) w in
      let (few, (x, y, z)) = fetch_from-Within (cleanup_fetch_max_attempts - 1) w in
      let later = limits (repeated left 3) 1 (repeated left most) in
      let (a, b, d) =
        pass-Within fetched.0 (after_pass out left (sweep_from out run_id left)) (repeated left 3)
          (repeated left most) fetched.1 few
          (λ v.
            after_pass-Within left (sweep_from out run_id left) later v (sweep_from-Within left)) in
      (omega arith, omega arith, omega arith)

  sweep_unless_lagging-Within :
      (lag : Option Bool) (w : W)
      → Within (most_of_cleanup lag most) (count w) (count (sweep_unless_lagging out run_id lag w))
  unfolding sweep_unless_lagging
  sweep_unless_lagging-Within none w =
      let (a, b, d) = sweep_from-Within 4 w in (omega arith, omega arith, omega arith)
  sweep_unless_lagging-Within (some false) w =
      let (a, b, d) = sweep_from-Within 4 w in (omega arith, omega arith, omega arith)
  sweep_unless_lagging-Within (some true) w =
      let (x, y, z) = c.noted w run_id lag_note in (omega arith, omega arith, omega arith)

  -- When no answer of the recorder reports more than a given number of orders, the automatic
  -- cleanup makes at most 12 requests to the recorder, writes at most one note on the run and
  -- publishes at most 4 times that number of cancellations; when the lag checker says that the
  -- matching engine lags behind, it makes no request and publishes no cancellation.
  pub cleanup_unresolved_orders-Within :
      (recorder_url : String) (started_at : Option ℕ) (w : W)
      → Within
          (most_of_cleanup (out.lag_active w).0 most)
          (count w)
          (count (cleanup_unresolved_orders out recorder_url run_id started_at w))
  unfolding cleanup_unresolved_orders
  cleanup_unresolved_orders-Within recorder_url none w = (omega arith, omega arith, omega arith)
  cleanup_unresolved_orders-Within recorder_url (some started_at) w =
      elim (Bool-cases (recorder_url == "")) [
        | inl e ↦ rw e (omega arith, omega arith, omega arith)
        | inr n ↦
            let (a, b, d) = sweep_unless_lagging-Within (out.lag_active w).0 (out.lag_active w).1 in
            let (x, y, z) = c.asked w in rw n (omega arith, omega arith, omega arith)
      ]
