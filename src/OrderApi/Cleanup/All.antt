-- ===== src/OrderApi/Cleanup/All.antt =====
-- orderapi/sessioncleanup.go: the manual cleanup of all unresolved orders, with the slot that holds the
-- status of its last run. Each section under the lock is one change of the slot.
use project_final_1team.Prelude.{
  ℕ, suc, ◌%◌, String, Bool, true, false, Option, none, some, List, [], ◌∷◌, ◌==◌, if◌then◌else◌,
  leb, length,
}
use project_final_1team.OrderApi.Cleanup.{UnresolvedOrder, Outside, fetch_all_with_retry}

pub record CleanupAllStatus : Type 0 where
  pub status : String
  pub canceled : ℕ
  pub total : ℕ
  pub started_at : String
  pub ended_at : String
  pub message : String

pub record Slot (W : Type 0) : Type 0 where
  pub latest : CleanupAllStatus
  pub world : W

-- What the handlers answer: a status and a code with it, or the slot.
pub data Response : Type 0 where
  refused : ℕ → String → Response
  shown : ℕ → CleanupAllStatus → Response

abbrev pub in_progress : String
in_progress = "IN_PROGRESS"

unfoldable pub started : String → CleanupAllStatus
started now = record {
  status = in_progress;
  canceled = 0;
  total = 0;
  started_at = now;
  ended_at = "";
  message = "";
}

module _ {W : Type 0} (out : Outside W) where
  -- The answer, and whether a cleanup is started.
  unfoldable pub start_in_slot : String → Slot W → Response × Bool × Slot W
  start_in_slot now s =
      if s.latest.status == in_progress
      then (refused 409 "CLEANUP_ALREADY_IN_PROGRESS", false, s)
      else (shown 202 (started now), true, record s { latest = started now })

  unfoldable pub start_unless_lagging : Option Bool → String → Slot W → Response × Bool × Slot W
  start_unless_lagging (some true) now s = (refused 409 "MATCHING_ENGINE_LAGGING", false, s)
  start_unless_lagging (some false) now s = start_in_slot now s
  start_unless_lagging none now s = start_in_slot now s

  unfoldable pub start_cleanup : String → String → String → Slot W → Response × Bool × Slot W
  start_cleanup recorder_url force now s =
      let lag = out.lag_active s.world in
      if recorder_url == ""
      then (refused 503 "RECORDER_URL_NOT_CONFIGURED", false, s)
      else (if force == "true"
          then start_in_slot now s
          else start_unless_lagging lag.0 now (record s { world = lag.1 }))

  unfoldable pub cleanup_status : Slot W → Response
  cleanup_status s =
      if s.latest.status == "" then refused 404 "NO_CLEANUP_YET" else shown 200 s.latest

  unfoldable pub fail_cleanup : String → String → Slot W → Slot W
  fail_cleanup now message s = record s {
    latest = record (s.latest) { status = "FAILED"; ended_at = now; message = message };
  }

  unfoldable pub set_total : ℕ → Slot W → Slot W
  set_total n s = record s { latest = record (s.latest) { total = n } }

  unfoldable pub set_canceled : ℕ → Slot W → Slot W
  set_canceled n s = record s { latest = record (s.latest) { canceled = n } }

  unfoldable pub complete : String → ℕ → Slot W → Slot W
  complete now n s = record s {
    latest = record (s.latest) { status = "COMPLETED"; canceled = n; ended_at = now };
  }

  -- The progress is written every 1000 cancellations.
  unfoldable pub count_canceled : ℕ → Slot W → Slot W
  count_canceled n s = if leb (n % 1000) 0 then set_canceled n s else s

  unfoldable pub cancel_counted : String → List UnresolvedOrder → ℕ → Slot W → ℕ × Slot W
  cancel_counted canceled_at [] n s = (n, s)
  cancel_counted canceled_at (o ∷ os) n s =
      let published = out.publish_cancel o.order_id o.market canceled_at s.world in
      let t = record s { world = published.1 } in
      cancel_counted canceled_at os (if published.0 then suc n else n)
        (if published.0 then count_canceled (suc n) t else t)

  unfoldable pub cancel_reported : Option (List UnresolvedOrder) → String → Slot W → Slot W
  cancel_reported none message s = fail_cleanup (out.now_text s.world) message s
  cancel_reported (some orders) message s =
      let canceled = cancel_counted (out.now_text s.world) orders 0 (set_total (length orders) s) in
      complete (out.now_text canceled.1.world) canceled.0 canceled.1

  -- The text of an error is given.
  unfoldable pub run_cleanup_all : String → Slot W → Slot W
  run_cleanup_all message s =
      let fetched = fetch_all_with_retry out s.world in
      cancel_reported fetched.0 message (record s { world = fetched.1 })
