-- ===== src/OrderApi/SessionHandlers.antt =====
-- orderapi/sessionhandlers.go: the handlers of sessions over the store of sessions. A request is given as
-- its JSON is read: a claim as `none` if its body does not decode, and a release with empty texts where
-- its body says nothing. The formats of a time are the record Formats. The counter and the logs are left
-- out.
pub mod Once
pub mod Busy
mod Tests
use project_final_1team.Prelude.{
  ℕ, ◌/◌, String, Bool, true, false, Option, none, some, List, map, ◌==◌, if◌then◌else◌,
}
use project_final_1team.OrderApi.Session.{
  RunRecord, RunOutcome, Info, SessionError, conflict, not_active, problem, Result, ok, err,
  Outside, completed, run_failed, stopped,
}
use project_final_1team.OrderApi.Session.Redis.{M, ◌>>=◌, return}
use project_final_1team.OrderApi.Session.Claim.{claim}
use project_final_1team.OrderApi.Session.Renew.{heartbeat, request_stop}
use project_final_1team.OrderApi.Session.Finish.{release}
use project_final_1team.OrderApi.Session.Runs.{last_run, previous_run, previous_run2, run_history}

pub record ClaimRequest (F : Type 0) : Type 0 where
  pub owner : String
  pub run_id : String
  pub speed : F
  pub date : String

pub record ClaimResponse : Type 0 where
  pub session_id : String
  pub run_id : String
  pub owner : String
  pub claimed_at : String
  pub ttl_seconds : ℕ

pub record ReleaseRequest : Type 0 where
  pub status : String
  pub message : String

pub record LastRunResponse (F : Type 0) : Type 0 where
  pub run_id : String
  pub owner : String
  pub status : String
  pub started_at : String
  pub ended_at : String
  pub message : String
  pub speed : F
  pub date : String

-- Format of a time with time.RFC3339 and with windowTimeFormat; `none` is the zero time.
pub record Formats : Type 0 where
  pub rfc3339 : Option ℕ → String
  pub window : Option ℕ → String

-- The responses: an error with its status and code, and those of the handlers.
pub data Response (F : Type 0) : Type 0 where
  refused : ℕ → String → Response F
  created : ClaimResponse → Response F
  beat : Bool → Response F
  no_content : Response F
  shown : LastRunResponse F → Response F
  listed : List (LastRunResponse F) → Response F

module _ {F : Type 0} (out : Outside F) (formats : Formats) where
  unfoldable pub claim_response : Info → ClaimResponse
  claim_response info = record {
    session_id = info.session_id;
    run_id = info.run_id;
    owner = info.owner;
    claimed_at = formats.rfc3339 info.claimed_at;
    ttl_seconds = info.ttl / 1000;
  }

  unfoldable pub answer_claimed : Result Info → Response F
  answer_claimed (ok info) = created (claim_response info)
  answer_claimed (err (conflict current)) = refused 409 "SESSION_ALREADY_ACTIVE"
  answer_claimed (err not_active) = refused 500 "INTERNAL_ERROR"
  answer_claimed (err (problem text)) = refused 500 "INTERNAL_ERROR"

  unfoldable pub claim_session : Option (ClaimRequest F) → M (Response F)
  claim_session none = return (refused 400 "INVALID_REQUEST")
  claim_session (some req) = if req.owner == "" then return (refused 400 "INVALID_REQUEST") else (do
    result ← claim out req.owner req.run_id req.date req.speed
    return (answer_claimed result))

  -- What an error of the store is answered with, with the code of a session that is not active.
  unfoldable pub refusal : String → SessionError → Response F
  refusal code not_active = refused 404 code
  refusal code (conflict current) = refused 500 "INTERNAL_ERROR"
  refusal code (problem text) = refused 500 "INTERNAL_ERROR"

  unfoldable pub answer_beat : Result Bool → Response F
  answer_beat (ok stop_requested) = beat stop_requested
  answer_beat (err e) = refusal "SESSION_NOT_ACTIVE" e

  unfoldable pub heartbeat_session : String → M (Response F)
  heartbeat_session session_id = do result ← heartbeat out session_id; return (answer_beat result)

  unfoldable pub answer_stop : Result (Unit {0}) → Response F
  answer_stop (ok _) = no_content
  answer_stop (err e) = refusal "NO_ACTIVE_RUN" e

  unfoldable pub stop_run : String → M (Response F)
  stop_run run_id = do result ← request_stop out run_id; return (answer_stop result)

  unfoldable pub outcome_of : ReleaseRequest → RunOutcome
  outcome_of req =
      let status =
        if req.status == run_failed
        then run_failed
        else if req.status == stopped
        then stopped
        else completed in
      record { status = status; message = req.message }

  -- The response, and the run whose orders are then cleaned up.
  unfoldable pub answer_released : Result (RunRecord F × Bool) → Response F × Option (RunRecord F)
  answer_released (ok (finished, true)) = (no_content, some finished)
  answer_released (ok (finished, false)) = (no_content, none)
  answer_released (err e) = (refusal "SESSION_NOT_ACTIVE" e, none)

  unfoldable pub release_session : String → ReleaseRequest → M (Response F × Option (RunRecord F))
  release_session session_id req = do
    result ← release out session_id (outcome_of req)
    return (answer_released result)

  unfoldable pub to_last_run_response : RunRecord F → LastRunResponse F
  to_last_run_response r = record {
    run_id = r.run_id;
    owner = r.owner;
    status = r.status;
    started_at = formats.window r.started_at;
    ended_at = elim r.ended_at [ none ↦ "" | some t ↦ formats.window (some t) ];
    message = r.message;
    speed = r.speed;
    date = r.date;
  }

  -- The response of a run, with the code of one that is not there.
  unfoldable pub answer_run : String → Result (Option (RunRecord F)) → Response F
  answer_run code (ok (some r)) = shown (to_last_run_response r)
  answer_run code (ok none) = refused 404 code
  answer_run code (err e) = refused 500 "INTERNAL_ERROR"

  unfoldable pub show_last_run : M (Response F)
  show_last_run = do result ← last_run out; return (answer_run "NO_RUN_YET" result)

  unfoldable pub show_previous_run : M (Response F)
  show_previous_run = do result ← previous_run out; return (answer_run "NO_PREVIOUS_RUN" result)

  unfoldable pub show_previous_run2 : M (Response F)
  show_previous_run2 = do result ← previous_run2 out; return (answer_run "NO_PREVIOUS_RUN" result)

  unfoldable pub answer_runs : Result (List (RunRecord F)) → Response F
  answer_runs (ok rs) = listed (map to_last_run_response rs)
  answer_runs (err e) = refused 500 "INTERNAL_ERROR"

  unfoldable pub show_run_history : M (Response F)
  show_run_history = do result ← run_history out; return (answer_runs result)
