-- ===== src/OrderApi/SessionHandlers/Tests.antt =====
-- Concrete requests: a replay claims the lock, a trader's claim is turned away, and the replay releases its
-- session twice.
use project_final_1team.Prelude.{ℕ, ◌+◌, ◌≤◌, ◌≡◌, refl, false, Option, none, some, ◌==◌, arith}
use project_final_1team.Dict
use project_final_1team.OrderApi.Session.{RunRecord}
use project_final_1team.OrderApi.Session.Redis.{
  Server, ◌>>=◌, clock, command, new_id, get_active, get_members, contains, remove, is_empty,
  claim_script, release_script, sadd, expire_members, heartbeat_script, set_stop, set_meta,
  set_last_run, set_gauge,
}
use project_final_1team.OrderApi.Session.Claim.{
  claim, claim_run, answer_claim, join, registered, begin_if_created, begin_run, begin_gauges,
  move_body, set_encoded, own_run_id,
}
use project_final_1team.OrderApi.Session.Renew.{
  split_session_id, split_before, heartbeat, renew, request_stop,
}
use project_final_1team.OrderApi.Session.Finish.{
  leave, release, finalize_last_run, finished_record, decoded, write_finished, add_history,
  no_record,
}
use project_final_1team.OrderApi.Session.Calls.{call, call_all}
use project_final_1team.OrderApi.Session.Tests.{
  outside, server, empty_redis, locked_redis, calls, lasts,
}
use project_final_1team.OrderApi.SessionHandlers.{
  Formats, Response, refused, created, no_content, ClaimRequest, ClaimResponse, ReleaseRequest,
  claim_session, answer_claimed, claim_response, release_session, answer_released, outcome_of,
}
use project_final_1team.OrderApi.SessionHandlers.Once.{release_session-once}
use project_final_1team.OrderApi.SessionHandlers.Busy.{is_created, claim_session-exclusive}

abbrev formats : Formats
formats = record { rfc3339 = λ _. "then"; window = λ _. "then.000" }

abbrev replay : ClaimRequest ℕ
replay = record { owner = "replayengine"; run_id = "r1"; speed = 1; date = "" }

abbrev trader : ClaimRequest ℕ
trader = record { owner = "trader"; run_id = ""; speed = 1; date = "" }

abbrev response : ClaimResponse
response = record {
  session_id = "r1.m0";
  run_id = "r1";
  owner = "replayengine";
  claimed_at = "then";
  ttl_seconds = 30;
}

abbrev after_claim : Server
after_claim = (claim_session outside formats (some replay) (server empty_redis)).1

first : (claim_session outside formats (some replay) (server empty_redis)).0 ≡ created response
unfolding claim_session answer_claimed claim_response claim ◌>>=◌ clock own_run_id claim_run command
    claim_script get_active answer_claim join new_id sadd get_members registered set_encoded
    begin_if_created begin_run move_body begin_gauges Dict.get Dict.put Dict.empty contains
first = refl

soon :
    let last = call_all outside calls after_claim in
    (("r1" == (own_run_id outside "" last).0) ≡ false) × (last.now + 10 ≤ 29000)
unfolding claim_session call_all call heartbeat split_session_id renew request_stop command set_stop
    get_active own_run_id new_id claim ◌>>=◌ clock claim_run claim_script answer_claim join sadd
    get_members registered set_encoded begin_if_created begin_run move_body begin_gauges Dict.get
    Dict.put Dict.empty contains split_before set_last_run set_meta expire_members is_empty
    heartbeat_script
soon = (refl, omega arith)

claim_session-exclusive_example :
    is_created (claim_session outside formats (some trader) (call_all outside calls after_claim)).0
    ≡ false
claim_session-exclusive_example =
    claim_session-exclusive outside formats replay trader response 29000 (server empty_redis) calls
      refl first (omega arith) lasts (refl, (refl, tt)) soon

abbrev over : ReleaseRequest
over = record { status = "STOPPED"; message = "" }

abbrev released : (Response ℕ × Option (RunRecord ℕ)) × Server
released = release_session outside formats "r1.m0" over (server locked_redis)

ends : released.0.0 ≡ no_content
unfolding release_session answer_released outcome_of release split_session_id split_before leave
    ◌>>=◌ command release_script get_members get_active contains remove is_empty finalize_last_run
    finished_record decoded write_finished add_history no_record set_gauge clock Dict.get Dict.put
    Dict.empty
ends = refl

release_session-once_example :
    (release_session outside formats "r1.m0" over released.1).0
    ≡ (refused 404 "SESSION_NOT_ACTIVE", none)
release_session-once_example =
    release_session-once outside formats "r1.m0" over over (server locked_redis) ends refl
