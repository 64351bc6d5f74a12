-- ===== src/OrderApi/Session/Calls.antt =====
-- orderapi/session/session.go: the operations of Store as calls, one after the other.
use project_final_1team.Prelude.{String, List, [], ◌∷◌}
use project_final_1team.OrderApi.Session.{RunOutcome, Outside}
use project_final_1team.OrderApi.Session.Redis.{Server}
use project_final_1team.OrderApi.Session.Claim.{claim}
use project_final_1team.OrderApi.Session.Renew.{heartbeat, request_stop}
use project_final_1team.OrderApi.Session.Finish.{release}
use project_final_1team.OrderApi.Session.Runs.{
  last_run, previous_run, previous_run2, append_last_run_note, run_history,
}

pub data Call (F : Type 0) : Type 0 where
  call_claim : String → String → String → F → Call F
  call_heartbeat : String → Call F
  call_request_stop : String → Call F
  call_release : String → RunOutcome → Call F
  call_last_run call_previous_run call_previous_run2 call_run_history : Call F
  call_append_last_run_note : String → String → Call F

module _ {F : Type 0} (out : Outside F) where
  unfoldable pub call : Call F → Server → Server
  call (call_claim owner run_id date speed) s = (claim out owner run_id date speed s).1
  call (call_heartbeat session_id) s = (heartbeat out session_id s).1
  call (call_request_stop run_id) s = (request_stop out run_id s).1
  call (call_release session_id outcome) s = (release out session_id outcome s).1
  call call_last_run s = (last_run out s).1
  call call_previous_run s = (previous_run out s).1
  call call_previous_run2 s = (previous_run2 out s).1
  call call_run_history s = (run_history out s).1
  call (call_append_last_run_note run_id note) s = (append_last_run_note out run_id note s).1

  unfoldable pub call_all : List (Call F) → Server → Server
  call_all [] s = s
  call_all (c ∷ cs) s = call_all cs (call c s)
