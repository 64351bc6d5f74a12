-- ===== src/OrderApi/Session/Tests.antt =====
-- Concrete runs of the store of sessions: a replay claims the lock, a trader is turned away, the replay
-- beats, and it ends.
use Prim.Native.String.{◌++◌}
use project_final_1team.Prelude.{
  ℕ, zero, suc, ◌≡◌, refl, Bool, true, false, none, some, List, [], ◌∷◌, ◌==◌, ◌≤◌, if◌then◌else◌,
  arith,
}
use project_final_1team.Dict
use project_final_1team.OrderApi.Session.{
  RunRecord, RunOutcome, Info, Outside, ok, in_progress, session_id_sep,
}
use project_final_1team.OrderApi.Session.Redis.{
  Redis, Server, whole_ttl, ◌>>=◌, clock, command, new_id, get_active, get_members, contains,
  is_empty, claim_script, sadd, expire_members, heartbeat_script, exists_stop,
}
use project_final_1team.OrderApi.Session.Claim.{
  claim, claim_run, answer_claim, join, registered, begin_if_created, begin_run, begin_gauges,
  move_body, set_encoded, own_run_id,
}
use project_final_1team.OrderApi.Session.Renew.{split_session_id, split_before, heartbeat, renew}
use project_final_1team.OrderApi.Session.Finish.{finalize_last_run, no_record}
use project_final_1team.OrderApi.Session.Runs.{last_run}
use project_final_1team.OrderApi.Session.Calls.{Call, call_heartbeat, call_request_stop}
use project_final_1team.OrderApi.Session.Holding.{IsHeld}
use project_final_1team.OrderApi.Session.Leased.{set_lasts}
use project_final_1team.OrderApi.Session.Renewed.{heartbeat-IsHeld}
use project_final_1team.OrderApi.Session.Overwritten.{finalize_last_run-hides, ended_record}

-- A run that is in progress, and one that is not, in a JSON of two texts.
abbrev running : RunRecord ℕ
running = record {
  run_id = "r1";
  owner = "replayengine";
  status = in_progress;
  started_at = some 0;
  ended_at = none;
  message = "";
  speed = 1;
  date = "";
}

abbrev over : RunRecord ℕ
over = record {
  run_id = "r0";
  owner = "";
  status = "COMPLETED";
  started_at = none;
  ended_at = some 0;
  message = "";
  speed = 0;
  date = "";
}

abbrev pub outside_with : Bool → Outside ℕ
outside_with down = record {
  ttl = 30500;
  new_session_id = λ n. elim n [ zero ↦ "m0" | suc _ ↦ "m1" ];
  delay = λ _. 10;
  is_down = λ _. down;
  zero_speed = 0;
  encode_run = λ r. some (if r.status == in_progress then "running" else "over");
  decode_run = λ t. if t == "running" then some running else some over;
  encode_meta = λ m. some m.owner;
  decode_meta = λ t. some (record { owner = t; claimed_at = none });
}

abbrev pub outside : Outside ℕ
outside = outside_with false

abbrev pub empty_redis : Redis
empty_redis = record {
  active = none;
  meta = none;
  last_run = none;
  prev_run = none;
  prev_run2 = none;
  run_history = [];
  members = Dict.empty;
  stops = Dict.empty;
}

abbrev pub server : Redis → Server
server r = record {
  redis = r;
  now = 0;
  calls = 0;
  ids = 0;
  active_gauge = 0;
  started_at_gauge = 0;
  owner_kind_gauge = 0;
}

abbrev pub claimed : Info
claimed = record {
  session_id = "r1" ++ session_id_sep ++ "m0";
  run_id = "r1";
  owner = "replayengine";
  claimed_at = some 0;
  ttl = 30500;
}

pub claims : (claim outside "replayengine" "r1" "" 1 (server empty_redis)).0 ≡ ok claimed
unfolding claim ◌>>=◌ clock own_run_id claim_run command claim_script get_active answer_claim join
    new_id sadd get_members registered set_encoded begin_if_created begin_run move_body begin_gauges
    Dict.get Dict.put Dict.empty contains
claims = refl

abbrev pub calls : List (Call ℕ)
calls = call_heartbeat "r1" ∷ call_request_stop "r1" ∷ []

pub lasts : set_lasts 29000 (own_run_id outside "r1" (server empty_redis)).0 empty_redis ≡ true
unfolding own_run_id Dict.get Dict.empty
lasts = refl

-- The lock that r1 holds with its member m0.
abbrev pub locked_redis : Redis
locked_redis = record empty_redis {
  active = some (record { run_id = "r1"; expires = 30000 });
  last_run = some "running";
  members = Dict.put "r1" (record { ids = "m0" ∷ []; expires = some 30000 }) Dict.empty;
}

locked : IsHeld "r1" "m0" 29000 (whole_ttl outside) 0 locked_redis
unfolding Dict.get Dict.put Dict.empty contains
locked = record {
  expires = 30000;
  members = record { ids = "m0" ∷ []; expires = some 30000 };
  leased = refl;
  lasting = omega arith;
  stored = refl;
  present = refl;
  staying = refl;
  renewable = omega arith;
}

split_of_r1 : split_session_id "r1.m0" ≡ some ("r1", "m0")
unfolding split_session_id split_before
split_of_r1 = refl

abbrev beaten : Server
beaten = (heartbeat outside "r1.m0" (server locked_redis)).1

beats : ((heartbeat outside "r1.m0" (server locked_redis)).0 ≡ ok false) × (beaten.now ≤ 29900)
unfolding heartbeat renew ◌>>=◌ split_session_id split_before command heartbeat_script
    expire_members get_members get_active Dict.get Dict.put Dict.empty exists_stop is_empty
beats = (refl, omega arith)

heartbeat-IsHeld_example : IsHeld "r1" "m0" 29900 (whole_ttl outside) beaten.now beaten.redis
heartbeat-IsHeld_example =
    heartbeat-IsHeld outside "r1.m0" "r1" "m0" "m0" 29000 29900 (server locked_redis) false locked
      split_of_r1 (omega arith) (omega arith) beats.0 beats.1

abbrev completed_r0 : RunOutcome
completed_r0 = record { status = "COMPLETED"; message = "" }

decodes_over : outside.decode_run "over" ≡ some (ended_record outside "r0" completed_r0 0)
unfolding no_record
decodes_over = refl

-- r0 released its last member before r1 claimed the lock; now it writes its end.
finalize_last_run-hides_example :
    ((finalize_last_run outside "r0" completed_r0 (server locked_redis)).1.redis.active
      ≡ locked_redis.active)
    × ((last_run outside (finalize_last_run outside "r0" completed_r0 (server locked_redis)).1).0
        ≡ ok (some (ended_record outside "r0" completed_r0 0)))
finalize_last_run-hides_example =
    finalize_last_run-hides outside "r0" completed_r0 (server locked_redis) "running" "over" running
      (λ _. refl) refl refl refl refl refl decodes_over
