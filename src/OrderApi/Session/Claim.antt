-- ===== src/OrderApi/Session/Claim.antt =====
-- orderapi/session/session.go: Claim, with the shifting of the records of the last runs, and currentInfo.
use Prim.Native.String.{String, ◌++◌}
use project_final_1team.Prelude.{ℕ, ◌/◌, Option, none, some, ◌==◌, if◌then◌else◌}
use project_final_1team.OrderApi.Session.{
  Info, conflict, problem, Result, ok, err, Outside, in_progress, session_id_sep,
}
use project_final_1team.OrderApi.Session.Redis.{
  Redis, M, ◌>>=◌, ◌>>◌, return, clock, command, new_id, whole_ttl, reading, get_active,
  ClaimAnswer, created, joined, refused, claim_script, sadd, expire_members, set_meta, set_last_run,
  set_prev_run, set_prev_run2,
}

unfoldable pub owner_kind : String → ℕ
owner_kind owner = if owner == "trader" then 1 else if owner == "replayengine" then 2 else 0

-- The three gauges of a run that begins.
unfoldable pub begin_gauges : String → ℕ → M (Unit {0})
begin_gauges owner now s = (
  tt,
  record s { active_gauge = 1; started_at_gauge = now / 1000; owner_kind_gauge = owner_kind owner },
)

module _ {F : Type 0} (out : Outside F) where
  unfoldable pub no_info : Info
  no_info = record { session_id = ""; run_id = ""; owner = ""; claimed_at = none; ttl = 0 }

  unfoldable pub info_of : String → Option (Option String) → Info
  info_of run_id none = record no_info { run_id = run_id }
  info_of run_id (some none) = record no_info { run_id = run_id }
  info_of run_id (some (some body)) = elim (out.decode_meta body) [
    | none ↦ record no_info { run_id = run_id }
    | some m ↦ record no_info { run_id = run_id; owner = m.owner; claimed_at = m.claimed_at }
  ]

  unfoldable pub current_info : M Info
  current_info = do
    active ← command out (reading get_active)
    elim active [
      | none ↦ return no_info
      | some none ↦ return no_info
      | some (some run_id) ↦ do
        body ← command out (reading (λ _ r. r.meta))
        return (info_of run_id body)
    ]

  -- A SET whose error is ignored, of a text that json.Marshal may not give.
  unfoldable pub set_encoded :
      Option String → (String → ℕ → Redis → Unit {0} × Redis) → M (Option (Unit {0}))
  set_encoded none set = return none
  set_encoded (some body) set = command out (set body)

  -- The text of a key that a GET has found, moved on to another key.
  unfoldable pub move_body :
      Option (Option String) → (String → ℕ → Redis → Unit {0} × Redis) → M (Option (Unit {0}))
  move_body none set = return none
  move_body (some none) set = return none
  move_body (some (some body)) set = command out (set body)

  -- What a claim does that makes a group.
  unfoldable pub begin_run : String → String → String → F → ℕ → M (Unit {0})
  begin_run owner run_id date speed now = do
    prev ← command out (reading (λ _ r. r.prev_run))
    move_body prev set_prev_run2
    last ← command out (reading (λ _ r. r.last_run))
    move_body last set_prev_run
    set_encoded
        (out.encode_run (record {
          run_id = run_id;
          owner = owner;
          status = in_progress;
          started_at = some now;
          ended_at = none;
          message = "";
          speed = speed;
          date = date;
        }))
        set_last_run
    begin_gauges owner now

  unfoldable pub begin_if_created : ClaimAnswer → String → String → String → F → ℕ → M (Unit {0})
  begin_if_created created owner run_id date speed now = begin_run owner run_id date speed now
  begin_if_created joined owner run_id date speed now = return tt
  begin_if_created refused owner run_id date speed now = return tt

  -- The rest of a claim whose member is in the set.
  unfoldable pub registered :
      ClaimAnswer → String → String → String → F → ℕ → String → M (Result Info)
  registered answer owner run_id date speed now member = do
    command out (expire_members run_id (whole_ttl out))
    set_encoded (out.encode_meta (record { owner = owner; claimed_at = some now })) set_meta
    begin_if_created answer owner run_id date speed now
    return (
        ok (record {
          session_id = run_id ++ session_id_sep ++ member;
          run_id = run_id;
          owner = owner;
          claimed_at = some now;
          ttl = out.ttl;
        }))

  -- The rest of a claim that the script lets through.
  unfoldable pub join : ClaimAnswer → String → String → String → F → ℕ → M (Result Info)
  join answer owner run_id date speed now = do
    member ← new_id out
    added ← command out (sadd run_id member)
    elim added [
      | none ↦ return (err (problem "세션 클레임 실패 (멤버 등록)"))
      | some _ ↦ registered answer owner run_id date speed now member
    ]

  unfoldable pub own_run_id : String → M String
  own_run_id run_id = if run_id == "" then new_id out else return run_id

  -- What follows the script of a claim.
  unfoldable pub answer_claim : ClaimAnswer → String → String → String → F → ℕ → M (Result Info)
  answer_claim refused owner run_id date speed now = do
    current ← current_info
    return (err (conflict current))
  answer_claim created owner run_id date speed now = join created owner run_id date speed now
  answer_claim joined owner run_id date speed now = join joined owner run_id date speed now

  -- A claim of a run whose id is settled.
  unfoldable pub claim_run : String → String → String → F → ℕ → M (Result Info)
  claim_run owner run_id date speed now = do
    answer ← command out (claim_script run_id (whole_ttl out))
    elim answer [
      | none ↦ return (err (problem "세션 클레임 실패"))
      | some a ↦ answer_claim a owner run_id date speed now
    ]

  unfoldable pub claim : String → String → String → F → M (Result Info)
  claim owner run_id date speed = do
    now ← clock
    own ← own_run_id run_id
    claim_run owner own date speed now
