-- ===== src/OrderApi/Session.antt =====
-- orderapi/session/session.go: the records of a run and of a session, the errors, and what the store of
-- sessions takes from outside. A time is the number of milliseconds of the clock; `none` is the zero
-- time. `F` is float64.
pub mod Redis
pub mod Claim
pub mod Renew
pub mod Finish
pub mod Runs
pub mod Keep
pub mod Held
pub mod Holding
pub mod Calls
pub mod Aside
pub mod Exclusive
pub mod Spared
pub mod Claimed
pub mod Lock
pub mod Leased
pub mod Names
pub mod Refused
pub mod Overwritten
pub mod Begin
pub mod Renewed
pub mod Released
pub mod Tests
use project_final_1team.Prelude.{ℕ, String, Bool, Option}

pub record RunRecord (F : Type 0) : Type 0 where
  pub run_id : String
  pub owner : String
  pub status : String
  pub started_at : Option ℕ
  pub ended_at : Option ℕ
  pub message : String
  pub speed : F
  pub date : String

pub record RunOutcome : Type 0 where
  pub status : String
  pub message : String

pub record MetaRecord : Type 0 where
  pub owner : String
  pub claimed_at : Option ℕ

pub record Info : Type 0 where
  pub session_id : String
  pub run_id : String
  pub owner : String
  pub claimed_at : Option ℕ
  pub ttl : ℕ

-- ConflictError, ErrNotActive and the errors that fmt.Errorf makes of others.
pub data SessionError : Type 0 where
  conflict : Info → SessionError
  not_active : SessionError
  problem : String → SessionError

pub data Result {ℓ} (A : Type ℓ) : Type ℓ where
  ok : A → Result A
  err : SessionError → Result A

abbrev pub in_progress : String
in_progress = "IN_PROGRESS"

abbrev pub completed : String
completed = "COMPLETED"

abbrev pub run_failed : String
run_failed = "FAILED"

abbrev pub stopped : String
stopped = "STOPPED"

abbrev pub session_id_sep : String
session_id_sep = "."

abbrev pub run_history_max_len : ℕ
run_history_max_len = 5

-- The time to live that the store is made with, the random ids of newSessionID, the time that passes
-- before each command and whether that command fails, the float64 zero, and the JSON of the records, where `none` is
-- an error.
pub record Outside (F : Type 0) : Type 0 where
  pub ttl : ℕ
  pub new_session_id : ℕ → String
  pub delay : ℕ → ℕ
  pub is_down : ℕ → Bool
  pub zero_speed : F
  pub encode_run : RunRecord F → Option String
  pub decode_run : String → Option (RunRecord F)
  pub encode_meta : MetaRecord → Option String
  pub decode_meta : String → Option MetaRecord
