-- ===== src/OrderApi/Session/Finish.antt =====
-- orderapi/session/session.go: Release and finalizeLastRun.
use project_final_1team.Prelude.{
  ℕ, String, Bool, true, false, Option, none, some, ◌==◌, if◌then◌else◌,
}
use project_final_1team.OrderApi.Session.{
  RunRecord, RunOutcome, not_active, problem, Result, ok, err, Outside, run_history_max_len,
}
use project_final_1team.OrderApi.Session.Redis.{
  M, ◌>>=◌, ◌>>◌, return, clock, set_gauge, command, reading, unknown, left, left_last,
  release_script, set_last_run, push_history, trim_history,
}
use project_final_1team.OrderApi.Session.Renew.{split_session_id}

module _ {F : Type 0} (out : Outside F) where
  unfoldable pub no_record : RunRecord F
  no_record = record {
    run_id = "";
    owner = "";
    status = "";
    started_at = none;
    ended_at = none;
    message = "";
    speed = out.zero_speed;
    date = "";
  }

  -- The end of a run, with what its own record says of the beginning.
  unfoldable pub finished_record : String → RunOutcome → ℕ → Option (RunRecord F) → RunRecord F
  finished_record run_id outcome now existing =
      let base = record no_record {
        run_id = run_id;
        status = outcome.status;
        ended_at = some now;
        message = outcome.message;
      } in
      elim existing [
        | none ↦ base
        | some e ↦
            if e.run_id == run_id
            then record base {
              owner = e.owner;
              started_at = e.started_at;
              speed = e.speed;
              date = e.date;
            }
            else base
      ]

  -- A text that a GET has found, decoded; `none` also where there is no such text.
  unfoldable pub decoded : Option (Option String) → Option (RunRecord F)
  decoded none = none
  decoded (some none) = none
  decoded (some (some body)) = out.decode_run body

  unfoldable pub add_history : String → String → M (Unit {0})
  add_history owner body =
      if owner == "replayengine"
      then (do
        command out (push_history body)
        command out (trim_history run_history_max_len)
        return tt)
      else return tt

  unfoldable pub write_finished : RunRecord F → M (RunRecord F)
  write_finished r = elim (out.encode_run r) [
    | none ↦ return r
    | some body ↦ do command out (set_last_run body); add_history r.owner body; return r
  ]

  unfoldable pub finalize_last_run : String → RunOutcome → M (RunRecord F)
  finalize_last_run run_id outcome = do
    set_gauge 0
    now ← clock
    last ← command out (reading (λ _ r. r.last_run))
    write_finished (finished_record run_id outcome now (decoded last))

  -- Release of a session id that is split.
  unfoldable pub leave : Option (String × String) → RunOutcome → M (Result (RunRecord F × Bool))
  leave none outcome = return (err not_active)
  leave (some (run_id, member)) outcome = do
    answer ← command out (release_script run_id member)
    elim answer [
      | none ↦ return (err (problem "세션 반납 실패"))
      | some unknown ↦ return (err not_active)
      | some left ↦ return (ok (no_record, false))
      | some left_last ↦ do
        finished ← finalize_last_run run_id outcome
        return (ok (finished, true))
    ]

  unfoldable pub release : String → RunOutcome → M (Result (RunRecord F × Bool))
  release session_id outcome = leave (split_session_id session_id) outcome
