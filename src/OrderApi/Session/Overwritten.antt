-- ===== src/OrderApi/Session/Overwritten.antt =====
-- orderapi/session/session.go: finalizeLastRun after a claim that came between the release's script and
-- it, and RequestStop when Redis does not answer.
use project_final_1team.Prelude.{
  ℕ, suc, ◌+◌, String, ◌≡◌, refl, ap, ◌∙◌, true, false, Option, some, ◌==◌, eq_refl,
}
use project_final_1team.OrderApi.Session.{
  RunRecord, RunOutcome, Outside, ok, err, not_active, in_progress,
}
use project_final_1team.OrderApi.Session.Redis.{
  Redis, Server, ◌>>=◌, clock, set_gauge, command, command-up, sent, reading, get_active, is_text,
  set_last_run,
}
use project_final_1team.OrderApi.Session.Renew.{request_stop}
use project_final_1team.OrderApi.Session.Finish.{
  finalize_last_run, write_finished, add_history, finished_record, decoded, no_record,
}
use project_final_1team.OrderApi.Session.Claim.{set_encoded}
use project_final_1team.OrderApi.Session.Runs.{
  last_run, read_run, reconciled, stale_record, reconcile_stale_run, fail_if_same, fail_run,
}

module _ {F : Type 0} (out : Outside F) where
  -- A stop request of a run whose id is not empty answers that the session is not active when its
  -- first command fails.
  pub request_stop-down :
      (run_id : String) (s : Server)
      → out.is_down s.calls ≡ true
      → ("" == run_id) ≡ false
      → (request_stop out run_id s).0 ≡ err not_active
  unfolding request_stop ◌>>=◌ command
  request_stop-down run_id s down named = rw (down, request_stop, ◌>>=◌, command) (rw named refl)

  finished-other :
      (run_id : String) (outcome : RunOutcome) (now : ℕ) (b : RunRecord F)
      → (b.run_id == run_id) ≡ false
      → finished_record out run_id outcome now (some b) ≡ record (no_record out) {
        run_id = run_id;
        status = outcome.status;
        ended_at = some now;
        message = outcome.message;
      }
  unfolding finished_record
  finished-other run_id outcome now b n = rw (n, finished_record) refl

  write_finished-last_run :
      (r : RunRecord F) (body : String) (s : Server)
      → ((n : ℕ) → out.is_down n ≡ false)
      → (r.owner == "replayengine") ≡ false
      → out.encode_run r ≡ some body
      → (write_finished out r s).1.redis ≡ record s.redis { last_run = some body }
  unfolding write_finished ◌>>=◌ add_history set_last_run
  write_finished-last_run r body s up owner encodes =
      rw (encodes, write_finished, ◌>>=◌)
        (rw (command-up out (set_last_run body) s (up s.calls), owner, add_history, ◌>>=◌) refl)

  no_owner :
      (run_id : String) (outcome : RunOutcome) (now : ℕ)
      → ((no_record out).owner == "replayengine") ≡ false
  unfolding no_record
  no_owner run_id outcome now = refl

  finalize_last_run-overwrites :
      (run_id : String) (outcome : RunOutcome) (s : Server) (text body : String) (b : RunRecord F)
      → ((n : ℕ) → out.is_down n ≡ false)
      → s.redis.last_run ≡ some text
      → out.decode_run text ≡ some b
      → (b.run_id == run_id) ≡ false
      → out.encode_run (record (no_record out) {
        run_id = run_id;
        status = outcome.status;
        ended_at = some s.now;
        message = outcome.message;
      })
        ≡ some body
      → (finalize_last_run out run_id outcome s).1.redis ≡ record s.redis { last_run = some body }
  unfolding finalize_last_run ◌>>=◌ clock set_gauge decoded
  finalize_last_run-overwrites run_id outcome s text body b up stored reads apart encodes =
      rw
        (
          command-up out (reading (λ _ r. r.last_run)) (record s { active_gauge = 0 }) (up s.calls),
          finalize_last_run,
          ◌>>=◌,
          set_gauge,
          clock,
        )
        (rw (ap (decoded out) (ap some stored) ∙ reads, finished-other run_id outcome s.now b apart)
          (write_finished-last_run
            (record (no_record out) {
              run_id = run_id;
              status = outcome.status;
              ended_at = some s.now;
              message = outcome.message;
            })
            body _ up (no_owner run_id outcome s.now) encodes))

  read_run-found :
      (key : ℕ → Redis → Option String) (lost unreadable text : String) (r : RunRecord F)
      (s : Server)
      → ((n : ℕ) → out.is_down n ≡ false)
      → key (s.now + out.delay s.calls) s.redis ≡ some text
      → out.decode_run text ≡ some r
      → read_run out key lost unreadable s ≡ (ok (some r), sent out s)
  unfolding read_run ◌>>=◌
  read_run-found key lost unreadable text r s up stored reads =
      rw (command-up out (reading key) s (up s.calls), read_run, ◌>>=◌) (rw (stored, reads) refl)

  last_run-finished :
      (text : String) (r : RunRecord F) (s : Server)
      → ((n : ℕ) → out.is_down n ≡ false)
      → s.redis.last_run ≡ some text
      → out.decode_run text ≡ some r
      → (r.status == in_progress) ≡ false
      → (last_run out s).0 ≡ ok (some r)
  unfolding last_run ◌>>=◌ reconciled
  last_run-finished text r s up stored reads ended =
      rw
        (
          read_run-found (λ _ r. r.last_run) "마지막 실행 기록 조회 실패" "마지막 실행 기록 파싱 실패" text r s up stored
              reads,
          last_run,
          ◌>>=◌,
        )
        (rw (ended, reconciled) refl)

  abbrev pub ended_record : String → RunOutcome → ℕ → RunRecord F
  ended_record run_id outcome now = record (no_record out) {
    run_id = run_id;
    status = outcome.status;
    ended_at = some now;
    message = outcome.message;
  }

  -- When no command fails, the place of the last run holds the record of another run, and the
  -- record of the ended run encodes and decodes, is not in progress and lacks what the other record
  -- says, finalizeLastRun leaves the active run as it is, and LastRun then answers the ended run.
  pub finalize_last_run-hides :
      (run_id : String) (outcome : RunOutcome) (s : Server) (text body : String) (b : RunRecord F)
      → ((n : ℕ) → out.is_down n ≡ false)
      → s.redis.last_run ≡ some text
      → out.decode_run text ≡ some b
      → (b.run_id == run_id) ≡ false
      → (outcome.status == in_progress) ≡ false
      → out.encode_run (ended_record run_id outcome s.now) ≡ some body
      → out.decode_run body ≡ some (ended_record run_id outcome s.now)
      → (let after = (finalize_last_run out run_id outcome s).1 in
          (after.redis.active ≡ s.redis.active)
          × ((last_run out after).0 ≡ ok (some (ended_record run_id outcome s.now))))
  finalize_last_run-hides run_id outcome s text body b up stored reads apart ended encodes decodes =
      let written =
        finalize_last_run-overwrites run_id outcome s text body b up stored reads apart encodes in
      (
        ap (λ r. r.active) written,
        last_run-finished body (ended_record run_id outcome s.now)
            (finalize_last_run out run_id outcome s).1 up (ap (λ r. r.last_run) written) decodes
            ended,
      )

  fail_run-up :
      (r : RunRecord F) (body : String) (s : Server)
      → ((n : ℕ) → out.is_down n ≡ false)
      → out.encode_run (stale_record out r s.now) ≡ some body
      → ((fail_run out r s).0 ≡ some (stale_record out r s.now))
        × ((fail_run out r s).1.redis ≡ record s.redis { last_run = some body })
  unfolding fail_run ◌>>=◌ clock set_encoded set_gauge set_last_run
  fail_run-up r body s up encodes =
      rw (encodes, fail_run, set_encoded, ◌>>=◌, clock)
        (rw (command-up out (set_last_run body) s (up s.calls), ◌>>=◌) (refl, refl))

  -- The times of the second and the third command from `s` on.
  abbrev pub second : Server → ℕ
  second s = s.now + out.delay s.calls + out.delay (suc s.calls)

  reconcile-up :
      (text body : String) (r : RunRecord F) (s : Server)
      → ((n : ℕ) → out.is_down n ≡ false)
      → s.redis.last_run ≡ some text
      → out.decode_run text ≡ some r
      → (r.status == in_progress) ≡ true
      → is_text r.run_id (get_active (s.now + out.delay s.calls) s.redis) ≡ false
      → out.encode_run (stale_record out r (second s)) ≡ some body
      → ((reconcile_stale_run out r s).0 ≡ some (stale_record out r (second s)))
        × ((reconcile_stale_run out r s).1.redis ≡ record s.redis { last_run = some body })
  unfolding reconcile_stale_run ◌>>=◌ fail_if_same decoded
  reconcile-up text body r s up stored reads progress dead encodes =
      rw (command-up out (reading get_active) s (up s.calls), reconcile_stale_run, ◌>>=◌)
        (rw (dead) (
          rw (command-up out (reading (λ _ v. v.last_run)) (sent out s) (up (suc s.calls)), ◌>>=◌)
            (rw (ap (decoded out) (ap some stored) ∙ reads, fail_if_same)
              (rw (eq_refl r.run_id, progress) (fail_run-up r body _ up encodes)))))

  -- When no command fails and the record of the last run is one in progress whose run is not the
  -- active one at the second command, LastRun answers the failed record with the time of the third
  -- command, and writes it if it encodes as the given text.
  pub last_run-stale :
      (text body : String) (r : RunRecord F) (s : Server)
      → ((n : ℕ) → out.is_down n ≡ false)
      → s.redis.last_run ≡ some text
      → out.decode_run text ≡ some r
      → (r.status == in_progress) ≡ true
      → is_text r.run_id (get_active (s.now + out.delay s.calls + out.delay (suc s.calls)) s.redis)
        ≡ false
      → (let ended =
            s.now + out.delay s.calls + out.delay (suc s.calls) + out.delay (suc (suc s.calls)) in
          (out.encode_run (stale_record out r ended) ≡ some body))
      → (let ended =
            s.now + out.delay s.calls + out.delay (suc s.calls) + out.delay (suc (suc s.calls)) in
          ((last_run out s).0 ≡ ok (some (stale_record out r ended)))
          × ((last_run out s).1.redis ≡ record s.redis { last_run = some body }))
  unfolding last_run ◌>>=◌ reconciled
  last_run-stale text body r s up stored reads progress dead encodes =
      rw
        (
          read_run-found (λ _ r. r.last_run) "마지막 실행 기록 조회 실패" "마지막 실행 기록 파싱 실패" text r s up stored
              reads,
          last_run,
          ◌>>=◌,
        )
        (rw (progress, reconciled, ◌>>=◌)
          (let found =
              reconcile-up text body r (sent out s) up stored reads progress dead encodes in
            (rw (found.0) refl, found.1)))
