-- ===== src/OrderApi/Session/Runs.antt =====
-- orderapi/session/session.go: LastRun with reconcileStaleRun, AppendLastRunNote, the earlier runs and the
-- history. `some none` is found=false.
use Prim.Native.String.{String, ◌++◌}
use project_final_1team.Prelude.{
  ℕ, not, ◌||◌, Option, none, some, List, [], ◌∷◌, ◌==◌, if◌then◌else◌, take,
}
use project_final_1team.OrderApi.Session.{
  RunRecord, problem, Result, ok, err, Outside, in_progress, run_failed, run_history_max_len,
}
use project_final_1team.OrderApi.Session.Redis.{
  Redis, M, ◌>>=◌, ◌>>◌, return, clock, set_gauge, command, reading, get_active, is_text,
  set_last_run,
}
use project_final_1team.OrderApi.Session.Claim.{set_encoded}
use project_final_1team.OrderApi.Session.Finish.{decoded}

abbrev pub stale_message : String
stale_message = "세션이 하트비트 없이 만료되어 자동으로 종료 처리되었습니다 (프로세스 응답 없음으로 추정)"

module _ {F : Type 0} (out : Outside F) where
  unfoldable pub stale_record : RunRecord F → ℕ → RunRecord F
  stale_record existing now = record existing {
    status = run_failed;
    ended_at = some now;
    message = stale_message;
  }

  unfoldable pub fail_run : RunRecord F → M (Option (RunRecord F))
  fail_run existing = do
    now ← clock
    let finalized = stale_record existing now
    set_encoded out (out.encode_run finalized) set_last_run
    set_gauge 0
    return (some finalized)

  -- The second look at the record of the last run.
  unfoldable pub fail_if_same : RunRecord F → Option (RunRecord F) → M (Option (RunRecord F))
  fail_if_same r none = return none
  fail_if_same r (some existing) =
      if not (existing.run_id == r.run_id) || not (existing.status == in_progress)
      then return none
      else fail_run existing

  unfoldable pub reconcile_stale_run : RunRecord F → M (Option (RunRecord F))
  reconcile_stale_run r = do
    current ← command out (reading get_active)
    elim current [
      | none ↦ return none
      | some active ↦ if is_text r.run_id active then return none else do
        last ← command out (reading (λ _ s. s.last_run))
        fail_if_same r (decoded out last)
    ]

  -- PreviousRun, PreviousRun2 and the beginning of LastRun.
  unfoldable pub read_run :
      (ℕ → Redis → Option String) → String → String → M (Result (Option (RunRecord F)))
  read_run key lost unreadable = do
    body ← command out (reading key)
    return (elim body [
      | none ↦ err (problem lost)
      | some none ↦ ok none
      | some (some text) ↦ elim (out.decode_run text) [
        | none ↦ err (problem unreadable)
        | some r ↦ ok (some r)
      ]
    ])

  unfoldable pub previous_run : M (Result (Option (RunRecord F)))
  previous_run = read_run (λ _ r. r.prev_run) "직전 실행 기록 조회 실패" "직전 실행 기록 파싱 실패"

  unfoldable pub previous_run2 : M (Result (Option (RunRecord F)))
  previous_run2 = read_run (λ _ r. r.prev_run2) "전전 실행 기록 조회 실패" "전전 실행 기록 파싱 실패"

  unfoldable pub reconciled : RunRecord F → M (RunRecord F)
  reconciled r =
      if r.status == in_progress
      then (do failed ← reconcile_stale_run r; return (elim failed [ none ↦ r | some f ↦ f ]))
      else return r

  unfoldable pub last_run : M (Result (Option (RunRecord F)))
  last_run = do
    found ← read_run (λ _ r. r.last_run) "마지막 실행 기록 조회 실패" "마지막 실행 기록 파싱 실패"
    elim found [
      | err e ↦ return (err e)
      | ok none ↦ return (ok none)
      | ok (some r) ↦ do r' ← reconciled r; return (ok (some r'))
    ]

  unfoldable pub with_note : RunRecord F → String → RunRecord F
  with_note r note = record r {
    message = if r.message == "" then note else r.message ++ " | " ++ note;
  }

  -- An error of json.Marshal is returned as it is.
  unfoldable pub append_last_run_note : String → String → M (Result (Unit {0}))
  append_last_run_note run_id note = do
    found ← read_run (λ _ r. r.last_run) "마지막 실행 기록 조회 실패" "마지막 실행 기록 파싱 실패"
    elim found [
      | err e ↦ return (err e)
      | ok none ↦ return (ok tt)
      | ok (some r) ↦
          if not (r.run_id == run_id)
          then return (ok tt)
          else elim (out.encode_run (with_note r note)) [
            | none ↦ return (err (problem ""))
            | some body ↦ do
              answer ← command out (set_last_run body)
              return (elim answer [ none ↦ err (problem "") | some _ ↦ ok tt ])
          ]
    ]

  -- The items that decode.
  unfoldable pub decode_all : List String → List (RunRecord F)
  decode_all [] = []
  decode_all (item ∷ items) =
      let rest = decode_all items in elim (out.decode_run item) [ none ↦ rest | some r ↦ r ∷ rest ]

  unfoldable pub run_history : M (Result (List (RunRecord F)))
  run_history = do
    items ← command out (reading (λ _ r. take run_history_max_len r.run_history))
    return (elim items [ none ↦ err (problem "실행 이력 조회 실패") | some texts ↦ ok (decode_all texts) ])
