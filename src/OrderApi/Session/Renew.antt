-- ===== src/OrderApi/Session/Renew.antt =====
-- orderapi/session/session.go: splitSessionID, Heartbeat and RequestStop.
use Prim.Native.Char.{Char}
use Prim.Native.String.{String}
use project_final_1team.Prelude.{Bool, true, false, not, Option, none, some, ◌==◌, if◌then◌else◌}
use project_final_1team.OrderApi.Session.{
  not_active, problem, Result, ok, err, Outside, session_id_sep,
}
use project_final_1team.OrderApi.Session.Redis.{
  M, ◌>>=◌, return, command, whole_ttl, reading, get_active, heartbeat_script, exists_stop,
  set_stop,
}

-- A character in front of a text that is split, or is not: the separator splits it there.
unfoldable pub split_before : Char → String → Option (String × String) → Option (String × String)
split_before c s (some (run_id, member)) = some (String.◌∷◌ c run_id, member)
split_before c s none =
    if String.◌∷◌ c String.[] == session_id_sep then some (String.[], s) else none

-- The text before the last separator and the text after it.
unfoldable pub split_session_id : String → Option (String × String)
split_session_id String.[] = none
split_session_id (String.◌∷◌ c s) = split_before c s (split_session_id s)

module _ {F : Type 0} (out : Outside F) where
  -- Heartbeat of a session id that is split.
  unfoldable pub renew : Option (String × String) → M (Result Bool)
  renew none = return (err not_active)
  renew (some (run_id, member)) = do
    answer ← command out (heartbeat_script run_id (whole_ttl out))
    elim answer [
      | none ↦ return (err (problem "세션 하트비트 실패"))
      | some false ↦ return (err not_active)
      | some true ↦ do
        stop ← command out (exists_stop run_id)
        return (ok (elim stop [ none ↦ false | some b ↦ b ]))
    ]

  unfoldable pub heartbeat : String → M (Result Bool)
  heartbeat session_id = renew (split_session_id session_id)

  -- A failed GET gives the empty text, which is compared before the error is looked at.
  unfoldable pub request_stop : String → M (Result (Unit {0}))
  request_stop run_id = do
    current ← command out (reading get_active)
    elim current [
      | some none ↦ return (err not_active)
      | some (some active) ↦ if not (active == run_id) then return (err not_active) else do
        answer ← command out (set_stop run_id out.ttl)
        return (elim answer [ none ↦ err (problem "정지 요청 실패") | some _ ↦ ok tt ])
      | none ↦
          if not ("" == run_id) then return (err not_active) else return (err (problem "정지 요청 실패"))
    ]
