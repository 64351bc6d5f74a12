-- ===== src/OrderApi/SessionHandlers/Once.antt =====
-- orderapi/sessionhandlers.go: releaseSessionHandler, called twice for one session.
use project_final_1team.Prelude.{◌≡◌, refl, ap, String, Bool, false, none}
use project_final_1team.OrderApi.Session.{
  RunRecord, Result, Outside, ok, err, not_active, conflict, problem,
}
use project_final_1team.OrderApi.Session.Redis.{Server, ◌>>=◌}
use project_final_1team.OrderApi.Session.Finish.{release}
use project_final_1team.OrderApi.Session.Released.{release-again}
use project_final_1team.OrderApi.SessionHandlers.{
  Formats, refused, no_content, ReleaseRequest, outcome_of, refusal, answer_released,
  release_session,
}

-- What the first answer leaves for the second one.
module _ {F : Type 0} (out : Outside F) (formats : Formats) where
  answered-again :
      (first second : Result (RunRecord F × Bool))
      → ((x : RunRecord F × Bool) → first ≡ ok x → second ≡ err not_active)
      → (answer_released out formats first).0 ≡ no_content
      → answer_released out formats second ≡ (refused 404 "SESSION_NOT_ACTIVE", none)
  unfolding answer_released refusal
  answered-again (ok x) second gone h = ap (answer_released out formats) (gone x refl)
  answered-again (err not_active) second gone h = cc h
  answered-again (err (conflict current)) second gone h = cc h
  answered-again (err (problem text)) second gone h = cc h

  -- When a release request of a session is answered with 204 and the first command after it does
  -- not fail, another release request of the session is answered with 404 and starts no cleanup.
  pub release_session-once :
      (session_id : String) (req again : ReleaseRequest) (s : Server)
      → (release_session out formats session_id req s).0.0 ≡ no_content
      → out.is_down (release_session out formats session_id req s).1.calls ≡ false
      → (release_session out formats session_id again
          (release_session out formats session_id req s).1).0
        ≡ (refused 404 "SESSION_NOT_ACTIVE", none)
  unfolding release_session ◌>>=◌
  release_session-once session_id req again s h up =
      answered-again (release out session_id (outcome_of out formats req) s).0 _
        (λ x worked.
          release-again out session_id (outcome_of out formats req) (outcome_of out formats again) s
            x worked up)
        h
