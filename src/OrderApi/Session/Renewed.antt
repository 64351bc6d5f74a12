-- ===== src/OrderApi/Session/Renewed.antt =====
-- orderapi/session/session.go: the lock after a heartbeat.
use Prim.Native.String.{String}
use project_final_1team.Prelude.{
  ℕ, ◌+◌, ◌≤◌, ◌<◌, ◌≡◌, refl, ◌∙◌, Bool, true, some, arith, eq_refl, inl, inr, Bool-cases,
}
use project_final_1team.Dict.{get-put}
use project_final_1team.OrderApi.Session.{Outside, ok}
use project_final_1team.OrderApi.Session.Redis.{
  Redis, Server, ◌>>=◌, command-up, command-down, whole_ttl, heartbeat_script, expire_members,
  get_members, lease, get_active,
}
use project_final_1team.OrderApi.Session.Holding.{
  IsHeld-lasts, get_active-held, get_members-held, not-is_empty,
}
use project_final_1team.OrderApi.Session.Holding.{IsHeld}
use project_final_1team.OrderApi.Session.Renew.{split_session_id, renew, heartbeat}
use project_final_1team.OrderApi.Session.Claimed.{exists_stop-KeepsLock}

get_members-lease :
    (run_id holder : String) (now e : ℕ) (r : Redis)
    → get_members now run_id (lease holder e r) ≡ get_members now run_id r
unfolding get_members
get_members-lease run_id holder now e r = refl

heartbeat_script-active :
    (run_id : String) (ttl now : ℕ) (r : Redis)
    → get_active now r ≡ some run_id
    → heartbeat_script run_id ttl now r
      ≡ (true, (expire_members run_id ttl now (lease run_id (now + ttl) r)).1)
unfolding heartbeat_script
heartbeat_script-active run_id ttl now r active =
    rw (active, heartbeat_script) (rw (eq_refl run_id) refl)

module _ {run_id member : String} {t ttl : ℕ} where
  expire_members-renewed :
      (longer now : ℕ) (r : Redis)
      → now ≤ t
      → longer < now + ttl
      → IsHeld run_id member t ttl now r
      → IsHeld run_id member longer ttl now
          (expire_members run_id ttl now (lease run_id (now + ttl) r)).1
  unfolding expire_members
  expire_members-renewed longer now r le more h =
      let same : get_members now run_id (lease run_id (now + ttl) r) ≡ h.members =
        get_members-lease run_id run_id now (now + ttl) r ∙ get_members-held now r le h in
      rw (same, not-is_empty member h.members.ids h.present, expire_members)
        (record {
          expires = now + ttl;
          members = record h.members { expires = some (now + ttl) };
          leased = refl;
          lasting = more;
          stored = rw (get-put, eq_refl) refl;
          present = h.present;
          staying = ground arith;
          renewable = more;
        })

module _ {F : Type 0} (out : Outside F) where
  renew-IsHeld :
      (run_id member other : String) (t longer : ℕ) (s : Server) (stop : Bool)
      → IsHeld run_id member t (whole_ttl out) s.now s.redis
      → longer < s.now + whole_ttl out
      → s.now + out.delay s.calls ≤ t
      → (renew out (some (run_id, other)) s).0 ≡ ok stop
      → (renew out (some (run_id, other)) s).1.now ≤ longer
      → IsHeld run_id member longer
          (whole_ttl out)
          (renew out (some (run_id, other)) s).1.now
          (renew out (some (run_id, other)) s).1.redis
  unfolding renew ◌>>=◌
  renew-IsHeld run_id member other t longer s stop held more le =
      let at = IsHeld-lasts s.now (s.now + out.delay s.calls) s.redis (omega arith) held in
      elim (Bool-cases (out.is_down s.calls)) [
        | inl down ↦
            rw (command-down out (heartbeat_script run_id (whole_ttl out)) s down, renew, ◌>>=◌)
              (λ failed ends. cc)
        | inr up ↦
            rw
              (
                command-up out (heartbeat_script run_id (whole_ttl out)) s up,
                heartbeat_script-active run_id (whole_ttl out) (s.now + out.delay s.calls) s.redis
                    (get_active-held (s.now + out.delay s.calls) s.redis le at),
                renew,
                ◌>>=◌,
              )
              (λ worked ends. (exists_stop-KeepsLock out run_id member longer run_id).keeps _ ends (
                expire_members-renewed longer (s.now + out.delay s.calls) s.redis le (omega arith)
                  at))
      ]

  -- When a run holds the lock with a member until t, and a heartbeat of any of its sessions answers
  -- without an error, runs its first command by t and ends by a later time, then the run holds the
  -- lock with that member until this time, which is any time before the heartbeat's start plus the
  -- time to live in whole seconds.
  pub heartbeat-IsHeld :
      (session_id run_id member other : String) (t longer : ℕ) (s : Server) (stop : Bool)
      → IsHeld run_id member t (whole_ttl out) s.now s.redis
      → split_session_id session_id ≡ some (run_id, other)
      → s.now + out.delay s.calls ≤ t
      → longer < s.now + whole_ttl out
      → (heartbeat out session_id s).0 ≡ ok stop
      → (heartbeat out session_id s).1.now ≤ longer
      → IsHeld run_id member longer
          (whole_ttl out)
          (heartbeat out session_id s).1.now
          (heartbeat out session_id s).1.redis
  unfolding heartbeat
  heartbeat-IsHeld session_id run_id member other t longer s stop held is le more =
      rw is (renew-IsHeld run_id member other t longer s stop held more le)
