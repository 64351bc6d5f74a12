-- ===== src/OrderApi/SessionHandlers/Busy.antt =====
-- orderapi/sessionhandlers.go: claimSessionHandler, while the session of another claim holds the lock.
use project_final_1team.Prelude.{
  ℕ, ◌+◌, ◌≤◌, ◌<◌, ◌≡◌, refl, sym, subst, Bool, true, false, some, List, ◌==◌, All, inl, inr,
  Bool-cases,
}
use project_final_1team.OrderApi.Session.{
  Info, Result, Outside, ok, err, not_active, conflict, problem,
}
use project_final_1team.OrderApi.Session.Redis.{Server, ◌>>=◌, whole_ttl}
use project_final_1team.OrderApi.Session.Claim.{claim, own_run_id}
use project_final_1team.OrderApi.Session.Calls.{Call, call_all}
use project_final_1team.OrderApi.Session.Leased.{is_ok, set_lasts}
use project_final_1team.OrderApi.Session.Refused.{releases, claim-exclusive}
use project_final_1team.OrderApi.SessionHandlers.{
  Formats, Response, refused, created, beat, no_content, shown, listed, ClaimRequest, ClaimResponse,
  claim_response, answer_claimed, claim_session,
}

abbrev pub is_created : {F : Type 0} → Response F → Bool
is_created (refused status code) = false
is_created (created c) = true
is_created (beat stop) = false
is_created no_content = false
is_created (shown r) = false
is_created (listed rs) = false

module _ {F : Type 0} (out : Outside F) (formats : Formats) where
  answer_claimed-fails :
      (r : Result Info) → is_ok r ≡ false → is_created (answer_claimed out formats r) ≡ false
  unfolding answer_claimed
  answer_claimed-fails (ok info) h = h
  answer_claimed-fails (err not_active) h = refl
  answer_claimed-fails (err (conflict current)) h = refl
  answer_claimed-fails (err (problem text)) h = refl

  answer_claimed-created :
      (r : Result Info) (c : ClaimResponse)
      → answer_claimed out formats r ≡ created c
      → (info : Info) × (r ≡ ok info) × (claim_response out formats info ≡ c)
  unfolding answer_claimed
  answer_claimed-created (ok info) c h = (info, refl, cc h)
  answer_claimed-created (err not_active) c h = cc h
  answer_claimed-created (err (conflict current)) c h = cc h
  answer_claimed-created (err (problem text)) c h = cc h

  -- A request with an owner is a claim of the store.
  claim_session-claims :
      (req : ClaimRequest F) (s : Server)
      → (req.owner == "") ≡ false
      → claim_session out formats (some req) s ≡ (
        answer_claimed out formats (claim out req.owner req.run_id req.date req.speed s).0,
        (claim out req.owner req.run_id req.date req.speed s).1,
      )
  unfolding claim_session ◌>>=◌
  claim_session-claims req s named = rw (named, claim_session, ◌>>=◌) refl

  claim_session-fails :
      (req : ClaimRequest F) (s : Server)
      → is_ok (claim out req.owner req.run_id req.date req.speed s).0 ≡ false
      → is_created (claim_session out formats (some req) s).0 ≡ false
  claim_session-fails req s h = elim (Bool-cases (req.owner == "")) [
    | inl e ↦ (unfold claim_session in rw e refl)
    | inr n ↦
        rw (claim_session-claims req s n)
          (answer_claimed-fails (claim out req.owner req.run_id req.date req.speed s).0 h)
  ]

  -- If a claim request with an owner is answered with a created session, t is earlier than its
  -- start plus the time to live in whole seconds, and no set of members of its run expires by t,
  -- then after any operations of the store, none of which releases this session, a claim request of
  -- another run is not answered with a created session, if the first command of its claim runs by
  -- t.
  pub claim_session-exclusive :
      (req req' : ClaimRequest F) (c : ClaimResponse) (t : ℕ) (s : Server) (cs : List (Call F))
      → (req.owner == "") ≡ false
      → (claim_session out formats (some req) s).0 ≡ created c
      → t < s.now + whole_ttl out
      → set_lasts t (own_run_id out req.run_id s).0 s.redis ≡ true
      → All (λ call. releases c.session_id call ≡ false) cs
      → (let last = call_all out cs (claim_session out formats (some req) s).1 in
          ((c.run_id == (own_run_id out req'.run_id last).0) ≡ false)
          × (last.now + out.delay last.calls ≤ t))
      → is_created
          (claim_session out formats
            (some req')
            (call_all out cs (claim_session out formats (some req) s).1)).0
        ≡ false
  unfolding claim_response
  claim_session-exclusive req req' c t s cs named =
      rw (claim_session-claims req s named) (λ worked soon lasts spared ends.
        let info =
          answer_claimed-created (claim out req.owner req.run_id req.date req.speed s).0 c worked in
        claim_session-fails req' _ (
          claim-exclusive out req.owner req.run_id req.date req.speed t s info.0 cs req'.owner
            req'.run_id req'.date req'.speed info.1 soon lasts
            (subst (λ (r : ClaimResponse). All (λ call. releases r.session_id call ≡ false) cs)
              (sym info.2) spared)
            (subst
              (λ (r : ClaimResponse).
                ((r.run_id
                    == (own_run_id out req'.run_id (
                        call_all out cs (claim out req.owner req.run_id req.date req.speed s).1)).0)
                  ≡ false)
                × ((call_all out cs (claim out req.owner req.run_id req.date req.speed s).1).now
                      + out.delay
                          (call_all out cs
                            (claim out req.owner req.run_id req.date req.speed s).1).calls
                    ≤ t))
              (sym info.2) ends)))
