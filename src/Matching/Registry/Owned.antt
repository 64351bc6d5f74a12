-- ===== src/Matching/Registry/Owned.antt =====
-- matching/main.go: the actions of an instance and the lock of a market, its own or that of another instance.
use project_final_1team.Prelude.{
  ℕ, ◌+◌, ◌<◌, ◌≡◌, refl, ap, ◌∙◌, String, Bool, true, false, Option, none, some, ◌==◌, eq_refl,
  arith, ltb, inl, inr, Bool-cases,
}
use project_final_1team.Prelude.Int.{ℤ}
use project_final_1team.Decimal.{Decimal}
use project_final_1team.Matching.Engine.{Engine, EngineError}
use project_final_1team.Matching.Registry.{
  Lock, market_lock_ttl, unexpired_lock, set_nx, renew_lock_script, release_lock_script, Fate,
  answered, unreached, unanswered, send, Phase, idle, waiting, recovering, serving, leaving,
  unlocking, Site, Outside, Action, start_acquire, try_lock, cancel_acquire, recover_market,
  renew_lock, late_renewal, apply_event, start_release, hand_off, release_market_lock,
  after_attempt, recovered, handed_off, renewed, perform,
}

-- Does the instance have the market, from its lock to the end of the handoff?
abbrev pub has_market : {D : Type 0} → Phase D → Bool
has_market idle = false
has_market (waiting deadline) = false
has_market (recovering renewing) = true
has_market (serving e renewing) = true
has_market (leaving e) = true
has_market unlocking = false

-- The lock is the instance's and has not expired.
pub record Owns (id : String) (now : ℕ) (lock : Option Lock) : Type 0 where
  pub held : Lock
  pub locked : lock ≡ some held
  pub owned : held.owner ≡ id
  pub lasting : now < held.expires

unexpired_lock-lasting :
    (now : ℕ) (l : Lock) → now < l.expires → unexpired_lock now (some l) ≡ some l
unexpired_lock-lasting now l h = ground arith

-- A command of one instance leaves the lock of another.
SparesOthers : String → (ℕ → Option Lock → Bool × Option Lock) → Type 0
SparesOthers id command =
    (now : ℕ) (l : Lock)
    → (l.owner == id) ≡ false
    → now < l.expires
    → command now (some l) ≡ (false, some l)

set_nx-SparesOthers : (id : String) → SparesOthers id (set_nx id)
unfolding SparesOthers set_nx
set_nx-SparesOthers id now l n h = rw (unexpired_lock-lasting now l h, set_nx) refl

renew_lock_script-SparesOthers : (id : String) → SparesOthers id (renew_lock_script id)
unfolding SparesOthers renew_lock_script
renew_lock_script-SparesOthers id now l n h =
    rw (unexpired_lock-lasting now l h, n, renew_lock_script) refl

release_lock_script-SparesOthers : (id : String) → SparesOthers id (release_lock_script id)
unfolding SparesOthers release_lock_script
release_lock_script-SparesOthers id now l n h =
    rw (unexpired_lock-lasting now l h, n, release_lock_script) refl

send-keeps :
    (id : String) (command : ℕ → Option Lock → Bool × Option Lock) (fate : Fate) (now : ℕ)
    (lock : Option Lock) (l : Lock)
    → SparesOthers id command
    → lock ≡ some l
    → (l.owner == id) ≡ false
    → now < l.expires
    → (send fate command now lock).1 ≡ some l
unfolding send SparesOthers
send-keeps id command answered now lock l spares h n t = rw h (ap (λ r. r.1) (spares now l n t))
send-keeps id command unreached now lock l spares h n t = h
send-keeps id command unanswered now lock l spares h n t = rw h (ap (λ r. r.1) (spares now l n t))

own_lock : String → ℕ → Lock
own_lock id now = record { owner = id; expires = now + market_lock_ttl }

fresh_lock : (id : String) (now : ℕ) → Owns id now (some (own_lock id now))
unfolding own_lock
fresh_lock id now = record {
  held = own_lock id now;
  locked = refl;
  owned = refl;
  lasting = omega arith;
}

renew_lock_script-Owns :
    (id : String) (now : ℕ) (lock : Option Lock)
    → Owns id now lock
    → Owns id now (renew_lock_script id now lock).1
unfolding renew_lock_script own_lock
renew_lock_script-Owns id now lock o =
    rw (o.locked, renew_lock_script)
      (rw (unexpired_lock-lasting now o.held o.lasting, o.owned, eq_refl id, renew_lock_script)
        (fresh_lock id now))

send-Owns :
    (id : String) (fate : Fate) (now : ℕ) (lock : Option Lock)
    → Owns id now lock
    → Owns id now (send fate (renew_lock_script id) now lock).1
unfolding send
send-Owns id answered now lock o = renew_lock_script-Owns id now lock o
send-Owns id unreached now lock o = o
send-Owns id unanswered now lock o = renew_lock_script-Owns id now lock o

attempt-Owns :
    (D : Type 0) (fate : Fate) (id : String) (now deadline read : ℕ) (lock : Option Lock)
    → has_market {D = D} (after_attempt (send fate (set_nx id) now lock).0 deadline read) ≡ true
    → Owns id now (send fate (set_nx id) now lock).1
unfolding send after_attempt set_nx own_lock
attempt-Owns D answered id now deadline read none = λ h. fresh_lock id now
attempt-Owns D answered id now deadline read (some l) = elim (Bool-cases (ltb now l.expires)) [
  | inl t ↦ rw (t, set_nx, send, after_attempt) (λ h. ground arith)
  | inr t ↦ rw (t, set_nx, send, after_attempt) (λ h. fresh_lock id now)
]
attempt-Owns D unreached id now deadline read lock = λ h. ground arith
attempt-Owns D unanswered id now deadline read lock = λ h. ground arith

module _ {D W : Type 0} where
  -- An instance that has the market owns the lock.
  abbrev pub IsOwner : String → ℕ → Site D W → Type 0
  IsOwner id now s = has_market s.phase ≡ true → Owns id now s.lock

module _ {D W : Type 0} ⦃dec : Decimal D⦄ (out : Outside D W) (market : String) where
  recovered-keeps :
      (fate : Fate) (id : String) (now : ℕ) (renewing : Bool) (r : Option ℤ × Engine D)
      (s : Site D W) (l : Lock)
      → s.lock ≡ some l
      → (l.owner == id) ≡ false
      → now < l.expires
      → (recovered out market fate id now renewing r s).lock ≡ some l
  unfolding recovered
  recovered-keeps fate id now renewing (none, e) s l h n t =
      send-keeps id (release_lock_script id) fate now s.lock l (release_lock_script-SparesOthers id)
        h n t
  recovered-keeps fate id now renewing (some offset, e) s l h n t = h

  handed_off-keeps :
      (r : W × Option EngineError) (s : Site D W) → (handed_off out market r s).lock ≡ s.lock
  unfolding handed_off
  handed_off-keeps (w, none) s = refl
  handed_off-keeps (w, some e) s = refl

  -- An action leaves the lock of another instance.
  pub perform-keeps :
      (a : Action D) (p : Phase D) (id : String) (now : ℕ) (s : Site D W) (l : Lock)
      → s.lock ≡ some l
      → (l.owner == id) ≡ false
      → now < l.expires
      → (perform out market a p id now s).lock ≡ some l
  unfolding perform renewed
  perform-keeps start_acquire idle id now s l h n t = h
  perform-keeps (try_lock fate trip) (waiting deadline) id now s l h n t =
      send-keeps id (set_nx id) fate now s.lock l (set_nx-SparesOthers id) h n t
  perform-keeps cancel_acquire (waiting deadline) id now s l h n t = h
  perform-keeps (recover_market fate) (recovering renewing) id now s l h n t =
      recovered-keeps fate id now renewing _ s l h n t
  perform-keeps (renew_lock fate) (recovering true) id now s l h n t =
      send-keeps id (renew_lock_script id) fate now s.lock l (renew_lock_script-SparesOthers id) h n
        t
  perform-keeps (renew_lock fate) (serving e true) id now s l h n t =
      send-keeps id (renew_lock_script id) fate now s.lock l (renew_lock_script-SparesOthers id) h n
        t
  perform-keeps (late_renewal fate) p id now s l h n t =
      send-keeps id (renew_lock_script id) fate now s.lock l (renew_lock_script-SparesOthers id) h n
        t
  perform-keeps (apply_event ev later) (serving e renewing) id now s l h n t = h
  perform-keeps start_release (serving e renewing) id now s l h n t = h
  perform-keeps hand_off (leaving e) id now s l h n t = handed_off-keeps _ s ∙ h
  perform-keeps (release_market_lock fate) unlocking id now s l h n t =
      send-keeps id (release_lock_script id) fate now s.lock l (release_lock_script-SparesOthers id)
        h n t
  perform-keeps a p id now s l h n t = h

  recovered-IsOwner :
      (fate : Fate) (id : String) (now : ℕ) (renewing : Bool) (r : Option ℤ × Engine D)
      (s : Site D W)
      → Owns id now s.lock
      → IsOwner id now (recovered out market fate id now renewing r s)
  unfolding recovered
  recovered-IsOwner fate id now renewing (none, e) s o h = ground arith
  recovered-IsOwner fate id now renewing (some offset, e) s o h = o

  handed_off-IsOwner :
      (r : W × Option EngineError) (id : String) (now : ℕ) (s : Site D W)
      → IsOwner id now (handed_off out market r s)
  unfolding handed_off
  handed_off-IsOwner (w, none) id now s h = ground arith
  handed_off-IsOwner (w, some e) id now s h = ground arith

  -- An action of an instance that owns the lock, if it has the market, leaves it so.
  pub perform-IsOwner :
      (a : Action D) (p : Phase D) (id : String) (now : ℕ) (s : Site D W)
      → s.phase ≡ p
      → IsOwner id now s
      → IsOwner id now (perform out market a p id now s)
  unfolding perform renewed
  perform-IsOwner start_acquire idle id now s is o h = ground arith
  perform-IsOwner (try_lock fate trip) (waiting deadline) id now s is o h =
      attempt-Owns D fate id now deadline (now + trip) s.lock h
  perform-IsOwner cancel_acquire (waiting deadline) id now s is o h = ground arith
  perform-IsOwner (recover_market fate) (recovering renewing) id now s is o h =
      recovered-IsOwner fate id now renewing _ s (o (ap has_market is)) h
  perform-IsOwner (renew_lock fate) (recovering true) id now s is o h =
      send-Owns id fate now s.lock (o (ap has_market is))
  perform-IsOwner (renew_lock fate) (serving e true) id now s is o h =
      send-Owns id fate now s.lock (o (ap has_market is))
  perform-IsOwner (late_renewal fate) p id now s is o h = send-Owns id fate now s.lock (o h)
  perform-IsOwner (apply_event ev later) (serving e renewing) id now s is o h = o (ap has_market is)
  perform-IsOwner start_release (serving e renewing) id now s is o h = o (ap has_market is)
  perform-IsOwner hand_off (leaving e) id now s is o h = handed_off-IsOwner _ id now s h
  perform-IsOwner (release_market_lock fate) unlocking id now s is o h = ground arith
  perform-IsOwner a p id now s is o h = o h
