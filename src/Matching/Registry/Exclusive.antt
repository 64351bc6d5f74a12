-- ===== src/Matching/Registry/Exclusive.antt =====
-- matching/main.go: the instances of a market and its lock, over any events.
use project_final_1team.Prelude.{
  ℕ, ◌+◌, ◌<◌, ◌≡◌, refl, sym, subst, String, true, false, some, List, [], ◌∷◌, ◌==◌, eq_iff, arith,
  inl, inr, Bool-cases,
}
use project_final_1team.Decimal.{Decimal}
use project_final_1team.Matching.Registry.{
  Lock, idle, Outside, Action, Cluster, Event, act, wait, site, perform, happen, run,
}
use project_final_1team.Matching.Registry.Owned.{has_market, Owns, perform-keeps, perform-IsOwner}

-- Each instance that has the market owns the lock.
abbrev pub IsExclusive : {D W : Type 0} → Cluster D W → Type 0
IsExclusive c = (k : String) → has_market (c.instances k) ≡ true → Owns k c.now c.lock

-- The lock does not expire within `d`, if its owner has the market.
abbrev pub Lasts : {D W : Type 0} → ℕ → Cluster D W → Type 0
Lasts d c =
    (k : String) (l : Lock)
    → has_market (c.instances k) ≡ true
    → c.lock ≡ some l
    → l.owner ≡ k
    → c.now + d < l.expires

module _ {D W : Type 0} ⦃dec : Decimal D⦄ (out : Outside D W) (market : String) where
  -- Whenever time passes, an owner's lock lasts.
  abbrev pub IsPunctual : List (Event D) → Cluster D W → Type 0
  IsPunctual [] c = Unit
  IsPunctual (act id action ∷ es) c = IsPunctual es (happen out market (act id action) c)
  IsPunctual (wait d ∷ es) c = Lasts d c × IsPunctual es (happen out market (wait d) c)

  Owns-kept :
      (id k : String) (action : Action D) (c : Cluster D W)
      → (id == k) ≡ false
      → Owns k c.now c.lock
      → Owns k c.now (perform out market action (c.instances id) id c.now (site c id)).lock
  Owns-kept id k action c apart o = record {
    held = o.held;
    locked =
        perform-keeps out market action (c.instances id) id c.now (site c id) o.held o.locked
          (rw (o.owned) (ground (arith, apart, eq_iff id k, eq_iff k id))) o.lasting;
    owned = o.owned;
    lasting = o.lasting;
  }

  act-IsExclusive :
      (id : String) (action : Action D) (c : Cluster D W)
      → IsExclusive c
      → IsExclusive (happen out market (act id action) c)
  unfolding happen
  act-IsExclusive id action c h k = elim (Bool-cases (k == id)) [
    | inl e ↦ rw e (
        subst
          (λ j.
            has_market (perform out market action (c.instances id) id c.now (site c id)).phase
              ≡ true
            → Owns j c.now (perform out market action (c.instances id) id c.now (site c id)).lock)
          (sym ((eq_iff k id).0 e))
          (perform-IsOwner out market action (c.instances id) id c.now (site c id) refl (h id)))
    | inr n ↦
        rw n
          (λ has. Owns-kept id k action c (ground (arith, n, eq_iff k id, eq_iff id k)) (h k has))
  ]

  wait-IsExclusive :
      (d : ℕ) (c : Cluster D W)
      → IsExclusive c
      → Lasts d c
      → IsExclusive (happen out market (wait d) c)
  unfolding happen
  wait-IsExclusive d c h lasts k has =
      let o = h k has in
      record {
        held = o.held;
        locked = o.locked;
        owned = o.owned;
        lasting = lasts k o.held has o.locked o.owned;
      }

  run-IsExclusive :
      (es : List (Event D)) (c : Cluster D W)
      → IsExclusive c
      → IsPunctual es c
      → IsExclusive (run out market es c)
  unfolding run
  run-IsExclusive [] c h p = h
  run-IsExclusive (act id action ∷ es) c h p =
      run-IsExclusive es _ (act-IsExclusive id action c h) p
  run-IsExclusive (wait d ∷ es) c h p = run-IsExclusive es _ (wait-IsExclusive d c h p.0) p.1

  -- Starting with all instances idle, whatever they do with a market in whatever order, with
  -- commands to Redis that are answered, not received or executed without an answer: if whenever
  -- time passes the lock outlasts it while its owner has the market, then two instances that have
  -- the market are the same, and the lock is its own and has not expired. An instance has the
  -- market from its lock to the end of the handoff.
  pub run-exclusive :
      (es : List (Event D)) (c : Cluster D W) (i j : String)
      → ((k : String) → c.instances k ≡ idle)
      → IsPunctual es c
      → has_market ((run out market es c).instances i) ≡ true
      → has_market ((run out market es c).instances j) ≡ true
      → (i ≡ j) × Owns i (run out market es c).now (run out market es c).lock
  run-exclusive es c i j start punctual has_i has_j =
      let end = run-IsExclusive es c (λ k has. ground (arith, start k, has)) punctual in
      let a = end i has_i in let b = end j has_j in (cc (a.locked, a.owned, b.locked, b.owned), a)
