-- ===== src/OrderApi/Session/Held.antt =====
-- orderapi/session/session.go: the scripts and commands, and the session that holds the lock.
use project_final_1team.Prelude.{
  ℕ, ◌+◌, ◌≤◌, String, ◌≡◌, sym, subst, ap, ◌∙◌, true, false, ◌&&◌, ◌∷◌, arith, ◌==◌, eq_iff, inl,
  inr, Bool-cases, if◌then◌else◌,
}
use project_final_1team.OrderApi.Session.Redis.{
  Redis, contains, remove, is_empty, unexpired, get_active, is_text, get_members, lease,
  claim_script, sadd, expire_members, heartbeat_script, release_script,
}
use project_final_1team.OrderApi.Session.Holding.{
  IsHeld, contains-remove, not-is_empty, contains_added, eq_comm, get_active-held, get_members-held,
  lease-IsHeld, put_members-IsHeld, delete_members-IsHeld,
}

module _ {run_id member : String} {t ttl : ℕ} where
  pub claim_script-IsHeld :
      (other : String) (now : ℕ) (r : Redis)
      → now ≤ t
      → IsHeld run_id member t ttl now r
      → IsHeld run_id member t ttl now (claim_script other ttl now r).1
  unfolding claim_script
  claim_script-IsHeld other now r le h =
      rw (get_active-held now r le h, claim_script)
        (elim (Bool-cases (run_id == other)) [
          | inl e ↦ rw (e) (
              subst (λ o. IsHeld run_id member t ttl now (lease o (now + ttl) r))
                ((eq_iff run_id other).0 e) (lease-IsHeld (now + ttl) now r h.renewable h))
          | inr n ↦ rw n h
        ])

  pub sadd-IsHeld :
      (other joining : String) (now : ℕ) (r : Redis)
      → now ≤ t
      → IsHeld run_id member t ttl now r
      → IsHeld run_id member t ttl now (sadd other joining now r).1
  unfolding sadd
  sadd-IsHeld other joining now r le h = put_members-IsHeld other _ now r h (λ e.
      subst
        (λ o.
          (contains member (
              if contains joining (get_members now o r).ids
              then (get_members now o r).ids
              else joining ∷ (get_members now o r).ids)
            ≡ true)
          × (unexpired t (get_members now o r).expires ≡ true))
        (sym e)
        (rw (get_members-held now r le h)
          (contains_added member joining h.members.ids h.present, h.staying)))

  pub expire_members-IsHeld :
      (other : String) (longer now : ℕ) (r : Redis)
      → now ≤ t
      → ttl ≤ longer
      → IsHeld run_id member t ttl now r
      → IsHeld run_id member t ttl now (expire_members other longer now r).1
  unfolding expire_members
  expire_members-IsHeld other longer now r le more h =
      elim (Bool-cases (is_empty (get_members now other r).ids)) [
        | inl e ↦ rw e h
        | inr n ↦ rw n (
            put_members-IsHeld other _ now r h (λ e. (
              subst (λ o. contains member (get_members now o r).ids ≡ true) (sym e)
                  (rw (get_members-held now r le h) h.present),
              (let soon = h.renewable in ground arith),
            )))
      ]

  pub heartbeat_script-IsHeld :
      (other : String) (now : ℕ) (r : Redis)
      → now ≤ t
      → IsHeld run_id member t ttl now r
      → IsHeld run_id member t ttl now (heartbeat_script other ttl now r).1
  unfolding heartbeat_script
  heartbeat_script-IsHeld other now r le h = elim (Bool-cases (is_text other (get_active now r))) [
    | inl e ↦
        let same : run_id ≡ other =
          (eq_iff run_id other).0 (ap (is_text other) (sym (get_active-held now r le h)) ∙ e) in
        rw e (
          subst
            (λ o.
              IsHeld run_id member t ttl now (expire_members o ttl now (lease o (now + ttl) r)).1)
            same
            (expire_members-IsHeld run_id ttl now _ le (omega arith)
              (lease-IsHeld (now + ttl) now r h.renewable h)))
    | inr n ↦ rw n h
  ]

  -- What is left of the set of the run.
  remove-present :
      (other leaving : String) (now : ℕ) (r : Redis)
      → now ≤ t
      → (other == run_id && leaving == member) ≡ false
      → IsHeld run_id member t ttl now r
      → other ≡ run_id
      → contains member (remove leaving (get_members now other r).ids) ≡ true
  remove-present other leaving now r le apart h same =
      subst (λ o. contains member (remove leaving (get_members now o r).ids) ≡ true) (sym same)
        (rw (get_members-held now r le h) (
          contains-remove member leaving h.members.ids (ground (arith, eq_iff other run_id, apart))
          ∙ h.present))

  pub release_script-IsHeld :
      (other leaving : String) (now : ℕ) (r : Redis)
      → now ≤ t
      → (other == run_id && leaving == member) ≡ false
      → IsHeld run_id member t ttl now r
      → IsHeld run_id member t ttl now (release_script other leaving now r).1
  unfolding release_script
  release_script-IsHeld other leaving now r le apart h =
      elim (Bool-cases (contains leaving (get_members now other r).ids)) [
        | inr n ↦ rw n h
        | inl e ↦
            rw e (elim (Bool-cases (is_empty (remove leaving (get_members now other r).ids))) [
              | inr more ↦ rw more (
                  put_members-IsHeld other _ now r h (λ same. (
                    remove-present other leaving now r le apart h same,
                    subst (λ o. unexpired t (get_members now o r).expires ≡ true) (sym same)
                        (rw (get_members-held now r le h) h.staying),
                  )))
              | inl last ↦
                  let other_run : (other == run_id) ≡ false = elim (Bool-cases (other == run_id)) [
                    | inr n ↦ n
                    | inl same ↦ cc (
                      not-is_empty member _ (
                          remove-present other leaving now r le apart h
                            ((eq_iff other run_id).0 same)),
                      last,
                    )
                  ] in
                  rw (last, get_active-held now r le h, eq_comm other run_id, other_run)
                    (delete_members-IsHeld other now r h other_run)
            ])
      ]
