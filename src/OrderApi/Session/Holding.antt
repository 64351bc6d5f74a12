-- ===== src/OrderApi/Session/Holding.antt =====
-- orderapi/session/session.go: a session that holds the lock until a time, and what keeps it. Until the time
-- `t` the run is the active one and the member is in its set; the last premise is that a renewal of the
-- lock, with this time to live, reaches beyond `t`.
use project_final_1team.Prelude.{
  ℕ, ◌+◌, ◌≤◌, ◌<◌, String, ◌≡◌, refl, ap, ◌∙◌, true, false, Option, none, some, List, [], ◌∷◌,
  arith, ◌==◌, eq_iff, inl, inr, Bool-cases, if◌then◌else◌,
}
use project_final_1team.Dict
use project_final_1team.Dict.{get-put, get-delete}
use project_final_1team.OrderApi.Session.Redis.{
  Members, Redis, contains, remove, is_empty, unexpired, get_active, get_members, lease,
}

pub record IsHeld (run_id member : String) (t ttl now : ℕ) (r : Redis) : Type 0 where
  pub expires : ℕ
  pub members : Members
  pub leased : r.active ≡ some (record { run_id = run_id; expires = expires })
  pub lasting : t < expires
  pub stored : Dict.get run_id r.members ≡ some members
  pub present : contains member members.ids ≡ true
  pub staying : unexpired t members.expires ≡ true
  pub renewable : t < now + ttl

pub unexpired_before :
    (now t : ℕ) (e : Option ℕ) → now ≤ t → unexpired t e ≡ true → unexpired now e ≡ true
unexpired_before now t none le h = refl
unexpired_before now t (some e) le h = ground arith

pub contains-remove :
    (s k : String) (xs : List String) → (k == s) ≡ false → contains s (remove k xs) ≡ contains s xs
unfolding contains remove
contains-remove s k [] n = refl
contains-remove s k (x ∷ xs) n =
    ground (arith, eq_iff x k, eq_iff x s, eq_iff k s, contains-remove s k xs n)

pub not-is_empty : (s : String) (xs : List String) → contains s xs ≡ true → is_empty xs ≡ false
unfolding contains is_empty
not-is_empty s [] h = cc
not-is_empty s (x ∷ xs) h = refl

contains-cons :
    (s k : String) (xs : List String) → contains s xs ≡ true → contains s (k ∷ xs) ≡ true
unfolding contains
contains-cons s k xs h = ground arith

pub contains_added :
    (s k : String) (xs : List String)
    → contains s xs ≡ true
    → contains s (if contains k xs then xs else k ∷ xs) ≡ true
contains_added s k xs h = ground (arith, contains-cons s k xs)

pub eq_comm : (a b : String) → (b == a) ≡ (a == b)
eq_comm a b = ground (arith, eq_iff a b, eq_iff b a)

module _ {run_id member : String} {t ttl : ℕ} where
  pub IsHeld-lasts :
      (now later : ℕ) (r : Redis)
      → now ≤ later
      → IsHeld run_id member t ttl now r
      → IsHeld run_id member t ttl later r
  IsHeld-lasts now later r le h = record {
    expires = h.expires;
    members = h.members;
    leased = h.leased;
    lasting = h.lasting;
    stored = h.stored;
    present = h.present;
    staying = h.staying;
    renewable = omega arith;
  }

  pub get_active-held :
      (now : ℕ) (r : Redis)
      → now ≤ t
      → IsHeld run_id member t ttl now r
      → get_active now r ≡ some run_id
  unfolding get_active
  get_active-held now r le h = let lasting = h.lasting in rw h.leased (ground arith)

  pub get_members-held :
      (now : ℕ) (r : Redis)
      → now ≤ t
      → (h : IsHeld run_id member t ttl now r) → get_members now run_id r ≡ h.members
  unfolding get_members
  get_members-held now r le h =
      rw (h.stored, get_members) (rw (unexpired_before now t h.members.expires le h.staying) refl)

  pub same-IsHeld :
      (now : ℕ) (r r' : Redis)
      → r'.active ≡ r.active
      → r'.members ≡ r.members
      → IsHeld run_id member t ttl now r
      → IsHeld run_id member t ttl now r'
  same-IsHeld now r r' active members h = record {
    expires = h.expires;
    members = h.members;
    leased = active ∙ h.leased;
    lasting = h.lasting;
    stored = ap (λ m. Dict.get run_id m) members ∙ h.stored;
    present = h.present;
    staying = h.staying;
    renewable = h.renewable;
  }

  -- Another lock time of the run.
  pub lease-IsHeld :
      (e now : ℕ) (r : Redis)
      → t < e
      → IsHeld run_id member t ttl now r
      → IsHeld run_id member t ttl now (lease run_id e r)
  lease-IsHeld e now r later h = record {
    expires = e;
    members = h.members;
    leased = refl;
    lasting = later;
    stored = h.stored;
    present = h.present;
    staying = h.staying;
    renewable = h.renewable;
  }

  pub put_members-IsHeld :
      (other : String) (m : Members) (now : ℕ) (r : Redis)
      → IsHeld run_id member t ttl now r
      → (other ≡ run_id → (contains member m.ids ≡ true) × (unexpired t m.expires ≡ true))
      → IsHeld run_id member t ttl now (record r { members = Dict.put other m r.members })
  put_members-IsHeld other m now r h kept = elim (Bool-cases (other == run_id)) [
    | inl e ↦
        let k = kept ((eq_iff other run_id).0 e) in
        record {
          expires = h.expires;
          members = m;
          leased = h.leased;
          lasting = h.lasting;
          stored = rw (get-put, e) refl;
          present = k.0;
          staying = k.1;
          renewable = h.renewable;
        }
    | inr n ↦ record {
      expires = h.expires;
      members = h.members;
      leased = h.leased;
      lasting = h.lasting;
      stored = rw (get-put, n) h.stored;
      present = h.present;
      staying = h.staying;
      renewable = h.renewable;
    }
  ]

  pub delete_members-IsHeld :
      (other : String) (now : ℕ) (r : Redis)
      → IsHeld run_id member t ttl now r
      → (other == run_id) ≡ false
      → IsHeld run_id member t ttl now (record r { members = Dict.delete other r.members })
  delete_members-IsHeld other now r h n = record {
    expires = h.expires;
    members = h.members;
    leased = h.leased;
    lasting = h.lasting;
    stored = rw (get-delete, n) h.stored;
    present = h.present;
    staying = h.staying;
    renewable = h.renewable;
  }
