-- ===== src/OrderApi/Session/Leased.antt =====
-- orderapi/session/session.go: what the script of a claim and the registration of its member leave in Redis.
use project_final_1team.Prelude.{
  ℕ, ◌+◌, ◌≡◌, refl, Bool, true, false, Option, none, some, List, ◌∷◌, arith, ◌==◌, eq_refl, inl,
  inr, ◌⊎◌, Bool-cases, Option-cases, if◌then◌else◌,
}
use Prim.Native.String.{String}
use project_final_1team.Dict
use project_final_1team.Dict.{get-put}
use project_final_1team.OrderApi.Session.{Info, Result, ok, err}
use project_final_1team.OrderApi.Session.Redis.{
  Redis, sadd, contains, get_members, get_active, live_members, refused, Members, unexpired,
  claim_script,
}

abbrev pub unexpired_set : ℕ → Option Members → Bool
unexpired_set t none = true
unexpired_set t (some m) = unexpired t m.expires

abbrev pub set_lasts : ℕ → String → Redis → Bool
set_lasts t run_id r = unexpired_set t (Dict.get run_id r.members)

abbrev pub is_ok {ℓ} : {A : Type ℓ} → Result A → Bool
is_ok (ok a) = true
is_ok (err e) = false

live_members-unexpired :
    (now t : ℕ) (o : Option Members)
    → unexpired_set t o ≡ true
    → unexpired t (live_members now o).expires ≡ true
live_members-unexpired now t none h = refl
live_members-unexpired now t (some m) h = elim (Bool-cases (unexpired now m.expires)) [
  | inl e ↦ rw e h
  | inr n ↦ rw n refl
]

get_members-lasts :
    (run_id : String) (now t : ℕ) (r : Redis)
    → set_lasts t run_id r ≡ true
    → unexpired t (get_members now run_id r).expires ≡ true
unfolding get_members
get_members-lasts run_id now t r lasts =
    live_members-unexpired now t (Dict.get run_id r.members) lasts

added_self :
    (s : String) (xs : List String) → contains s (if contains s xs then xs else s ∷ xs) ≡ true
unfolding contains
added_self s xs = ground (arith, eq_refl s)

pub sadd-present :
    (run_id member : String) (now t : ℕ) (r : Redis)
    → set_lasts t run_id r ≡ true
    → (m : Members) × (Dict.get run_id (sadd run_id member now r).1.members ≡ some m)
      × (contains member m.ids ≡ true)
      × (unexpired t m.expires ≡ true)
unfolding sadd
sadd-present run_id member now t r lasts = (
  record (get_members now run_id r) {
    ids =
        if contains member (get_members now run_id r).ids
        then (get_members now run_id r).ids
        else member ∷ (get_members now run_id r).ids;
  },
  rw (get-put, eq_refl) refl,
  added_self member (get_members now run_id r).ids,
  get_members-lasts run_id now t r lasts,
)

pub claim_script-leases :
    (run_id : String) (ttl now : ℕ) (r : Redis)
    → ((claim_script run_id ttl now r).0 ≡ refused)
      ⊎ ((claim_script run_id ttl now r).1.active
          ≡ some (record { run_id = run_id; expires = now + ttl }))
unfolding claim_script
claim_script-leases run_id ttl now r = elim (Option-cases (get_active now r)) [
  | inl e ↦ rw (e, claim_script) (inr refl)
  | inr (a, e) ↦ elim (Bool-cases (a == run_id)) [
    | inl y ↦ rw (e, y, claim_script) (inr refl)
    | inr n ↦ rw (e, n, claim_script) (inl refl)
  ]
]

pub claim_script-members :
    (run_id : String) (ttl now : ℕ) (r : Redis)
    → (claim_script run_id ttl now r).1.members ≡ r.members
unfolding claim_script
claim_script-members run_id ttl now r = elim (Option-cases (get_active now r)) [
  | inl e ↦ rw (e, claim_script) refl
  | inr (a, e) ↦ elim (Bool-cases (a == run_id)) [
    | inl y ↦ rw (e, y, claim_script) refl
    | inr n ↦ rw (e, n, claim_script) refl
  ]
]

pub sadd-active :
    (run_id member : String) (now : ℕ) (r : Redis) → (sadd run_id member now r).1.active ≡ r.active
unfolding sadd
sadd-active run_id member now r = refl

abbrev pub session_of : Result Info → String
session_of (ok i) = i.session_id
session_of (err e) = ""

abbrev pub run_of : Result Info → String
run_of (ok i) = i.run_id
run_of (err e) = ""
