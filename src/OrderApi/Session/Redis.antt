-- ===== src/OrderApi/Session/Redis.antt =====
-- orderapi/session/session.go: the keys that the store has in Redis, its Lua scripts, and the commands it
-- sends. Each key has a field of its own: their prefixes keep them apart. A key with a time to live is
-- read as missing from the time at which it expires.
use project_final_1team.Prelude.{
  ℕ, suc, ◌+◌, ◌*◌, ◌/◌, String, Bool, true, false, not, ◌&&◌, ◌||◌, Option, none, some, List, [],
  ◌∷◌, ◌≡◌, refl, ◌==◌, if◌then◌else◌, ltb, take,
}
use project_final_1team.Dict
use project_final_1team.Dict.{Dict}
use project_final_1team.OrderApi.Session.{Outside}

-- activeKey, with the time at which it expires.
pub record Lease : Type 0 where
  pub run_id : String
  pub expires : ℕ

-- membersKey: a set, with the time at which it expires, if it has one.
pub record Members : Type 0 where
  pub ids : List String
  pub expires : Option ℕ

pub record Redis : Type 0 where
  pub active : Option Lease
  pub meta : Option String
  pub last_run : Option String
  pub prev_run : Option String
  pub prev_run2 : Option String
  pub run_history : List String
  pub members : Dict Members
  -- stopKey, with the time at which it expires.
  pub stops : Dict ℕ

-- The store as an operation sees it: Redis, the clock, the numbers of commands sent and of ids made, and
-- the gauges.
pub record Server : Type 0 where
  pub redis : Redis
  pub now : ℕ
  pub calls : ℕ
  pub ids : ℕ
  pub active_gauge : ℕ
  pub started_at_gauge : ℕ
  pub owner_kind_gauge : ℕ

unfoldable pub contains : String → List String → Bool
contains s [] = false
contains s (x ∷ xs) = x == s || contains s xs

unfoldable pub remove : String → List String → List String
remove s [] = []
remove s (x ∷ xs) = let rest = remove s xs in if x == s then rest else x ∷ rest

unfoldable pub is_empty : List String → Bool
is_empty [] = true
is_empty (x ∷ xs) = false

abbrev pub unexpired : ℕ → Option ℕ → Bool
unexpired now none = true
unexpired now (some e) = ltb now e

-- GET of activeKey.
unfoldable pub get_active : ℕ → Redis → Option String
get_active now r = elim r.active [
  | none ↦ none
  | some l ↦ if ltb now l.expires then some l.run_id else none
]

abbrev pub is_text : String → Option String → Bool
is_text s none = false
is_text s (some t) = t == s

-- A set, empty if it is missing or has expired.
abbrev pub live_members : ℕ → Option Members → Members
live_members now none = record { ids = []; expires = none }
live_members now (some m) =
    if unexpired now m.expires then m else record { ids = []; expires = none }

unfoldable pub get_members : ℕ → String → Redis → Members
get_members now run_id r = live_members now (Dict.get run_id r.members)

-- The answers 1, 2 and 0 of claimScript.
pub data ClaimAnswer : Type 0 where
  created joined refused : ClaimAnswer

abbrev pub lease : String → ℕ → Redis → Redis
lease run_id expires r = record r { active = some (record { run_id = run_id; expires = expires }) }

unfoldable pub claim_script : String → ℕ → ℕ → Redis → ClaimAnswer × Redis
claim_script run_id ttl now r = elim (get_active now r) [
  | none ↦ (created, lease run_id (now + ttl) r)
  | some current ↦ if current == run_id then (joined, lease run_id (now + ttl) r) else (refused, r)
]

unfoldable pub sadd : String → String → ℕ → Redis → Unit {0} × Redis
sadd run_id member now r =
    let m = get_members now run_id r in
    let ids = if contains member m.ids then m.ids else member ∷ m.ids in
    (tt, record r { members = Dict.put run_id (record m { ids = ids }) r.members })

-- EXPIRE of membersKey, which does nothing to a key that is missing.
unfoldable pub expire_members : String → ℕ → ℕ → Redis → Unit {0} × Redis
expire_members run_id ttl now r =
    let m = get_members now run_id r in
    (
      tt,
      if is_empty m.ids then r else record r {
        members = Dict.put run_id (record m { expires = some (now + ttl) }) r.members;
      },
    )

-- The answer is whether the run is the active one.
unfoldable pub heartbeat_script : String → ℕ → ℕ → Redis → Bool × Redis
heartbeat_script run_id ttl now r =
    if is_text run_id (get_active now r)
    then (true, (expire_members run_id ttl now (lease run_id (now + ttl) r)).1)
    else (false, r)

-- The answers 0, 1 and 2 of releaseScript.
pub data ReleaseAnswer : Type 0 where
  unknown left left_last : ReleaseAnswer

unfoldable pub release_script : String → String → ℕ → Redis → ReleaseAnswer × Redis
release_script run_id member now r =
    let m = get_members now run_id r in
    let rest = remove member m.ids in
    let others =
      -- A set that becomes empty is no longer there.
      if is_empty rest
      then Dict.delete run_id r.members
      else Dict.put run_id (record m { ids = rest }) r.members in
    if not (contains member m.ids)
    then (unknown, r)
    else (if is_empty rest && is_text run_id (get_active now r)
        then (left_last, record r { active = none; meta = none; members = others })
        else (left, record r { members = others }))

-- EXISTS of stopKey.
unfoldable pub exists_stop : String → ℕ → Redis → Bool × Redis
exists_stop run_id now r = (elim (Dict.get run_id r.stops) [ none ↦ false | some e ↦ ltb now e ], r)

unfoldable pub set_stop : String → ℕ → ℕ → Redis → Unit {0} × Redis
set_stop run_id ttl now r = (tt, record r { stops = Dict.put run_id (now + ttl) r.stops })

unfoldable pub set_meta : String → ℕ → Redis → Unit {0} × Redis
set_meta body now r = (tt, record r { meta = some body })

unfoldable pub set_last_run : String → ℕ → Redis → Unit {0} × Redis
set_last_run body now r = (tt, record r { last_run = some body })

unfoldable pub set_prev_run : String → ℕ → Redis → Unit {0} × Redis
set_prev_run body now r = (tt, record r { prev_run = some body })

unfoldable pub set_prev_run2 : String → ℕ → Redis → Unit {0} × Redis
set_prev_run2 body now r = (tt, record r { prev_run2 = some body })

unfoldable pub push_history : String → ℕ → Redis → Unit {0} × Redis
push_history body now r = (tt, record r { run_history = body ∷ r.run_history })

unfoldable pub trim_history : ℕ → ℕ → Redis → Unit {0} × Redis
trim_history n now r = (tt, record r { run_history = take n r.run_history })

-- A command that only reads.
abbrev pub reading : {A : Type 0} → (ℕ → Redis → A) → ℕ → Redis → A × Redis
reading f now r = (f now r, r)

-- What an operation does.
abbrev pub M : Type 0 → Type 0
M A = Server → A × Server

infixl 5 ◌>>=◌ ◌>>◌
unfoldable pub ◌>>=◌ : {A B : Type 0} → M A → (A → M B) → M B
◌>>=◌ m f s = let r = m s in f r.0 r.1

abbrev pub ◌>>◌ : {A B : Type 0} → M A → M B → M B
m >> k = m >>= λ _. k

abbrev pub return : {A : Type 0} → A → M A
return a s = (a, s)

-- time.Now()
unfoldable pub clock : M ℕ
clock s = (s.now, s)

unfoldable pub set_gauge : ℕ → M (Unit {0})
set_gauge n s = (tt, record s { active_gauge = n })

module _ {F : Type 0} (out : Outside F) where
  -- The store when the next command runs.
  abbrev pub sent : Server → Server
  sent s = record s { now = s.now + out.delay s.calls; calls = suc s.calls }

  -- A command that Redis runs as a whole, after some time; `none` is an error.
  unfoldable pub command : {A : Type 0} → (ℕ → Redis → A × Redis) → M (Option A)
  command c s =
      let t = sent s in
      let answer = c t.now t.redis in
      if out.is_down s.calls then (none, t) else (some answer.0, record t { redis = answer.1 })

  unfoldable pub new_id : M String
  new_id s = (out.new_session_id s.ids, record s { ids = suc s.ids })

  -- The time to live in whole seconds, as the scripts and EXPIRE get it.
  abbrev pub whole_ttl : ℕ
  whole_ttl = out.ttl / 1000 * 1000

  pub command-down :
      {A : Type 0} (c : ℕ → Redis → A × Redis) (s : Server)
      → out.is_down s.calls ≡ true
      → command c s ≡ (none, sent s)
  unfolding command
  command-down c s down = rw down refl

  pub command-up :
      {A : Type 0} (c : ℕ → Redis → A × Redis) (s : Server)
      → out.is_down s.calls ≡ false
      → command c s
        ≡ (some (c (sent s).now s.redis).0, record (sent s) { redis = (c (sent s).now s.redis).1 })
  unfolding command
  command-up c s up = rw up refl
