-- ===== src/Backpressure/Kept.antt =====
-- matching/backpressure/redis_flag.go with orderapi/backpressure: the flag that one instance sets, with the
-- checks of the others and the other checkers.
use project_final_1team.Prelude.{
  ℕ, ◌+◌, ◌≤◌, ◌<◌, ◌≡◌, refl, ap, Bool, true, false, Option, none, some, List, [], ◌∷◌, ◌++◌, ltb,
  arith,
}
use project_final_1team.Backpressure.{
  flag_ttl, set_active_matching, redis_active, multi_active, Event, check, pause, run,
}

-- The flag lasts beyond a time, and no longer than one that is set now.
abbrev pub IsFresh : ℕ → ℕ → Option ℕ → Type 0
IsFresh t now flag = (e : ℕ) × (flag ≡ some e) × (t < e) × (e ≤ now + flag_ttl)

run-IsFresh :
    (es : List Event) (now t : ℕ) (flag : Option ℕ)
    → IsFresh t now flag
    → IsFresh t (run es now flag).0 (run es now flag).1
unfolding run set_active_matching
run-IsFresh [] now t flag f = f
run-IsFresh (check false is_down ∷ es) now t flag f = run-IsFresh es now t flag f
run-IsFresh (check true true ∷ es) now t flag f = run-IsFresh es now t flag f
run-IsFresh (check true false ∷ es) now t flag (e, is, later, fresh) =
    run-IsFresh es now t (some (now + flag_ttl)) (now + flag_ttl, refl, omega arith, omega arith)
run-IsFresh (pause d ∷ es) now t flag (e, is, later, fresh) =
    run-IsFresh es (now + d) t flag (e, is, later, omega arith)

redis_active-fresh :
    (now t : ℕ) (flag : Option ℕ)
    → IsFresh t now flag
    → now ≤ t
    → redis_active false now flag ≡ some true
unfolding redis_active
redis_active-fresh now t flag (e, is, later, fresh) le =
    let early : ltb now e ≡ true = ground arith in rw is (ap some early)

multi_active-any :
    (before after : List (Option Bool)) → multi_active (before ++ some true ∷ after) ≡ (true, false)
unfolding multi_active
multi_active-any [] after = refl
multi_active-any (none ∷ before) after = rw (multi_active-any before after) refl
multi_active-any (some true ∷ before) after = refl
multi_active-any (some false ∷ before) after = multi_active-any before after

-- After a check of one of matching's instances has set the flag, whatever the checks of the
-- instances then find and whether or not Redis takes what they write, a MultiChecker with a
-- RedisChecker of this flag that Redis answers reports active, without an error, as long as less
-- than the flag's time to live has passed, whatever the other checkers answer.
pub multi_active-kept :
    (es : List Event) (now t : ℕ) (flag : Option ℕ) (before after : List (Option Bool))
    → t < now + flag_ttl
    → (run es now (set_active_matching false now true flag)).0 ≤ t
    → (let last = run es now (set_active_matching false now true flag) in
        multi_active (before ++ redis_active false last.0 last.1 ∷ after) ≡ (true, false))
unfolding set_active_matching
multi_active-kept es now t flag before after early ends =
    let f =
      run-IsFresh es now t (some (now + flag_ttl)) (now + flag_ttl, refl, early, omega arith) in
    rw (redis_active-fresh _ t _ f ends) (multi_active-any before after)
