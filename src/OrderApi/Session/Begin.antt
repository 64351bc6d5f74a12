-- ===== src/OrderApi/Session/Begin.antt =====
-- orderapi/session/session.go: the records of the last runs when a run begins.
use Prim.Native.String.{String}
use mathlib.Core.Path.{fun_ext}
use project_final_1team.Prelude.{ℕ, ◌≡◌, refl, false, Option, none, some, inl, inr, Option-cases}
use project_final_1team.OrderApi.Session.{Outside, in_progress}
use project_final_1team.OrderApi.Session.Redis.{
  Server, ◌>>=◌, command, set_last_run, set_prev_run, set_prev_run2,
}
use project_final_1team.OrderApi.Session.Claim.{begin_run, begin_gauges, move_body, set_encoded}

-- The value that is there, or else the other one.
abbrev pub or_else : Option String → Option String → Option String
or_else none old = old
or_else (some new) old = some new

module _ {F : Type 0} (out : Outside F) where
  -- When no command fails and the record of the new run encodes, a new run moves the record of the
  -- previous run to the place before it, if there is one, and the record of the last run to that of
  -- the previous one, if there is one, writes its own record, and changes nothing else in Redis.
  pub begin_run-shifts :
      (owner run_id date body : String) (speed : F) (now : ℕ) (s : Server)
      → ((n : ℕ) → out.is_down n ≡ false)
      → out.encode_run (record {
        run_id = run_id;
        owner = owner;
        status = in_progress;
        started_at = some now;
        ended_at = none;
        message = "";
        speed = speed;
        date = date;
      })
        ≡ some body
      → (begin_run out owner run_id date speed now s).1.redis ≡ record s.redis {
        prev_run2 = or_else s.redis.prev_run s.redis.prev_run2;
        prev_run = or_else s.redis.last_run s.redis.prev_run;
        last_run = some body;
      }
  unfolding begin_run ◌>>=◌ begin_gauges move_body set_encoded set_last_run set_prev_run
      set_prev_run2 command
  begin_run-shifts owner run_id date body speed now s up encodes =
      let all_up : out.is_down ≡ (λ _. false) = fun_ext up in
      elim (Option-cases s.redis.prev_run) [
        | inl e ↦ elim (Option-cases s.redis.last_run) [
          | inl l ↦ rw (encodes, all_up, begin_run, ◌>>=◌, command) (rw (e, l) refl)
          | inr (b, l) ↦ rw (encodes, all_up, begin_run, ◌>>=◌, command) (rw (e, l) refl)
        ]
        | inr (a, e) ↦ elim (Option-cases s.redis.last_run) [
          | inl l ↦ rw (encodes, all_up, begin_run, ◌>>=◌, command) (rw (e, l) refl)
          | inr (b, l) ↦ rw (encodes, all_up, begin_run, ◌>>=◌, command) (rw (e, l) refl)
        ]
      ]
