-- ===== src/OrderApi/Session/Names.antt =====
-- orderapi/session/session.go: the ids of sessions, put together by Claim and split by splitSessionID.
use Prim.Native.Char.{Char}
use Prim.Native.String.{String, ◌++◌}
use text.Mathlib.TextLemmas.{nil-append, cons-append}
use project_final_1team.Prelude.{
  ◌≡◌, refl, sym, ap, ◌∙◌, Bool, false, Option, none, some, ◌==◌, eq_iff, inl, inr, Bool-cases,
  arith, ◌||◌,
}
use project_final_1team.OrderApi.Session.{session_id_sep}
use project_final_1team.OrderApi.Session.Renew.{split_before, split_session_id}

-- Is the separator in a text?
unfoldable pub has_sep : String → Bool
has_sep String.[] = false
has_sep (String.◌∷◌ c s) = String.◌∷◌ c String.[] == session_id_sep || has_sep s

split_before-none :
    (c : Char) (s : String)
    → (String.◌∷◌ c String.[] == session_id_sep) ≡ false
    → split_before c s none ≡ none
unfolding split_before
split_before-none c s n = rw n refl

no_split : (s : String) → has_sep s ≡ false → split_session_id s ≡ none
unfolding has_sep split_session_id
no_split String.[] h = refl
no_split (String.◌∷◌ c s) h =
    ap (split_before c s) (no_split s (ground arith)) ∙ split_before-none c s (ground arith)

abbrev dot : Char
dot = "."

sep-append : (s : String) → session_id_sep ++ s ≡ String.◌∷◌ dot s
sep-append s = cons-append dot String.[] s ∙ ap (String.◌∷◌ dot) (nil-append s)

-- A session id that is made of a run id and a member id without a separator splits into these two,
-- also when the run id has separators.
pub split-joined :
    (run_id member : String)
    → has_sep member ≡ false
    → split_session_id (run_id ++ session_id_sep ++ member) ≡ some (run_id, member)
unfolding split_session_id split_before
split-joined String.[] member h =
    ap split_session_id (nil-append _ ∙ sep-append member)
    ∙ ap (split_before dot member) (no_split member h)
split-joined (String.◌∷◌ c run_id) member h =
    ap split_session_id (cons-append c run_id _)
    ∙ ap (split_before c (run_id ++ session_id_sep ++ member)) (split-joined run_id member h)

abbrev joined : Option (String × String) → String
joined none = ""
joined (some (r, m)) = r ++ session_id_sep ++ m

joined-split_before :
    (c : Char) (s : String) (o : Option (String × String)) (run_id member : String)
    → ((r m : String) → o ≡ some (r, m) → s ≡ r ++ session_id_sep ++ m)
    → split_before c s o ≡ some (run_id, member)
    → String.◌∷◌ c s ≡ run_id ++ session_id_sep ++ member
unfolding split_before
joined-split_before c s (some (r, m)) run_id member ih h =
    ap (String.◌∷◌ c) (ih r m refl) ∙ sym (cons-append c r _) ∙ ap joined h
joined-split_before c s none run_id member ih h =
    elim (Bool-cases (String.◌∷◌ c String.[] == session_id_sep)) [
      | inl e ↦
          sym (cons-append c String.[] s ∙ ap (String.◌∷◌ c) (nil-append s))
          ∙ ap (λ t. t ++ s) ((eq_iff (String.◌∷◌ c String.[]) session_id_sep).0 e)
          ∙ sym (nil-append (session_id_sep ++ s))
          ∙ ap joined (rw e at h)
      | inr n ↦ cc (rw n at h)
    ]

-- A session id that is split is made of the two texts.
pub joined-split :
    (id run_id member : String)
    → split_session_id id ≡ some (run_id, member)
    → id ≡ run_id ++ session_id_sep ++ member
unfolding split_session_id
joined-split String.[] run_id member h = cc
joined-split (String.◌∷◌ c s) run_id member h =
    joined-split_before c s (split_session_id s) run_id member (joined-split s) h
