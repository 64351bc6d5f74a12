-- ===== src/Recorder/Assignments/Open.antt =====
-- Which rows are open: after an assignment one of its market, after its redelivery none.
use project_final_1team.Prelude.{
  ◌≡◌, refl, ◌∙◌, inl, inr, true, false, ◌&&◌, String, List, [], ◌∷◌, ◌++◌, ◌==◌, eq_refl, map,
  arith, Bool-cases, if◌then◌else◌,
}
use project_final_1team.Recorder.Assignments.{
  AssignmentRow, AssignmentInput, is_open, close_market, has_key, row_of, assigned,
}

-- The open rows of a market.
pub open_rows : String → List AssignmentRow → List AssignmentRow
open_rows market [] = []
open_rows market (r ∷ rs) =
    let rest = open_rows market rs in
    if r.market_code == market && is_open r then r ∷ rest else rest

none_open_when_closed :
    (i : AssignmentInput) (rows : List AssignmentRow)
    → open_rows i.market (map (close_market i) rows) ≡ []
unfolding open_rows close_market
none_open_when_closed i [] = refl
none_open_when_closed i (r ∷ rs) = elim (Bool-cases (r.market_code == i.market && is_open r)) [
  | inl k ↦ rw (k, close_market) (ground (arith, none_open_when_closed i rs))
  | inr n ↦ rw (n, close_market) (rw n (none_open_when_closed i rs))
]

open_rows-append :
    (market : String) (rows : List AssignmentRow) (r : AssignmentRow)
    → open_rows market (rows ++ r ∷ [])
      ≡ open_rows market rows ++ (if r.market_code == market && is_open r then r ∷ [] else [])
unfolding open_rows
open_rows-append market [] r = ground arith
open_rows-append market (x ∷ rows) r = ground (arith, open_rows-append market rows r)

has_key-append :
    (i : AssignmentInput) (id : String) (rows : List AssignmentRow)
    → has_key i (rows ++ row_of id i ∷ []) ≡ true
unfolding has_key
has_key-append i id [] = rw (eq_refl i.market, eq_refl i.engine_instance_id, eq_refl i.at) refl
has_key-append i id (x ∷ rows) = ground (arith, has_key-append i id rows)

has_key-closed :
    (i j : AssignmentInput) (rows : List AssignmentRow)
    → has_key i (map (close_market j) rows) ≡ has_key i rows
unfolding has_key close_market
has_key-closed i j [] = refl
has_key-closed i j (r ∷ rs) = ground (arith, has_key-closed i j rs)

has_key-assigned :
    (id : String) (i : AssignmentInput) (rows : List AssignmentRow)
    → has_key i (assigned id i rows) ≡ true
unfolding assigned
has_key-assigned id i rows = elim (Bool-cases (has_key i (map (close_market i) rows))) [
  | inl k ↦ rw (k, assigned) k
  | inr n ↦ rw (n, assigned) (has_key-append i id (map (close_market i) rows))
]

-- An assignment whose key is not in the table leaves its row as the only open one of its market.
pub assigned-open :
    (id : String) (i : AssignmentInput) (rows : List AssignmentRow)
    → has_key i rows ≡ false
    → open_rows i.market (assigned id i rows) ≡ row_of id i ∷ []
unfolding assigned
assigned-open id i rows new =
    rw (has_key-closed i i rows ∙ new, assigned)
      (open_rows-append i.market (map (close_market i) rows) (row_of id i)
        ∙ rw (none_open_when_closed i rows, eq_refl i.market) refl)

-- An assignment that is applied again leaves no open row of its market.
pub assigned-again :
    (id id' : String) (i : AssignmentInput) (rows : List AssignmentRow)
    → open_rows i.market (assigned id' i (assigned id i rows)) ≡ []
unfolding assigned
assigned-again id id' i rows =
    rw (has_key-closed i i (assigned id i rows) ∙ has_key-assigned id i rows, assigned)
      (none_open_when_closed i (assigned id i rows))
