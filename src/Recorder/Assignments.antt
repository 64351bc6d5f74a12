-- ===== src/Recorder/Assignments.antt =====
-- recorder/store/mysql.go: AssignMarket and ReleaseMarket on the table matching_engine_assignment, as a
-- list of rows with the unique key (market_code, engine_instance_id, assigned_at). A time that is no
-- time leaves the table as it is, as an error; the id of a row is given to the call.
pub mod Open
use project_final_1team.Prelude.{
  String, Bool, true, false, not, ◌&&◌, ◌||◌, none, some, Option, List, [], ◌∷◌, ◌++◌, ◌==◌, map,
  if◌then◌else◌, is_some,
}

pub record AssignmentRow : Type 0 where
  pub assignment_id : String
  pub market_code : String
  pub engine_instance_id : String
  pub assigned_at : String
  pub released_at : Option String

pub record AssignmentInput : Type 0 where
  pub market : String
  pub engine_instance_id : String
  pub at : String

abbrev pub is_open : AssignmentRow → Bool
is_open r = not (is_some r.released_at)

-- An open row of the market, and one of the market and the engine, is released.
unfoldable pub close_market : AssignmentInput → AssignmentRow → AssignmentRow
close_market i r =
    if r.market_code == i.market && is_open r then record r { released_at = some i.at } else r

unfoldable pub close_own : AssignmentInput → AssignmentRow → AssignmentRow
close_own i r =
    if (r.market_code == i.market && r.engine_instance_id == i.engine_instance_id) && is_open r
    then record r { released_at = some i.at }
    else r

unfoldable pub has_key : AssignmentInput → List AssignmentRow → Bool
has_key i [] = false
has_key i (r ∷ rs) =
    ((r.market_code == i.market && r.engine_instance_id == i.engine_instance_id)
      && r.assigned_at == i.at)
    || has_key i rs

abbrev pub row_of : String → AssignmentInput → AssignmentRow
row_of id i = record {
  assignment_id = id;
  market_code = i.market;
  engine_instance_id = i.engine_instance_id;
  assigned_at = i.at;
  released_at = none;
}

-- The rows after the UPDATE and the INSERT IGNORE.
unfoldable pub assigned : String → AssignmentInput → List AssignmentRow → List AssignmentRow
unfolding close_market has_key
assigned id i rows =
    let closed = map (close_market i) rows in
    if has_key i closed then closed else closed ++ row_of id i ∷ []

unfoldable pub assign_market :
    (String → Bool) → String → AssignmentInput → List AssignmentRow → Option (List AssignmentRow)
unfolding assigned
assign_market valid_time id i rows = if valid_time i.at then some (assigned id i rows) else none

unfoldable pub release_market :
    (String → Bool) → AssignmentInput → List AssignmentRow → Option (List AssignmentRow)
unfolding close_own
release_market valid_time i rows = if valid_time i.at then some (map (close_own i) rows) else none
