-- ===== src/Recorder/Apply.antt =====
-- recorder/store/apply.go: batches of decoded events over a Store. A call of the store that fails leaves
-- the database as it is, since its transaction is rolled back. The ids that idgen makes for executions
-- are given with the events; the logs are left out.
pub mod Counts
use project_final_1team.Prelude.{
  ℕ, suc, String, Bool, true, false, none, some, Option, List, [], ◌∷◌, map, if◌then◌else◌,
}
use project_final_1team.Decimal.{Decimal}
use project_final_1team.Recorder.Assignments.{AssignmentInput}
use project_final_1team.Recorder.Store
use project_final_1team.Recorder.Tables.{
  NewOrder, CancelInput, ExecutionInput, ExecutionResult, Tables,
}

-- recorder/events/events.go: OrderNew, OrderCancel and any other text.
pub data EventType : Type 0 where
  order_new order_cancel : EventType
  order_other : String → EventType

pub record OrderEvent : Type 0 where
  pub type : EventType
  pub order_id : String
  pub market : String
  pub side : String
  pub price : String
  pub quantity : String
  pub accepted_at : String
  pub client_request_id : String
  pub mode : String
  pub canceled_at : String
  pub source_order_id : String

pub record ExecutionEvent : Type 0 where
  pub market : String
  pub buy_order_id : String
  pub sell_order_id : String
  pub price : String
  pub quantity : String

-- The interface Store, where `none` is an error.
pub record StoreCalls (W : Type 0) : Type 0 where
  pub insert_orders_batch : W → List NewOrder → Option (W × ℕ)
  pub cancel_orders_batch : W → List CancelInput → Option W
  pub apply_executions_batch : W → List ExecutionInput → Option (W × List ExecutionResult)

abbrev pub new_order_of : OrderEvent → NewOrder
new_order_of ev = record {
  order_id = ev.order_id;
  client_request_id = ev.client_request_id;
  market = ev.market;
  side = ev.side;
  price = ev.price;
  quantity = ev.quantity;
  submitted_at = ev.accepted_at;
  source_order_id = ev.source_order_id;
  mode = ev.mode;
}

abbrev pub cancel_of : OrderEvent → CancelInput
cancel_of ev = record { order_id = ev.order_id; canceled_at = ev.canceled_at }

abbrev pub add_event :
    EventType
    → OrderEvent
    → List NewOrder × List CancelInput
    → Option (List NewOrder × List CancelInput)
add_event order_new ev (news, cancels) = some (new_order_of ev ∷ news, cancels)
add_event order_cancel ev (news, cancels) = some (news, cancel_of ev ∷ cancels)
add_event (order_other t) ev (news, cancels) = none

-- The two batches; `none` is an event of another type.
pub collect : List OrderEvent → Option (List NewOrder × List CancelInput)
collect [] = some ([], [])
collect (ev ∷ evs) = elim (collect evs) [
  | none ↦ none
  | some batches ↦ add_event ev.type ev batches
]

abbrev pub input_of : String × ExecutionEvent → ExecutionInput
input_of (id, ev) = record {
  execution_id = id;
  market = ev.market;
  price = ev.price;
  buy_order_id = ev.buy_order_id;
  sell_order_id = ev.sell_order_id;
  quantity = ev.quantity;
}

pub count_inserted : List ExecutionResult → ℕ
count_inserted [] = 0
count_inserted (r ∷ rs) = let n = count_inserted rs in if r.inserted then suc n else n

module _ {W : Type 0} (store : StoreCalls W) where
  abbrev pub insert_news : List NewOrder → W → Option (W × ℕ)
  insert_news [] w = some (w, 0)
  insert_news (o ∷ os) w = store.insert_orders_batch w (o ∷ os)

  abbrev pub apply_cancels : List CancelInput → W → Option W
  apply_cancels [] w = some w
  apply_cancels (c ∷ cs) w = store.cancel_orders_batch w (c ∷ cs)

  -- The database, and the number of accepted orders; `none` is an error.
  unfoldable pub apply_order_events : W → List OrderEvent → W × Option ℕ
  unfolding collect
  apply_order_events w evs = elim (collect evs) [
    | none ↦ (w, none)
    | some batches ↦ elim (insert_news batches.0 w) [
      | none ↦ (w, none)
      | some stored ↦ elim (apply_cancels batches.1 stored.0) [
        | none ↦ (stored.0, none)
        | some w' ↦ (w', some stored.1)
      ]
    ]
  ]

  unfoldable pub apply_execution_events : W → List (String × ExecutionEvent) → W × Option ℕ
  unfolding count_inserted
  apply_execution_events w [] = (w, some 0)
  apply_execution_events w (ev ∷ evs) =
      elim (store.apply_executions_batch w (map input_of (ev ∷ evs))) [
        | none ↦ (w, none)
        | some stored ↦ (stored.0, some (count_inserted stored.1))
      ]

-- The store over the tables in memory.
unfoldable pub table_store :
    {D : Type 0} → ⦃dec : Decimal D⦄ → (String → D) → (String → Bool) → StoreCalls (Tables D)
unfolding Store.insert_orders_batch Store.cancel_orders_batch Store.apply_executions_batch
table_store decimal_of valid_time = record {
  insert_orders_batch = λ t orders. Store.insert_orders_batch decimal_of valid_time orders t;
  cancel_orders_batch = λ t cancels. Store.cancel_orders_batch valid_time cancels t;
  apply_executions_batch = λ t batch. some (Store.apply_executions_batch decimal_of batch t);
}

-- recorder/events/events.go: AssignmentAssigned, AssignmentReleased and any other text.
pub data AssignmentType : Type 0 where
  assignment_assigned assignment_released : AssignmentType
  assignment_other : String → AssignmentType

-- The calls of the interface Store on assignments, where `none` is an error.
pub record AssignmentCalls (W : Type 0) : Type 0 where
  pub assign_market : W → AssignmentInput → Option W
  pub release_market : W → AssignmentInput → Option W

unfoldable pub apply_assignment_event :
    {W : Type 0} → AssignmentCalls W → W → AssignmentType → AssignmentInput → Option W
apply_assignment_event calls w assignment_assigned input = calls.assign_market w input
apply_assignment_event calls w assignment_released input = calls.release_market w input
apply_assignment_event calls w (assignment_other t) input = none
