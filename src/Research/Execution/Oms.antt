-- ===== src/Research/Execution/Oms.antt =====
-- `SimulatedOms`: the immutable book of orders, fills and execution attempts.
use automated_trading_bot.Prelude.{
  ℕ, String, Bool, true, false, ◌&&◌, not, Option, none, some, List, [], ◌∷◌, ◌++◌, leb, ◌==◌,
  str_eq, if◌then◌else◌, find, ok, err, ◌>>=◌, ◌>>◌, raise_if, or_raise,
}
use automated_trading_bot.Prelude.Texts.{canonical, is_blank}
use automated_trading_bot.Decimal.{Decimal, zero_dec, add, ltb_dec, eq_dec}
use automated_trading_bot.Research.Execution.Costs.{
  Execution, require_positive, order_id_conflict, fill_id_conflict, unknown_order, terminal_order,
  reason_missing, partly_executed, overfill, foreign_order, foreign_currency, foreign_run,
  early_execution, requested_below_fill, requested_above_remaining,
}
use automated_trading_bot.Research.Execution.Orders.{
  accepted, rejected, cancelled, unfilled, partially_filled, fully_filled, is_terminal,
  EligibilityState, eligible, ineligible, SimulatedOrder, order_eq, OrderRecord, remaining_quantity,
  SimulatedFill, fill_eq, validate_fill, ExecutionAttempt, side_eq,
}

pub record SimulatedOms : Type 0 where
  pub orders : List OrderRecord
  pub fills : List SimulatedFill
  pub attempts : List ExecutionAttempt

abbrev pub empty : SimulatedOms
empty = record { orders = []; fills = []; attempts = [] }

abbrev pub find_order : ℕ → List OrderRecord → Option OrderRecord
find_order id rs = find (λ r. r.order.order_id == id) rs

-- `SimulatedOms.order`
unfoldable pub order : SimulatedOms → ℕ → Option OrderRecord
order oms id = find_order id oms.orders

is_eligible : EligibilityState → Bool
is_eligible eligible = true
is_eligible ineligible = false

unfoldable pub submission_reasons : SimulatedOrder → List String
unfolding is_eligible
submission_reasons o = canonical (
    o.eligibility_reasons
    ++ ((if is_eligible o.eligibility_state then [] else "INELIGIBLE_DECISION_INPUT" ∷ [])
        ++ (if leb o.release_at o.decision_time
            then "ORDER_RELEASE_NOT_AFTER_DECISION" ∷ []
            else [])))

abbrev pub submitted : SimulatedOrder → List String → OrderRecord
submitted o [] = record { order = o; status = accepted; filled_quantity = zero_dec; reasons = [] }
submitted o (r ∷ rs) = record {
  order = o;
  status = rejected;
  filled_quantity = zero_dec;
  reasons = r ∷ rs;
}

unfoldable pub submit : SimulatedOms → SimulatedOrder → Execution SimulatedOms
unfolding order
submit oms o = elim (order oms o.order_id) [
  | some existing ↦ if order_eq existing.order o then ok oms else err order_id_conflict
  | none ↦ ok (record oms { orders = oms.orders ++ submitted o (submission_reasons o) ∷ [] })
]

-- `_active`
unfoldable pub active : SimulatedOms → ℕ → Execution OrderRecord
unfolding order
active oms id = do
  found ← or_raise (order oms id) unknown_order
  raise_if (is_terminal found.status) terminal_order
  ok found

-- `_replace_order`: the record that `order` found gives way to its successor.
unfoldable pub replace_order : ℕ → OrderRecord → List OrderRecord → List OrderRecord
replace_order id new [] = []
replace_order id new (r ∷ rs) =
    if r.order.order_id == id then new ∷ rs else r ∷ replace_order id new rs

unfoldable pub cancel : SimulatedOms → ℕ → Execution SimulatedOms
unfolding active replace_order
cancel oms id = do
  r ← active oms id
  ok (record oms { orders = replace_order id (record r { status = cancelled }) oms.orders })

unfoldable pub mark_unfilled : SimulatedOms → ℕ → String → Execution SimulatedOms
unfolding active replace_order is_blank remaining_quantity
mark_unfilled oms id reason = do
  r ← active oms id
  raise_if (is_blank reason) reason_missing
  raise_if (not (eq_dec r.filled_quantity zero_dec)) partly_executed
  ok (record oms {
    orders = replace_order id (record r { status = unfilled; reasons = reason ∷ [] }) oms.orders;
    attempts =
        oms.attempts
        ++ record {
          order_id = id;
          requested_quantity = remaining_quantity r;
          outcome = unfilled;
          reasons = reason ∷ [];
          fill_id = none;
        }
          ∷ [];
  })

-- The tests of `apply_fill` on a new fill and the active record of its order.
unfoldable pub check_fill : OrderRecord → SimulatedFill → Decimal → Execution (Unit {0})
check_fill r fill cumulative = do
  raise_if (not (fill.instrument_id == r.order.instrument_id && side_eq fill.side r.order.side))
      foreign_order
  raise_if (not (str_eq fill.currency r.order.currency)) foreign_currency
  raise_if (not (str_eq fill.research_run_id r.order.research_run_id)) foreign_run
  raise_if (leb fill.execution_at r.order.release_at) early_execution
  raise_if (ltb_dec r.order.quantity cumulative) overfill

unfoldable pub check_requested : OrderRecord → SimulatedFill → Decimal → Execution (Unit {0})
check_requested r fill requested = do
  require_positive requested
  raise_if (ltb_dec requested fill.quantity) requested_below_fill
  raise_if (ltb_dec (remaining_quantity r) requested) requested_above_remaining

-- The record of an order, its quantity filled so far being `cumulative`.
unfoldable pub filled : OrderRecord → Decimal → OrderRecord
filled r cumulative = record r {
  status = if eq_dec cumulative r.order.quantity then fully_filled else partially_filled;
  filled_quantity = cumulative;
  reasons = [];
}

-- The part of `apply_fill` for a fill whose identity is new.
unfoldable pub book_fill : SimulatedOms → SimulatedFill → Option Decimal → Execution SimulatedOms
unfolding active check_fill check_requested replace_order filled remaining_quantity
book_fill oms fill requested_quantity = do
  r ← active oms fill.order_id
  let cumulative = add r.filled_quantity fill.quantity
  check_fill r fill cumulative
  let requested : Decimal = elim requested_quantity [ none ↦ fill.quantity | some q ↦ q ]
  check_requested r fill requested
  let updated = filled r cumulative
  let attempt : ExecutionAttempt = record {
    order_id = fill.order_id;
    requested_quantity = requested;
    outcome = updated.status;
    reasons = [];
    fill_id = some fill.fill_id;
  }
  ok (record {
    orders = replace_order fill.order_id updated oms.orders;
    fills = oms.fills ++ fill ∷ [];
    attempts = oms.attempts ++ attempt ∷ [];
  })

abbrev pub find_fill : ℕ → List SimulatedFill → Option SimulatedFill
find_fill id fs = find (λ f. f.fill_id == id) fs

unfoldable pub apply_fill : SimulatedOms → SimulatedFill → Option Decimal → Execution SimulatedOms
apply_fill oms fill requested_quantity = do
  validate_fill fill
  elim (find_fill fill.fill_id oms.fills) [
    | some existing ↦ if fill_eq existing fill then ok oms else err fill_id_conflict
    | none ↦ book_fill oms fill requested_quantity
  ]
