-- ===== src/Research/Execution/Execute.antt =====
-- `SimulatedOms.execute`: an attempt at a market snapshot.
use automated_trading_bot.Prelude.{
  ℕ, String, ◌+◌, none, some, List, [], ◌∷◌, ◌++◌, if◌then◌else◌, length, ok, ◌>>=◌, ◌>>◌, raise_if,
  or_raise,
}
use automated_trading_bot.Decimal.{Decimal, zero_dec, ltb_dec, leb_dec, eq_dec, min_dec}
use automated_trading_bot.Research.Execution.Costs.{
  Execution, ExecutionCostModel, CostBreakdown, calculate, require_positive, overfill, assertion,
}
use automated_trading_bot.Research.Execution.Orders.{
  unfilled, OrderRecord, remaining_quantity, ExecutionSnapshot, SimulatedFill, validate_fill,
  execution_reasons,
}
use automated_trading_bot.Research.Execution.Oms.{
  SimulatedOms, active, replace_order, mark_unfilled, apply_fill,
}

-- What the identity of a fill is derived from.
pub record FillBody : Type 0 where
  pub cost_model_id : String
  pub evidence_digest : String
  pub execution_at : ℕ
  pub execution_price : Decimal
  pub fill_sequence : ℕ
  pub order_id : ℕ
  pub quantity : Decimal

-- An attempt that the market snapshot rules out: it is recorded, and an order with nothing filled
-- becomes UNFILLED.
unfoldable pub reject_attempt :
    SimulatedOms → OrderRecord → ℕ → Decimal → List String → SimulatedOms
unfolding replace_order
reject_attempt oms r id requested reasons = record oms {
  orders =
      if eq_dec r.filled_quantity zero_dec
      then replace_order id (record r { status = unfilled; reasons = reasons }) oms.orders
      else oms.orders;
  attempts =
      oms.attempts
      ++ record {
        order_id = id;
        requested_quantity = requested;
        outcome = unfilled;
        reasons = reasons;
        fill_id = none;
      }
        ∷ [];
}

module _ (uuid : FillBody → ℕ) where
  -- The fill that `execute` makes, over the derivation `_uuid` of an identity from the SHA-256 of
  -- its body.
  unfoldable pub make_fill :
      SimulatedOms
      → OrderRecord
      → ℕ
      → Decimal
      → Decimal
      → String
      → String
      → ExecutionSnapshot
      → ExecutionCostModel
      → CostBreakdown
      → SimulatedFill
  make_fill oms r id quantity price currency digest snapshot model costs = record {
    fill_id = uuid (record {
      cost_model_id = model.model_id;
      evidence_digest = digest;
      execution_at = snapshot.execution_at;
      execution_price = price;
      fill_sequence = length oms.fills + 1;
      order_id = id;
      quantity = quantity;
    });
    order_id = id;
    instrument_id = r.order.instrument_id;
    side = r.order.side;
    quantity = quantity;
    execution_price = price;
    execution_at = snapshot.execution_at;
    currency = currency;
    execution_evidence = digest;
    cost_model_id = model.model_id;
    cost_scenario = model.scenario;
    costs = costs;
    research_run_id = r.order.research_run_id;
  }

  -- The part of `execute` once the snapshot has given no reason against it.
  unfoldable pub execute_fill :
      SimulatedOms
      → OrderRecord
      → ℕ
      → Decimal
      → ExecutionSnapshot
      → ExecutionCostModel
      → Execution SimulatedOms
  execute_fill oms r id requested snapshot model = do
    available ← or_raise snapshot.available_quantity assertion
    price ← or_raise snapshot.price assertion
    currency ← or_raise snapshot.currency assertion
    digest ← or_raise snapshot.evidence_digest assertion
    let quantity = min_dec requested available
    if leb_dec quantity zero_dec then mark_unfilled oms id "NO_AVAILABLE_LIQUIDITY" else do
      costs ← calculate model quantity price
      let fill = make_fill oms r id quantity price currency digest snapshot model costs
      validate_fill fill
      apply_fill oms fill (some requested)

  -- The two outcomes of `execute`, by the reasons that the snapshot gives against it.
  unfoldable pub attempt :
      SimulatedOms
      → OrderRecord
      → ℕ
      → Decimal
      → ExecutionSnapshot
      → ExecutionCostModel
      → List String
      → Execution SimulatedOms
  attempt oms r id requested snapshot model [] = execute_fill oms r id requested snapshot model
  attempt oms r id requested snapshot model (s ∷ ss) =
      ok (reject_attempt oms r id requested (s ∷ ss))

  unfoldable pub execute :
      SimulatedOms → ℕ → Decimal → ExecutionSnapshot → ExecutionCostModel → Execution SimulatedOms
  execute oms id requested snapshot model = do
    r ← active oms id
    require_positive requested
    raise_if (ltb_dec (remaining_quantity r) requested) overfill
    attempt oms r id requested snapshot model (execution_reasons r.order snapshot)
