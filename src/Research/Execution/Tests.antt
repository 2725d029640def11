-- ===== src/Research/Execution/Tests.antt =====
-- The order management on one order of 10 units: half filled, then cancelled.
use automated_trading_bot.Prelude.{
  ℕ, String, ◌≡◌, ◌↔◌, ◌⊎◌, ◌++◌, refl, false, Option, none, some, List, [], ◌∷◌, ok, err,
}
use automated_trading_bot.Prelude.Texts.{canonical, matches_identity}
use automated_trading_bot.Decimal.{Decimal, of_ℕ, zero_dec, decimals}
use automated_trading_bot.Research.Execution.Costs.{
  ExecutionCostModel, CostRate, CostComponent, CostScenario, CostProvenance, terminal_order,
  calculate,
}
use automated_trading_bot.Research.Execution.Orders.{
  OrderSide, OrderStatus, accepted, rejected, cancelled, ExecutionInputState, EligibilityState,
  SimulatedOrder, OrderRecord, ExecutionSnapshot, SimulatedFill, validate_order, validate_fill,
  execution_reasons,
}
use automated_trading_bot.Research.Execution.Oms.{
  SimulatedOms, empty, order, find_fill, submit, cancel, mark_unfilled, apply_fill, book_fill,
  submission_reasons,
}
use automated_trading_bot.Research.Execution.Execute.{
  FillBody, execute, attempt, execute_fill, make_fill,
}
use automated_trading_bot.Research.Execution.Records.{IsBook}
use automated_trading_bot.Research.Execution.Runs.{
  Command, submits, cancels, executes, perform, run, run-IsBook, empty-IsBook, terminal_absorbs,
  IsReleasable, submit_accepts,
}

abbrev bought : SimulatedOrder
bought = record {
  order_id = 11;
  instrument_id = 7;
  side = OrderSide.buy;
  quantity = of_ℕ 10;
  currency = "USD";
  release_at = 200;
  research_run_id = "run-1";
  evidence_digest = "sha256:00";
  eligibility_state = EligibilityState.eligible;
  eligibility_reasons = [];
  eligibility_observation_id = "observation-1";
  decision_time = 100;
}

abbrev rate : CostComponent → CostRate
rate c = record {
  component = c;
  basis_points = of_ℕ 10;
  provenance = CostProvenance.modelled;
  evidence_digest = "sha256:01";
}

abbrev model : ExecutionCostModel
model = record {
  model_id = "atis:simulation-cost-model:v1:base";
  scenario = CostScenario.ec1;
  rates =
      rate CostComponent.commission_fees
      ∷ rate CostComponent.bid_ask_spread
      ∷ rate CostComponent.slippage
      ∷ rate CostComponent.market_impact
      ∷ rate CostComponent.additional_friction
      ∷ [];
  diagnostic_only = false;
}

abbrev snapshot : ExecutionSnapshot
snapshot = record {
  execution_at = 300;
  price = some (of_ℕ 100);
  price_available_at = some 290;
  security_state = ExecutionInputState.available;
  liquidity_state = ExecutionInputState.available;
  available_quantity = some (of_ℕ 5);
  currency = some "USD";
  evidence_digest = some "sha256:02";
}

abbrev uuid : FillBody → ℕ
uuid b = b.fill_sequence

abbrev commands : List Command
commands = submits bought ∷ executes 11 (of_ℕ 8) snapshot model ∷ cancels 11 ∷ cancels 11 ∷ []

abbrev final : SimulatedOms
final = run uuid empty commands

abbrev status_of : Option OrderRecord → OrderStatus
status_of (some r) = r.status
status_of none = rejected

abbrev filled_of : Option OrderRecord → Decimal
filled_of (some r) = r.filled_quantity
filled_of none = zero_dec

final_status : (status_of (order final 11) ≡ cancelled) × (filled_of (order final 11) ≡ of_ℕ 5)
unfolding run perform submit submission_reasons order execute attempt execution_reasons execute_fill
    calculate make_fill validate_fill apply_fill book_fill cancel decimals canonical
    matches_identity
final_status = (refl, refl)

bought_valid : validate_order bought ≡ ok tt
unfolding validate_order decimals
bought_valid = refl

run-IsBook_example : IsBook (run uuid empty commands)
run-IsBook_example =
    run-IsBook uuid empty commands empty-IsBook (bought_valid, (tt, (tt, (tt, tt))))

abbrev closed : OrderRecord
closed = record { order = bought; status = cancelled; filled_quantity = of_ℕ 5; reasons = [] }

abbrev shut : SimulatedOms
shut = record { orders = closed ∷ []; fills = []; attempts = [] }

shut_order : order shut 11 ≡ some closed
unfolding order
shut_order = refl

terminal_absorbs_example :
    (cancel shut 11 ≡ err terminal_order)
    × ((reason : String) → mark_unfilled shut 11 reason ≡ err terminal_order)
    × ((requested : Decimal) (s : ExecutionSnapshot) (m : ExecutionCostModel)
        → execute uuid shut 11 requested s m ≡ err terminal_order)
    × ((fill : SimulatedFill) (requested : Option Decimal)
        → fill.order_id ≡ 11
        → validate_fill fill ≡ ok tt
        → find_fill fill.fill_id shut.fills ≡ none
        → apply_fill shut fill requested ≡ err terminal_order)
terminal_absorbs_example = terminal_absorbs uuid shut 11 closed shut_order refl

submit_accepts_example :
    (r : OrderRecord) × (submit empty bought ≡ ok (record empty { orders = [] ++ r ∷ [] }))
    × (r.order ≡ bought)
    × ((r.status ≡ accepted) ↔ IsReleasable bought)
    × ((r.status ≡ accepted) ⊎ (r.status ≡ rejected))
submit_accepts_example = submit_accepts empty bought refl
