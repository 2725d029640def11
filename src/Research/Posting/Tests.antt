-- ===== src/Research/Posting/Tests.antt =====
-- A purchase of 10 units at 5, with costs of 1, posted to a ledger of 1000.
use automated_trading_bot.Prelude.{◌≡◌, refl, none, some, [], ◌∷◌, ok, err}
use automated_trading_bot.Prelude.Texts.{hex}
use automated_trading_bot.Decimal.{of_ℕ, zero_dec, decimals}
use automated_trading_bot.Research.Ledger.Event.{
  FinancialEvent, opening_cash, event_id_conflict, event_eq, validate_event, validate_shape,
}
use automated_trading_bot.Research.Ledger.State.{transition}
use automated_trading_bot.Research.Ledger.Book.{SimulationLedger, empty, apply, replay}
use automated_trading_bot.Research.Ledger.History.{IsHistory, replay-IsHistory}
use automated_trading_bot.Research.Execution.Costs.{CostScenario, total}
use automated_trading_bot.Research.Execution.Orders.{OrderSide, SimulatedFill}
use automated_trading_bot.Research.Posting.{
  ledger_failed, Posting, unit_amount, signed_quantity, fill_event, fill_event_id,
  post_fill_to_ledger,
}
use automated_trading_bot.Research.Posting.Once.{posted_once}

abbrev opening : FinancialEvent
opening = record {
  event_id = "atis:simulation-ledger-event:v1:open";
  sequence = 1;
  occurred_at = 100;
  kind = opening_cash;
  research_run_id = "run-1";
  evidence_digest = "sha256:00";
  currency = some "USD";
  instrument_id = none;
  quantity = none;
  unit_amount = none;
  cash_delta = some (of_ℕ 1000);
  corporate_action_version_id = none;
}

abbrev opened : SimulationLedger
opened = record (empty "USD") {
  events = opening ∷ [];
  state = record ((empty "USD").state) { cash = of_ℕ 1000; portfolio_value = of_ℕ 1000 };
}

abbrev fill : SimulatedFill
fill = record {
  fill_id = 77;
  order_id = 11;
  instrument_id = 7;
  side = OrderSide.buy;
  quantity = of_ℕ 10;
  execution_price = of_ℕ 5;
  execution_at = 200;
  currency = "USD";
  execution_evidence = "sha256:02";
  cost_model_id = "atis:simulation-cost-model:v1:base";
  cost_scenario = CostScenario.ec1;
  costs = record {
    commission_fees = of_ℕ 1;
    bid_ask_spread = zero_dec;
    slippage = zero_dec;
    market_impact = zero_dec;
    additional_friction = zero_dec;
  };
  research_run_id = "run-1";
}

abbrev or_opened : Posting SimulationLedger → SimulationLedger
or_opened (ok l) = l
or_opened (err e) = opened

abbrev posted : SimulationLedger
posted = or_opened (post_fill_to_ledger opened fill)

posted_lem : post_fill_to_ledger opened fill ≡ ok posted
unfolding post_fill_to_ledger unit_amount signed_quantity fill_event fill_event_id total
    validate_event validate_shape apply event_eq transition decimals empty hex
posted_lem = refl

replayed : replay "USD" (opening ∷ []) ≡ ok opened
unfolding replay event_eq transition decimals empty
replayed = refl

opened-IsHistory : IsHistory opened
unfolding validate_shape decimals
opened-IsHistory = replay-IsHistory "USD" (opening ∷ []) (refl, tt) replayed

posted_once_example : post_fill_to_ledger posted fill ≡ err (ledger_failed event_id_conflict)
posted_once_example = posted_once opened fill opened-IsHistory posted_lem
