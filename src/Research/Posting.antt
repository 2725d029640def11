-- ===== src/Research/Posting.antt =====
-- `post_fill_to_ledger` of research/simulated_execution.py: a fill becomes a trade of the ledger.
pub mod Once
mod Tests
use automated_trading_bot.Prelude.{
  ℕ, ◌+◌, String, Option, none, some, not, length, str_eq, Result, ok, err, ◌>>=◌, ◌>>◌, raise_if,
  ◌≡◌, refl,
}
use automated_trading_bot.Prelude.Texts.{join, hex}
use automated_trading_bot.Decimal.{Decimal, zero_dec, add, sub, div, neg, leb_dec}
use automated_trading_bot.Research.Ledger.Event.{
  FinancialEvent, LedgerContractError, trade, Ledger, validate_event,
}
use automated_trading_bot.Research.Ledger.Book.{SimulationLedger, apply}
use automated_trading_bot.Research.Execution.Costs.{
  ExecutionError, foreign_currency, price_not_positive, total,
}
use automated_trading_bot.Research.Execution.Orders.{OrderSide, buy, sell, SimulatedFill}

-- What the call raises: an error of its own, or one of the ledger.
pub data PostingError : Type 0 where
  execution_failed : ExecutionError → PostingError
  ledger_failed : LedgerContractError → PostingError

abbrev pub Posting : Type 0 → Type 0
Posting A = Result PostingError A

abbrev pub of_ledger : {A : Type 0} → Ledger A → Posting A
of_ledger (ok a) = ok a
of_ledger (err e) = err (ledger_failed e)

-- The price with the costs spread over the units: added for a purchase, deducted for a sale.
unfoldable pub unit_amount : SimulatedFill → Decimal
unit_amount fill =
    let per_unit_cost = div (total fill.costs) fill.quantity in
    elim fill.side [
      | buy ↦ add fill.execution_price per_unit_cost
      | sell ↦ sub fill.execution_price per_unit_cost
    ]

unfoldable pub signed_quantity : SimulatedFill → Decimal
signed_quantity fill = elim fill.side [ buy ↦ fill.quantity | sell ↦ neg fill.quantity ]

unfoldable pub fill_event_id : SimulatedFill → String
fill_event_id fill = join "atis:simulation-ledger-event:v1:fill-" (hex fill.fill_id)

unfoldable pub fill_event : SimulationLedger → SimulatedFill → FinancialEvent
fill_event l fill = record {
  event_id = fill_event_id fill;
  sequence = length l.events + 1;
  occurred_at = fill.execution_at;
  kind = trade;
  research_run_id = fill.research_run_id;
  evidence_digest = fill.execution_evidence;
  currency = some fill.currency;
  instrument_id = some fill.instrument_id;
  quantity = some (signed_quantity fill);
  unit_amount = some (unit_amount fill);
  cash_delta = none;
  corporate_action_version_id = none;
}

unfoldable pub post_fill_to_ledger : SimulationLedger → SimulatedFill → Posting SimulationLedger
post_fill_to_ledger l fill = do
  raise_if (not (str_eq fill.currency l.currency)) (execution_failed foreign_currency)
  raise_if (leb_dec (unit_amount fill) zero_dec) (execution_failed price_not_positive)
  of_ledger (validate_event (fill_event l fill))
  of_ledger (apply l (fill_event l fill))
