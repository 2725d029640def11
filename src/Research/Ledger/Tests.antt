-- ===== src/Research/Ledger/Tests.antt =====
-- The ledger at a concrete history: an opening of 1000, a purchase of 10 units at 5, a mark.
use automated_trading_bot.Prelude.{◌≡◌, refl, true, none, some, List, [], ◌∷◌, arith, ok, err}
use automated_trading_bot.Prelude.Int.{pos}
use automated_trading_bot.Decimal.{Decimal, of_ℕ, zero_dec, add, sub, mul, ltb_dec, decimals}
use automated_trading_bot.Research.Ledger.Event.{
  FinancialEvent, opening_cash, trade, Ledger, validate_shape, event_eq, short_position,
}
use automated_trading_bot.Research.Ledger.State.{PositionState, LedgerState, position, transition}
use automated_trading_bot.Research.Ledger.Book.{SimulationLedger, empty, apply, replay}
use automated_trading_bot.Research.Ledger.Accounting.{transition_others}
use automated_trading_bot.Research.Ledger.Trades.{
  Traded, held_quantity, trade_effect, short_refused,
}
use automated_trading_bot.Research.Ledger.History.{
  IsHistory, AreValid, apply_idempotent, replay-IsHistory, replay_history,
}

abbrev minus_twenty : Decimal
minus_twenty = record { negative = true; coefficient = 20; exponent = pos 0 }

abbrev opening : FinancialEvent
opening = record {
  event_id = "atis:simulation-ledger-event:v1:open";
  sequence = 1;
  occurred_at = 100;
  kind = opening_cash;
  research_run_id = "run-1";
  evidence_digest = "sha256:00";
  currency = some "USD";
  instrument_id = none;
  quantity = none;
  unit_amount = none;
  cash_delta = some (of_ℕ 1000);
  corporate_action_version_id = none;
}

abbrev trade_of : Decimal → FinancialEvent
trade_of q = record {
  event_id = "atis:simulation-ledger-event:v1:buy";
  sequence = 2;
  occurred_at = 200;
  kind = trade;
  research_run_id = "run-1";
  evidence_digest = "sha256:01";
  currency = some "USD";
  instrument_id = some 7;
  quantity = some q;
  unit_amount = some (of_ℕ 5);
  cash_delta = none;
  corporate_action_version_id = none;
}

abbrev events : List FinancialEvent
events = opening ∷ trade_of (of_ℕ 10) ∷ opening ∷ []

abbrev value_of : Ledger SimulationLedger → SimulationLedger
value_of (ok l) = l
value_of (err e) = empty "USD"

abbrev state_of : LedgerState → Ledger LedgerState → LedgerState
state_of s (ok t) = t
state_of s (err e) = s

abbrev opened : SimulationLedger
opened = value_of (replay "USD" (opening ∷ []))

abbrev funded : SimulationLedger
funded = value_of (replay "USD" events)

opened_lem : replay "USD" (opening ∷ []) ≡ ok opened
unfolding replay event_eq transition decimals
opened_lem = refl

funded_lem : replay "USD" events ≡ ok funded
unfolding replay event_eq transition decimals
funded_lem = refl

funded_cash : funded.state.cash ≡ of_ℕ 950
unfolding replay event_eq transition decimals
funded_cash = refl

events-AreValid : AreValid events
unfolding validate_shape decimals
events-AreValid = (refl, (refl, (refl, tt)))

opening-AreValid : AreValid (opening ∷ [])
unfolding validate_shape decimals
opening-AreValid = (refl, tt)

replay_history_example : replay funded.currency funded.events ≡ ok funded
replay_history_example = replay_history "USD" events funded_lem

replay-IsHistory_example : IsHistory funded
replay-IsHistory_example = replay-IsHistory "USD" events events-AreValid funded_lem

opened-IsHistory : IsHistory opened
opened-IsHistory = replay-IsHistory "USD" (opening ∷ []) opening-AreValid opened_lem

bought_lem : apply opened (trade_of (of_ℕ 10)) ≡ ok funded
unfolding apply replay event_eq transition decimals
bought_lem = refl

apply_idempotent_example : apply funded (trade_of (of_ℕ 10)) ≡ ok funded
apply_idempotent_example = apply_idempotent opened (trade_of (of_ℕ 10)) bought_lem

moved_lem : transition opened.state (trade_of (of_ℕ 10)) ≡ ok funded.state
unfolding replay event_eq transition decimals
moved_lem = refl

transition_others_example : position funded.state 8 ≡ position opened.state 8
transition_others_example =
    transition_others opened.state (trade_of (of_ℕ 10)) 8 opened-IsHistory.settled (ground arith)
      moved_lem

trade_effect_example :
    (funded.state.cash ≡ sub opened.state.cash (mul (of_ℕ 10) (of_ℕ 5)))
    × (p : PositionState) × (position funded.state 7 ≡ some p)
    × Traded (held_quantity opened.state 7) 7 (of_ℕ 10) (of_ℕ 5) p
trade_effect_example =
    trade_effect opened.state (trade_of (of_ℕ 10)) 7 (of_ℕ 10) (of_ℕ 5) opened-IsHistory.settled
      (record { is_trade = refl; instrument = refl; quantity = refl; amount = refl }) moved_lem

funded-IsHistory : IsHistory funded
funded-IsHistory = replay-IsHistory "USD" events events-AreValid funded_lem

twenty_short : ltb_dec (add (held_quantity funded.state 7) minus_twenty) zero_dec ≡ true
unfolding replay event_eq transition position decimals
twenty_short = refl

short_refused_example : transition funded.state (trade_of minus_twenty) ≡ err short_position
short_refused_example =
    short_refused funded.state (trade_of minus_twenty) 7 minus_twenty (of_ℕ 5)
      funded-IsHistory.settled
      (record { is_trade = refl; instrument = refl; quantity = refl; amount = refl }) twenty_short
