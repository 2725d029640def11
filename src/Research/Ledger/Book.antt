-- ===== src/Research/Ledger/Book.antt =====
-- `SimulationLedger`: the immutable history of events beside the state that it leads to.
use automated_trading_bot.Prelude.{
  String, ◌+◌, Bool, true, false, ◌&&◌, not, Option, none, some, List, [], ◌∷◌, ◌++◌, ◌==◌, str_eq,
  if◌then◌else◌, find, length, ok, err, ◌>>=◌, ◌>>◌, raise_if,
}
use automated_trading_bot.Decimal.{zero_dec}
use automated_trading_bot.Research.Ledger.Event.{
  FinancialEvent, opening_cash, kind_eq, event_eq, Ledger, foreign_currency, event_id_conflict,
  sequence_gap, opening_missing, opening_repeated,
}
use automated_trading_bot.Research.Ledger.State.{LedgerState, transition}

pub record SimulationLedger : Type 0 where
  pub currency : String
  pub events : List FinancialEvent
  pub state : LedgerState

unfoldable pub empty : String → SimulationLedger
empty currency = record {
  currency = currency;
  events = [];
  state = record {
    currency = currency;
    cash = zero_dec;
    positions = [];
    realised_pnl = zero_dec;
    unrealised_pnl = zero_dec;
    portfolio_value = zero_dec;
  };
}

abbrev pub is_foreign : String → Option String → Bool
is_foreign currency none = false
is_foreign currency (some c) = not (str_eq c currency)

abbrev pub is_empty : List FinancialEvent → Bool
is_empty [] = true
is_empty (_ ∷ _) = false

abbrev pub recorded : String → List FinancialEvent → Option FinancialEvent
recorded id es = find (λ e. str_eq e.event_id id) es

-- The part of `apply` for an event whose identity is new.
unfoldable pub admit : SimulationLedger → FinancialEvent → Ledger SimulationLedger
admit l e = do
  raise_if (not (e.sequence == length l.events + 1)) sequence_gap
  raise_if (is_empty l.events && not (kind_eq e.kind opening_cash)) opening_missing
  raise_if (not (is_empty l.events) && kind_eq e.kind opening_cash) opening_repeated
  next_state ← transition l.state e
  ok (record { currency = l.currency; events = l.events ++ e ∷ []; state = next_state })

unfoldable pub apply : SimulationLedger → FinancialEvent → Ledger SimulationLedger
unfolding admit
apply l e = do
  raise_if (is_foreign l.currency e.currency) foreign_currency
  elim (recorded e.event_id l.events) [
    | some existing ↦ if event_eq existing e then ok l else err event_id_conflict
    | none ↦ admit l e
  ]

unfoldable pub apply_all : SimulationLedger → List FinancialEvent → Ledger SimulationLedger
unfolding apply
apply_all l [] = ok l
apply_all l (e ∷ es) = do next ← apply l e; apply_all next es

-- `SimulationLedger.replay`
unfoldable pub replay : String → List FinancialEvent → Ledger SimulationLedger
unfolding empty apply_all
replay currency events = apply_all (empty currency) events
