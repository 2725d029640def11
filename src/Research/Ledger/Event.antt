-- ===== src/Research/Ledger/Event.antt =====
-- The financial events of research/simulation_ledger.py and the validation in their constructor.
-- A UUID is its 128-bit integer, a timestamp its number of microseconds, and the identities that
-- wrap a text are texts. Types rule out what the `type(x) is not T` tests reject.
use text.Mathlib.TextPositions.{eq_refl}
use automated_trading_bot.Prelude.{
  ℕ, String, ◌≡◌, Bool, true, false, ◌&&◌, ◌||◌, Option, none, some, arith, ltb, ◌==◌, str_eq,
  if◌then◌else◌, is_none, is_some, option_eq, option_eq_refl, ==_refl, Result, ◌>>◌, raise_if,
}
use automated_trading_bot.Decimal.{Decimal, zero_dec, ltb_dec, leb_dec, eq_dec}
use automated_trading_bot.Decimal.Order.{eq_dec_refl}

pub data FinancialEventKind : Type 0 where
  opening_cash cash_adjustment trade mark cash_dividend split : FinancialEventKind

abbrev pub kind_eq : FinancialEventKind → FinancialEventKind → Bool
kind_eq opening_cash opening_cash = true
kind_eq cash_adjustment cash_adjustment = true
kind_eq trade trade = true
kind_eq mark mark = true
kind_eq cash_dividend cash_dividend = true
kind_eq split split = true
kind_eq _ _ = false

pub record FinancialEvent : Type 0 where
  pub event_id : String
  pub sequence : ℕ
  pub occurred_at : ℕ
  pub kind : FinancialEventKind
  pub research_run_id : String
  pub evidence_digest : String
  pub currency : Option String
  pub instrument_id : Option ℕ
  pub quantity : Option Decimal
  pub unit_amount : Option Decimal
  pub cash_delta : Option Decimal
  pub corporate_action_version_id : Option String

-- `LedgerContractError`, by its message, and the `assert` statements of `_transition`.
pub data LedgerContractError : Type 0 where
  sequence_not_positive currency_required currency_forbidden : LedgerContractError
  instrument_required instrument_forbidden amount_required : LedgerContractError
  action_required field_forbidden : LedgerContractError
  foreign_currency event_id_conflict sequence_gap : LedgerContractError
  opening_missing opening_repeated : LedgerContractError
  short_position empty_position assertion : LedgerContractError

abbrev pub Ledger : Type 0 → Type 0
Ledger A = Result LedgerContractError A

-- The dataclass's `==`, field by field.
unfoldable pub event_eq : FinancialEvent → FinancialEvent → Bool
event_eq a b =
    str_eq a.event_id b.event_id
    && a.sequence == b.sequence
    && a.occurred_at == b.occurred_at
    && kind_eq a.kind b.kind
    && str_eq a.research_run_id b.research_run_id
    && str_eq a.evidence_digest b.evidence_digest
    && option_eq str_eq a.currency b.currency
    && option_eq ◌==◌ a.instrument_id b.instrument_id
    && option_eq eq_dec a.quantity b.quantity
    && option_eq eq_dec a.unit_amount b.unit_amount
    && option_eq eq_dec a.cash_delta b.cash_delta
    && option_eq str_eq a.corporate_action_version_id b.corporate_action_version_id

kind_eq_refl : (k : FinancialEventKind) → kind_eq k k ≡ true
kind_eq_refl k = ground arith

pub event_eq_refl : (e : FinancialEvent) → event_eq e e ≡ true
unfolding event_eq
event_eq_refl e = simp (
  eq_refl,
  ==_refl,
  kind_eq_refl e.kind,
  option_eq_refl str_eq eq_refl,
  option_eq_refl ◌==◌ ==_refl,
  option_eq_refl eq_dec eq_dec_refl,
)

abbrev requires_currency : FinancialEventKind → Bool
requires_currency split = false
requires_currency _ = true

abbrev requires_instrument : FinancialEventKind → Bool
requires_instrument opening_cash = false
requires_instrument cash_adjustment = false
requires_instrument _ = true

-- `v is None or p(v)`
abbrev missing_or : (Decimal → Bool) → Option Decimal → Bool
missing_or p none = true
missing_or p (some v) = p v

forbid : Bool → Bool → Bool → Bool → FinancialEvent → Ledger (Unit {0})
forbid quantity unit_amount cash_delta action e =
    raise_if
      (quantity && is_some e.quantity
        || unit_amount && is_some e.unit_amount
        || cash_delta && is_some e.cash_delta
        || action && is_some e.corporate_action_version_id)
      field_forbidden

require_action : FinancialEvent → Ledger (Unit {0})
require_action e = raise_if (is_none e.corporate_action_version_id) action_required

-- The chain on the kind that ends `_validate_shape`.
validate_amounts : FinancialEventKind → FinancialEvent → Ledger (Unit {0})
validate_amounts opening_cash e = do
  raise_if (missing_or (λ v. eq_dec v zero_dec) e.cash_delta) amount_required
  forbid true true false true e
validate_amounts cash_adjustment e = do
  raise_if (missing_or (λ v. eq_dec v zero_dec) e.cash_delta) amount_required
  forbid true true false true e
validate_amounts trade e = do
  raise_if (missing_or (λ v. eq_dec v zero_dec) e.quantity) amount_required
  raise_if (missing_or (λ v. leb_dec v zero_dec) e.unit_amount) amount_required
  forbid false false true true e
validate_amounts mark e = do
  raise_if (missing_or (λ v. ltb_dec v zero_dec) e.unit_amount) amount_required
  forbid true false true true e
validate_amounts cash_dividend e = do
  raise_if (missing_or (λ v. ltb_dec v zero_dec) e.unit_amount) amount_required
  require_action e
  forbid true false true false e
validate_amounts split e = do
  raise_if (missing_or (λ v. leb_dec v zero_dec) e.quantity) amount_required
  require_action e
  forbid false true true false e

unfoldable pub validate_shape : FinancialEvent → Ledger (Unit {0})
unfolding forbid require_action validate_amounts
validate_shape e = do
  (if requires_currency e.kind
      then raise_if (is_none e.currency) currency_required
      else raise_if (is_some e.currency) currency_forbidden)
  (if requires_instrument e.kind
      then raise_if (is_none e.instrument_id) instrument_required
      else raise_if (is_some e.instrument_id) instrument_forbidden)
  validate_amounts e.kind e

-- `FinancialEvent.__post_init__`
unfoldable pub validate_event : FinancialEvent → Ledger (Unit {0})
unfolding validate_shape
validate_event e = do raise_if (ltb e.sequence 1) sequence_not_positive; validate_shape e
