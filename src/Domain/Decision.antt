-- ===== src/Domain/Decision.antt =====
-- domain/decision.py: proposals, approvals, and when an approval matches. Times are microseconds,
-- UUIDs their integers.
pub mod Matching
use automated_trading_bot.Prelude.{
  ℕ, ◌≤◌, ◌<◌, String, Bool, true, false, ◌&&◌, ◌||◌, not, ltb, leb, ◌==◌, str_eq, if◌then◌else◌,
  Result, ok, err, ◌>>=◌, ◌>>◌, raise_if, ◌≡◌, ◌↔◌, refl, arith,
}
use automated_trading_bot.Prelude.Texts.{is_blank}
use automated_trading_bot.Decimal.{Decimal, zero_dec, leb_dec, eq_dec}
use automated_trading_bot.Research.Execution.Orders.{OrderSide, side_eq}

pub data DecisionError : Type 0 where
  blank_text quantity_not_positive empty_window no_trade_proposal : DecisionError

-- `_text`
unfoldable pub require_text : String → Result DecisionError (Unit {0})
require_text s = raise_if (is_blank s) blank_text

pub record DecisionLineage : Type 0 where
  pub data_identity : String
  pub calendar : String
  pub corporate_action : String
  pub strategy : String
  pub model : String
  pub feature : String
  pub config : String
  pub release : String
  pub evidence : String

unfoldable pub validate_lineage : DecisionLineage → Result DecisionError (Unit {0})
unfolding require_text
validate_lineage l = do
  require_text l.data_identity
  require_text l.calendar
  require_text l.corporate_action
  require_text l.strategy
  require_text l.model
  require_text l.feature
  require_text l.config
  require_text l.release
  require_text l.evidence

pub record ApprovalScope : Type 0 where
  pub instrument_id : ℕ
  pub strategy_id : String
  pub account : String
  pub environment : String
  pub side : OrderSide
  pub quantity : Decimal
  pub lineage : DecisionLineage
  pub control_epoch : ℕ

unfoldable pub validate_scope : ApprovalScope → Result DecisionError (Unit {0})
unfolding require_text
validate_scope s = do
  require_text s.strategy_id
  require_text s.account
  require_text s.environment
  raise_if (leb_dec s.quantity zero_dec) quantity_not_positive

-- The equality of the data classes.
unfoldable pub lineage_eq : DecisionLineage → DecisionLineage → Bool
lineage_eq a b =
    str_eq a.data_identity b.data_identity
    && str_eq a.calendar b.calendar
    && str_eq a.corporate_action b.corporate_action
    && str_eq a.strategy b.strategy
    && str_eq a.model b.model
    && str_eq a.feature b.feature
    && str_eq a.config b.config
    && str_eq a.release b.release
    && str_eq a.evidence b.evidence

unfoldable pub scope_eq : ApprovalScope → ApprovalScope → Bool
unfolding lineage_eq
scope_eq a b =
    a.instrument_id == b.instrument_id
    && str_eq a.strategy_id b.strategy_id
    && str_eq a.account b.account
    && str_eq a.environment b.environment
    && side_eq a.side b.side
    && eq_dec a.quantity b.quantity
    && lineage_eq a.lineage b.lineage
    && a.control_epoch == b.control_epoch

pub data DecisionStatus : Type 0 where
  trade_proposed no_trade decision_rejected decision_expired invalidated : DecisionStatus

pub data ApprovalStatus : Type 0 where
  pending approved rejected unknown expired revoked superseded : ApprovalStatus

abbrev is_trade_proposed : DecisionStatus → Bool
is_trade_proposed trade_proposed = true
is_trade_proposed _ = false

abbrev is_no_trade : DecisionStatus → Bool
is_no_trade no_trade = true
is_no_trade _ = false

abbrev is_approved : ApprovalStatus → Bool
is_approved approved = true
is_approved _ = false

-- `_window`
unfoldable pub require_window : ℕ → ℕ → Result DecisionError (Unit {0})
require_window issued_at expires_at = raise_if (leb expires_at issued_at) empty_window

pub record Proposal : Type 0 where
  pub decision_id : ℕ
  pub scope : ApprovalScope
  pub issued_at : ℕ
  pub expires_at : ℕ
  pub status : DecisionStatus

unfoldable pub validate_proposal : Proposal → Result DecisionError (Unit {0})
validate_proposal p = do
  raise_if (is_no_trade p.status) no_trade_proposal
  require_window p.issued_at p.expires_at

pub record NoTrade : Type 0 where
  pub decision_id : ℕ
  pub reason : String
  pub lineage : DecisionLineage
  pub occurred_at : ℕ

unfoldable pub validate_no_trade : NoTrade → Result DecisionError (Unit {0})
validate_no_trade n = require_text n.reason

pub record Approval : Type 0 where
  pub decision_id : ℕ
  pub scope : ApprovalScope
  pub issued_at : ℕ
  pub expires_at : ℕ
  pub status : ApprovalStatus

unfoldable pub validate_approval : Approval → Result DecisionError (Unit {0})
validate_approval a = require_window a.issued_at a.expires_at

-- What `matches_current_proposal` is given: a proposal, or the decision not to trade.
pub data Intent : Type 0 where
  proposes : Proposal → Intent
  declines : NoTrade → Intent

unfoldable pub is_eligible : Approval → Proposal → ApprovalScope → Bool
is_eligible a p current =
    is_approved a.status
    && is_trade_proposed p.status
    && a.decision_id == p.decision_id
    && scope_eq a.scope p.scope
    && scope_eq p.scope current
    && leb p.issued_at a.issued_at

unfoldable pub in_window : Approval → Proposal → ℕ → Bool
in_window a p now =
    leb a.issued_at now && ltb now a.expires_at && leb p.issued_at now && ltb now p.expires_at

-- `matches_current_proposal`: the answer, and whether `on_expiry_rejection`, if there is one, is
-- called. What the callback does or raises is dropped.
unfoldable pub matches_current_proposal : Approval → Intent → ApprovalScope → ℕ → Bool → Bool × Bool
unfolding is_eligible in_window
matches_current_proposal a (declines n) current now has_callback = (false, false)
matches_current_proposal a (proposes p) current now has_callback =
    if not (is_eligible a p current) then (false, false) else (
      in_window a p now,
      not (in_window a p now) && leb a.issued_at now && leb p.issued_at now && has_callback,
    )
