-- ===== src/Domain/Delivery.antt =====
-- domain/delivery.py: inbox and outbox records and their transitions.
pub mod Outcomes
use automated_trading_bot.Prelude.{
  ℕ, String, Bool, true, false, ◌&&◌, Option, none, some, List, [], ◌∷◌, if◌then◌else◌, find, any,
  Result, raise_if, not, ◌≡◌, refl, ap, ◌∙◌, arith,
}
use automated_trading_bot.Prelude.Texts.{is_stable_name}

-- `_require_stable_name`, which each of HandlerId, HandlerVersion and DestinationId calls.
pub data DeliveryError : Type 0 where
  unstable_name : DeliveryError

unfoldable pub require_stable_name : String → Result DeliveryError (Unit {0})
require_stable_name s = raise_if (not (is_stable_name s)) unstable_name

pub record InboxIdentity : Type 0 where
  pub event_id : ℕ
  pub handler_id : String

pub data InboxState : Type 0 where
  pending retry applied quarantined : InboxState

pub record InboxRecord : Type 0 where
  pub identity : InboxIdentity
  pub handler_version : String
  pub state : InboxState

pub record OutboxIdentity : Type 0 where
  pub event_id : ℕ
  pub destination_id : String

pub data OutboxState : Type 0 where
  outbox_pending outbox_retry delivered outbox_quarantined : OutboxState

pub record OutboxRecord : Type 0 where
  pub identity : OutboxIdentity
  pub state : OutboxState

pub data DeliveryTransitionDisposition : Type 0 where
  transitioned unchanged illegal : DeliveryTransitionDisposition

pub record InboxTransitionResult : Type 0 where
  pub previous_record : InboxRecord
  pub next_record : InboxRecord
  pub disposition : DeliveryTransitionDisposition

pub record OutboxTransitionResult : Type 0 where
  pub previous_record : OutboxRecord
  pub next_record : OutboxRecord
  pub disposition : DeliveryTransitionDisposition

-- `record.state in (InboxState.APPLIED, InboxState.QUARANTINED)`
abbrev pub inbox_settled : InboxState → Bool
inbox_settled pending = false
inbox_settled retry = false
inbox_settled applied = true
inbox_settled quarantined = true

abbrev pub inbox_pending : InboxState → Bool
inbox_pending pending = true
inbox_pending _ = false

abbrev pub inbox_retry : InboxState → Bool
inbox_retry retry = true
inbox_retry _ = false

abbrev pub inbox_kept : InboxRecord → DeliveryTransitionDisposition → InboxTransitionResult
inbox_kept r d = record { previous_record = r; next_record = r; disposition = d }

unfoldable pub transition_inbox : InboxRecord → InboxState → InboxTransitionResult
transition_inbox r target =
    if inbox_settled r.state
    then inbox_kept r unchanged
    else if inbox_pending target
    then inbox_kept r illegal
    else if inbox_retry r.state && inbox_retry target
    then inbox_kept r unchanged
    else record {
      previous_record = r;
      next_record = record {
        identity = r.identity;
        handler_version = r.handler_version;
        state = target;
      };
      disposition = transitioned;
    }

abbrev pub outbox_settled : OutboxState → Bool
outbox_settled outbox_pending = false
outbox_settled outbox_retry = false
outbox_settled delivered = true
outbox_settled outbox_quarantined = true

abbrev pub is_outbox_pending : OutboxState → Bool
is_outbox_pending outbox_pending = true
is_outbox_pending _ = false

abbrev pub is_outbox_retry : OutboxState → Bool
is_outbox_retry outbox_retry = true
is_outbox_retry _ = false

abbrev pub outbox_kept : OutboxRecord → DeliveryTransitionDisposition → OutboxTransitionResult
outbox_kept r d = record { previous_record = r; next_record = r; disposition = d }

unfoldable pub transition_outbox : OutboxRecord → OutboxState → OutboxTransitionResult
transition_outbox r target =
    if outbox_settled r.state
    then outbox_kept r unchanged
    else if is_outbox_pending target
    then outbox_kept r illegal
    else if is_outbox_retry r.state && is_outbox_retry target
    then outbox_kept r unchanged
    else record {
      previous_record = r;
      next_record = record { identity = r.identity; state = target };
      disposition = transitioned;
    }
