-- ===== src/Domain/Composition.antt =====
-- domain/transaction_composition.py: what a producer's or a consumer's transaction must hold.
pub mod Members
mod Tests
use automated_trading_bot.Prelude.{
  ℕ, Bool, true, false, ◌&&◌, ◌||◌, not, List, [], ◌∷◌, map, any, ◌==◌, str_eq, Result, ok, err,
  ◌>>=◌, ◌>>◌, raise_if,
}
use automated_trading_bot.Domain.Concurrency.{ConcurrentTransitionRequest}
use automated_trading_bot.Domain.Delivery.{
  InboxState, InboxTransitionResult, applied, DeliveryTransitionDisposition, transitioned,
  OutboxIdentity, OutboxRecord, is_outbox_pending,
}
use automated_trading_bot.Domain.Idempotency.{EventAdmission}

pub data CompositionError : Type 0 where
  repeated_identity not_pending foreign_event no_events inbox_not_applied : CompositionError

abbrev pub identity_eq : OutboxIdentity → OutboxIdentity → Bool
identity_eq a b = a.event_id == b.event_id && str_eq a.destination_id b.destination_id

-- `len(set(identities)) != len(identities)`
unfoldable pub repeats : List OutboxRecord → Bool
repeats [] = false
repeats (r ∷ rs) = any (λ q. identity_eq r.identity q.identity) rs || repeats rs

-- `_require_outbox`
unfoldable pub require_outbox : List OutboxRecord → Result CompositionError (Unit {0})
require_outbox outbox = do
  raise_if (repeats outbox) repeated_identity
  raise_if (any (λ r. not (is_outbox_pending r.state)) outbox) not_pending

abbrev pub includes : ℕ → List EventAdmission → Bool
includes id events = any (λ a. a.event.envelope.event_id == id) events

-- `_require_outbox_events`
unfoldable pub require_outbox_events :
    List EventAdmission → List OutboxRecord → Result CompositionError (Unit {0})
require_outbox_events events outbox =
    raise_if (any (λ r. not (includes r.identity.event_id events)) outbox) foreign_event

pub record ProducerTransactionIntent : Type 0 where
  pub transition : ConcurrentTransitionRequest
  pub events : List EventAdmission
  pub outbox : List OutboxRecord

pub record ConsumerTransactionIntent : Type 0 where
  pub inbox_transition : InboxTransitionResult
  pub transition : ConcurrentTransitionRequest
  pub outgoing_events : List EventAdmission
  pub outbox : List OutboxRecord

abbrev pub is_nil : List EventAdmission → Bool
is_nil [] = true
is_nil (_ ∷ _) = false

-- `ProducerTransactionIntent.__post_init__`
unfoldable pub validate_producer : ProducerTransactionIntent → Result CompositionError (Unit {0})
unfolding require_outbox require_outbox_events
validate_producer p = do
  raise_if (is_nil p.events) no_events
  require_outbox p.outbox
  require_outbox_events p.events p.outbox

abbrev pub is_transitioned : DeliveryTransitionDisposition → Bool
is_transitioned transitioned = true
is_transitioned _ = false

abbrev pub is_applied : InboxState → Bool
is_applied applied = true
is_applied _ = false

-- `ConsumerTransactionIntent.__post_init__`
unfoldable pub validate_consumer : ConsumerTransactionIntent → Result CompositionError (Unit {0})
unfolding require_outbox require_outbox_events
validate_consumer c = do
  raise_if
      (not (is_transitioned c.inbox_transition.disposition)
        || not (is_applied c.inbox_transition.next_record.state))
      inbox_not_applied
  require_outbox c.outbox
  require_outbox_events c.outgoing_events c.outbox
