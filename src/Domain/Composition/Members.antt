-- ===== src/Domain/Composition/Members.antt =====
-- What the accepted transactions of domain/transaction_composition.py are made of.
use automated_trading_bot.Prelude.{
  Bool, true, false, ◌||◌, not, List, [], ◌∷◌, any, All, ok, raise_if, raise_if-eq-ok, >>-eq-ok,
  ◌≡◌, ◌≢◌, arith,
}
use mathlib.Core.Path.{subst}
use automated_trading_bot.Domain.Delivery.{
  InboxState, InboxTransitionResult, InboxRecord, applied, OutboxRecord, outbox_pending,
  is_outbox_pending, transition_inbox, inbox_settled,
}
use automated_trading_bot.Domain.Idempotency.{EventAdmission}
use automated_trading_bot.Domain.Composition.{
  no_events, inbox_not_applied, is_nil, is_transitioned, is_applied, identity_eq, repeats,
  require_outbox, includes, require_outbox_events, ProducerTransactionIntent,
  ConsumerTransactionIntent, validate_producer, validate_consumer,
}

-- No two records of the outbox are for one event and one destination.
pub Distinct : List OutboxRecord → Type 0
Distinct [] = Unit
Distinct (r ∷ rs) = All (λ q. identity_eq r.identity q.identity ≡ false) rs × Distinct rs

-- An outbox that may be committed with the events: distinct, pending, each for one of the events.
pub record IsOutbox (events : List EventAdmission) (outbox : List OutboxRecord) : Type 0 where
  pub distinct : Distinct outbox
  pub all_pending : All (λ r. r.state ≡ outbox_pending) outbox
  pub owned : All (λ r. includes r.identity.event_id events ≡ true) outbox

any-All : {A : Type 0} (p : A → Bool) (xs : List A) → any p xs ≡ false → All (λ x. p x ≡ false) xs
any-All p [] h = tt
any-All p (x ∷ xs) h = (ground (arith, h), any-All p xs (ground (arith, h)))

All-map :
    {A : Type 0} (P Q : A → Type 0) (xs : List A) → ((x : A) → P x → Q x) → All P xs → All Q xs
All-map P Q [] f h = tt
All-map P Q (x ∷ xs) f h = (f x h.0, All-map P Q xs f h.1)

repeats-Distinct : (rs : List OutboxRecord) → repeats rs ≡ false → Distinct rs
unfolding repeats Distinct
repeats-Distinct [] h = tt
repeats-Distinct (r ∷ rs) h = (
  any-All (λ q. identity_eq r.identity q.identity) rs (ground (arith, h)),
  repeats-Distinct rs (ground (arith, h)),
)

require_outbox-IsOutbox :
    (events : List EventAdmission) (outbox : List OutboxRecord)
    → require_outbox outbox ≡ ok tt
    → require_outbox_events events outbox ≡ ok tt
    → IsOutbox events outbox
unfolding require_outbox require_outbox_events
require_outbox-IsOutbox events outbox h k =
    let (d, p) = >>-eq-ok (raise_if (repeats outbox) _) _ h in
    record {
      distinct = repeats-Distinct outbox (raise_if-eq-ok (repeats outbox) _ d);
      all_pending =
          All-map _ _ outbox (λ r e. ground (arith, e))
            (any-All (λ r. not (is_outbox_pending r.state)) outbox (raise_if-eq-ok _ _ p));
      owned =
          All-map _ _ outbox (λ r e. ground (arith, e))
            (any-All (λ r. not (includes r.identity.event_id events)) outbox
              (raise_if-eq-ok _ _ k));
    }

-- An accepted producer's transaction holds some event, and its outbox holds pending records alone,
-- each for one of those events, and no two for one event and one destination.
pub validate_producer-IsOutbox :
    (p : ProducerTransactionIntent)
    → validate_producer p ≡ ok tt
    → (p.events ≢ []) × IsOutbox p.events p.outbox
unfolding validate_producer
validate_producer-IsOutbox p h =
    let (e, h1) = >>-eq-ok (raise_if (is_nil p.events) no_events) _ h in
    let (o, k) = >>-eq-ok (require_outbox p.outbox) _ h1 in
    (λ nil. ground (arith, e, nil), require_outbox-IsOutbox p.events p.outbox o k)

-- The inbox result is not one that has just become APPLIED.
abbrev misses : InboxTransitionResult → Bool
misses t = not (is_transitioned t.disposition) || not (is_applied t.next_record.state)

applied_first :
    (r : InboxRecord) (target : InboxState)
    → misses (transition_inbox r target) ≡ false
    → (inbox_settled r.state ≡ false) × (target ≡ applied)
unfolding transition_inbox
applied_first r target h = (ground arith, ground arith)

-- An accepted consumer's transaction whose inbox result comes from `transition_inbox` is the first
-- to settle that record: it was not settled before, and its target was APPLIED. Its outbox holds
-- pending records alone, each for an outgoing event, and no two for one event and one destination.
pub validate_consumer-IsOutbox :
    (c : ConsumerTransactionIntent) (r : InboxRecord) (target : InboxState)
    → c.inbox_transition ≡ transition_inbox r target
    → validate_consumer c ≡ ok tt
    → (inbox_settled r.state ≡ false) × (target ≡ applied) × IsOutbox c.outgoing_events c.outbox
unfolding validate_consumer
validate_consumer-IsOutbox c r target made h =
    let (g, h1) = >>-eq-ok (raise_if (misses c.inbox_transition) inbox_not_applied) _ h in
    let (o, k) = >>-eq-ok (require_outbox c.outbox) _ h1 in
    let (first, aim) =
      applied_first r target
        (subst (λ x. misses x ≡ false) made (raise_if-eq-ok (misses c.inbox_transition) _ g)) in
    (first, aim, require_outbox-IsOutbox c.outgoing_events c.outbox o k)
