-- ===== src/Domain/Delivery/Outcomes.antt =====
-- Where domain/delivery.py takes a record, whatever the targets.
use automated_trading_bot.Prelude.{
  Option, none, some, List, [], ◌∷◌, if◌then◌else◌, find, any, ◌≡◌, refl, ap, ◌∙◌, arith,
}
use automated_trading_bot.Domain.Delivery.{
  InboxState, pending, retry, applied, quarantined, InboxRecord, OutboxState, outbox_pending,
  outbox_retry, delivered, outbox_quarantined, OutboxRecord, inbox_settled, inbox_retry,
  outbox_settled, is_outbox_retry, transition_inbox, transition_outbox,
}

-- The record after one target after another.
unfoldable pub inbox_after : InboxRecord → List InboxState → InboxRecord
inbox_after r [] = r
inbox_after r (t ∷ ts) = inbox_after (transition_inbox r t).next_record ts

unfoldable pub outbox_after : OutboxRecord → List OutboxState → OutboxRecord
outbox_after r [] = r
outbox_after r (t ∷ ts) = outbox_after (transition_outbox r t).next_record ts

-- The first state that settles the matter, or else a retry, if there was one.
abbrev pub or_state : {S : Type 0} → Option S → S → S
or_state (some s) t = s
or_state none t = t

unfoldable pub inbox_outcome : List InboxState → InboxState
inbox_outcome states =
    or_state (find inbox_settled states) (if any inbox_retry states then retry else pending)

unfoldable pub outbox_outcome : List OutboxState → OutboxState
outbox_outcome states =
    or_state (find outbox_settled states)
      (if any is_outbox_retry states then outbox_retry else outbox_pending)

-- One transition carries the state on as the outcome asks, and nothing else.
inbox-step :
    (r : InboxRecord) (t : InboxState) (ts : List InboxState)
    → (inbox_outcome ((transition_inbox r t).next_record.state ∷ ts)
        ≡ inbox_outcome (r.state ∷ t ∷ ts))
      × ((transition_inbox r t).next_record.identity ≡ r.identity)
      × ((transition_inbox r t).next_record.handler_version ≡ r.handler_version)
unfolding inbox_outcome transition_inbox
inbox-step r t ts = (ground arith, ground arith, ground arith)

outbox-step :
    (r : OutboxRecord) (t : OutboxState) (ts : List OutboxState)
    → (outbox_outcome ((transition_outbox r t).next_record.state ∷ ts)
        ≡ outbox_outcome (r.state ∷ t ∷ ts))
      × ((transition_outbox r t).next_record.identity ≡ r.identity)
unfolding outbox_outcome transition_outbox
outbox-step r t ts = (ground arith, ground arith)

inbox_outcome_one : (s : InboxState) → s ≡ inbox_outcome (s ∷ [])
unfolding inbox_outcome
inbox_outcome_one pending = refl
inbox_outcome_one retry = refl
inbox_outcome_one applied = refl
inbox_outcome_one quarantined = refl

outbox_outcome_one : (s : OutboxState) → s ≡ outbox_outcome (s ∷ [])
unfolding outbox_outcome
outbox_outcome_one outbox_pending = refl
outbox_outcome_one outbox_retry = refl
outbox_outcome_one delivered = refl
outbox_outcome_one outbox_quarantined = refl

-- Whatever targets an inbox record is given, it keeps its identity and its handler version, and it
-- ends in the first state, its own included, that settles the matter; with none, in retry, if that
-- was its state or a target, and otherwise pending.
pub inbox_after-inbox_outcome :
    (r : InboxRecord) (targets : List InboxState)
    → inbox_after r targets ≡ record r { state = inbox_outcome (r.state ∷ targets) }
unfolding inbox_after
inbox_after-inbox_outcome r [] = ap (λ s. record r { state = s }) (inbox_outcome_one r.state)
inbox_after-inbox_outcome r (t ∷ ts) =
    let (state, identity, version) = inbox-step r t ts in
    inbox_after-inbox_outcome (transition_inbox r t).next_record ts
    ∙ ground (arith, state, identity, version)

-- Whatever targets an outbox record is given, it keeps its identity, and it ends in the first
-- state, its own included, that settles the matter; with none, in retry, if that was its state or a
-- target, and otherwise pending.
pub outbox_after-outbox_outcome :
    (r : OutboxRecord) (targets : List OutboxState)
    → outbox_after r targets ≡ record r { state = outbox_outcome (r.state ∷ targets) }
unfolding outbox_after
outbox_after-outbox_outcome r [] = ap (λ s. record r { state = s }) (outbox_outcome_one r.state)
outbox_after-outbox_outcome r (t ∷ ts) =
    let (state, identity) = outbox-step r t ts in
    outbox_after-outbox_outcome (transition_outbox r t).next_record ts
    ∙ ground (arith, state, identity)
