-- ===== src/Domain/Tests.antt =====
-- Runs of the contracts of domain/ on concrete values.
use automated_trading_bot.Prelude.{
  ℕ, ◌≤◌, ◌<◌, true, false, some, List, [], ◌∷◌, ok, ◌≡◌, ◌↔◌, ◌⊎◌, refl,
}
use automated_trading_bot.Decimal.{of_ℕ, decimals}
use automated_trading_bot.Research.Execution.Orders.{buy}
use automated_trading_bot.Domain.Versioning.Registry.{version_eq}
use automated_trading_bot.Domain.Transitions.{
  active, terminal, apply, transition_contract_v1, GenericState, TransitionAction,
  TransitionActionKind, TransitionState, TransitionResult, require_transition_version, terminated,
  unchanged_result, applied_now, terminal_kept, dispose, transition, transition_all, applications,
  room, AreSteps, applied_once,
}
use automated_trading_bot.Domain.Delivery.{
  InboxRecord, pending, retry, applied, quarantined, OutboxRecord, outbox_pending, outbox_retry,
}
use automated_trading_bot.Domain.Delivery.Outcomes.{
  inbox_after, inbox_outcome, inbox_after-inbox_outcome, outbox_after, outbox_outcome,
  outbox_after-outbox_outcome,
}
use automated_trading_bot.Domain.Concurrency.{
  ConcurrentTransitionRequest, ConcurrencyOutcome, success, conflict, committed, indeterminate,
  no_retry, resolve_first, reevaluate, disposed_committed, advance_concurrency_token,
  validate_request, is_committed, validate_outcome, validate_outcome_lem,
  transition-validate_request,
}
use automated_trading_bot.Domain.Decision.{
  DecisionLineage, ApprovalScope, lineage_eq, scope_eq, trade_proposed, approved, Proposal,
  Approval, proposes, matches_current_proposal, is_eligible, in_window,
}
use automated_trading_bot.Domain.Decision.Matching.{IsCurrent, matches-IsCurrent, expiry_rejection}

abbrev first : GenericState
first = record { state_id = 5; status = active; contract_version = transition_contract_v1 }

abbrev action : TransitionActionKind → TransitionState → TransitionAction
action k t = record {
  action_id = 9;
  kind = k;
  target_state = t;
  contract_version = transition_contract_v1;
}

abbrev closing : TransitionResult
closing = record {
  previous_state = first;
  next_state = terminated first;
  disposition = applied_now;
}

abbrev results : List TransitionResult
results = closing ∷ unchanged_result (terminated first) terminal_kept ∷ []

ran : transition_all first (action apply terminal ∷ action apply terminal ∷ []) ≡ ok results
unfolding transition_all transition dispose require_transition_version version_eq
ran = refl

closed : transition first (action apply terminal) ≡ ok closing
unfolding transition dispose require_transition_version version_eq
closed = refl

applied_once_example : AreSteps first results × (applications results ≤ room active)
applied_once_example = applied_once first (action apply terminal ∷ action apply terminal ∷ []) ran

abbrev inbox : InboxRecord
inbox = record {
  identity = record { event_id = 3; handler_id = "booker" };
  handler_version = "v1";
  state = pending;
}

inbox_after-inbox_outcome_example :
    inbox_after inbox (retry ∷ applied ∷ quarantined ∷ []) ≡ record inbox { state = applied }
unfolding inbox_outcome
inbox_after-inbox_outcome_example =
    inbox_after-inbox_outcome inbox (retry ∷ applied ∷ quarantined ∷ [])

abbrev outbox : OutboxRecord
outbox = record {
  identity = record { event_id = 3; destination_id = "audit" };
  state = outbox_pending;
}

outbox_after-outbox_outcome_example :
    outbox_after outbox (outbox_retry ∷ outbox_pending ∷ [])
    ≡ record outbox { state = outbox_retry }
unfolding outbox_outcome
outbox_after-outbox_outcome_example =
    outbox_after-outbox_outcome outbox (outbox_retry ∷ outbox_pending ∷ [])

abbrev request : ConcurrentTransitionRequest
request = record { state_id = 5; result = closing; expected_token = 4 }

abbrev outcome : ConcurrencyOutcome
outcome = record {
  request = request;
  persistence_outcome = success;
  disposition = disposed_committed;
  current_token = some 5;
  commit_certainty = committed;
  retry_disposition = no_retry;
}

outcome_valid : validate_outcome outcome ≡ ok tt
unfolding validate_outcome is_committed advance_concurrency_token
outcome_valid = refl

validate_outcome_lem_example :
    ((outcome.commit_certainty ≡ committed) ↔ (outcome.persistence_outcome ≡ success))
    × (outcome.commit_certainty ≡ committed
        → outcome.current_token ≡ some (advance_concurrency_token 4))
    × ((outcome.commit_certainty ≡ indeterminate) ↔ (outcome.retry_disposition ≡ resolve_first))
    × ((outcome.retry_disposition ≡ reevaluate) ↔ (outcome.persistence_outcome ≡ conflict))
    × ((token : ℕ) → outcome.current_token ≡ some token → 4 < token)
validate_outcome_lem_example = validate_outcome_lem outcome outcome_valid

transition-validate_request_example : validate_request request ≡ ok tt
transition-validate_request_example =
    transition-validate_request first (action apply terminal) 4 closed

abbrev lineage : DecisionLineage
lineage = record {
  data_identity = "d1";
  calendar = "c1";
  corporate_action = "none";
  strategy = "trend";
  model = "m1";
  feature = "f1";
  config = "g1";
  release = "r1";
  evidence = "e1";
}

abbrev scope : ApprovalScope
scope = record {
  instrument_id = 1;
  strategy_id = "trend";
  account = "paper";
  environment = "simulation";
  side = buy;
  quantity = of_ℕ 10;
  lineage = lineage;
  control_epoch = 2;
}

abbrev proposal : Proposal
proposal = record {
  decision_id = 8;
  scope = scope;
  issued_at = 100;
  expires_at = 200;
  status = trade_proposed;
}

abbrev approval : Approval
approval = record {
  decision_id = 8;
  scope = scope;
  issued_at = 120;
  expires_at = 180;
  status = approved;
}

-- The window is closed on the left and open on the right.
window :
    (matches_current_proposal approval (proposes proposal) scope 179 true ≡ (true, false))
    × (matches_current_proposal approval (proposes proposal) scope 180 true ≡ (false, true))
    × (matches_current_proposal approval (proposes proposal) scope 119 true ≡ (false, false))
unfolding matches_current_proposal is_eligible in_window scope_eq lineage_eq decimals
window = (refl, refl, refl)

matches-IsCurrent_example :
    ((matches_current_proposal approval (proposes proposal) scope 150 false).0 ≡ true)
    ↔ ((p : Proposal) × (proposes proposal ≡ proposes p) × IsCurrent approval p scope 150)
matches-IsCurrent_example = matches-IsCurrent approval (proposes proposal) scope 150 false

called : (matches_current_proposal approval (proposes proposal) scope 180 true).1 ≡ true
unfolding matches_current_proposal is_eligible in_window scope_eq lineage_eq decimals
called = refl

expiry_rejection_example :
    ((matches_current_proposal approval (proposes proposal) scope 180 true).0 ≡ false)
    × ((180 ≤ 180) ⊎ (200 ≤ 180))
    × ((later : ℕ)
        → 180 ≤ later
        → (matches_current_proposal approval (proposes proposal) scope later true).0 ≡ false)
expiry_rejection_example = expiry_rejection approval proposal scope 180 true called
