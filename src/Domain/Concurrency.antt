-- ===== src/Domain/Concurrency.antt =====
-- domain/concurrency.py and the requests of domain/persistence.py: what an attempt to commit a
-- transition under a token may report.
use automated_trading_bot.Prelude.{
  ℕ, ◌+◌, ◌<◌, Bool, true, false, ◌&&◌, ◌||◌, not, Option, none, some, is_none, ltb, ◌==◌, Result,
  ok, ◌>>◌, raise_if, ◌≡◌, ◌↔◌, arith,
}
use automated_trading_bot.Domain.Transitions.{
  GenericState, TransitionState, TransitionAction, TransitionActionKind, TransitionResult,
  transition, dispose, transition-dispose,
}

pub data PersistenceDisposition : Type 0 where
  success failure conflict : PersistenceDisposition

pub data CommitCertainty : Type 0 where
  not_committed committed indeterminate : CommitCertainty

pub data RetryDisposition : Type 0 where
  no_retry same_identity reevaluate resolve_first : RetryDisposition

pub data ConcurrencyDisposition : Type 0 where
  disposed_committed stale failed disposed_indeterminate : ConcurrencyDisposition

pub data ConcurrencyError : Type 0 where
  previous_state_mismatch next_state_mismatch invalid_combination : ConcurrencyError

-- A `ConcurrencyToken` is its value.
unfoldable pub advance_concurrency_token : ℕ → ℕ
advance_concurrency_token token = token + 1

pub record ConcurrentTransitionRequest : Type 0 where
  pub state_id : ℕ
  pub result : TransitionResult
  pub expected_token : ℕ

-- `ConcurrentTransitionRequest.__post_init__`
unfoldable pub validate_request : ConcurrentTransitionRequest → Result ConcurrencyError (Unit {0})
validate_request r = do
  raise_if (not (r.result.previous_state.state_id == r.state_id)) previous_state_mismatch
  raise_if (not (r.result.next_state.state_id == r.state_id)) next_state_mismatch

pub record ConcurrencyOutcome : Type 0 where
  pub request : ConcurrentTransitionRequest
  pub persistence_outcome : PersistenceDisposition
  pub disposition : ConcurrencyDisposition
  pub current_token : Option ℕ
  pub commit_certainty : CommitCertainty
  pub retry_disposition : RetryDisposition

-- What the last four fields are compared with.
abbrev token_is : ℕ → Option ℕ → Bool
token_is n none = false
token_is n (some m) = m == n

abbrev token_above : ℕ → Option ℕ → Bool
token_above n none = false
token_above n (some m) = ltb n m

abbrev disposition_eq : ConcurrencyDisposition → ConcurrencyDisposition → Bool
disposition_eq disposed_committed disposed_committed = true
disposition_eq stale stale = true
disposition_eq failed failed = true
disposition_eq disposed_indeterminate disposed_indeterminate = true
disposition_eq _ _ = false

abbrev persisted_eq : PersistenceDisposition → PersistenceDisposition → Bool
persisted_eq success success = true
persisted_eq failure failure = true
persisted_eq conflict conflict = true
persisted_eq _ _ = false

abbrev certainty_eq : CommitCertainty → CommitCertainty → Bool
certainty_eq not_committed not_committed = true
certainty_eq committed committed = true
certainty_eq indeterminate indeterminate = true
certainty_eq _ _ = false

abbrev retry_eq : RetryDisposition → RetryDisposition → Bool
retry_eq no_retry no_retry = true
retry_eq same_identity same_identity = true
retry_eq reevaluate reevaluate = true
retry_eq resolve_first resolve_first = true
retry_eq _ _ = false

unfoldable pub is_committed : ConcurrencyOutcome → Bool
is_committed o =
    disposition_eq o.disposition disposed_committed
    && persisted_eq o.persistence_outcome success
    && certainty_eq o.commit_certainty committed
    && token_is (advance_concurrency_token o.request.expected_token) o.current_token
    && retry_eq o.retry_disposition no_retry

unfoldable pub is_stale : ConcurrencyOutcome → Bool
is_stale o =
    disposition_eq o.disposition stale
    && persisted_eq o.persistence_outcome conflict
    && certainty_eq o.commit_certainty not_committed
    && token_above o.request.expected_token o.current_token
    && retry_eq o.retry_disposition reevaluate

unfoldable pub is_failed : ConcurrencyOutcome → Bool
is_failed o =
    disposition_eq o.disposition failed
    && persisted_eq o.persistence_outcome failure
    && certainty_eq o.commit_certainty not_committed
    && is_none o.current_token
    && (retry_eq o.retry_disposition no_retry || retry_eq o.retry_disposition same_identity)

unfoldable pub is_indeterminate : ConcurrencyOutcome → Bool
is_indeterminate o =
    disposition_eq o.disposition disposed_indeterminate
    && persisted_eq o.persistence_outcome failure
    && certainty_eq o.commit_certainty indeterminate
    && is_none o.current_token
    && retry_eq o.retry_disposition resolve_first

-- `ConcurrencyOutcome.__post_init__`
unfoldable pub validate_outcome : ConcurrencyOutcome → Result ConcurrencyError (Unit {0})
validate_outcome o =
    raise_if (not (is_committed o || is_stale o || is_failed o || is_indeterminate o))
      invalid_combination

-- A valid outcome reports a commit exactly when the store has succeeded, and then the token is the
-- one after the expected token; it says that a commit is uncertain exactly when it asks to resolve
-- that first; it asks to evaluate again exactly on a conflict, and every token that it reports is
-- beyond the expected one.
pub validate_outcome_lem :
    (o : ConcurrencyOutcome)
    → validate_outcome o ≡ ok tt
    → ((o.commit_certainty ≡ committed) ↔ (o.persistence_outcome ≡ success))
      × (o.commit_certainty ≡ committed
          → o.current_token ≡ some (advance_concurrency_token o.request.expected_token))
      × ((o.commit_certainty ≡ indeterminate) ↔ (o.retry_disposition ≡ resolve_first))
      × ((o.retry_disposition ≡ reevaluate) ↔ (o.persistence_outcome ≡ conflict))
      × ((token : ℕ) → o.current_token ≡ some token → o.request.expected_token < token)
unfolding validate_outcome is_committed is_stale is_failed is_indeterminate
    advance_concurrency_token
validate_outcome_lem o h = (
  (λ c. ground arith, λ c. ground arith),
  λ c. ground arith,
  (λ c. ground arith, λ c. ground arith),
  (λ c. ground arith, λ c. ground arith),
  λ token e. ground arith,
)

dispose_id :
    (st : TransitionState) (k : TransitionActionKind) (t : TransitionState) (s : GenericState)
    → ((dispose st k t s).previous_state.state_id ≡ s.state_id)
      × ((dispose st k t s).next_state.state_id ≡ s.state_id)
unfolding dispose
dispose_id st k t s = (ground arith, ground arith)

-- Every result of the generic transition, asked for under the identity of the state that it came
-- from, makes a valid request, whatever the expected token.
pub transition-validate_request :
    (s : GenericState) (a : TransitionAction) (token : ℕ) {r : TransitionResult}
    → transition s a ≡ ok r
    → validate_request (record { state_id = s.state_id; result = r; expected_token = token })
      ≡ ok tt
unfolding validate_request
transition-validate_request s a token h =
    ground (arith, transition-dispose s a h, dispose_id s.status a.kind a.target_state s)
