-- ===== src/Stage5/Commit/Outcome.antt =====
-- Outcomes, evidence and exceptions of stage5/commit_boundary/postgres_serializable.py.
use automated_trading_bot.Prelude.{
  ℕ, String, Bool, true, false, ◌&&◌, ◌||◌, not, Option, none, some, List, any, ◌==◌, str_eq,
  Result, ok, ◌>>◌, raise_if,
}
use automated_trading_bot.Stage5.Operation.{OperationRequest}

-- `OutcomeStatus`
pub data OutcomeStatus : Type 0 where
  committed denied restrictive_unknown : OutcomeStatus

abbrev pub status_eq : OutcomeStatus → OutcomeStatus → Bool
status_eq committed committed = true
status_eq denied denied = true
status_eq restrictive_unknown restrictive_unknown = true
status_eq _ _ = false

-- The exceptions of the module, and those of a driver, with their SQLSTATE.
pub data Raised : Type 0 where
  deadline_exhausted isolation_violation operation_conflict : Raised
  invalid_outcome authentication_failure : Raised
  driver : Option String → Raised

-- `_sqlstate(error) == "40001"`
abbrev pub is_serialization : Raised → Bool
is_serialization (driver (some code)) = str_eq code "40001"
is_serialization _ = false

abbrev pub Checked : Type 0 → Type 0
Checked A = Result Raised A

pub record DurableOutcome : Type 0 where
  pub operation_id : String
  pub request_digest : String
  pub status : OutcomeStatus
  pub result_code : String
  pub capital_effect_minor : ℕ
  pub liability_effect_minor : ℕ

unfoldable pub outcome_eq : DurableOutcome → DurableOutcome → Bool
outcome_eq a b =
    str_eq a.operation_id b.operation_id
    && str_eq a.request_digest b.request_digest
    && status_eq a.status b.status
    && str_eq a.result_code b.result_code
    && a.capital_effect_minor == b.capital_effect_minor
    && a.liability_effect_minor == b.liability_effect_minor

pub record AttemptContext : Type 0 where
  pub operation_id : String
  pub request_digest : String
  pub attempt : ℕ
  pub backend_identity : String
  pub transaction_identity : String
  pub isolation : String
  pub ordering_key : String
  pub deadline_ns : ℕ

pub record VerifiedAttemptEvidence : Type 0 where
  pub operation_id : String
  pub request_digest : String
  pub attempt : ℕ
  pub backend_identity : String
  pub transaction_identity : String
  pub scope : String
  pub authority_generation : ℕ
  pub authority_epoch : ℕ
  pub issuer_identity : String
  pub time_proof_id : String
  pub verification_digest : String

pub record AttemptRecord : Type 0 where
  pub operation_id : String
  pub request_digest : String
  pub attempt : ℕ
  pub backend_identity : String
  pub transaction_identity : String
  pub isolation : String
  pub disposition : String
  pub ordering_key : String
  pub evidence_digest : String

pub record EnvelopeResult : Type 0 where
  pub outcome : DurableOutcome
  pub attempts : List AttemptRecord
  pub cleanup_unresolved : Bool

-- `_validate_outcome`
unfoldable pub validate_outcome : DurableOutcome → OperationRequest → Checked (Unit {0})
validate_outcome outcome request = do
  raise_if
      (not (str_eq outcome.operation_id request.operation_id)
        || not (str_eq outcome.request_digest request.digest))
      invalid_outcome
  raise_if
      (not (status_eq outcome.status committed)
        && (not (outcome.capital_effect_minor == 0) || not (outcome.liability_effect_minor == 0)))
      invalid_outcome

-- What `_lookup_checked` does with what the backend has found.
unfoldable pub check_found :
    Option DurableOutcome → OperationRequest → Checked (Option DurableOutcome)
check_found none request = ok none
check_found (some outcome) request = do
  raise_if (not (str_eq outcome.request_digest request.digest)) operation_conflict
  validate_outcome outcome request
  ok (some outcome)

-- `_validate_evidence`, less the proof that it adds to the seen ones.
unfoldable pub validate_evidence :
    VerifiedAttemptEvidence → OperationRequest → AttemptContext → List String → Checked (Unit {0})
validate_evidence evidence request context seen_proofs = do
  raise_if
      (not (
        str_eq evidence.operation_id request.operation_id
        && str_eq evidence.request_digest request.digest
        && evidence.attempt == context.attempt
        && str_eq evidence.backend_identity context.backend_identity
        && str_eq evidence.transaction_identity context.transaction_identity
        && str_eq evidence.scope request.scope
        && evidence.authority_generation == request.expected_generation
        && evidence.authority_epoch == request.expected_epoch))
      authentication_failure
  raise_if
      (str_eq evidence.issuer_identity ""
        || str_eq evidence.time_proof_id ""
        || str_eq evidence.verification_digest "")
      authentication_failure
  raise_if (any (λ p. str_eq p evidence.time_proof_id) seen_proofs) authentication_failure

-- The outcome and the result of `_unknown`.
abbrev pub unknown_outcome : OperationRequest → String → DurableOutcome
unknown_outcome request code = record {
  operation_id = request.operation_id;
  request_digest = request.digest;
  status = restrictive_unknown;
  result_code = code;
  capital_effect_minor = 0;
  liability_effect_minor = 0;
}

abbrev pub unknown : OperationRequest → List AttemptRecord → String → Bool → EnvelopeResult
unknown request attempts code unresolved = record {
  outcome = unknown_outcome request code;
  attempts = attempts;
  cleanup_unresolved = unresolved;
}
