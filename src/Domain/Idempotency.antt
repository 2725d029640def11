-- ===== src/Domain/Idempotency.antt =====
-- domain/idempotency.py over the envelopes of domain/event.py, domain/event_contracts.py and
-- domain/command_contracts.py. The hash is a parameter; UUIDs are their integers.
pub mod Duplicates
use automated_trading_bot.Prelude.{
  ℕ, String, Bool, ◌&&◌, ◌||◌, not, Option, none, some, ◌==◌, str_eq, if◌then◌else◌, length, Result,
  ok, err, ◌>>=◌, ◌>>◌, raise_if,
}
use automated_trading_bot.Domain.Versioning.Registry.{ContractVersion, version_eq, Bytes}
use automated_trading_bot.Domain.Versioning.Interpret.{bytes_eq}

pub data IdempotencyError : Type 0 where
  fingerprint_length fingerprint_mismatch different_keys different_events : IdempotencyError
  version_mismatch key_mismatch representation_mismatch : IdempotencyError

pub record IdempotencyRecord : Type 0 where
  pub operation_scope : String
  pub idempotency_key : String
  pub canonical_bytes : Bytes
  pub content_fingerprint : Bytes

pub data IdempotencyDisposition : Type 0 where
  new exact_duplicate conflicting_reuse : IdempotencyDisposition

pub record EventEnvelope : Type 0 where
  pub event_id : ℕ
  pub correlation_id : ℕ
  pub causation_id : ℕ
  pub idempotency_key : String
  pub occurred_at : ℕ
  pub schema_version : ℕ

pub record VersionedEventEnvelope : Type 0 where
  pub envelope : EventEnvelope
  pub payload : Bytes
  pub contract_version : ContractVersion

pub record EventPersistenceRequest : Type 0 where
  pub contract_version : ContractVersion
  pub representation : Bytes

pub record EventAdmission : Type 0 where
  pub event : VersionedEventEnvelope
  pub persistence_request : EventPersistenceRequest
  pub idempotency_record : IdempotencyRecord

pub data EventAdmissionDisposition : Type 0 where
  new_event exact_duplicate_event conflicting_event : EventAdmissionDisposition

pub record VersionedCommandEnvelope : Type 0 where
  pub command_id : ℕ
  pub correlation_id : ℕ
  pub causation_id : ℕ
  pub idempotency_key : String
  pub payload : Bytes
  pub contract_version : ContractVersion

pub record CommandAdmission : Type 0 where
  pub command : VersionedCommandEnvelope
  pub idempotency_record : IdempotencyRecord

-- `ContentFingerprint.__post_init__`
unfoldable pub validate_fingerprint : Bytes → Result IdempotencyError (Unit {0})
validate_fingerprint digest = raise_if (not (length digest == 32)) fingerprint_length

module _ (sha256 : Bytes → Bytes) where
  unfoldable pub fingerprint_content : Bytes → Result IdempotencyError Bytes
  fingerprint_content representation = do
    validate_fingerprint (sha256 representation)
    ok (sha256 representation)

  -- `IdempotencyRecord.__post_init__`
  unfoldable pub validate_record : IdempotencyRecord → Result IdempotencyError (Unit {0})
  validate_record r = do
    digest ← fingerprint_content r.canonical_bytes
    raise_if (not (bytes_eq r.content_fingerprint digest)) fingerprint_mismatch

unfoldable pub adjudicate_idempotency :
    IdempotencyRecord → Option IdempotencyRecord → Result IdempotencyError IdempotencyDisposition
adjudicate_idempotency candidate none = ok new
adjudicate_idempotency candidate (some established) = do
  raise_if
      (not (str_eq candidate.operation_scope established.operation_scope)
        || not (str_eq candidate.idempotency_key established.idempotency_key))
      different_keys
  ok (
      if bytes_eq candidate.content_fingerprint established.content_fingerprint
        && bytes_eq candidate.canonical_bytes established.canonical_bytes
      then exact_duplicate
      else conflicting_reuse)

-- `EventAdmission.__post_init__`
unfoldable pub validate_admission : EventAdmission → Result IdempotencyError (Unit {0})
validate_admission a = do
  raise_if (not (version_eq a.event.contract_version a.persistence_request.contract_version))
      version_mismatch
  raise_if (not (str_eq a.event.envelope.idempotency_key a.idempotency_record.idempotency_key))
      key_mismatch
  raise_if
      (not (bytes_eq a.persistence_request.representation a.idempotency_record.canonical_bytes))
      representation_mismatch

unfoldable pub adjudicate_event :
    EventAdmission → Option EventAdmission → Result IdempotencyError EventAdmissionDisposition
adjudicate_event candidate none = ok new_event
adjudicate_event candidate (some established) = do
  raise_if (not (candidate.event.envelope.event_id == established.event.envelope.event_id))
      different_events
  ok (
      if version_eq candidate.event.contract_version established.event.contract_version
        && bytes_eq candidate.persistence_request.representation
            established.persistence_request.representation
      then exact_duplicate_event
      else conflicting_event)

-- `CommandAdmission.__post_init__`
unfoldable pub validate_command : CommandAdmission → Result IdempotencyError (Unit {0})
validate_command a =
    raise_if (not (str_eq a.command.idempotency_key a.idempotency_record.idempotency_key))
      key_mismatch
