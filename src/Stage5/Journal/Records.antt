-- ===== src/Stage5/Journal/Records.antt =====
-- The rows of the journal's tables, and the journal as an object over them.
use automated_trading_bot.Prelude.{
  ℕ, String, Bool, true, false, ◌&&◌, Option, List, any, find, str_eq,
}
use automated_trading_bot.Stage5.Authority.{RecoveryAuthorityError, RecoveryAuthorityVerifier}

-- `RecoveryState`
pub data RecoveryState : Type 0 where
  intent effect_possible ambiguous_hold recovered_committed : RecoveryState
  recovered_denied state_unresolved state_failed_before_effect : RecoveryState
  capacity_denied persistence_unresolved : RecoveryState

abbrev pub state_value : RecoveryState → String
state_value intent = "INTENT"
state_value effect_possible = "EFFECT_POSSIBLE"
state_value ambiguous_hold = "AMBIGUOUS_HOLD"
state_value recovered_committed = "RECOVERED_COMMITTED"
state_value recovered_denied = "RECOVERED_DENIED"
state_value state_unresolved = "UNRESOLVED"
state_value state_failed_before_effect = "FAILED_BEFORE_EFFECT"
state_value capacity_denied = "CAPACITY_DENIED"
state_value persistence_unresolved = "PERSISTENCE_UNRESOLVED"

-- The states that only terminal evidence may clear, and with EFFECT_POSSIBLE those that keep a restarted
-- journal closed.
abbrev pub is_held : RecoveryState → Bool
is_held ambiguous_hold = true
is_held state_unresolved = true
is_held persistence_unresolved = true
is_held _ = false

abbrev pub is_restrictive : RecoveryState → Bool
is_restrictive effect_possible = true
is_restrictive ambiguous_hold = true
is_restrictive state_unresolved = true
is_restrictive persistence_unresolved = true
is_restrictive _ = false

abbrev pub is_intent : RecoveryState → Bool
is_intent intent = true
is_intent _ = false

abbrev pub is_effect_possible : RecoveryState → Bool
is_effect_possible effect_possible = true
is_effect_possible _ = false

-- The result that a row keeps, as the mapping that is dumped.
pub record RecoveryResult : Type 0 where
  pub operation_id : String
  pub request_digest : String
  pub status : String
  pub result_code : String
  pub capital_effect_minor : ℕ
  pub liability_effect_minor : ℕ

-- A row of `recovery_intent`, which `get` reads back as a `RecoveryRecord`.
pub record RecoveryRecord : Type 0 where
  pub operation_id : String
  pub attempt_id : String
  pub request_digest : String
  pub worker_pid : Option ℕ
  pub transaction_uncertain : Bool
  pub state : RecoveryState
  pub g00_sequence : String
  pub recovery_attempts : ℕ
  pub recovery_result : Option RecoveryResult
  pub reconciliation_evidence : Option String
  pub updated_ns : ℕ

pub record ExposureGate : Type 0 where
  pub is_open : Bool
  pub evidence : String
  pub updated_ns : ℕ

pub record TerminalConflict : Type 0 where
  pub operation_id : String
  pub attempt_id : String
  pub prior_outcome : String
  pub conflicting_outcome : String
  pub receipt_identity : String

pub record JournalIdentity : Type 0 where
  pub installation_id : String
  pub authority_fingerprint : String
  pub bootstrap_challenge : String
  pub bootstrap_consumed : Bool
  pub created_ns : ℕ

pub record AdmissionEvidence : Type 0 where
  pub operation_id : String
  pub attempt_id : String
  pub request_digest : String
  pub timeproof_identity : String
  pub authority_identity : String
  pub authority_generation : ℕ
  pub authority_epoch : ℕ
  pub admitted_ns : ℕ

-- The SQLite file.
pub record Tables : Type 0 where
  pub intents : List RecoveryRecord
  pub gate : Option ExposureGate
  pub conflicts : List TerminalConflict
  pub identity : Option JournalIdentity
  pub admissions : List AdmissionEvidence

-- The journal: its file, the sentinel beside it, its authority, and what only this process knows.
pub record RecoveryJournal : Type 0 where
  pub tables : Tables
  pub closed_sentinel : Bool
  pub authority : Option RecoveryAuthorityVerifier
  pub persistence_unresolved_reason : Option String

-- The exceptions of the journal, and those of SQLite.
pub data JournalError : Type 0 where
  journal_conflict integrity_error : String → JournalError
  deadline_exceeded commit_unresolved operational empty_reason : JournalError
  rejected : RecoveryAuthorityError → JournalError

-- The row with an operation's and an attempt's identity.
abbrev pub has_key : String → String → RecoveryRecord → Bool
has_key operation attempt row = str_eq row.operation_id operation && str_eq row.attempt_id attempt

unfoldable pub row_of : String → String → Tables → Option RecoveryRecord
row_of operation attempt t = find (has_key operation attempt) t.intents

unfoldable pub has_conflict : String → String → Tables → Bool
has_conflict operation attempt t =
    any (λ c. str_eq c.operation_id operation && str_eq c.attempt_id attempt) t.conflicts
