-- ===== src/Stage5/Journal/Resolution.antt =====
-- `resolve_authenticated_terminal`: a hold is cleared by terminal evidence, and evidence that contradicts
-- what was recovered before is kept as a conflict.
use automated_trading_bot.Prelude.{
  ℕ, ◌+◌, String, Bool, true, false, ◌&&◌, not, Option, none, some, ◌∷◌, str_eq, if◌then◌else◌,
  Result, ok, err, ◌>>◌, ◌>>=◌, raise_if,
}
use automated_trading_bot.Stage5.Authority.{
  RecoveryTerminalOutcome, outcome_committed, outcome_denied, RecoveryReceipt,
  RecoveryAuthorityVerifier, Crypto, outcome_missing, consume_terminal,
}
use automated_trading_bot.Stage5.Journal.Records.{
  RecoveryState, ambiguous_hold, recovered_committed, recovered_denied, state_unresolved,
  state_value, RecoveryResult, RecoveryRecord, ExposureGate, Tables, RecoveryJournal, JournalError,
  journal_conflict, rejected, has_key, row_of, has_conflict,
}
use automated_trading_bot.Stage5.Journal.Connection.{
  Denial, Fate, Answer, returned, raised, close_exposure, connect, on_tables, update_where,
}
use automated_trading_bot.Stage5.Journal.Opening.{
  of_authority, bootstrap_challenge, require_authority_binding,
}

abbrev outcome_value : RecoveryTerminalOutcome → String
outcome_value outcome_committed = "COMMITTED"
outcome_value outcome_denied = "DENIED"

abbrev pub target_of : RecoveryTerminalOutcome → RecoveryState
target_of outcome_committed = recovered_committed
target_of outcome_denied = recovered_denied

abbrev is_allowed : RecoveryState → Bool
is_allowed ambiguous_hold = true
is_allowed state_unresolved = true
is_allowed recovered_committed = true
is_allowed recovered_denied = true
is_allowed _ = false

-- The row that the receipt is checked against.
abbrev pub resolvable : Option RecoveryRecord → String → Result JournalError RecoveryRecord
resolvable none digest = err (journal_conflict "terminal recovery does not match durable identity")
resolvable (some row) digest = do
  raise_if (not (str_eq row.request_digest digest))
      (journal_conflict "terminal recovery does not match durable identity")
  raise_if (not (is_allowed row.state))
      (journal_conflict "terminal recovery requires an unresolved durable hold")
  ok row

abbrev pub declared : Option RecoveryTerminalOutcome → Result JournalError RecoveryTerminalOutcome
declared none = err (rejected outcome_missing)
declared (some o) = ok o

abbrev closed_gate : String → ℕ → Option ExposureGate → Option ExposureGate
closed_gate evidence now none = none
closed_gate evidence now (some gate) =
    some (record { is_open = false; evidence = evidence; updated_ns = now })

-- What a receipt does to the row: it conflicts with what was recovered before, or clears the hold.
pub data Verdict : Type 0 where
  conflicts_again clears : Verdict
  conflicts_with : RecoveryState → Verdict
  refuses : String → Verdict

abbrev pub verdict : Bool → RecoveryState → RecoveryTerminalOutcome → Verdict
verdict true s o = conflicts_again
verdict false ambiguous_hold o = clears
verdict false state_unresolved o = clears
verdict false recovered_committed outcome_committed =
    refuses "terminal recovery is already resolved"
verdict false recovered_committed outcome_denied = conflicts_with recovered_committed
verdict false recovered_denied outcome_committed = conflicts_with recovered_denied
verdict false recovered_denied outcome_denied = refuses "terminal recovery is already resolved"
verdict false _ o = refuses "terminal recovery requires an unresolved durable hold"

abbrev pub held_again : ℕ → RecoveryRecord → RecoveryRecord
held_again now row = record row {
  state = ambiguous_hold;
  transaction_uncertain = true;
  reconciliation_evidence = some "CONFLICTING_AUTHENTICATED_TERMINAL_EVIDENCE";
  updated_ns = now;
}

abbrev terminal_result : String → String → RecoveryTerminalOutcome → RecoveryResult
terminal_result operation digest o = record {
  operation_id = operation;
  request_digest = digest;
  status = outcome_value o;
  result_code = "AUTHENTICATED_TERMINAL_READBACK";
  capital_effect_minor = 0;
  liability_effect_minor = 0;
}

abbrev pub cleared :
    String → String → RecoveryTerminalOutcome → String → ℕ → RecoveryRecord → RecoveryRecord
cleared operation digest o nonce now row = record row {
  state = target_of o;
  transaction_uncertain = false;
  recovery_attempts = row.recovery_attempts + 1;
  recovery_result = some (terminal_result operation digest o);
  reconciliation_evidence = some nonce;
  updated_ns = now;
}

-- The statements on a conflict: the row is held again, and the gate is closed.
abbrev pub keep_hold : String → String → ℕ → Tables → Tables
keep_hold operation attempt now t =
    record (update_where (has_key operation attempt) (held_again now) t) {
      gate = closed_gate "CONFLICTING_AUTHENTICATED_TERMINAL_EVIDENCE" now t.gate;
    }

abbrev pub apply_verdict :
    String
    → String
    → String
    → RecoveryTerminalOutcome
    → String
    → ℕ
    → Tables
    → Verdict
    → Result JournalError Tables
apply_verdict operation attempt digest o nonce now t conflicts_again =
    ok (keep_hold operation attempt now t)
apply_verdict operation attempt digest o nonce now t (conflicts_with prior) = ok (
    keep_hold operation attempt now (record t {
      conflicts =
          (record {
            operation_id = operation;
            attempt_id = attempt;
            prior_outcome = state_value prior;
            conflicting_outcome = state_value (target_of o);
            receipt_identity = nonce;
          })
          ∷ t.conflicts;
    }))
apply_verdict operation attempt digest o nonce now t clears =
    ok (update_where (has_key operation attempt) (cleared operation digest o nonce now) t)
apply_verdict operation attempt digest o nonce now t (refuses message) =
    err (journal_conflict message)

abbrev pub is_conflict : Verdict → Bool
is_conflict conflicts_again = true
is_conflict (conflicts_with prior) = true
is_conflict clears = false
is_conflict (refuses message) = false

-- The outcome that a resolution is about, its row as it was read, and the authority that has consumed
-- the receipt.
pub record Evidence : Type 0 where
  pub row : RecoveryRecord
  pub outcome : RecoveryTerminalOutcome
  pub authority : RecoveryAuthorityVerifier

abbrev pub state_at :
    String
    → String
    → String
    → RecoveryRecord
    → Option RecoveryRecord
    → Result JournalError RecoveryState
state_at operation attempt digest seen none =
    err (journal_conflict "terminal recovery durable identity changed")
state_at operation attempt digest seen (some row) =
    if not (str_eq row.request_digest digest && str_eq row.g00_sequence seen.g00_sequence)
    then err (journal_conflict "terminal recovery durable identity changed")
    else ok row.state

unfoldable pub verdict_on :
    String → String → String → Evidence → Tables → Result JournalError Verdict
verdict_on operation attempt digest e t = do
  s ← state_at operation attempt digest e.row (row_of operation attempt t)
  ok (verdict (has_conflict operation attempt t) s e.outcome)

-- The statements of the connection.
unfoldable pub resolution :
    String → String → String → Evidence → String → ℕ → Tables → Result JournalError Tables
resolution operation attempt digest e nonce now t = do
  v ← verdict_on operation attempt digest e t
  apply_verdict operation attempt digest e.outcome nonce now t v

-- What follows the connection: a conflict is raised after the gate is closed.
abbrev pub conflict_or : Result JournalError Verdict → Denial → Answer → Answer
conflict_or v d (raised e j) = raised e j
conflict_or (err e) d (returned j) = returned j
conflict_or (ok v) d (returned j) =
    if is_conflict v
    then raised (journal_conflict "conflicting authenticated terminal evidence requires a hold")
        (close_exposure d "CONFLICTING_AUTHENTICATED_TERMINAL_EVIDENCE" j)
    else returned j

-- What precedes it: the row is read, and the receipt is consumed.
unfoldable pub consumption :
    Crypto
    → RecoveryAuthorityVerifier
    → String
    → String
    → String
    → RecoveryReceipt
    → ℕ
    → RecoveryJournal
    → Result JournalError Evidence
consumption crypto a operation attempt digest receipt now j = do
  row ← resolvable (row_of operation attempt j.tables) digest
  o ← declared receipt.terminal_outcome
  challenge ← bootstrap_challenge j
  a' ←
      of_authority (
        consume_terminal crypto a now receipt challenge operation digest attempt row.g00_sequence o)
  ok (record { row = row; outcome = o; authority = a' })

abbrev pub resolve_with :
    Fate
    → Denial
    → String
    → String
    → String
    → RecoveryReceipt
    → ℕ
    → RecoveryJournal
    → Result JournalError Evidence
    → Answer
resolve_with fate d operation attempt digest receipt now j (err e) = raised e j
resolve_with fate d operation attempt digest receipt now j (ok e) =
    conflict_or (verdict_on operation attempt digest e j.tables) d (
      connect fate (on_tables (resolution operation attempt digest e receipt.nonce now))
        (record j { authority = some e.authority }))

abbrev pub resolve_read :
    Crypto
    → Fate
    → Denial
    → String
    → String
    → String
    → RecoveryReceipt
    → ℕ
    → RecoveryAuthorityVerifier
    → Answer
    → Answer
resolve_read crypto fate d operation attempt digest receipt now a (raised e j) = raised e j
resolve_read crypto fate d operation attempt digest receipt now a (returned j) =
    resolve_with fate d operation attempt digest receipt now j
      (consumption crypto a operation attempt digest receipt now j)

abbrev pub resolve_bound :
    Crypto
    → Fate
    → Fate
    → Denial
    → String
    → String
    → String
    → RecoveryReceipt
    → ℕ
    → RecoveryJournal
    → Result JournalError RecoveryAuthorityVerifier
    → Answer
resolve_bound crypto reading fate d operation attempt digest receipt now j (err e) = raised e j
resolve_bound crypto reading fate d operation attempt digest receipt now j (ok a) =
    resolve_read crypto fate d operation attempt digest receipt now a
      (connect reading (λ j. ok j) j)

-- `resolve_authenticated_terminal`; the connection that reads the row may fail on its own.
unfoldable pub resolve_authenticated_terminal :
    Crypto
    → Fate
    → Fate
    → Denial
    → String
    → String
    → String
    → RecoveryReceipt
    → ℕ
    → RecoveryJournal
    → Answer
resolve_authenticated_terminal crypto reading fate d operation attempt digest receipt now j =
    resolve_bound crypto reading fate d operation attempt digest receipt now j
      (require_authority_binding crypto j)
