-- ===== src/Stage5/Journal/Recovery.antt =====
-- The operations that need the independent authority: bootstrap and the requalification of exposure.
use automated_trading_bot.Prelude.{
  ℕ, String, Bool, true, false, ◌&&◌, ◌||◌, not, Option, none, some, List, [], ◌∷◌, str_eq,
  if◌then◌else◌, Result, ok, err, ◌>>◌, ◌>>=◌, raise_if,
}
use automated_trading_bot.Stage5.Authority.{
  RecoveryTerminalOutcome, outcome_committed, outcome_denied, RecoveryReceipt,
  RecoveryAuthorityVerifier, Crypto, authority_required, consume_bootstrap, consume_terminal,
}
use automated_trading_bot.Stage5.Journal.Records.{
  RecoveryState, recovered_committed, recovered_denied, RecoveryRecord, ExposureGate,
  JournalIdentity, Tables, RecoveryJournal, JournalError, journal_conflict, commit_unresolved,
  operational, rejected,
}
use automated_trading_bot.Stage5.Journal.Connection.{
  Denial, Fate, Answer, returned, raised, close_exposure, connect, on_tables,
}
use automated_trading_bot.Stage5.Journal.Opening.{
  of_authority, bootstrap_challenge, restrictive_row, require_authority_binding,
}

module _ (crypto : Crypto) where
  abbrev pub opened : RecoveryReceipt → ℕ → Option ExposureGate → Option ExposureGate
  opened receipt now none = none
  opened receipt now (some gate) =
      some (record { is_open = true; evidence = receipt.nonce; updated_ns = now })

  abbrev used : Option JournalIdentity → Option JournalIdentity
  used none = none
  used (some i) = some (record i { bootstrap_consumed = true })

  abbrev pub no_intents : List RecoveryRecord → Bool
  no_intents [] = true
  no_intents (row ∷ rows) = false

  abbrev pub unused : Option JournalIdentity → RecoveryAuthorityVerifier → Bool
  unused none a = false
  unused (some i) a = not i.bootstrap_consumed && str_eq i.installation_id a.policy.installation_id

  abbrev pub is_closed : Option ExposureGate → Bool
  is_closed none = false
  is_closed (some gate) = not gate.is_open

  abbrev pub is_pristine : Tables → RecoveryAuthorityVerifier → Bool
  is_pristine t a = no_intents t.intents && unused t.identity a && is_closed t.gate

  -- The statements of `authorize_bootstrap`.
  unfoldable pub open_pristine :
      RecoveryReceipt → ℕ → RecoveryAuthorityVerifier → Tables → Result JournalError Tables
  open_pristine receipt now a t = do
    raise_if (not (is_pristine t a))
        (journal_conflict "bootstrap is permitted only for a pristine closed store")
    ok (record t { gate = opened receipt now t.gate; identity = used t.identity })

  -- The removal of the sentinel and the volatile reason, once the tables say open.
  abbrev pub unlink_or_raise : Bool → Answer → Answer
  unlink_or_raise unlinked (raised e j) = raised e j
  unlink_or_raise false (returned j) = raised operational j
  unlink_or_raise true (returned j) =
      returned (record j { closed_sentinel = false; persistence_unresolved_reason = none })

  abbrev pub consumed_by : RecoveryJournal → RecoveryAuthorityVerifier → RecoveryJournal
  consumed_by j a = record j { authority = some a }

  -- What `authorize_bootstrap` does before its connection.
  unfoldable pub bootstrap_consumption :
      RecoveryReceipt → ℕ → RecoveryJournal → Result JournalError RecoveryAuthorityVerifier
  bootstrap_consumption receipt now j = do
    challenge ← bootstrap_challenge j
    a ← require_authority_binding crypto j
    of_authority (consume_bootstrap crypto a now receipt challenge)

  abbrev pub bootstrap_with :
      Fate
      → Bool
      → RecoveryReceipt
      → ℕ
      → RecoveryJournal
      → Result JournalError RecoveryAuthorityVerifier
      → Answer
  bootstrap_with fate unlinked receipt now j (err e) = raised e j
  bootstrap_with fate unlinked receipt now j (ok a) =
      unlink_or_raise unlinked
        (connect fate (on_tables (open_pristine receipt now a)) (consumed_by j a))

  -- `authorize_bootstrap`
  unfoldable pub authorize_bootstrap : Fate → Bool → RecoveryReceipt → ℕ → RecoveryJournal → Answer
  authorize_bootstrap fate unlinked receipt now j =
      bootstrap_with fate unlinked receipt now j (bootstrap_consumption receipt now j)

  abbrev pub outcome_of : RecoveryState → Option RecoveryTerminalOutcome
  outcome_of recovered_committed = some outcome_committed
  outcome_of recovered_denied = some outcome_denied
  outcome_of _ = none

  -- The row that a requalification is about, with the outcome that its state stands for.
  abbrev pub expected_of :
      RecoveryRecord
      → Option RecoveryTerminalOutcome
      → Result JournalError (RecoveryRecord × RecoveryTerminalOutcome)
  expected_of row none =
      err (journal_conflict "terminal reconciliation does not match durable state")
  expected_of row (some o) = ok (row, o)

  abbrev pub reconciled :
      Option RecoveryRecord
      → String
      → Result JournalError (RecoveryRecord × RecoveryTerminalOutcome)
  reconciled none digest =
      err (journal_conflict "terminal reconciliation does not match durable state")
  reconciled (some row) digest =
      if not (str_eq row.request_digest digest)
      then err (journal_conflict "terminal reconciliation does not match durable state")
      else expected_of row (outcome_of row.state)

  abbrev pub is_any : Option RecoveryRecord → Bool
  is_any none = false
  is_any (some row) = true

  -- The statements of `requalify_exposure`; `pick` is the row that a SELECT by operation fetches first.
  unfoldable pub requalification :
      (Tables → String → Option RecoveryRecord)
      → String
      → String
      → RecoveryReceipt
      → ℕ
      → RecoveryAuthorityVerifier
      → RecoveryJournal
      → Result JournalError RecoveryJournal
  requalification pick operation digest receipt now a j = do
    found ← reconciled (pick j.tables operation) digest
    raise_if (is_any (restrictive_row j.tables))
        (journal_conflict "another operation still requires restrictive recovery")
    challenge ← bootstrap_challenge j
    a' ← of_authority (
        consume_terminal crypto a now receipt challenge operation digest found.0.attempt_id
          found.0.g00_sequence found.1)
    ok (record (consumed_by j a') {
      tables = record j.tables { gate = opened receipt now j.tables.gate };
    })

  abbrev pub unlink_or_deny : Bool → Denial → Answer → Answer
  unlink_or_deny unlinked d (raised e j) = raised e j
  unlink_or_deny false d (returned j) =
      raised commit_unresolved (close_exposure d "FAIL_CLOSED_SENTINEL_CLEAR_FAILED" j)
  unlink_or_deny true d (returned j) =
      returned (record j { closed_sentinel = false; persistence_unresolved_reason = none })

  abbrev pub requalify_with :
      Fate
      → Bool
      → Denial
      → (RecoveryAuthorityVerifier → RecoveryJournal → Result JournalError RecoveryJournal)
      → RecoveryJournal
      → Result JournalError RecoveryAuthorityVerifier
      → Answer
  requalify_with fate unlinked d statements j (err e) = raised e j
  requalify_with fate unlinked d statements j (ok a) =
      unlink_or_deny unlinked d (connect fate (statements a) j)

  -- `requalify_exposure`
  unfoldable pub requalify_exposure :
      Fate
      → Bool
      → Denial
      → (Tables → String → Option RecoveryRecord)
      → String
      → String
      → RecoveryReceipt
      → ℕ
      → RecoveryJournal
      → Answer
  requalify_exposure fate unlinked d pick operation digest receipt now j =
      if str_eq operation "" || str_eq digest ""
      then raised (rejected authority_required) j
      else requalify_with fate unlinked d (requalification pick operation digest receipt now) j
          (require_authority_binding crypto j)
