-- ===== src/Stage5/Journal/Opening.antt =====
-- Opening the journal: the rows it creates, and the gate that a restart closes.
use automated_trading_bot.Prelude.{
  ℕ, String, Bool, true, false, ◌&&◌, Option, none, some, find, str_eq, if◌then◌else◌, Result, ok,
  err,
}
use automated_trading_bot.Prelude.Texts.{join}
use automated_trading_bot.Stage5.Authority.{
  RecoveryAuthorityVerifier, Crypto, RecoveryAuthorityError, authority_required, binding_mismatch,
}
use automated_trading_bot.Stage5.Journal.Records.{
  state_value, is_restrictive, RecoveryRecord, ExposureGate, JournalIdentity, Tables,
  RecoveryJournal, JournalError, journal_conflict, rejected,
}
use automated_trading_bot.Stage5.Journal.Connection.{
  Denial, Fate, Answer, returned, raised, close_exposure, connect, on_tables,
}

abbrev pub of_authority : {A : Type 0} → Result RecoveryAuthorityError A → Result JournalError A
of_authority (ok a) = ok a
of_authority (err e) = err (rejected e)

-- `exposure_allowed`
abbrev pub is_unset : Option String → Bool
is_unset none = true
is_unset (some reason) = false

unfoldable pub exposure_allowed : RecoveryJournal → Bool
exposure_allowed j = is_unset j.persistence_unresolved_reason

-- `bootstrap_challenge`
abbrev challenge_in : Option JournalIdentity → Result JournalError String
challenge_in none = err (journal_conflict "journal installation challenge is unavailable")
challenge_in (some i) =
    if str_eq i.bootstrap_challenge ""
    then err (journal_conflict "journal installation challenge is unavailable")
    else ok i.bootstrap_challenge

unfoldable pub bootstrap_challenge : RecoveryJournal → Result JournalError String
bootstrap_challenge j = challenge_in j.tables.identity

-- `SELECT … WHERE state IN (…) LIMIT 1`
unfoldable pub restrictive_row : Tables → Option RecoveryRecord
restrictive_row t = find (λ row. is_restrictive row.state) t.intents

-- `_restore_fail_closed_gate`: the reason for which a restart denies exposure.
abbrev reason_of_gate : Option ExposureGate → String
reason_of_gate none = "RESTART_WITH_MISSING_GATE"
reason_of_gate (some gate) =
    if gate.is_open then "RESTART_REQUALIFICATION_REQUIRED" else join "RESTART_WITH_" gate.evidence

abbrev restart_reason : Option RecoveryRecord → Bool → Option ExposureGate → String
restart_reason (some row) sentinel gate = join "RESTART_WITH_" (state_value row.state)
restart_reason none true gate = "RESTART_WITH_FAIL_CLOSED_SENTINEL"
restart_reason none false gate = reason_of_gate gate

unfoldable pub restore_fail_closed_gate : Denial → RecoveryJournal → RecoveryJournal
restore_fail_closed_gate d j =
    close_exposure d (restart_reason (restrictive_row j.tables) j.closed_sentinel j.tables.gate) j

module _ (crypto : Crypto) where
  abbrev bound_to : Option RecoveryAuthorityVerifier → String × String
  bound_to none = ("UNBOUND", "UNBOUND")
  bound_to (some a) = (a.policy.installation_id, crypto.fingerprint a.policy)

  abbrev first_identity :
      Option RecoveryAuthorityVerifier
      → String
      → ℕ
      → Option JournalIdentity
      → Option JournalIdentity
  first_identity authority token now (some i) = some i
  first_identity authority token now none = some (record {
    installation_id = (bound_to authority).0;
    authority_fingerprint = (bound_to authority).1;
    bootstrap_challenge = token;
    bootstrap_consumed = false;
    created_ns = now;
  })

  abbrev legacy_identity : String → ℕ → Option JournalIdentity → Option JournalIdentity
  legacy_identity token now (some i) = some i
  legacy_identity token now none = some (record {
    installation_id = "LEGACY_UNBOUND";
    authority_fingerprint = "LEGACY_UNBOUND";
    bootstrap_challenge = token;
    bootstrap_consumed = true;
    created_ns = now;
  })

  abbrev first_gate : ℕ → Option ExposureGate → Option ExposureGate
  first_gate now (some gate) = some gate
  first_gate now none =
      some (record { is_open = false; evidence = "BOOTSTRAP_AUTHORITY_REQUIRED"; updated_ns = now })

  -- The rows that `_initialize` inserts, where they are not there; the tables are created empty.
  unfoldable pub initialize : Bool → Option RecoveryAuthorityVerifier → String → ℕ → Tables → Tables
  initialize true authority token now t = record t {
    gate = first_gate now t.gate;
    identity = first_identity authority token now t.identity;
  }
  initialize false authority token now t = record t {
    identity = legacy_identity token now t.identity;
  }

  abbrev pub restored : Denial → Answer → Answer
  restored d (raised e j) = raised e j
  restored d (returned j) = returned (restore_fail_closed_gate d j)

  -- `_construct`: the journal of a process that has just started
  unfoldable pub construct :
      Fate → Denial → Bool → Option RecoveryAuthorityVerifier → String → ℕ → Tables → Bool → Answer
  construct fate d new_store authority token now t sentinel = restored d (
      connect fate (on_tables (λ t. ok (initialize new_store authority token now t))) (record {
        tables = t;
        closed_sentinel = sentinel;
        authority = authority;
        persistence_unresolved_reason = none;
      }))

  abbrev pub binds : Option JournalIdentity → RecoveryAuthorityVerifier → Bool
  binds none a = false
  binds (some i) a =
      str_eq i.installation_id a.policy.installation_id
      && str_eq i.authority_fingerprint (crypto.fingerprint a.policy)

  -- `_require_authority_binding`, with the authority that it finds
  abbrev pub binding_of :
      Option RecoveryAuthorityVerifier
      → Option JournalIdentity
      → Result JournalError RecoveryAuthorityVerifier
  binding_of none identity = err (rejected authority_required)
  binding_of (some a) identity = if binds identity a then ok a else err (rejected binding_mismatch)

  unfoldable pub require_authority_binding :
      RecoveryJournal → Result JournalError RecoveryAuthorityVerifier
  require_authority_binding j = binding_of j.authority j.tables.identity
