-- ===== src/Stage5/Journal/Intents.antt =====
-- The operations of the journal on one intent: its admission, its dispatch and its transitions.
use automated_trading_bot.Prelude.{
  ℕ, ◌+◌, String, Bool, true, false, ◌&&◌, ◌||◌, not, Option, none, some, ◌==◌, str_eq,
  if◌then◌else◌, Result, ok, err, ◌>>◌, ◌>>=◌, raise_if,
}
use automated_trading_bot.Stage5.Journal.Records.{
  RecoveryState, intent, effect_possible, ambiguous_hold, recovered_committed, recovered_denied,
  state_failed_before_effect, capacity_denied, is_held, is_intent, is_effect_possible,
  RecoveryResult, RecoveryRecord, AdmissionEvidence, Tables, RecoveryJournal, JournalError,
  journal_conflict, integrity_error, has_key, row_of, has_conflict,
}
use automated_trading_bot.Stage5.Journal.Connection.{
  Fate, Answer, returned, raised, connect, on_tables, insert_intent, insert_admission, update_where,
  rows_where,
}

abbrev pub intent_row : String → String → String → String → ℕ → RecoveryRecord
intent_row operation digest attempt g00 now = record {
  operation_id = operation;
  attempt_id = attempt;
  request_digest = digest;
  worker_pid = none;
  transaction_uncertain = false;
  state = intent;
  g00_sequence = g00;
  recovery_attempts = 0;
  recovery_result = none;
  reconciliation_evidence = none;
  updated_ns = now;
}

abbrev pub dispatch_row : AdmissionEvidence → ℕ → String → ℕ → RecoveryRecord
dispatch_row e pid g00 now = record {
  operation_id = e.operation_id;
  attempt_id = e.attempt_id;
  request_digest = e.request_digest;
  worker_pid = some pid;
  transaction_uncertain = true;
  state = effect_possible;
  g00_sequence = g00;
  recovery_attempts = 0;
  recovery_result = none;
  reconciliation_evidence = some "PROTECTED_DISPATCH_AUTHORIZED";
  updated_ns = now;
}

-- `except sqlite3.IntegrityError as error: raise JournalConflict(…)`
abbrev pub conflicting : Answer → Answer
conflicting (returned j) = returned j
conflicting (raised (integrity_error table) j) =
    raised (journal_conflict "an identity was already consumed") j
conflicting (raised e j) = raised e j

-- `reserve_admission_evidence`
unfoldable pub reserve_admission_evidence : Fate → AdmissionEvidence → RecoveryJournal → Answer
reserve_admission_evidence fate e j = conflicting (connect fate (on_tables (insert_admission e)) j)

-- The two insertions of `prepare_protected_dispatch`.
unfoldable pub insert_dispatch :
    AdmissionEvidence → ℕ → String → ℕ → Tables → Result JournalError Tables
insert_dispatch e pid g00 now t = do
  t' ← insert_admission e t
  insert_intent (dispatch_row e pid g00 now) t'

-- `prepare_protected_dispatch`
unfoldable pub prepare_protected_dispatch :
    Fate → AdmissionEvidence → ℕ → String → ℕ → RecoveryJournal → Answer
prepare_protected_dispatch fate e pid g00 now j =
    conflicting (connect fate (on_tables (insert_dispatch e pid g00 now)) j)

abbrev pub accept_existing :
    Option RecoveryRecord → String → String → RecoveryRecord → Tables → Result JournalError Tables
accept_existing (some row) digest g00 fresh t =
    if not (str_eq row.request_digest digest && str_eq row.g00_sequence g00)
    then err (journal_conflict "operation/attempt identity conflicts with durable intent")
    else ok t
accept_existing none digest g00 fresh t = insert_intent fresh t

-- The statements of `record_intent`.
unfoldable pub write_intent :
    String → String → String → String → ℕ → Tables → Result JournalError Tables
write_intent operation digest attempt g00 now t =
    accept_existing (row_of operation attempt t) digest g00
      (intent_row operation digest attempt g00 now) t

-- `record_intent`
unfoldable pub record_intent :
    Fate → String → String → String → String → ℕ → RecoveryJournal → Answer
record_intent fate operation digest attempt g00 now j =
    connect fate (on_tables (write_intent operation digest attempt g00 now)) j

-- An UPDATE that must change exactly one row.
unfoldable pub update_one :
    (RecoveryRecord → Bool)
    → (RecoveryRecord → RecoveryRecord)
    → String
    → Tables
    → Result JournalError Tables
update_one p change message t = do
  raise_if (not (rows_where p t.intents == 1)) (journal_conflict message)
  ok (update_where p change t)

-- `bind_worker`
unfoldable pub bind_worker : Fate → String → String → ℕ → ℕ → RecoveryJournal → Answer
bind_worker fate operation attempt pid now j =
    connect fate
      (on_tables (
        update_one (λ row. has_key operation attempt row && is_intent row.state)
          (λ row. record row { worker_pid = some pid; updated_ns = now })
          "worker can bind only to a current intent"))
      j

-- The arguments of `_transition` for one row.
pub record Change : Type 0 where
  pub state : RecoveryState
  pub uncertain : Bool
  pub increment_recovery : Bool
  pub result : Option RecoveryResult
  pub evidence : Option String
  pub expected : RecoveryState → Bool

unfoldable pub changed : Change → ℕ → RecoveryRecord → RecoveryRecord
changed c now row = record row {
  transaction_uncertain = c.uncertain;
  state = c.state;
  recovery_attempts = row.recovery_attempts + (if c.increment_recovery then 1 else 0);
  recovery_result = c.result;
  reconciliation_evidence = c.evidence;
  updated_ns = now;
}

abbrev pub row_is_held : Option RecoveryRecord → Bool
row_is_held none = false
row_is_held (some row) = is_held row.state

-- The statements of `_transition`.
unfoldable pub transition_row : String → String → Change → ℕ → Tables → Result JournalError Tables
transition_row operation attempt c now t = do
  raise_if
      (not c.uncertain
        && (has_conflict operation attempt t || row_is_held (row_of operation attempt t)))
      (journal_conflict "clearing a recovery hold requires authenticated terminal evidence")
  update_one (λ row. has_key operation attempt row && c.expected row.state) (changed c now)
      "recovery transition target does not exist" t

-- `_transition`
unfoldable pub transition : Fate → String → String → Change → ℕ → RecoveryJournal → Answer
transition fate operation attempt c now j =
    connect fate (on_tables (transition_row operation attempt c now)) j

abbrev pub any_state : RecoveryState → Bool
any_state s = true

-- `record_capacity_denied`: two connections, the second where the first has returned
abbrev pub then_transition : Answer → Fate → String → String → Change → ℕ → Answer
then_transition (raised e j) fate operation attempt c now = raised e j
then_transition (returned j) fate operation attempt c now =
    transition fate operation attempt c now j

abbrev pub to_capacity_denied : Change
to_capacity_denied = record {
  state = capacity_denied;
  uncertain = false;
  increment_recovery = false;
  result = none;
  evidence = none;
  expected = any_state;
}

unfoldable pub record_capacity_denied :
    Fate → Fate → String → String → String → String → ℕ → RecoveryJournal → Answer
record_capacity_denied fate fate' operation digest attempt g00 now j =
    then_transition (record_intent fate operation digest attempt g00 now j) fate' operation attempt
      to_capacity_denied now

-- `mark_effect_possible`, `hold`, `unresolved`, `failed_before_effect`, by their changes
abbrev pub to_effect_possible : Change
to_effect_possible = record {
  state = effect_possible;
  uncertain = true;
  increment_recovery = false;
  result = none;
  evidence = some "PROTECTED_DISPATCH_AUTHORIZED";
  expected = is_intent;
}

abbrev pub to_hold : Bool → String → Change
to_hold increment evidence = record {
  state = ambiguous_hold;
  uncertain = true;
  increment_recovery = increment;
  result = none;
  evidence = some evidence;
  expected = any_state;
}

abbrev pub to_failed_before_effect : String → Change
to_failed_before_effect evidence = record {
  state = state_failed_before_effect;
  uncertain = false;
  increment_recovery = false;
  result = none;
  evidence = some evidence;
  expected = any_state;
}

abbrev pub to_recovered : Bool → RecoveryResult → String → Change
to_recovered committed result evidence = record {
  state = if committed then recovered_committed else recovered_denied;
  uncertain = false;
  increment_recovery = true;
  result = some result;
  evidence = some evidence;
  expected = is_effect_possible;
}

unfoldable pub mark_effect_possible : Fate → String → String → ℕ → RecoveryJournal → Answer
mark_effect_possible fate operation attempt now j =
    transition fate operation attempt to_effect_possible now j

unfoldable pub hold : Fate → String → String → String → ℕ → RecoveryJournal → Answer
hold fate operation attempt evidence now j =
    transition fate operation attempt (to_hold false evidence) now j

unfoldable pub unresolved : Fate → String → String → String → ℕ → RecoveryJournal → Answer
unresolved fate operation attempt evidence now j =
    transition fate operation attempt (to_hold true evidence) now j

unfoldable pub failed_before_effect : Fate → String → String → String → ℕ → RecoveryJournal → Answer
failed_before_effect fate operation attempt evidence now j =
    transition fate operation attempt (to_failed_before_effect evidence) now j

-- `resolved`
unfoldable pub resolved :
    Fate → String → String → Bool → RecoveryResult → String → ℕ → RecoveryJournal → Answer
resolved fate operation attempt committed result evidence now j =
    if not (str_eq result.status (if committed then "COMMITTED" else "DENIED"))
    then raised (journal_conflict "worker acknowledgement must contain an exact terminal status") j
    else transition fate operation attempt (to_recovered committed result evidence) now j
