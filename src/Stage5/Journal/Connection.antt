-- ===== src/Stage5/Journal/Connection.antt =====
-- `_connect`, `deny_new_exposure`, and the statements of SQL that the operations share. How a connection
-- ends is an argument: a deadline, a lock or a failed commit may come at any time.
use automated_trading_bot.Prelude.{
  ℕ, ◌+◌, String, Bool, false, ◌||◌, Option, none, some, List, [], ◌∷◌, map, any, str_eq,
  if◌then◌else◌, Result, ok, err,
}
use automated_trading_bot.Stage5.Journal.Records.{
  RecoveryRecord, ExposureGate, AdmissionEvidence, Tables, RecoveryJournal, JournalError,
  integrity_error, deadline_exceeded, commit_unresolved, empty_reason, has_key,
}

-- Which of the two writes of `deny_new_exposure` succeed, and when.
pub record Denial : Type 0 where
  pub sentinel_written : Bool
  pub gate_written : Bool
  pub denied_ns : ℕ

-- `refused`: no statement runs. `abandoned`: the statements run, and are rolled back. `unresolved_commit`:
-- the commit raises, with or without effect. `expired_late`: the deadline expires once all is committed.
pub data Fate : Type 0 where
  completes expired_late : Fate
  refused abandoned : JournalError → Fate
  unresolved_commit : Bool → Denial → Fate

-- How an operation ends, and the journal that it leaves.
pub data Answer : Type 0 where
  returned : RecoveryJournal → Answer
  raised : JournalError → RecoveryJournal → Answer

abbrev pub journal_after : Answer → RecoveryJournal
journal_after (returned j) = j
journal_after (raised e j) = j

abbrev pub closed_by : Denial → String → Option ExposureGate → Option ExposureGate
closed_by d reason gate =
    if d.gate_written
    then some (record { is_open = false; evidence = reason; updated_ns = d.denied_ns })
    else gate

abbrev pub reason_or : String → Option String → Option String
reason_or reason none = some reason
reason_or reason (some earlier) = some earlier

-- `deny_new_exposure` past its check of the reason, as the journal calls it with reasons of its own
unfoldable pub close_exposure : Denial → String → RecoveryJournal → RecoveryJournal
close_exposure d reason j = record j {
  persistence_unresolved_reason = reason_or reason j.persistence_unresolved_reason;
  closed_sentinel = d.sentinel_written || j.closed_sentinel;
  tables = record j.tables { gate = closed_by d reason j.tables.gate };
}

-- `deny_new_exposure`
unfoldable pub deny_new_exposure : Denial → String → RecoveryJournal → Answer
deny_new_exposure d reason j =
    if str_eq reason "" then raised empty_reason j else returned (close_exposure d reason j)

-- `_connect` around statements that have run on a copy of the journal: what raises is rolled back, but
-- what the authority has consumed stays consumed.
abbrev pub settle : Fate → RecoveryJournal → RecoveryJournal → Answer
settle completes before j = returned j
settle expired_late before j = raised deadline_exceeded j
settle (refused e) before j = raised e before
settle (abandoned e) before j = raised e (record j { tables = before.tables })
settle (unresolved_commit kept d) before j = raised commit_unresolved (
    close_exposure d "SQLITE_COMMIT_OUTCOME_UNRESOLVED"
      (record j { tables = if kept then j.tables else before.tables }))

abbrev pub finished : Fate → RecoveryJournal → Result JournalError RecoveryJournal → Answer
finished fate before (err e) = raised e before
finished fate before (ok j) = settle fate before j

-- `with self._connect(deadline_ns) as connection: …`
unfoldable pub connect :
    Fate → (RecoveryJournal → Result JournalError RecoveryJournal) → RecoveryJournal → Answer
connect (refused e) statements j = raised e j
connect completes statements j = finished completes j (statements j)
connect expired_late statements j = finished expired_late j (statements j)
connect (abandoned e) statements j = finished (abandoned e) j (statements j)
connect (unresolved_commit kept d) statements j =
    finished (unresolved_commit kept d) j (statements j)

-- Statements that touch the tables only.
abbrev pub stored :
    RecoveryJournal → Result JournalError Tables → Result JournalError RecoveryJournal
stored j (err e) = err e
stored j (ok t) = ok (record j { tables = t })

unfoldable pub on_tables :
    (Tables → Result JournalError Tables) → RecoveryJournal → Result JournalError RecoveryJournal
on_tables statements j = stored j (statements j.tables)

-- `INSERT INTO recovery_intent`, whose primary key is the operation and the attempt
unfoldable pub insert_intent : RecoveryRecord → Tables → Result JournalError Tables
insert_intent row t =
    if any (has_key row.operation_id row.attempt_id) t.intents
    then err (integrity_error "recovery_intent")
    else ok (record t { intents = row ∷ t.intents })

-- `INSERT INTO admission_evidence`, where attempts and time proofs are unique
unfoldable pub insert_admission : AdmissionEvidence → Tables → Result JournalError Tables
insert_admission e t =
    if any
      (λ a. str_eq a.attempt_id e.attempt_id || str_eq a.timeproof_identity e.timeproof_identity)
      t.admissions
    then err (integrity_error "admission_evidence")
    else ok (record t { admissions = e ∷ t.admissions })

-- `UPDATE recovery_intent SET … WHERE …`
unfoldable pub update_where :
    (RecoveryRecord → Bool) → (RecoveryRecord → RecoveryRecord) → Tables → Tables
update_where p change t = record t {
  intents = map (λ row. if p row then change row else row) t.intents;
}

abbrev pub rows_where : (RecoveryRecord → Bool) → List RecoveryRecord → ℕ
rows_where p [] = 0
rows_where p (row ∷ rows) = let rest = rows_where p rows in if p row then rest + 1 else rest
