-- ===== src/Stage5/Journal/Laws.antt =====
-- What the statements of the journal keep, its operations on one row keep.
use automated_trading_bot.Prelude.{
  ℕ, String, Bool, true, false, ◌&&◌, not, some, ◌≡◌, refl, inl, inr, str_eq, if◌then◌else◌,
  Bool-cases,
}
use automated_trading_bot.Stage5.Journal.Records.{
  RecoveryState, intent, effect_possible, ambiguous_hold, recovered_committed, recovered_denied,
  state_unresolved, state_failed_before_effect, capacity_denied, persistence_unresolved, is_held,
  is_restrictive, is_intent, RecoveryResult, AdmissionEvidence, RecoveryJournal, integrity_error,
  journal_conflict, deadline_exceeded, commit_unresolved, operational, empty_reason, rejected,
  has_key,
}
use automated_trading_bot.Stage5.Journal.Connection.{
  Fate, Answer, returned, raised, journal_after, insert_admission,
}
use automated_trading_bot.Stage5.Journal.Intents.{
  conflicting, insert_dispatch, write_intent, record_intent, update_one, Change, transition_row,
  transition, then_transition, to_effect_possible, to_recovered, resolved,
}
use automated_trading_bot.Stage5.Journal.Kept.{Rows, OnJournal, Upkeep, tables-OnJournal}

intent-is_held :
    (s : RecoveryState)
    → is_held s ≡ true
    → is_intent s ≡ true
    → true ≡ true
    → is_held effect_possible ≡ true
intent-is_held intent h i u = cc
intent-is_held effect_possible h i u = cc
intent-is_held ambiguous_hold h i u = cc
intent-is_held recovered_committed h i u = cc
intent-is_held recovered_denied h i u = cc
intent-is_held state_unresolved h i u = cc
intent-is_held state_failed_before_effect h i u = cc
intent-is_held capacity_denied h i u = cc
intent-is_held persistence_unresolved h i u = cc

-- A change notes the uncertainty of the state that it sets, and takes no held row out of its hold as
-- uncertain.
abbrev pub Coherent : Change → Type 0
Coherent c =
    (c.uncertain ≡ is_restrictive c.state)
    × ((s : RecoveryState)
        → is_held s ≡ true
        → c.expected s ≡ true
        → c.uncertain ≡ true
        → is_held c.state ≡ true)

pub to_effect_possible-Coherent : Coherent to_effect_possible
to_effect_possible-Coherent = (refl, λ s. intent-is_held s)

-- The statements, but those of a resolution, keep Q.
pub record Law (Q : Rows) : Type 0 where
  pub admission : (e : AdmissionEvidence) → Upkeep Q (insert_admission e)
  pub dispatch :
      (e : AdmissionEvidence) (pid : ℕ) (g00 : String) (now : ℕ)
      → Upkeep Q (insert_dispatch e pid g00 now)
  pub intent : (o digest a g00 : String) (now : ℕ) → Upkeep Q (write_intent o digest a g00 now)
  pub worker :
      (o a : String) (pid now : ℕ) (message : String)
      → Upkeep Q (
          update_one
            (λ row. has_key o a row && is_intent row.state)
            (λ row. record row { worker_pid = some pid; updated_ns = now })
            message)
  pub change :
      (o a : String) (c : Change) (now : ℕ) → Coherent c → Upkeep Q (transition_row o a c now)

module _ {Q : Rows} (law : Law Q) where
  pub conflicting-OnJournal :
      (x : Answer) → OnJournal Q (journal_after x) → OnJournal Q (journal_after (conflicting x))
  conflicting-OnJournal (returned j) q = q
  conflicting-OnJournal (raised (integrity_error m) j) q = q
  conflicting-OnJournal (raised (journal_conflict m) j) q = q
  conflicting-OnJournal (raised deadline_exceeded j) q = q
  conflicting-OnJournal (raised commit_unresolved j) q = q
  conflicting-OnJournal (raised operational j) q = q
  conflicting-OnJournal (raised empty_reason j) q = q
  conflicting-OnJournal (raised (rejected e) j) q = q

  pub transition-OnJournal :
      (fate : Fate) (o a : String) (c : Change) (now : ℕ) (j : RecoveryJournal)
      → Coherent c
      → OnJournal Q j
      → OnJournal Q (journal_after (transition fate o a c now j))
  unfolding transition
  transition-OnJournal fate o a c now j h q =
      tables-OnJournal Q fate (transition_row o a c now) j (law.change o a c now h) q

  pub then-OnJournal :
      (x : Answer) (fate : Fate) (o a : String) (c : Change) (now : ℕ)
      → Coherent c
      → OnJournal Q (journal_after x)
      → OnJournal Q (journal_after (then_transition x fate o a c now))
  then-OnJournal (raised e j) fate o a c now h q = q
  then-OnJournal (returned j) fate o a c now h q = transition-OnJournal fate o a c now j h q

  pub record_intent-OnJournal :
      (fate : Fate) (o digest a g00 : String) (now : ℕ) (j : RecoveryJournal)
      → OnJournal Q j
      → OnJournal Q (journal_after (record_intent fate o digest a g00 now j))
  unfolding record_intent
  record_intent-OnJournal fate o digest a g00 now j q =
      tables-OnJournal Q fate (write_intent o digest a g00 now) j (law.intent o digest a g00 now) q

  to_recovered-Coherent :
      (committed : Bool) (result : RecoveryResult) (evidence : String)
      → Coherent (to_recovered committed result evidence)
  to_recovered-Coherent true result evidence = (refl, λ s h i u. cc)
  to_recovered-Coherent false result evidence = (refl, λ s h i u. cc)

  pub resolved-OnJournal :
      (fate : Fate) (o a : String) (committed : Bool) (result : RecoveryResult) (evidence : String)
      (now : ℕ) (j : RecoveryJournal)
      → OnJournal Q j
      → OnJournal Q (journal_after (resolved fate o a committed result evidence now j))
  unfolding resolved
  resolved-OnJournal fate o a committed result evidence now j q =
      elim (Bool-cases (not (str_eq result.status (if committed then "COMMITTED" else "DENIED")))) [
        | inl e ↦ rw e q
        | inr e ↦ rw e (
            transition-OnJournal fate o a (to_recovered committed result evidence) now j
              (to_recovered-Coherent committed result evidence) q)
      ]
