-- ===== src/Stage5/Journal/Kept.antt =====
-- Whatever the statements of an operation keep of the rows, the operation keeps, however its connection
-- ends.
use automated_trading_bot.Prelude.{
  String, true, false, List, Result, ok, err, ◌≡◌, refl, ok_injective,
}
use mathlib.Core.Path.{subst}
use automated_trading_bot.Stage5.Journal.Records.{
  RecoveryRecord, TerminalConflict, AdmissionEvidence, Tables, RecoveryJournal, JournalError,
}
use automated_trading_bot.Stage5.Journal.Connection.{
  Denial, Fate, completes, expired_late, refused, abandoned, unresolved_commit, journal_after,
  close_exposure, settle, finished, connect, stored, on_tables,
}

-- A relation between the rows that are not the gate's.
abbrev pub Rows : Type 1
Rows = List RecoveryRecord → List TerminalConflict → List AdmissionEvidence → Type 0

abbrev pub OnRows : Rows → Tables → Type 0
OnRows Q t = Q t.intents t.conflicts t.admissions

abbrev pub OnJournal : Rows → RecoveryJournal → Type 0
OnJournal Q j = OnRows Q j.tables

-- The statements keep Q where they do not raise.
pub record Upkeep (Q : Rows) (statements : Tables → Result JournalError Tables) : Type 0 where
  pub at : (t t' : Tables) → OnRows Q t → statements t ≡ ok t' → OnRows Q t'

module _ (Q : Rows) where
  pub deny-OnJournal :
      (d : Denial) (reason : String) (j : RecoveryJournal)
      → OnJournal Q j
      → OnJournal Q (close_exposure d reason j)
  unfolding close_exposure
  deny-OnJournal d reason j q = q

  settle-OnJournal :
      (fate : Fate) (before j : RecoveryJournal)
      → OnJournal Q before
      → OnJournal Q j
      → OnJournal Q (journal_after (settle fate before j))
  unfolding close_exposure
  settle-OnJournal completes before j p q = q
  settle-OnJournal expired_late before j p q = q
  settle-OnJournal (refused e) before j p q = p
  settle-OnJournal (abandoned e) before j p q = p
  settle-OnJournal (unresolved_commit true d) before j p q = q
  settle-OnJournal (unresolved_commit false d) before j p q = p

  finished-OnJournal :
      (fate : Fate) (before : RecoveryJournal) (r : Result JournalError RecoveryJournal)
      → OnJournal Q before
      → ((j : RecoveryJournal) → r ≡ ok j → OnJournal Q j)
      → OnJournal Q (journal_after (finished fate before r))
  finished-OnJournal fate before (err e) p h = p
  finished-OnJournal fate before (ok j) p h = settle-OnJournal fate before j p (h j refl)

  pub connect-OnJournal :
      (fate : Fate) (statements : RecoveryJournal → Result JournalError RecoveryJournal)
      (j : RecoveryJournal)
      → OnJournal Q j
      → ((j' : RecoveryJournal) → statements j ≡ ok j' → OnJournal Q j')
      → OnJournal Q (journal_after (connect fate statements j))
  unfolding connect
  connect-OnJournal (refused e) statements j p h = p
  connect-OnJournal completes statements j p h = finished-OnJournal completes j (statements j) p h
  connect-OnJournal expired_late statements j p h =
      finished-OnJournal expired_late j (statements j) p h
  connect-OnJournal (abandoned e) statements j p h =
      finished-OnJournal (abandoned e) j (statements j) p h
  connect-OnJournal (unresolved_commit kept d) statements j p h =
      finished-OnJournal (unresolved_commit kept d) j (statements j) p h

  stored-OnJournal :
      (j j' : RecoveryJournal) (r : Result JournalError Tables)
      → ((t : Tables) → r ≡ ok t → OnRows Q t)
      → stored j r ≡ ok j'
      → OnJournal Q j'
  stored-OnJournal j j' (err e) h s = cc
  stored-OnJournal j j' (ok t) h s = subst (OnJournal Q) (ok_injective s) (h t refl)

  pub tables-OnJournal :
      (fate : Fate) (statements : Tables → Result JournalError Tables) (j : RecoveryJournal)
      → Upkeep Q statements
      → OnJournal Q j
      → OnJournal Q (journal_after (connect fate (on_tables statements) j))
  unfolding on_tables
  tables-OnJournal fate statements j u q =
      connect-OnJournal fate (on_tables statements) j q
        λ j' s. stored-OnJournal j j' (statements j.tables) (λ t e. u.at j.tables t q e) s
