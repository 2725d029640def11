-- ===== src/Stage5/Journal/Closing.antt =====
-- The operations that leave a journal closed to exposure where they find it closed.
use automated_trading_bot.Prelude.{
  ℕ, String, Bool, false, not, Option, none, some, Result, ok, err, ◌≡◌, refl, inl, inr, str_eq,
  if◌then◌else◌, ok_injective, Bool-cases,
}
use mathlib.Core.Path.{subst}
use automated_trading_bot.Stage5.Authority.{RecoveryReceipt, Crypto, RecoveryAuthorityVerifier}
use automated_trading_bot.Stage5.Journal.Records.{
  RecoveryResult, Tables, RecoveryJournal, JournalError, integrity_error, journal_conflict,
  deadline_exceeded, commit_unresolved, operational, empty_reason, rejected,
}
use automated_trading_bot.Stage5.Journal.Connection.{
  Denial, Fate, completes, expired_late, refused, abandoned, unresolved_commit, Answer, returned,
  raised, journal_after, reason_or, close_exposure, settle, finished, connect, stored, on_tables,
}
use automated_trading_bot.Stage5.Journal.Intents.{
  conflicting, Change, transition_row, transition, then_transition, to_recovered, resolved,
}
use automated_trading_bot.Stage5.Journal.Opening.{is_unset, exposure_allowed}
use automated_trading_bot.Stage5.Journal.Resolution.{
  Verdict, is_conflict, Evidence, verdict_on, resolution, consumption, conflict_or, resolve_with,
  resolve_read, resolve_bound,
}

abbrev pub IsClosed : RecoveryJournal → Type 0
IsClosed j = exposure_allowed j ≡ false

reason-IsClosed : (reason : String) (r : Option String) → is_unset (reason_or reason r) ≡ false
reason-IsClosed reason none = refl
reason-IsClosed reason (some earlier) = refl

-- A denial closes whatever it finds.
pub deny-IsClosed :
    (d : Denial) (reason : String) (j : RecoveryJournal) → IsClosed (close_exposure d reason j)
unfolding close_exposure exposure_allowed
deny-IsClosed d reason j = reason-IsClosed reason j.persistence_unresolved_reason

stored-IsClosed :
    (j j' : RecoveryJournal) (r : Result JournalError Tables)
    → IsClosed j
    → stored j r ≡ ok j'
    → IsClosed j'
unfolding exposure_allowed
stored-IsClosed j j' (err e) c h = cc
stored-IsClosed j j' (ok t) c h = subst IsClosed (ok_injective h) c

settle-IsClosed :
    (fate : Fate) (before j : RecoveryJournal)
    → IsClosed before
    → IsClosed j
    → IsClosed (journal_after (settle fate before j))
unfolding exposure_allowed
settle-IsClosed completes before j b c = c
settle-IsClosed expired_late before j b c = c
settle-IsClosed (refused e) before j b c = b
settle-IsClosed (abandoned e) before j b c = c
settle-IsClosed (unresolved_commit kept d) before j b c = deny-IsClosed d _ _

finished-IsClosed :
    (fate : Fate) (before : RecoveryJournal) (r : Result JournalError RecoveryJournal)
    → IsClosed before
    → ((j : RecoveryJournal) → r ≡ ok j → IsClosed j)
    → IsClosed (journal_after (finished fate before r))
finished-IsClosed fate before (err e) b h = b
finished-IsClosed fate before (ok j) b h = settle-IsClosed fate before j b (h j refl)

pub connect-IsClosed :
    (fate : Fate) (statements : RecoveryJournal → Result JournalError RecoveryJournal)
    (j : RecoveryJournal)
    → IsClosed j
    → ((j' : RecoveryJournal) → statements j ≡ ok j' → IsClosed j')
    → IsClosed (journal_after (connect fate statements j))
unfolding connect
connect-IsClosed (refused e) statements j c h = c
connect-IsClosed completes statements j c h = finished-IsClosed completes j (statements j) c h
connect-IsClosed expired_late statements j c h = finished-IsClosed expired_late j (statements j) c h
connect-IsClosed (abandoned e) statements j c h =
    finished-IsClosed (abandoned e) j (statements j) c h
connect-IsClosed (unresolved_commit kept d) statements j c h =
    finished-IsClosed (unresolved_commit kept d) j (statements j) c h

pub tables-IsClosed :
    (fate : Fate) (statements : Tables → Result JournalError Tables) (j : RecoveryJournal)
    → IsClosed j
    → IsClosed (journal_after (connect fate (on_tables statements) j))
unfolding on_tables
tables-IsClosed fate statements j c =
    connect-IsClosed fate (on_tables statements) j c
      λ j' h. stored-IsClosed j j' (statements j.tables) c h

pub conflicting-IsClosed :
    (x : Answer) → IsClosed (journal_after x) → IsClosed (journal_after (conflicting x))
conflicting-IsClosed (returned j) c = c
conflicting-IsClosed (raised (integrity_error m) j) c = c
conflicting-IsClosed (raised (journal_conflict m) j) c = c
conflicting-IsClosed (raised deadline_exceeded j) c = c
conflicting-IsClosed (raised commit_unresolved j) c = c
conflicting-IsClosed (raised operational j) c = c
conflicting-IsClosed (raised empty_reason j) c = c
conflicting-IsClosed (raised (rejected e) j) c = c

pub transition-IsClosed :
    (fate : Fate) (o a : String) (k : Change) (now : ℕ) (j : RecoveryJournal)
    → IsClosed j
    → IsClosed (journal_after (transition fate o a k now j))
unfolding transition
transition-IsClosed fate o a k now j c = tables-IsClosed fate (transition_row o a k now) j c

pub then-IsClosed :
    (x : Answer) (fate : Fate) (o a : String) (k : Change) (now : ℕ)
    → IsClosed (journal_after x)
    → IsClosed (journal_after (then_transition x fate o a k now))
then-IsClosed (raised e j) fate o a k now c = c
then-IsClosed (returned j) fate o a k now c = transition-IsClosed fate o a k now j c

pub resolved-IsClosed :
    (fate : Fate) (o a : String) (committed : Bool) (result : RecoveryResult) (evidence : String)
    (now : ℕ) (j : RecoveryJournal)
    → IsClosed j
    → IsClosed (journal_after (resolved fate o a committed result evidence now j))
unfolding resolved
resolved-IsClosed fate o a committed result evidence now j c =
    elim (Bool-cases (not (str_eq result.status (if committed then "COMMITTED" else "DENIED")))) [
      | inl e ↦ rw e c
      | inr e ↦ rw e (transition-IsClosed fate o a (to_recovered committed result evidence) now j c)
    ]

module _ (fate : Fate) (d : Denial) (o a digest : String) (receipt : RecoveryReceipt)
    (now : ℕ) where
  conflict_or-IsClosed :
      (v : Result JournalError Verdict) (x : Answer)
      → IsClosed (journal_after x)
      → IsClosed (journal_after (conflict_or v d x))
  conflict_or-IsClosed v (raised e j) c = c
  conflict_or-IsClosed (err e) (returned j) c = c
  conflict_or-IsClosed (ok v) (returned j) c = elim (Bool-cases (is_conflict v)) [
    | inl e ↦ rw e (deny-IsClosed d "CONFLICTING_AUTHENTICATED_TERMINAL_EVIDENCE" j)
    | inr e ↦ rw e c
  ]

  resolve_with-IsClosed :
      (j : RecoveryJournal) (r : Result JournalError Evidence)
      → IsClosed j
      → IsClosed (journal_after (resolve_with fate d o a digest receipt now j r))
  unfolding exposure_allowed
  resolve_with-IsClosed j (err e) c = c
  resolve_with-IsClosed j (ok e) c =
      conflict_or-IsClosed (verdict_on o a digest e j.tables)
        (connect fate (on_tables (resolution o a digest e receipt.nonce now))
          (record j { authority = some e.authority }))
        (tables-IsClosed fate (resolution o a digest e receipt.nonce now)
          (record j { authority = some e.authority }) c)

  resolve_read-IsClosed :
      (crypto : Crypto) (v : RecoveryAuthorityVerifier) (x : Answer)
      → IsClosed (journal_after x)
      → IsClosed (journal_after (resolve_read crypto fate d o a digest receipt now v x))
  resolve_read-IsClosed crypto v (raised e j) c = c
  resolve_read-IsClosed crypto v (returned j) c =
      resolve_with-IsClosed j (consumption crypto v o a digest receipt now j) c

  pub resolve_bound-IsClosed :
      (crypto : Crypto) (reading : Fate) (j : RecoveryJournal)
      (r : Result JournalError RecoveryAuthorityVerifier)
      → IsClosed j
      → IsClosed (journal_after (resolve_bound crypto reading fate d o a digest receipt now j r))
  resolve_bound-IsClosed crypto reading j (err e) c = c
  resolve_bound-IsClosed crypto reading j (ok v) c =
      resolve_read-IsClosed crypto v (connect reading (λ j. ok j) j)
        (connect-IsClosed reading (λ j. ok j) j c λ j' h. subst IsClosed (ok_injective h) c)
