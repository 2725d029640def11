-- ===== src/Stage5/Journal/Lives.antt =====
-- Every operation of the journal keeps what its statements keep.
use automated_trading_bot.Prelude.{
  ℕ, String, Bool, true, false, ◌&&◌, Option, some, Result, ok, err, ◌≡◌, refl, ◌⊎◌, inl, inr,
  str_eq, ◌||◌, ok_injective, >>=-eq-ok, >>-eq-ok, raise_if, Bool-cases,
}
use mathlib.Core.Path.{subst}
use automated_trading_bot.Stage5.Authority.{
  RecoveryReceipt, Crypto, RecoveryAuthorityVerifier, consume_terminal,
}
use automated_trading_bot.Stage5.Journal.Records.{
  is_intent, RecoveryRecord, Tables, RecoveryJournal, JournalError, has_key,
}
use automated_trading_bot.Stage5.Journal.Connection.{
  Denial, Fate, Answer, returned, raised, journal_after, deny_new_exposure, close_exposure, connect,
  on_tables, insert_admission,
}
use automated_trading_bot.Stage5.Journal.Intents.{
  reserve_admission_evidence, insert_dispatch, prepare_protected_dispatch, record_intent,
  update_one, bind_worker, to_capacity_denied, record_capacity_denied, to_effect_possible, to_hold,
  to_failed_before_effect, mark_effect_possible, hold, unresolved, failed_before_effect,
}
use automated_trading_bot.Stage5.Journal.Opening.{
  bootstrap_challenge, require_authority_binding, of_authority,
}
use automated_trading_bot.Stage5.Journal.Recovery.{
  open_pristine, unlink_or_raise, bootstrap_consumption, bootstrap_with, authorize_bootstrap,
  reconciled, consumed_by, requalification, unlink_or_deny, requalify_with, requalify_exposure,
}
use automated_trading_bot.Stage5.Journal.Resolution.{resolve_authenticated_terminal}
use automated_trading_bot.Stage5.Journal.Commands.{
  Command, reserve, prepare, intend, deny_capacity, bind, mark, hold_it, keep_unresolved, fail,
  acknowledge, resolve_terminal, bootstrap, requalify, deny, perform,
}
use automated_trading_bot.Stage5.Journal.Kept.{
  Rows, OnRows, OnJournal, Upkeep, deny-OnJournal, connect-OnJournal, tables-OnJournal,
}
use automated_trading_bot.Stage5.Journal.Laws.{
  Law, to_effect_possible-Coherent, conflicting-OnJournal, transition-OnJournal, then-OnJournal,
  record_intent-OnJournal, resolved-OnJournal,
}

module _ {Q : Rows} (law : Law Q) where
  unlink_or_raise-OnJournal :
      (crypto : Crypto) (unlinked : Bool) (x : Answer)
      → OnJournal Q (journal_after x)
      → OnJournal Q (journal_after (unlink_or_raise crypto unlinked x))
  unlink_or_raise-OnJournal crypto unlinked (raised e j) q = q
  unlink_or_raise-OnJournal crypto false (returned j) q = q
  unlink_or_raise-OnJournal crypto true (returned j) q = q

  unlink_or_deny-OnJournal :
      (crypto : Crypto) (unlinked : Bool) (d : Denial) (x : Answer)
      → OnJournal Q (journal_after x)
      → OnJournal Q (journal_after (unlink_or_deny crypto unlinked d x))
  unfolding close_exposure
  unlink_or_deny-OnJournal crypto unlinked d (raised e j) q = q
  unlink_or_deny-OnJournal crypto false d (returned j) q = q
  unlink_or_deny-OnJournal crypto true d (returned j) q = q

  open_pristine-Upkeep :
      (crypto : Crypto) (receipt : RecoveryReceipt) (now : ℕ) (a : RecoveryAuthorityVerifier)
      → Upkeep Q (open_pristine crypto receipt now a)
  unfolding open_pristine
  open_pristine-Upkeep crypto receipt now a = record {
    at = λ t t' q e.
        let (_, same) = >>-eq-ok (raise_if _ _) _ e in subst (OnRows Q) (ok_injective same) q;
  }

  bootstrap_with-OnJournal :
      (crypto : Crypto) (fate : Fate) (unlinked : Bool) (receipt : RecoveryReceipt) (now : ℕ)
      (j : RecoveryJournal) (r : Result JournalError RecoveryAuthorityVerifier)
      → OnJournal Q j
      → OnJournal Q (journal_after (bootstrap_with crypto fate unlinked receipt now j r))
  bootstrap_with-OnJournal crypto fate unlinked receipt now j (err e) q = q
  bootstrap_with-OnJournal crypto fate unlinked receipt now j (ok a) q =
      unlink_or_raise-OnJournal crypto unlinked
        (connect fate (on_tables (open_pristine crypto receipt now a)) (consumed_by crypto j a))
        (tables-OnJournal Q fate (open_pristine crypto receipt now a) (consumed_by crypto j a)
          (open_pristine-Upkeep crypto receipt now a) q)

  requalification-OnJournal :
      (crypto : Crypto) (pick : Tables → String → Option RecoveryRecord) (o digest : String)
      (receipt : RecoveryReceipt) (now : ℕ) (a : RecoveryAuthorityVerifier) (j j' : RecoveryJournal)
      → OnJournal Q j
      → requalification crypto pick o digest receipt now a j ≡ ok j'
      → OnJournal Q j'
  unfolding requalification
  requalification-OnJournal crypto pick o digest receipt now a j j' q e =
      let (found, _, rest) = >>=-eq-ok (reconciled crypto (pick j.tables o) digest) _ e in
      let (_, rest') = >>-eq-ok (raise_if _ _) _ rest in
      let (challenge, _, rest'') = >>=-eq-ok (bootstrap_challenge j) _ rest' in
      let (a', _, last) =
        >>=-eq-ok
          (of_authority (
            consume_terminal crypto a now receipt challenge o digest found.0.attempt_id
              found.0.g00_sequence found.1))
          _ rest'' in
      subst (OnJournal Q) (ok_injective last) q

  requalify_with-OnJournal :
      (crypto : Crypto) (fate : Fate) (unlinked : Bool) (d : Denial)
      (statements : RecoveryAuthorityVerifier
        → RecoveryJournal
        → Result JournalError RecoveryJournal)
      (j : RecoveryJournal) (r : Result JournalError RecoveryAuthorityVerifier)
      → OnJournal Q j
      → ((a : RecoveryAuthorityVerifier) (j' : RecoveryJournal)
          → statements a j ≡ ok j'
          → OnJournal Q j')
      → OnJournal Q (journal_after (requalify_with crypto fate unlinked d statements j r))
  requalify_with-OnJournal crypto fate unlinked d statements j (err e) q h = q
  requalify_with-OnJournal crypto fate unlinked d statements j (ok a) q h =
      unlink_or_deny-OnJournal crypto unlinked d (connect fate (statements a) j)
        (connect-OnJournal Q fate (statements a) j q (h a))

  requalify-OnJournal :
      (crypto : Crypto) (pick : Tables → String → Option RecoveryRecord) (fate : Fate)
      (unlinked : Bool) (d : Denial) (o digest : String) (receipt : RecoveryReceipt) (now : ℕ)
      (j : RecoveryJournal)
      → OnJournal Q j
      → OnJournal Q
          (journal_after (requalify_exposure crypto fate unlinked d pick o digest receipt now j))
  unfolding requalify_exposure
  requalify-OnJournal crypto pick fate unlinked d o digest receipt now j q =
      elim (Bool-cases (str_eq o "" || str_eq digest "")) [
        | inl e ↦ rw e q
        | inr e ↦ rw e (
            requalify_with-OnJournal crypto fate unlinked d
              (requalification crypto pick o digest receipt now) j
              (require_authority_binding crypto j) q
              λ a j'. requalification-OnJournal crypto pick o digest receipt now a j j' q)
      ]

  -- An operation keeps Q, or it is a resolution of which G holds.
  pub perform-OnJournal :
      (crypto : Crypto) (pick : Tables → String → Option RecoveryRecord)
      (G : Command → RecoveryJournal → Type 0)
      (terminal : (reading fate : Fate) (d : Denial) (o a digest : String)
          (receipt : RecoveryReceipt) (now : ℕ) (j : RecoveryJournal)
        → OnJournal Q j
        → OnJournal Q (
            journal_after
              (resolve_authenticated_terminal crypto reading fate d o a digest receipt now j))
          ⊎ G (resolve_terminal reading fate d o a digest receipt now) j)
      (c : Command) (j : RecoveryJournal)
      → OnJournal Q j
      → OnJournal Q (journal_after (perform crypto pick c j)) ⊎ G c j
  unfolding perform reserve_admission_evidence prepare_protected_dispatch record_capacity_denied
      bind_worker mark_effect_possible hold unresolved failed_before_effect authorize_bootstrap
      deny_new_exposure
  perform-OnJournal crypto pick G terminal (reserve fate e) j q = inl (
      conflicting-OnJournal law (connect fate (on_tables (insert_admission e)) j)
        (tables-OnJournal Q fate (insert_admission e) j (law.admission e) q))
  perform-OnJournal crypto pick G terminal (prepare fate e pid g00 now) j q = inl (
      conflicting-OnJournal law (connect fate (on_tables (insert_dispatch e pid g00 now)) j)
        (tables-OnJournal Q fate (insert_dispatch e pid g00 now) j (law.dispatch e pid g00 now) q))
  perform-OnJournal crypto pick G terminal (intend fate o digest a g00 now) j q =
      inl (record_intent-OnJournal law fate o digest a g00 now j q)
  perform-OnJournal crypto pick G terminal (deny_capacity fate fate' o digest a g00 now) j q = inl (
      then-OnJournal law (record_intent fate o digest a g00 now j) fate' o a to_capacity_denied now
        (refl, λ s h i u. cc) (record_intent-OnJournal law fate o digest a g00 now j q))
  perform-OnJournal crypto pick G terminal (bind fate o a pid now) j q = inl (
      tables-OnJournal Q fate
        (update_one (λ row. has_key o a row && is_intent row.state)
          (λ row. record row { worker_pid = some pid; updated_ns = now })
          "worker can bind only to a current intent")
        j (law.worker o a pid now "worker can bind only to a current intent") q)
  perform-OnJournal crypto pick G terminal (mark fate o a now) j q =
      inl (transition-OnJournal law fate o a to_effect_possible now j to_effect_possible-Coherent q)
  perform-OnJournal crypto pick G terminal (hold_it fate o a evidence now) j q =
      inl
        (transition-OnJournal law fate o a (to_hold false evidence) now j (refl, λ s h i u. refl) q)
  perform-OnJournal crypto pick G terminal (keep_unresolved fate o a evidence now) j q =
      inl
        (transition-OnJournal law fate o a (to_hold true evidence) now j (refl, λ s h i u. refl) q)
  perform-OnJournal crypto pick G terminal (fail fate o a evidence now) j q = inl (
      transition-OnJournal law fate o a (to_failed_before_effect evidence) now j
        (refl, λ s h i u. cc) q)
  perform-OnJournal crypto pick G terminal (acknowledge fate o a committed result evidence now) j
        q =
      inl (resolved-OnJournal law fate o a committed result evidence now j q)
  perform-OnJournal crypto pick G terminal (resolve_terminal reading fate d o a digest receipt now)
        j q =
      terminal reading fate d o a digest receipt now j q
  perform-OnJournal crypto pick G terminal (bootstrap fate unlinked receipt now) j q = inl (
      bootstrap_with-OnJournal crypto fate unlinked receipt now j
        (bootstrap_consumption crypto receipt now j) q)
  perform-OnJournal crypto pick G terminal (requalify fate unlinked d o digest receipt now) j q =
      inl (requalify-OnJournal crypto pick fate unlinked d o digest receipt now j q)
  perform-OnJournal crypto pick G terminal (deny d reason) j q =
      elim (Bool-cases (str_eq reason "")) [
        | inl e ↦ inl (rw e q)
        | inr e ↦ inl (rw e (deny-OnJournal Q d reason j q))
      ]
