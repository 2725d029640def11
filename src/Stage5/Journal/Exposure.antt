-- ===== src/Stage5/Journal/Exposure.antt =====
-- Exposure opens only on consumed authority, and a journal that has just been opened is closed.
use automated_trading_bot.Prelude.{
  ℕ, String, Bool, true, false, ◌||◌, not, List, [], ◌∷◌, Option, none, some, Result, ok, err, ◌≡◌,
  refl, ◌⊎◌, inl, inr, str_eq, >>=-eq-ok, >>-eq-ok, raise_if, raise_if-eq-ok, Bool-cases,
  Result-cases, arith,
}
use mathlib.Core.Path.{subst}
use automated_trading_bot.Stage5.Authority.{RecoveryReceipt, Crypto, RecoveryAuthorityVerifier}
use automated_trading_bot.Stage5.Journal.Records.{
  RecoveryRecord, Tables, RecoveryJournal, JournalError,
}
use automated_trading_bot.Stage5.Journal.Connection.{
  Denial, Fate, completes, expired_late, refused, abandoned, unresolved_commit, Answer, returned,
  raised, journal_after, deny_new_exposure, connect, on_tables, insert_admission,
}
use automated_trading_bot.Stage5.Journal.Intents.{
  reserve_admission_evidence, insert_dispatch, prepare_protected_dispatch, record_intent,
  bind_worker, to_capacity_denied, record_capacity_denied, mark_effect_possible, hold, unresolved,
  failed_before_effect,
}
use automated_trading_bot.Stage5.Journal.Opening.{
  exposure_allowed, restrictive_row, restore_fail_closed_gate, restored, construct,
  require_authority_binding,
}
use automated_trading_bot.Stage5.Journal.Recovery.{
  no_intents, is_pristine, open_pristine, consumed_by, bootstrap_consumption, bootstrap_with,
  authorize_bootstrap, reconciled, is_any, requalification, requalify_with, requalify_exposure,
}
use automated_trading_bot.Stage5.Journal.Resolution.{resolve_authenticated_terminal}
use automated_trading_bot.Stage5.Journal.Commands.{
  Command, reserve, prepare, intend, deny_capacity, bind, mark, hold_it, keep_unresolved, fail,
  acknowledge, resolve_terminal, bootstrap, requalify, deny, perform, perform_all,
}
use automated_trading_bot.Stage5.Journal.Closing.{
  IsClosed, deny-IsClosed, tables-IsClosed, conflicting-IsClosed, transition-IsClosed,
  then-IsClosed, resolved-IsClosed, resolve_bound-IsClosed,
}

-- The operation opens exposure: the bound authority has consumed its receipt, and no row of the journal
-- forbids exposure.
pub data Opens (crypto : Crypto) (pick : Tables → String → Option RecoveryRecord)
    : Command → RecoveryJournal → Type 0 where
  by_bootstrap :
      (fate : Fate) (unlinked : Bool) (receipt : RecoveryReceipt) (now : ℕ) (j : RecoveryJournal)
      (v : RecoveryAuthorityVerifier) (t : Tables)
      → bootstrap_consumption crypto receipt now j ≡ ok v
      → open_pristine crypto receipt now v j.tables ≡ ok t
      → restrictive_row j.tables ≡ none
      → Opens crypto pick (bootstrap fate unlinked receipt now) j
  by_requalification :
      (fate : Fate) (unlinked : Bool) (d : Denial) (o digest : String) (receipt : RecoveryReceipt)
      (now : ℕ) (j : RecoveryJournal) (v : RecoveryAuthorityVerifier) (j' : RecoveryJournal)
      → require_authority_binding crypto j ≡ ok v
      → requalification crypto pick o digest receipt now v j ≡ ok j'
      → restrictive_row j.tables ≡ none
      → Opens crypto pick (requalify fate unlinked d o digest receipt now) j

no-restrictive : (crypto : Crypto) (r : Option RecoveryRecord) → is_any crypto r ≡ false → r ≡ none
no-restrictive crypto none h = refl
no-restrictive crypto (some row) h = cc

no_intents-restrictive :
    (crypto : Crypto) (rows : List RecoveryRecord) (t : Tables)
    → t.intents ≡ rows
    → no_intents crypto rows ≡ true
    → restrictive_row t ≡ none
unfolding restrictive_row
no_intents-restrictive crypto [] t same h = rw same refl
no_intents-restrictive crypto (row ∷ rows) t same h = cc

-- Statements that raise leave the connection raising, with the journal as it was.
connect-err :
    (fate : Fate) (statements : RecoveryJournal → Result JournalError RecoveryJournal)
    (j : RecoveryJournal) (e : JournalError)
    → statements j ≡ err e
    → (raises : JournalError) × (connect fate statements j ≡ raised raises j)
unfolding connect
connect-err (refused e') statements j e h = (e', refl)
connect-err completes statements j e h = (e, rw h refl)
connect-err expired_late statements j e h = (e, rw h refl)
connect-err (abandoned e') statements j e h = (e, rw h refl)
connect-err (unresolved_commit kept d) statements j e h = (e, rw h refl)

module _ (crypto : Crypto) (pick : Tables → String → Option RecoveryRecord) where
  pristine-restrictive :
      (receipt : RecoveryReceipt) (now : ℕ) (v : RecoveryAuthorityVerifier) (t t' : Tables)
      → open_pristine crypto receipt now v t ≡ ok t'
      → restrictive_row t ≡ none
  unfolding open_pristine
  pristine-restrictive receipt now v t t' h =
      let (g, _) = >>-eq-ok (raise_if (not (is_pristine crypto t v)) _) _ h in
      let pristine = raise_if-eq-ok (not (is_pristine crypto t v)) _ g in
      no_intents-restrictive crypto t.intents t refl (ground (arith, pristine))

  bootstrap_with-Opens :
      (fate : Fate) (unlinked : Bool) (receipt : RecoveryReceipt) (now : ℕ) (j : RecoveryJournal)
      (r : Result JournalError RecoveryAuthorityVerifier)
      → bootstrap_consumption crypto receipt now j ≡ r
      → IsClosed j
      → IsClosed (journal_after (bootstrap_with crypto fate unlinked receipt now j r))
        ⊎ Opens crypto pick (bootstrap fate unlinked receipt now) j
  unfolding exposure_allowed on_tables
  bootstrap_with-Opens fate unlinked receipt now j (err e) same c = inl c
  bootstrap_with-Opens fate unlinked receipt now j (ok v) same c =
      elim (Result-cases (open_pristine crypto receipt now v j.tables)) [
        | inl (t, h) ↦ inr (
            by_bootstrap fate unlinked receipt now j v t same h
              (pristine-restrictive receipt now v j.tables t h))
        | inr (e, h) ↦
            let (raises, stuck) =
              connect-err fate (on_tables (open_pristine crypto receipt now v))
                (consumed_by crypto j v) e (rw h refl) in
            inl (rw stuck c)
      ]

  requalification-restrictive :
      (o digest : String) (receipt : RecoveryReceipt) (now : ℕ) (v : RecoveryAuthorityVerifier)
      (j j' : RecoveryJournal)
      → requalification crypto pick o digest receipt now v j ≡ ok j'
      → restrictive_row j.tables ≡ none
  unfolding requalification
  requalification-restrictive o digest receipt now v j j' h =
      let (found, _, rest) = >>=-eq-ok (reconciled crypto (pick j.tables o) digest) _ h in
      let (g, _) = >>-eq-ok (raise_if (is_any crypto (restrictive_row j.tables)) _) _ rest in
      no-restrictive crypto (restrictive_row j.tables) (raise_if-eq-ok _ _ g)

  requalify_with-Opens :
      (fate : Fate) (unlinked : Bool) (d : Denial) (o digest : String) (receipt : RecoveryReceipt)
      (now : ℕ) (j : RecoveryJournal) (r : Result JournalError RecoveryAuthorityVerifier)
      → require_authority_binding crypto j ≡ r
      → IsClosed j
      → IsClosed (
          journal_after (
            requalify_with crypto fate unlinked d
              (requalification crypto pick o digest receipt now)
              j
              r))
        ⊎ Opens crypto pick (requalify fate unlinked d o digest receipt now) j
  requalify_with-Opens fate unlinked d o digest receipt now j (err e) same c = inl c
  requalify_with-Opens fate unlinked d o digest receipt now j (ok v) same c =
      elim (Result-cases (requalification crypto pick o digest receipt now v j)) [
        | inl (j', h) ↦ inr (
            by_requalification fate unlinked d o digest receipt now j v j' same h
              (requalification-restrictive o digest receipt now v j j' h))
        | inr (e, h) ↦
            let (raises, stuck) =
              connect-err fate (requalification crypto pick o digest receipt now v) j e h in
            inl (rw stuck c)
      ]

  requalify-Opens :
      (fate : Fate) (unlinked : Bool) (d : Denial) (o digest : String) (receipt : RecoveryReceipt)
      (now : ℕ) (j : RecoveryJournal)
      → IsClosed j
      → IsClosed
          (journal_after (requalify_exposure crypto fate unlinked d pick o digest receipt now j))
        ⊎ Opens crypto pick (requalify fate unlinked d o digest receipt now) j
  unfolding requalify_exposure
  requalify-Opens fate unlinked d o digest receipt now j c =
      elim (Bool-cases (str_eq o "" || str_eq digest "")) [
        | inl e ↦ inl (rw e c)
        | inr e ↦ rw e (
            requalify_with-Opens fate unlinked d o digest receipt now j
              (require_authority_binding crypto j) refl c)
      ]

  perform-Opens :
      (c : Command) (j : RecoveryJournal)
      → IsClosed j
      → IsClosed (journal_after (perform crypto pick c j)) ⊎ Opens crypto pick c j
  unfolding perform reserve_admission_evidence prepare_protected_dispatch record_intent
      record_capacity_denied bind_worker mark_effect_possible hold unresolved failed_before_effect
      authorize_bootstrap resolve_authenticated_terminal deny_new_exposure
  perform-Opens (reserve fate e) j c = inl (
      conflicting-IsClosed (connect fate (on_tables (insert_admission e)) j)
        (tables-IsClosed fate (insert_admission e) j c))
  perform-Opens (prepare fate e pid g00 now) j c = inl (
      conflicting-IsClosed (connect fate (on_tables (insert_dispatch e pid g00 now)) j)
        (tables-IsClosed fate (insert_dispatch e pid g00 now) j c))
  perform-Opens (intend fate o digest a g00 now) j c = inl (tables-IsClosed fate _ j c)
  perform-Opens (deny_capacity fate fate' o digest a g00 now) j c = inl (
      then-IsClosed (record_intent fate o digest a g00 now j) fate' o a to_capacity_denied now
        (tables-IsClosed fate _ j c))
  perform-Opens (bind fate o a pid now) j c = inl (tables-IsClosed fate _ j c)
  perform-Opens (mark fate o a now) j c = inl (transition-IsClosed fate o a _ now j c)
  perform-Opens (hold_it fate o a evidence now) j c = inl (transition-IsClosed fate o a _ now j c)
  perform-Opens (keep_unresolved fate o a evidence now) j c =
      inl (transition-IsClosed fate o a _ now j c)
  perform-Opens (fail fate o a evidence now) j c = inl (transition-IsClosed fate o a _ now j c)
  perform-Opens (acknowledge fate o a committed result evidence now) j c =
      inl (resolved-IsClosed fate o a committed result evidence now j c)
  perform-Opens (resolve_terminal reading fate d o a digest receipt now) j c = inl (
      resolve_bound-IsClosed fate d o a digest receipt now crypto reading j
        (require_authority_binding crypto j) c)
  perform-Opens (bootstrap fate unlinked receipt now) j c =
      bootstrap_with-Opens fate unlinked receipt now j (bootstrap_consumption crypto receipt now j)
        refl c
  perform-Opens (requalify fate unlinked d o digest receipt now) j c =
      requalify-Opens fate unlinked d o digest receipt now j c
  perform-Opens (deny d reason) j c = elim (Bool-cases (str_eq reason "")) [
    | inl e ↦ inl (rw e c)
    | inr e ↦ inl (rw e (deny-IsClosed d reason j))
  ]

  -- One of the operations opens exposure.
  abbrev pub Opened : List Command → RecoveryJournal → Type 0
  Opened [] j = ⊥
  Opened (c ∷ cs) j = Opens crypto pick c j ⊎ Opened cs (journal_after (perform crypto pick c j))

  perform_all-IsClosed :
      (cs : List Command) (j : RecoveryJournal)
      → IsClosed j
      → IsClosed (perform_all crypto pick cs j) ⊎ Opened cs j
  unfolding perform_all
  perform_all-IsClosed [] j c = inl c
  perform_all-IsClosed (k ∷ cs) j c = elim (perform-Opens k j c) [
    | inl closed ↦ elim (perform_all-IsClosed cs (journal_after (perform crypto pick k j)) closed) [
      | inl kept ↦ inl kept
      | inr later ↦ inr (inr later)
    ]
    | inr now ↦ inr (inl now)
  ]

  restored-IsClosed :
      (d : Denial) (x : Answer) (j : RecoveryJournal)
      → restored crypto d x ≡ returned j
      → IsClosed j
  unfolding restore_fail_closed_gate
  restored-IsClosed d (raised e j') j h = cc
  restored-IsClosed d (returned j') j h =
      subst (λ x. IsClosed (journal_after x)) h (deny-IsClosed d _ j')

  -- A journal that a process has opened, over whatever file it finds, forbids new exposure, and does so
  -- through every sequence of operations until one of them has its receipt consumed by the bound
  -- authority while no row of the journal forbids exposure.
  pub construct-IsClosed :
      (fate : Fate) (d : Denial) (new_store : Bool) (authority : Option RecoveryAuthorityVerifier)
      (token : String) (now : ℕ) (t : Tables) (sentinel : Bool) (j : RecoveryJournal)
      (cs : List Command)
      → construct crypto fate d new_store authority token now t sentinel ≡ returned j
      → IsClosed (perform_all crypto pick cs j) ⊎ Opened cs j
  unfolding construct
  construct-IsClosed fate d new_store authority token now t sentinel j cs h =
      perform_all-IsClosed cs j (restored-IsClosed d _ j h)
