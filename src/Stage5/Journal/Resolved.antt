-- ===== src/Stage5/Journal/Resolved.antt =====
-- What a resolution by terminal evidence keeps of the rows.
use automated_trading_bot.Prelude.{
  ℕ, String, Result, ok, err, ◌≡◌, refl, ok_injective, inl, inr, >>=-eq-ok, Bool-cases, ◌∷◌, some,
}
use mathlib.Core.Path.{subst, sym}
use automated_trading_bot.Stage5.Authority.{RecoveryReceipt, Crypto, RecoveryAuthorityVerifier}
use automated_trading_bot.Stage5.Journal.Records.{Tables, RecoveryJournal, JournalError, has_key}
use automated_trading_bot.Stage5.Journal.Connection.{
  Denial, Fate, completes, expired_late, refused, abandoned, unresolved_commit, Answer, returned,
  raised, journal_after, close_exposure, connect, on_tables, update_where,
}
use automated_trading_bot.Stage5.Journal.Opening.{require_authority_binding}
use automated_trading_bot.Stage5.Journal.Resolution.{
  Verdict, conflicts_again, conflicts_with, clears, refuses, held_again, cleared, apply_verdict,
  Evidence, verdict_on, is_conflict, resolution, consumption, conflict_or, resolve_with,
  resolve_read, resolve_bound, resolve_authenticated_terminal,
}
use automated_trading_bot.Stage5.Journal.Kept.{
  Rows, OnRows, OnJournal, Upkeep, connect-OnJournal, tables-OnJournal,
}

-- A resolution holds its row again, or clears it.
module _ (Q : Rows) (o a digest : String) (e : Evidence) (nonce : String) (now : ℕ)
    (keeps : (t : Tables) → OnRows Q t → OnRows Q (update_where (has_key o a) (held_again now) t))
    (conflict : (c : _) (t : Tables) → OnRows Q t → Q t.intents (c ∷ t.conflicts) t.admissions)
    (clearing : (t : Tables)
      → OnRows Q t
      → OnRows Q (update_where (has_key o a) (cleared o digest e.outcome nonce now) t)) where
  apply_verdict-OnRows :
      (t t' : Tables) (v : Verdict)
      → OnRows Q t
      → apply_verdict o a digest e.outcome nonce now t v ≡ ok t'
      → OnRows Q t'
  apply_verdict-OnRows t t' conflicts_again q h = subst (OnRows Q) (ok_injective h) (keeps t q)
  apply_verdict-OnRows t t' (conflicts_with prior) q h =
      subst (OnRows Q) (ok_injective h) (keeps _ (conflict _ t q))
  apply_verdict-OnRows t t' clears q h = subst (OnRows Q) (ok_injective h) (clearing t q)
  apply_verdict-OnRows t t' (refuses m) q h = cc

  pub resolution-Upkeep : Upkeep Q (resolution o a digest e nonce now)
  unfolding resolution
  resolution-Upkeep = record {
    at = λ t t' q h.
        let (v, _, rest) = >>=-eq-ok (verdict_on o a digest e t) _ h in
        apply_verdict-OnRows t t' v q rest;
  }

-- A reading that returns has left the journal as it was.
reading-returned :
    (reading : Fate) (j j' : RecoveryJournal) → connect reading (λ j. ok j) j ≡ returned j' → j ≡ j'
unfolding connect
reading-returned completes j j' h = cc
reading-returned expired_late j j' h = cc
reading-returned (refused e) j j' h = cc
reading-returned (abandoned e) j j' h = cc
reading-returned (unresolved_commit kept d) j j' h = cc

module _ (Q : Rows) (crypto : Crypto) (fate : Fate) (d : Denial) (o a digest : String)
    (receipt : RecoveryReceipt) (now : ℕ) where
  conflict_or-OnJournal :
      (v : Result JournalError Verdict) (x : Answer)
      → OnJournal Q (journal_after x)
      → OnJournal Q (journal_after (conflict_or v d x))
  unfolding close_exposure
  conflict_or-OnJournal v (raised e j) q = q
  conflict_or-OnJournal (err e) (returned j) q = q
  conflict_or-OnJournal (ok v) (returned j) q = elim (Bool-cases (is_conflict v)) [
    | inl e ↦ rw e q
    | inr e ↦ rw e q
  ]

  resolve_with-OnJournal :
      (j : RecoveryJournal) (r : Result JournalError Evidence)
      → OnJournal Q j
      → ((e : Evidence) → r ≡ ok e → Upkeep Q (resolution o a digest e receipt.nonce now))
      → OnJournal Q (journal_after (resolve_with fate d o a digest receipt now j r))
  resolve_with-OnJournal j (err e) q h = q
  resolve_with-OnJournal j (ok e) q h =
      conflict_or-OnJournal (verdict_on o a digest e j.tables)
        (connect fate (on_tables (resolution o a digest e receipt.nonce now))
          (record j { authority = some e.authority }))
        (tables-OnJournal Q fate (resolution o a digest e receipt.nonce now)
          (record j { authority = some e.authority }) (h e refl) q)

  resolve_read-OnJournal :
      (v : RecoveryAuthorityVerifier) (j : RecoveryJournal) (x : Answer)
      → OnJournal Q (journal_after x)
      → ((j' : RecoveryJournal) → x ≡ returned j' → j ≡ j')
      → ((e : Evidence)
          → consumption crypto v o a digest receipt now j ≡ ok e
          → Upkeep Q (resolution o a digest e receipt.nonce now))
      → OnJournal Q (journal_after (resolve_read crypto fate d o a digest receipt now v x))
  resolve_read-OnJournal v j (raised e j') q same h = q
  resolve_read-OnJournal v j (returned j') q same h =
      resolve_with-OnJournal j' (consumption crypto v o a digest receipt now j') q λ e c.
        h e
          (subst (λ i. consumption crypto v o a digest receipt now i ≡ ok e) (sym (same j' refl)) c)

  resolve_bound-OnJournal :
      (reading : Fate) (j : RecoveryJournal) (r : Result JournalError RecoveryAuthorityVerifier)
      → OnJournal Q j
      → ((v : RecoveryAuthorityVerifier) (e : Evidence)
          → r ≡ ok v
          → consumption crypto v o a digest receipt now j ≡ ok e
          → Upkeep Q (resolution o a digest e receipt.nonce now))
      → OnJournal Q (journal_after (resolve_bound crypto reading fate d o a digest receipt now j r))
  resolve_bound-OnJournal reading j (err e) q h = q
  resolve_bound-OnJournal reading j (ok v) q h =
      resolve_read-OnJournal v j (connect reading (λ j. ok j) j)
        (connect-OnJournal Q reading (λ j. ok j) j q λ j' s. subst (OnJournal Q) (ok_injective s) q)
        (reading-returned reading j) λ e c. h v e refl c

  -- A resolution keeps what its statements keep, once the authority has consumed the receipt.
  pub resolve-OnJournal :
      (reading : Fate) (j : RecoveryJournal)
      → OnJournal Q j
      → ((v : RecoveryAuthorityVerifier) (e : Evidence)
          → require_authority_binding crypto j ≡ ok v
          → consumption crypto v o a digest receipt now j ≡ ok e
          → Upkeep Q (resolution o a digest e receipt.nonce now))
      → OnJournal Q (
          journal_after
            (resolve_authenticated_terminal crypto reading fate d o a digest receipt now j))
  unfolding resolve_authenticated_terminal
  resolve-OnJournal reading j q h =
      resolve_bound-OnJournal reading j (require_authority_binding crypto j) q h
