-- ===== src/Stage5/Journal/Reopening.antt =====
-- The resolution of an attempt on hold, and the requalification of exposure that follows it.
use automated_trading_bot.Prelude.{
  ℕ, String, true, false, ◌&&◌, ◌||◌, not, Option, none, some, str_eq, eq_iff, ok, ◌≡◌, ◌≢◌, refl,
  sym, ap, ◌∙◌, arith,
}
use mathlib.Core.Path.{subst}
use automated_trading_bot.Stage5.Authority.{
  RecoveryTerminalOutcome, RecoveryReceipt, RecoveryAuthorityVerifier, Crypto, consume_terminal,
}
use automated_trading_bot.Stage5.Authority.Accepted.{consume_terminal-IsAuthorized}
use automated_trading_bot.Stage5.Authority.Later.{
  spend, consume_terminal-spend, consume_terminal-later,
}
use automated_trading_bot.Stage5.Journal.Records.{
  RecoveryRecord, ExposureGate, Tables, RecoveryJournal, has_key, row_of,
}
use automated_trading_bot.Stage5.Journal.Connection.{
  Denial, completes, Answer, returned, journal_after, connect, on_tables, update_where,
}
use automated_trading_bot.Stage5.Journal.Opening.{
  exposure_allowed, bootstrap_challenge, restrictive_row, require_authority_binding,
}
use automated_trading_bot.Stage5.Journal.Recovery.{
  opened, reconciled, requalification, requalify_exposure,
}
use automated_trading_bot.Stage5.Journal.Resolution.{
  resolvable, declared, cleared, Evidence, verdict_on, resolution, consumption,
  resolve_authenticated_terminal,
}
use automated_trading_bot.Stage5.Journal.Cleared.{
  IsRecoverable, outcome_of-target_of, binding_of-spend, find-has_key, recovered, find-updated,
  settled-updated,
}

-- The operation has returned, exposure is allowed, the durable gate is open on the evidence of the given
-- receipt, no marker of the closed state and no restrictive row is left, and the attempt's row and the
-- authority are the given ones.
pub record IsReopened (o a : String) (row : RecoveryRecord) (receipt : RecoveryReceipt) (now : ℕ)
    (v : RecoveryAuthorityVerifier) (x : Answer) : Type 0 where
  pub returns : x ≡ returned (journal_after x)
  pub allowed : exposure_allowed (journal_after x) ≡ true
  pub durable :
      (journal_after x).tables.gate
      ≡ some (record { is_open = true; evidence = receipt.nonce; updated_ns = now })
  pub unmarked : (journal_after x).closed_sentinel ≡ false
  pub settled : restrictive_row (journal_after x).tables ≡ none
  pub recovered : row_of o a (journal_after x).tables ≡ some row
  pub spent : (journal_after x).authority ≡ some v

module _ (crypto : Crypto) (o a digest challenge : String) (row : RecoveryRecord)
    (outcome : RecoveryTerminalOutcome) (v v1 v2 : RecoveryAuthorityVerifier)
    (r1 r2 : RecoveryReceipt) (now1 now2 : ℕ) (j : RecoveryJournal) (d : Denial) where
  -- The journal once the attempt is recovered.
  abbrev pub recovered_journal : RecoveryJournal
  recovered_journal =
      journal_after
        (resolve_authenticated_terminal crypto completes completes d o a digest r1 now1 j)

  -- The same, spelled out.
  abbrev resolved_journal : RecoveryJournal
  resolved_journal = record j {
    authority = some (spend crypto r1 now1 v);
    tables = update_where (has_key o a) (recovered o a digest r1.nonce outcome now1) j.tables;
  }

  abbrev proof_of : Evidence
  proof_of = record { row = row; outcome = outcome; authority = spend crypto r1 now1 v }

  resolvable-recoverable :
      IsRecoverable o a digest row j → resolvable (row_of o a j.tables) digest ≡ ok row
  resolvable-recoverable i =
      let same : not (str_eq row.request_digest digest) ≡ false =
        ground (arith, i.request, eq_iff row.request_digest digest) in
      rw (i.found, same, i.held) refl

  consumption-eq-proof :
      IsRecoverable o a digest row j
      → bootstrap_challenge j ≡ ok challenge
      → consume_terminal crypto v now1 r1 challenge o digest a row.g00_sequence outcome ≡ ok v1
      → consumption crypto v o a digest r1 now1 j ≡ ok proof_of
  unfolding consumption
  consumption-eq-proof i challenged accepted =
      let declares =
        (consume_terminal-IsAuthorized crypto v v1 now1 r1 challenge o digest a row.g00_sequence
          outcome accepted).outcome in
      let spends =
        consume_terminal-spend crypto challenge o digest a row.g00_sequence outcome v v1 now1 r1
          accepted in
      let consumes : consume_terminal crypto v now1 r1 challenge o digest a row.g00_sequence outcome
          ≡ ok (spend crypto r1 now1 v) =
        accepted ∙ ap ok spends in
      rw (resolvable-recoverable i, ap declared declares, challenged, consumes) refl

  resolve-eq-resolved :
      IsRecoverable o a digest row j
      → require_authority_binding crypto j ≡ ok v
      → bootstrap_challenge j ≡ ok challenge
      → consume_terminal crypto v now1 r1 challenge o digest a row.g00_sequence outcome ≡ ok v1
      → resolve_authenticated_terminal crypto completes completes d o a digest r1 now1 j
        ≡ returned resolved_journal
  unfolding resolve_authenticated_terminal connect on_tables resolution verdict_on
  resolve-eq-resolved i bound challenged accepted =
      let same : not (str_eq row.request_digest digest && str_eq row.g00_sequence row.g00_sequence)
          ≡ false =
        ground (
          arith,
          i.request,
          eq_iff row.request_digest digest,
          eq_iff row.g00_sequence row.g00_sequence,
        ) in
      rw (bound, consumption-eq-proof i challenged accepted, i.found, same, i.held, i.uncontested)
        refl

  binding-resolved :
      require_authority_binding crypto j ≡ ok v
      → require_authority_binding crypto resolved_journal ≡ ok (spend crypto r1 now1 v)
  unfolding require_authority_binding update_where
  binding-resolved = binding_of-spend crypto j.authority j.tables.identity v r1 now1

  row_of-resolved :
      IsRecoverable o a digest row j
      → row_of o a resolved_journal.tables ≡ some (recovered o a digest r1.nonce outcome now1 row)
  unfolding row_of update_where
  row_of-resolved i = find-updated o a digest r1.nonce outcome now1 j.tables.intents row i.found

  settled-resolved : IsRecoverable o a digest row j → restrictive_row resolved_journal.tables ≡ none
  unfolding restrictive_row update_where
  settled-resolved i = settled-updated o a digest r1.nonce outcome now1 j.tables.intents i.alone

  gated-resolved : (i : IsRecoverable o a digest row j) → resolved_journal.tables.gate ≡ some i.gate
  unfolding update_where
  gated-resolved i = i.gated

  settled-gate :
      (t : Tables) (gate : Option ExposureGate)
      → restrictive_row t ≡ none
      → restrictive_row (record t { gate = gate }) ≡ none
  unfolding restrictive_row
  settled-gate t gate h = h

  row_of-gate :
      (t : Tables) (gate : Option ExposureGate) {found : Option RecoveryRecord}
      → row_of o a t ≡ found
      → row_of o a (record t { gate = gate }) ≡ found
  unfolding row_of
  row_of-gate t gate h = h

  reconciled-resolved :
      IsRecoverable o a digest row j
      → reconciled crypto (some (recovered o a digest r1.nonce outcome now1 row)) digest
        ≡ ok (recovered o a digest r1.nonce outcome now1 row, outcome)
  reconciled-resolved i =
      let same : not (str_eq row.request_digest digest) ≡ false =
        ground (arith, i.request, eq_iff row.request_digest digest) in
      rw (same, outcome_of-target_of crypto outcome) refl

  attempt-recoverable : IsRecoverable o a digest row j → row.attempt_id ≡ a
  unfolding row_of
  attempt-recoverable i =
      let keyed = find-has_key o a j.tables.intents row i.found in
      ground (arith, keyed, eq_iff row.attempt_id a)

  challenged-resolved :
      bootstrap_challenge j ≡ ok challenge → bootstrap_challenge resolved_journal ≡ ok challenge
  unfolding bootstrap_challenge update_where
  challenged-resolved h = h

  requalify-resolved :
      (pick : Tables → String → Option RecoveryRecord) (d' : Denial)
      → IsRecoverable o a digest row j
      → require_authority_binding crypto j ≡ ok v
      → bootstrap_challenge j ≡ ok challenge
      → consume_terminal crypto v now2 r2 challenge o digest a row.g00_sequence outcome ≡ ok v2
      → r1.nonce ≢ r2.nonce
      → pick resolved_journal.tables o ≡ row_of o a resolved_journal.tables
      → IsReopened o a
          (cleared o digest outcome r1.nonce now1 row)
          r2
          now2
          (spend crypto r2 now2 (spend crypto r1 now1 v))
          (requalify_exposure crypto completes true d' pick o digest r2 now2 resolved_journal)
  unfolding requalify_exposure requalification connect exposure_allowed
  requalify-resolved pick d' i bound challenged second fresh fetched =
      let complete : (str_eq o "" || str_eq digest "") ≡ false =
        ground (arith, i.named, i.digested, eq_iff o "", eq_iff digest "") in
      let consumes =
        subst
          (λ x.
            consume_terminal crypto (spend crypto r1 now1 v) now2 r2 challenge o digest x
              row.g00_sequence outcome
            ≡ ok (spend crypto r2 now2 (spend crypto r1 now1 v)))
          (sym (attempt-recoverable i))
          (consume_terminal-later crypto challenge o digest a row.g00_sequence outcome v v2 now2
            now1 r2 r1 second fresh) in
      rw
        (
          complete,
          binding-resolved bound,
          fetched ∙ row_of-resolved i,
          reconciled-resolved i,
          settled-resolved i,
          challenged-resolved challenged,
          consumes,
        )
        (record {
          returns = refl;
          allowed = refl;
          durable = ap (opened crypto r2 now2) (gated-resolved i);
          unmarked = refl;
          settled = settled-gate resolved_journal.tables _ (settled-resolved i);
          recovered = row_of-gate resolved_journal.tables _ (row_of-resolved i);
          spent = refl;
        })

  -- An attempt is on hold without a conflict, no other row forbids exposure, and the journal has its
  -- identity and the row of its gate. Where every connection completes, a receipt that the bound authority
  -- accepts for the attempt recovers it; where also the statement that requalifies fetches the attempt's
  -- row and the sentinel is removed, a second receipt, with another nonce, which the authority accepts for
  -- the same attempt and outcome, then opens exposure, durably and on its own evidence. The attempt's row
  -- is the recovered one then, no restrictive row is left, and both receipts are spent.
  pub requalify-IsReopened :
      (pick : Tables → String → Option RecoveryRecord) (d' : Denial)
      → IsRecoverable o a digest row j
      → require_authority_binding crypto j ≡ ok v
      → bootstrap_challenge j ≡ ok challenge
      → consume_terminal crypto v now1 r1 challenge o digest a row.g00_sequence outcome ≡ ok v1
      → consume_terminal crypto v now2 r2 challenge o digest a row.g00_sequence outcome ≡ ok v2
      → r1.nonce ≢ r2.nonce
      → pick recovered_journal.tables o ≡ row_of o a recovered_journal.tables
      → IsReopened o a
          (cleared o digest outcome r1.nonce now1 row)
          r2
          now2
          (spend crypto r2 now2 (spend crypto r1 now1 v))
          (requalify_exposure crypto completes true d' pick o digest r2 now2 recovered_journal)
  requalify-IsReopened pick d' i bound challenged first second fresh fetched =
      let resolves = resolve-eq-resolved i bound challenged first in
      let same : recovered_journal ≡ resolved_journal = ap journal_after resolves in
      subst
        (λ x.
          IsReopened o a (cleared o digest outcome r1.nonce now1 row) r2 now2
            (spend crypto r2 now2 (spend crypto r1 now1 v))
            (requalify_exposure crypto completes true d' pick o digest r2 now2 x))
        (sym same)
        (requalify-resolved pick d' i bound challenged second fresh
          (subst (λ x. pick x.tables o ≡ row_of o a x.tables) same fetched))
