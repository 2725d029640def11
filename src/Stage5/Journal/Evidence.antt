-- ===== src/Stage5/Journal/Evidence.antt =====
-- What a resolution rests on, and what evidence does that contradicts what was recovered before.
use automated_trading_bot.Prelude.{
  ℕ, String, Bool, true, false, ◌&&◌, not, List, [], ◌∷◌, Option, none, some, find, str_eq, eq_iff,
  Result, ok, err, ◌≡◌, refl, sym, ap, ◌∙◌, arith, ok_injective, >>-eq-ok, >>=-eq-ok, raise_if,
  raise_if-eq-ok, Bool-cases, ◌⊎◌, inl, inr, if◌then◌else◌, map,
}
use mathlib.Core.Path.{subst}
use automated_trading_bot.Stage5.Authority.{
  RecoveryTerminalOutcome, outcome_committed, outcome_denied, RecoveryReceipt,
  RecoveryAuthorityVerifier, RecoveryAuthorityError, Crypto, consume_terminal,
}
use automated_trading_bot.Stage5.Authority.Accepted.{IsAuthorized, consume_terminal-IsAuthorized}
use automated_trading_bot.Stage5.Journal.Records.{
  RecoveryState, RecoveryRecord, RecoveryJournal, journal_conflict, has_key, row_of, has_conflict,
}
use automated_trading_bot.Stage5.Journal.Connection.{
  Denial, completes, Answer, raised, journal_after, close_exposure, connect, on_tables,
  update_where,
}
use automated_trading_bot.Stage5.Journal.Intents.{row_is_held}
use automated_trading_bot.Stage5.Journal.Opening.{
  of_authority, bootstrap_challenge, require_authority_binding,
}
use automated_trading_bot.Stage5.Journal.Resolution.{
  target_of, resolvable, declared, Evidence, verdict, conflicts_again, conflicts_with, held_again,
  state_at, verdict_on, resolution, consumption, resolve_authenticated_terminal,
}
use automated_trading_bot.Stage5.Journal.Holding.{IsHeld}
use automated_trading_bot.Stage5.Journal.Closing.{IsClosed, deny-IsClosed}
use automated_trading_bot.Stage5.Journal.Kept.{OnJournal}

-- The row, the outcome and the consumed receipt of a resolution.
pub record IsEvidence (crypto : Crypto) (v : RecoveryAuthorityVerifier) (o a digest : String)
    (receipt : RecoveryReceipt) (now : ℕ) (j : RecoveryJournal) (e : Evidence) : Type 0 where
  pub row : row_of o a j.tables ≡ some e.row
  pub request : e.row.request_digest ≡ digest
  pub challenge : String
  pub challenged : bootstrap_challenge j ≡ ok challenge
  pub authorized :
      IsAuthorized crypto v now receipt challenge o digest a e.row.g00_sequence e.outcome

of_authority-eq-ok :
    (r : Result RecoveryAuthorityError RecoveryAuthorityVerifier) (v : RecoveryAuthorityVerifier)
    → of_authority r ≡ ok v
    → r ≡ ok v
of_authority-eq-ok (ok w) v h = ap ok (ok_injective h)
of_authority-eq-ok (err e) v h = cc

resolvable-eq-ok :
    (found : Option RecoveryRecord) (digest : String) (row : RecoveryRecord)
    → resolvable found digest ≡ ok row
    → (found ≡ some row) × (row.request_digest ≡ digest)
resolvable-eq-ok none digest row h = cc
resolvable-eq-ok (some r) digest row h =
    let (g, h1) = >>-eq-ok (raise_if (not (str_eq r.request_digest digest)) _) _ h in
    let (_, last) = >>-eq-ok (raise_if _ _) _ h1 in
    let same : r ≡ row = ok_injective last in
    let equal = raise_if-eq-ok (not (str_eq r.request_digest digest)) _ g in
    let known : r.request_digest ≡ digest = ground (arith, equal, eq_iff r.request_digest digest) in
    (ap some same, ap (λ x. x.request_digest) (sym same) ∙ known)

module _ (crypto : Crypto) (v : RecoveryAuthorityVerifier) (o a digest : String)
    (receipt : RecoveryReceipt) (now : ℕ) where
  -- Where the receipt of a resolution is consumed, it is signed under the policy of the bound authority,
  -- within its validity, and names the attempt's row: its operation, request, attempt and sequence, for
  -- this very store.
  pub consumption-IsEvidence :
      (j : RecoveryJournal) (e : Evidence)
      → consumption crypto v o a digest receipt now j ≡ ok e
      → IsEvidence crypto v o a digest receipt now j e
  unfolding consumption
  consumption-IsEvidence j e h =
      let (row, r, h1) = >>=-eq-ok (resolvable (row_of o a j.tables) digest) _ h in
      let (outcome, _, h2) = >>=-eq-ok (declared receipt.terminal_outcome) _ h1 in
      let (challenge, challenged, h3) = >>=-eq-ok (bootstrap_challenge j) _ h2 in
      let (v', consumed, last) =
        >>=-eq-ok
          (of_authority
            (consume_terminal crypto v now receipt challenge o digest a row.g00_sequence outcome))
          _ h3 in
      let (found, known) = resolvable-eq-ok (row_of o a j.tables) digest row r in
      subst (IsEvidence crypto v o a digest receipt now j) (ok_injective last) (record {
        row = found;
        request = known;
        challenge = challenge;
        challenged = challenged;
        authorized =
            consume_terminal-IsAuthorized crypto v v' now receipt challenge o digest a
              row.g00_sequence outcome (of_authority-eq-ok _ v' consumed);
      })

-- The outcome that evidence contradicts.
abbrev pub contrary : RecoveryTerminalOutcome → RecoveryTerminalOutcome
contrary outcome_committed = outcome_denied
contrary outcome_denied = outcome_committed

found-held :
    (o a : String) (now : ℕ) (rows : List RecoveryRecord) (row : RecoveryRecord)
    → find (has_key o a) rows ≡ some row
    → row_is_held
        (find (has_key o a) (map (λ r. if has_key o a r then held_again now r else r) rows))
      ≡ true
found-held o a now [] row h = cc
found-held o a now (r ∷ rows) row h = elim (Bool-cases (has_key o a r)) [
  | inl k ↦ rw (k, k) refl
  | inr k ↦ rw (k, k) (found-held o a now rows row (rw k at h))
]

abbrev conflict_message : String
conflict_message = "conflicting authenticated terminal evidence requires a hold"

-- The attempt is held, exposure is closed, and the operation has raised a conflict.
pub record IsContested (o a : String) (x : Answer) : Type 0 where
  pub held : OnJournal (IsHeld o a) (journal_after x)
  pub closed : IsClosed (journal_after x)
  pub conflict : x ≡ raised (journal_conflict conflict_message) (journal_after x)

module _ (crypto : Crypto) (v : RecoveryAuthorityVerifier) (d : Denial) (o a digest : String)
    (receipt : RecoveryReceipt) (now : ℕ) (j : RecoveryJournal) (e : Evidence) where
  state_at-recovered :
      IsEvidence crypto v o a digest receipt now j e
      → state_at o a digest e.row (row_of o a j.tables) ≡ ok e.row.state
  state_at-recovered i =
      let same : not
            (str_eq e.row.request_digest digest && str_eq e.row.g00_sequence e.row.g00_sequence)
          ≡ false =
        ground (
          arith,
          i.request,
          eq_iff e.row.request_digest digest,
          eq_iff e.row.g00_sequence e.row.g00_sequence,
        ) in
      rw (i.row, same) refl

  contested :
      (s : RecoveryState) (outcome : RecoveryTerminalOutcome) (retained : Bool)
      → s ≡ target_of (contrary outcome)
      → (verdict retained s outcome ≡ conflicts_again)
        ⊎ (verdict retained s outcome ≡ conflicts_with s)
  contested s outcome true h = inl refl
  contested s outcome_committed false h = rw h (inr refl)
  contested s outcome_denied false h = rw h (inr refl)

  -- Where the connection that reads the attempt and the one that writes its verdict both complete, a
  -- receipt that the bound authority accepts for the contrary of what the attempt was recovered as raises
  -- a conflict, puts the attempt back on hold, and closes exposure.
  pub resolve-contrary :
      require_authority_binding crypto j ≡ ok v
      → consumption crypto v o a digest receipt now j ≡ ok e
      → e.row.state ≡ target_of (contrary e.outcome)
      → IsContested o a
          (resolve_authenticated_terminal crypto completes completes d o a digest receipt now j)
  unfolding resolve_authenticated_terminal connect on_tables resolution verdict_on row_of
      update_where close_exposure
  resolve-contrary bound consumed opposite =
      let i = consumption-IsEvidence crypto v o a digest receipt now j e consumed in
      let s = state_at-recovered i in
      elim (contested e.row.state e.outcome (has_conflict o a j.tables) opposite) [
        | inl again ↦
            rw (bound, consumed, s, again)
              (record {
                held = found-held o a now j.tables.intents e.row i.row;
                closed = deny-IsClosed d _ _;
                conflict = refl;
              })
        | inr with_prior ↦
            rw (bound, consumed, s, with_prior)
              (record {
                held = found-held o a now j.tables.intents e.row i.row;
                closed = deny-IsClosed d _ _;
                conflict = refl;
              })
      ]
