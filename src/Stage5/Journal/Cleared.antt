-- ===== src/Stage5/Journal/Cleared.antt =====
-- The journal before and after an attempt on hold is recovered, row by row.
use automated_trading_bot.Prelude.{
  ℕ, String, true, false, ◌&&◌, not, List, [], ◌∷◌, Option, none, some, map, any, find,
  if◌then◌else◌, ok, ◌≡◌, ◌≢◌, refl, ap, arith, ok_injective, Bool-cases, inl, inr,
}
use mathlib.Core.Option.{some-injective}
use mathlib.Core.Path.{subst}
use automated_trading_bot.Stage5.Authority.{
  RecoveryTerminalOutcome, outcome_committed, outcome_denied, RecoveryReceipt,
  RecoveryAuthorityVerifier, Crypto,
}
use automated_trading_bot.Stage5.Authority.Later.{spend}
use automated_trading_bot.Stage5.Journal.Records.{
  RecoveryRecord, ambiguous_hold, is_restrictive, ExposureGate, JournalIdentity, RecoveryJournal,
  has_key, row_of, has_conflict,
}
use automated_trading_bot.Stage5.Journal.Opening.{binds, binding_of}
use automated_trading_bot.Stage5.Journal.Recovery.{outcome_of}
use automated_trading_bot.Stage5.Journal.Resolution.{target_of, cleared}

-- The attempt is on hold, without a conflict, and nothing else of the journal forbids exposure.
pub record IsRecoverable (o a digest : String) (row : RecoveryRecord) (j : RecoveryJournal)
    : Type 0 where
  pub named : o ≢ ""
  pub digested : digest ≢ ""
  pub found : row_of o a j.tables ≡ some row
  pub request : row.request_digest ≡ digest
  pub held : row.state ≡ ambiguous_hold
  pub uncontested : has_conflict o a j.tables ≡ false
  pub alone : any (λ r. is_restrictive r.state && not (has_key o a r)) j.tables.intents ≡ false
  pub gate : ExposureGate
  pub gated : j.tables.gate ≡ some gate

pub target_of-free :
    (outcome : RecoveryTerminalOutcome) → is_restrictive (target_of outcome) ≡ false
target_of-free outcome_committed = refl
target_of-free outcome_denied = refl

pub outcome_of-target_of :
    (crypto : Crypto) (outcome : RecoveryTerminalOutcome)
    → outcome_of crypto (target_of outcome) ≡ some outcome
outcome_of-target_of crypto outcome_committed = refl
outcome_of-target_of crypto outcome_denied = refl

pub binding_of-spend :
    (crypto : Crypto) (m : Option RecoveryAuthorityVerifier) (identity : Option JournalIdentity)
    (v : RecoveryAuthorityVerifier) (r : RecoveryReceipt) (now : ℕ)
    → binding_of crypto m identity ≡ ok v
    → binding_of crypto (some (spend crypto r now v)) identity ≡ ok (spend crypto r now v)
binding_of-spend crypto none identity v r now h = cc
binding_of-spend crypto (some w) none v r now h = cc
binding_of-spend crypto (some w) (some i) v r now h = elim (Bool-cases (binds crypto (some i) w)) [
  | inl e ↦
      let same : w ≡ v = ok_injective (rw e at h) in
      let binding : binds crypto (some i) v ≡ true =
        subst (λ x. binds crypto (some i) x ≡ true) same e in
      rw binding refl
  | inr e ↦ let bad = rw e at h in cc
]

module _ (o a : String) where
  pub find-has_key :
      (rows : List RecoveryRecord) (row : RecoveryRecord)
      → find (has_key o a) rows ≡ some row
      → has_key o a row ≡ true
  find-has_key [] row h = cc
  find-has_key (r ∷ rows) row h = elim (Bool-cases (has_key o a r)) [
    | inl k ↦
        let same : some r ≡ some row = rw k at h in
        subst (λ x. has_key o a x ≡ true) (some-injective r row same) k
    | inr k ↦ find-has_key rows row (rw k at h)
  ]

  module _ (digest nonce : String) (outcome : RecoveryTerminalOutcome) (now : ℕ) where
    abbrev pub recovered : RecoveryRecord → RecoveryRecord
    recovered = cleared o digest outcome nonce now

    abbrev updated : List RecoveryRecord → List RecoveryRecord
    updated rows = map (λ r. if has_key o a r then recovered r else r) rows

    pub find-updated :
        (rows : List RecoveryRecord) (row : RecoveryRecord)
        → find (has_key o a) rows ≡ some row
        → find (has_key o a) (updated rows) ≡ some (recovered row)
    find-updated [] row h = cc
    find-updated (r ∷ rows) row h = elim (Bool-cases (has_key o a r)) [
      | inl k ↦
          let same : some r ≡ some row = rw k at h in
          rw (k, k) (ap (λ x. some (recovered x)) (some-injective r row same))
      | inr k ↦ rw (k, k) (find-updated rows row (rw k at h))
    ]

    pub settled-updated :
        (rows : List RecoveryRecord)
        → any (λ r. is_restrictive r.state && not (has_key o a r)) rows ≡ false
        → find (λ r. is_restrictive r.state) (updated rows) ≡ none
    settled-updated [] h = refl
    settled-updated (r ∷ rows) h =
        let rest = settled-updated rows (ground (arith, h)) in
        elim (Bool-cases (has_key o a r)) [
          | inl k ↦ rw (k, target_of-free outcome) rest
          | inr k ↦
              let free : is_restrictive r.state ≡ false = ground (arith, h, k) in rw (k, free) rest
        ]
