-- ===== src/Stage5/Authority/Accepted.antt =====
-- What a receipt that the authority accepts has been checked for.
use automated_trading_bot.Prelude.{
  ℕ, ◌+◌, ◌≤◌, ◌<◌, String, true, Option, none, some, eq_iff, ==_iff, ok, ◌≡◌, refl, ap, arith,
  >>-eq-ok,
}
use automated_trading_bot.Stage5.Authority.{
  RecoveryReceiptType, terminal, type_eq, RecoveryTerminalOutcome, outcome_committed,
  outcome_denied, terminal_eq, RecoveryReceipt, RecoveryAuthorityVerifier, Crypto,
  verify_rsa_signature, validate_common, is_text, check_terminal, consume_terminal,
}

-- The checks of a receipt that is consumed at `now` against an authority.
pub record IsAuthentic (crypto : Crypto) (a : RecoveryAuthorityVerifier) (now : ℕ)
    (expected : RecoveryReceiptType) (challenge : String) (receipt : RecoveryReceipt) : Type 0 where
  pub kind : type_eq receipt.receipt_type expected ≡ true
  pub installation : receipt.installation_id ≡ a.policy.installation_id
  pub challenged : receipt.store_challenge ≡ challenge
  pub issuer : receipt.issuer_identity ≡ a.policy.issuer_identity
  pub policy_version : receipt.policy_version ≡ a.policy.policy_version
  pub issuer_epoch : receipt.issuer_epoch ≡ a.policy.issuer_epoch
  pub not_early : receipt.valid_from_ns ≤ now + a.policy.max_future_skew_ns
  pub not_late : now ≤ receipt.valid_until_ns
  pub lasting : receipt.valid_from_ns < receipt.valid_until_ns
  pub signed :
      verify_rsa_signature crypto (crypto.payload receipt) receipt.signature a.policy ≡ true

module _ (crypto : Crypto) (a : RecoveryAuthorityVerifier) (now : ℕ) (receipt : RecoveryReceipt)
    (expected : RecoveryReceiptType) (challenge : String) where
  validate_common-IsAuthentic :
      validate_common crypto a now receipt expected challenge ≡ ok tt
      → IsAuthentic crypto a now expected challenge receipt
  unfolding validate_common
  validate_common-IsAuthentic h = record {
    kind = ground (arith, h);
    installation = ground (arith, h, eq_iff receipt.installation_id a.policy.installation_id);
    challenged = ground (arith, h, eq_iff receipt.store_challenge challenge);
    issuer = ground (arith, h, eq_iff receipt.issuer_identity a.policy.issuer_identity);
    policy_version = ground (arith, h, ==_iff receipt.policy_version a.policy.policy_version);
    issuer_epoch = ground (arith, h, ==_iff receipt.issuer_epoch a.policy.issuer_epoch);
    not_early = ground (arith, h);
    not_late = ground (arith, h);
    lasting = ground (arith, h);
    signed = ground (arith, h);
  }

module _ (crypto : Crypto) where
  -- A receipt that is accepted for a terminal outcome is authentic, of the terminal kind, and names the
  -- operation, the request, the attempt, the sequence and the outcome that it is presented for.
  pub record IsAuthorized (v : RecoveryAuthorityVerifier) (now : ℕ) (r : RecoveryReceipt)
      (challenge o digest a g00 : String) (expected : RecoveryTerminalOutcome) : Type 0 where
    pub authentic : IsAuthentic crypto v now terminal challenge r
    pub operation : r.operation_id ≡ some o
    pub request : r.request_digest ≡ some digest
    pub attempt : r.attempt_id ≡ some a
    pub sequence : r.g00_sequence ≡ some g00
    pub outcome : r.terminal_outcome ≡ some expected

  is_text-eq : (s : String) (t : Option String) → is_text crypto s t ≡ true → t ≡ some s
  is_text-eq s none h = cc
  is_text-eq s (some t) h = let same : t ≡ s = ground (arith, h, eq_iff t s) in ap some same

  terminal_eq-true : (a b : RecoveryTerminalOutcome) → terminal_eq a b ≡ true → a ≡ b
  terminal_eq-true outcome_committed outcome_committed h = refl
  terminal_eq-true outcome_committed outcome_denied h = cc
  terminal_eq-true outcome_denied outcome_committed h = cc
  terminal_eq-true outcome_denied outcome_denied h = refl

  check_terminal-eq-ok :
      (r : RecoveryReceipt) (o digest a g00 : String) (expected : RecoveryTerminalOutcome)
      (found : Option RecoveryTerminalOutcome)
      → check_terminal crypto r o digest a g00 expected found ≡ ok tt
      → (is_text crypto o r.operation_id ≡ true)
        × (is_text crypto digest r.request_digest ≡ true)
        × (is_text crypto a r.attempt_id ≡ true)
        × (is_text crypto g00 r.g00_sequence ≡ true)
        × (found ≡ some expected)
  check_terminal-eq-ok r o digest a g00 expected none h = cc
  check_terminal-eq-ok r o digest a g00 expected (some x) h = (
    ground (arith, h),
    ground (arith, h),
    ground (arith, h),
    ground (arith, h),
    ap some (terminal_eq-true x expected (ground (arith, h))),
  )

  -- What the authority accepts for a terminal outcome is signed under its policy, within its validity,
  -- and bound to exactly that operation, request, attempt, sequence and outcome.
  pub consume_terminal-IsAuthorized :
      (v v' : RecoveryAuthorityVerifier) (now : ℕ) (r : RecoveryReceipt)
      (challenge o digest a g00 : String) (expected : RecoveryTerminalOutcome)
      → consume_terminal crypto v now r challenge o digest a g00 expected ≡ ok v'
      → IsAuthorized v now r challenge o digest a g00 expected
  unfolding consume_terminal
  consume_terminal-IsAuthorized v v' now r challenge o digest a g00 expected h =
      let (valid, h') = >>-eq-ok (validate_common crypto v now r terminal challenge) _ h in
      let (checked, _) =
        >>-eq-ok (check_terminal crypto r o digest a g00 expected r.terminal_outcome) _ h' in
      let (c0, c1, c2, c3, c4) =
        check_terminal-eq-ok r o digest a g00 expected r.terminal_outcome checked in
      record {
        authentic = validate_common-IsAuthentic crypto v now r terminal challenge valid;
        operation = is_text-eq o r.operation_id c0;
        request = is_text-eq digest r.request_digest c1;
        attempt = is_text-eq a r.attempt_id c2;
        sequence = is_text-eq g00 r.g00_sequence c3;
        outcome = c4;
      }
