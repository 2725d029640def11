-- ===== src/Stage5/Authority/Later.antt =====
-- A receipt that the authority accepts, it still accepts after it has consumed another one.
use automated_trading_bot.Prelude.{
  ℕ, String, false, ◌∷◌, any, str_eq, eq_iff, ok, ◌≡◌, ◌≢◌, refl, sym, arith, ok_injective,
  >>-eq-ok, Bool-cases, inl, inr,
}
use automated_trading_bot.Stage5.Authority.{
  terminal, RecoveryTerminalOutcome, RecoveryReceipt, RecoveryAuthorityVerifier, Crypto,
  validate_common, consumed_row, consume, check_terminal, consume_terminal,
}

module _ (crypto : Crypto) where
  abbrev pub spend : RecoveryReceipt → ℕ → RecoveryAuthorityVerifier → RecoveryAuthorityVerifier
  spend r now v = record v { consumed = consumed_row crypto r now ∷ v.consumed }

  consume-eq-ok :
      (v v' : RecoveryAuthorityVerifier) (now : ℕ) (r : RecoveryReceipt)
      → consume crypto v now r ≡ ok v'
      → (any (λ row. str_eq row.nonce r.nonce) v.consumed ≡ false) × (v' ≡ spend r now v)
  unfolding consume
  consume-eq-ok v v' now r h =
      elim (Bool-cases (any (λ row. str_eq row.nonce r.nonce) v.consumed)) [
        | inl e ↦ let bad = rw e at h in cc
        | inr e ↦ (e, sym (ok_injective (rw e at h)))
      ]

  module _ (challenge o digest a g00 : String) (expected : RecoveryTerminalOutcome) where
    pub consume_terminal-spend :
        (v v' : RecoveryAuthorityVerifier) (now : ℕ) (r : RecoveryReceipt)
        → consume_terminal crypto v now r challenge o digest a g00 expected ≡ ok v'
        → v' ≡ spend r now v
    unfolding consume_terminal
    consume_terminal-spend v v' now r h =
        let (_, h1) = >>-eq-ok (validate_common crypto v now r terminal challenge) _ h in
        let (_, last) =
          >>-eq-ok (check_terminal crypto r o digest a g00 expected r.terminal_outcome) _ h1 in
        (consume-eq-ok v v' now r last).1

    -- The receipts have different nonces.
    pub consume_terminal-later :
        (v v' : RecoveryAuthorityVerifier) (now earlier : ℕ) (r other : RecoveryReceipt)
        → consume_terminal crypto v now r challenge o digest a g00 expected ≡ ok v'
        → other.nonce ≢ r.nonce
        → consume_terminal crypto (spend other earlier v) now r challenge o digest a g00 expected
          ≡ ok (spend r now (spend other earlier v))
    unfolding consume_terminal validate_common consume
    consume_terminal-later v v' now earlier r other h fresh =
        let (valid, h1) = >>-eq-ok (validate_common crypto v now r terminal challenge) _ h in
        let (checked, last) =
          >>-eq-ok (check_terminal crypto r o digest a g00 expected r.terminal_outcome) _ h1 in
        let unspent = (consume-eq-ok v v' now r last).0 in
        let differs : str_eq other.nonce r.nonce ≡ false =
          ground (arith, fresh, eq_iff other.nonce r.nonce) in
        rw (valid, checked, differs, unspent) refl
