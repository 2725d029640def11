-- ===== src/Stage5/Authority/Once.antt =====
-- The authority consumes a receipt once.
use automated_trading_bot.Prelude.{
  ℕ, String, Bool, true, false, ◌||◌, List, [], ◌∷◌, any, str_eq, eq_iff, Result, ok, err, ◌≡◌, ◌≢◌,
  refl, sym, ap, arith, ok_injective, >>-eq-ok, raise_if, Bool-cases, inl, inr,
}
use mathlib.Core.Path.{subst}
use automated_trading_bot.Stage5.Authority.{
  bootstrap, terminal, RecoveryTerminalOutcome, RecoveryReceipt, ConsumedReceipt,
  RecoveryAuthorityVerifier, Crypto, RecoveryAuthorityError, terminal_context, validate_common,
  consumed_row, consume, filled, decided, consume_bootstrap, check_terminal, consume_terminal,
}

-- A receipt that is presented to the authority, with the context that it is presented for.
pub data Presentation : Type 0 where
  for_bootstrap : ℕ → RecoveryReceipt → String → Presentation
  for_terminal :
      ℕ
      → RecoveryReceipt
      → String
      → String
      → String
      → String
      → String
      → RecoveryTerminalOutcome
      → Presentation

abbrev pub presented : Presentation → RecoveryReceipt
presented (for_bootstrap now r challenge) = r
presented (for_terminal now r challenge o digest a g00 expected) = r

module _ (crypto : Crypto) where
  unfoldable pub present :
      RecoveryAuthorityVerifier
      → Presentation
      → Result RecoveryAuthorityError RecoveryAuthorityVerifier
  present v (for_bootstrap now r challenge) = consume_bootstrap crypto v now r challenge
  present v (for_terminal now r challenge o digest a g00 expected) =
      consume_terminal crypto v now r challenge o digest a g00 expected

  abbrev pub verifier_after :
      RecoveryAuthorityVerifier
      → Result RecoveryAuthorityError RecoveryAuthorityVerifier
      → RecoveryAuthorityVerifier
  verifier_after v (ok v') = v'
  verifier_after v (err e) = v

  -- A life of the authority's store.
  unfoldable pub present_all :
      List Presentation → RecoveryAuthorityVerifier → RecoveryAuthorityVerifier
  present_all [] v = v
  present_all (p ∷ ps) v = present_all ps (verifier_after v (present v p))

  abbrev spent : String → List ConsumedReceipt → Bool
  spent nonce rows = any (λ row. str_eq row.nonce nonce) rows

  -- A presentation that is accepted finds its nonce unspent, and spends it.
  record IsSpending (now : ℕ) (r : RecoveryReceipt) (v v' : RecoveryAuthorityVerifier)
      : Type 0 where
    unspent : spent r.nonce v.consumed ≡ false
    after : v'.consumed ≡ consumed_row crypto r now ∷ v.consumed

  consume-IsSpending :
      (v v' : RecoveryAuthorityVerifier) (now : ℕ) (r : RecoveryReceipt)
      → consume crypto v now r ≡ ok v'
      → IsSpending now r v v'
  unfolding consume
  consume-IsSpending v v' now r h = elim (Bool-cases (spent r.nonce v.consumed)) [
    | inl e ↦ let bad = rw e at h in cc
    | inr e ↦
        let same = ok_injective (rw e at h) in
        record { unspent = e; after = sym (ap (λ x. x.consumed) same) }
  ]

  abbrev time_of : Presentation → ℕ
  time_of (for_bootstrap now r challenge) = now
  time_of (for_terminal now r challenge o digest a g00 expected) = now

  present-IsSpending :
      (v v' : RecoveryAuthorityVerifier) (p : Presentation)
      → present v p ≡ ok v'
      → IsSpending (time_of p) (presented p) v v'
  unfolding present consume_bootstrap consume_terminal
  present-IsSpending v v' (for_bootstrap now r challenge) h =
      let (_, h') = >>-eq-ok (validate_common crypto v now r bootstrap challenge) _ h in
      let (_, last) =
        >>-eq-ok
          (raise_if
            (filled crypto r.operation_id
              || filled crypto r.request_digest
              || filled crypto r.attempt_id
              || filled crypto r.g00_sequence
              || decided crypto r.terminal_outcome)
            terminal_context)
          _ h' in
      consume-IsSpending v v' now r last
  present-IsSpending v v' (for_terminal now r challenge o digest a g00 expected) h =
      let (_, h') = >>-eq-ok (validate_common crypto v now r terminal challenge) _ h in
      let (_, last) =
        >>-eq-ok (check_terminal crypto r o digest a g00 expected r.terminal_outcome) _ h' in
      consume-IsSpending v v' now r last

  spent-stays :
      (nonce : String) (ps : List Presentation) (v : RecoveryAuthorityVerifier)
      → spent nonce v.consumed ≡ true
      → spent nonce (present_all ps v).consumed ≡ true
  unfolding present_all
  spent-stays nonce [] v s = s
  spent-stays nonce (p ∷ ps) v s =
      spent-stays nonce ps (verifier_after v (present v p)) (still (present v p) refl)
    where
      still :
          (r : Result RecoveryAuthorityError RecoveryAuthorityVerifier)
          → present v p ≡ r
          → spent nonce (verifier_after v r).consumed ≡ true
      still (err e) h = s
      still (ok v') h = rw ((present-IsSpending v v' p h).after) (ground (arith, s))

  -- Once the authority has accepted a receipt, whatever is presented to it afterwards, it accepts no
  -- receipt with the same nonce again, neither for a bootstrap nor for a terminal outcome.
  pub present-once :
      (v v' v'' : RecoveryAuthorityVerifier) (p again : Presentation) (between : List Presentation)
      → present v p ≡ ok v'
      → (presented again).nonce ≡ (presented p).nonce
      → present (present_all between v') again ≢ ok v''
  present-once v v' v'' p again between accepted same h =
      let first = present-IsSpending v v' p accepted in
      let now_spent : spent (presented p).nonce v'.consumed ≡ true =
        rw first.after (ground (arith, eq_iff (presented p).nonce (presented p).nonce)) in
      let later = present-IsSpending (present_all between v') v'' again h in
      let unspent : spent (presented p).nonce (present_all between v').consumed ≡ false =
        subst (λ n. spent n (present_all between v').consumed ≡ false) same later.unspent in
      let stays = spent-stays (presented p).nonce between v' now_spent in cc
