-- ===== src/Stage5/Admission/Accepted.antt =====
-- What an accepted receipt has been checked for.
use automated_trading_bot.Prelude.{
  ℕ, false, not, Option, none, some, ◌∷◌, str_eq, eq_iff, ok, ◌≡◌, sym, ap, ◌∙◌, arith,
  ok_injective, >>-eq-ok, >>=-eq-ok, raise_if, raise_if-eq-ok,
}
use automated_trading_bot.Stage5.Admission.{
  G00AdmissionReceipt, VerifiedG00Attestation, AdmissionContext, SigningKey, SyntheticG00TrustRoot,
  Codes, secret_of, contains, key_or_reject, check_receipt, consume_nonce, verify_and_consume,
}

module _ (codes : Codes) where
  -- A receipt that is consumed: under a key of the ring that is not revoked, with that key's code, and
  -- with a fresh nonce that is spent from then on.
  pub record IsConsumed (root root' : SyntheticG00TrustRoot) (r : G00AdmissionReceipt)
      : Type 0 where
    pub trusted : contains r.content.key_id root.revoked ≡ false
    pub key : SigningKey
    pub found : secret_of root r.content.key_id ≡ some key
    pub signed : r.signature ≡ codes.hmac_sha256 key.secret (codes.payload r.content)
    pub fresh : contains r.content.nonce root.consumed_nonces ≡ false
    pub spent : root' ≡ record root { consumed_nonces = r.content.nonce ∷ root.consumed_nonces }

  key_or_reject-eq-ok :
      (k : Option SigningKey) (key : SigningKey) → key_or_reject codes k ≡ ok key → k ≡ some key
  key_or_reject-eq-ok none key h = cc
  key_or_reject-eq-ok (some k) key h = ap some (ok_injective h)

  consume_nonce-IsConsumed :
      (root root' : SyntheticG00TrustRoot) (r : G00AdmissionReceipt)
      → consume_nonce codes root r ≡ ok root'
      → IsConsumed root root' r
  unfolding consume_nonce
  consume_nonce-IsConsumed root root' r h =
      let (g1, h1) = >>-eq-ok (raise_if (contains r.content.key_id root.revoked) _) _ h in
      let (k, found, h2) = >>=-eq-ok (key_or_reject codes (secret_of root r.content.key_id)) _ h1 in
      let (g2, h3) =
        >>-eq-ok
          (raise_if
            (not (str_eq r.signature (codes.hmac_sha256 k.secret (codes.payload r.content)))) _)
          _ h2 in
      let (g3, last) = >>-eq-ok (raise_if (contains r.content.nonce root.consumed_nonces) _) _ h3 in
      let unforged = raise_if-eq-ok _ _ g2 in
      record {
        trusted = raise_if-eq-ok _ _ g1;
        key = k;
        found = key_or_reject-eq-ok _ k found;
        signed = ground (
          arith,
          unforged,
          eq_iff r.signature (codes.hmac_sha256 k.secret (codes.payload r.content)),
        );
        fresh = raise_if-eq-ok _ _ g3;
        spent = sym (ok_injective last);
      }

  pub verify-IsConsumed :
      (now : ℕ) (root root' : SyntheticG00TrustRoot) (r : G00AdmissionReceipt)
      (x : AdmissionContext) (v : VerifiedG00Attestation)
      → verify_and_consume codes now root r x ≡ ok (v, root')
      → IsConsumed root root' r
  unfolding verify_and_consume
  verify-IsConsumed now root root' r x v h =
      let (_, h1) = >>-eq-ok (check_receipt codes now r x) _ h in
      let (root'', consumed, last) = >>=-eq-ok (consume_nonce codes root r) _ h1 in
      let same : root'' ≡ root' = ap (λ p. p.1) (ok_injective last) in
      consume_nonce-IsConsumed root root' r (consumed ∙ ap ok same)
