-- ===== src/Stage5/Admission/Signed.antt =====
-- A signed receipt is accepted for as long as its key is not revoked and its nonce is not spent.
use automated_trading_bot.Prelude.{
  ℕ, true, false, Option, none, some, List, ◌∷◌, str_eq, eq_iff, ok, ◌≡◌, refl, ◌∙◌, arith,
  ok_injective, Bool-cases, inl, inr,
}
use mathlib.Core.Path.{subst}
use automated_trading_bot.Stage5.Admission.{
  ReceiptContent, G00AdmissionReceipt, AdmissionContext, SigningKey, SyntheticG00TrustRoot, Codes,
  secret_of, contains, signed_with, sign, check_receipt, consume_nonce, attestation,
  verify_and_consume,
}
use automated_trading_bot.Stage5.Admission.Once.{Use, use_all, use_all-Persists}

module _ (codes : Codes) where
  abbrev coded : ReceiptContent → SigningKey → G00AdmissionReceipt
  coded c k = record { content = c; signature = codes.hmac_sha256 k.secret (codes.payload c) }

  -- A signature is the code under the key that the ring holds.
  signed_with-eq-ok :
      (root : SyntheticG00TrustRoot) (c : ReceiptContent) (found : Option SigningKey)
      (r : G00AdmissionReceipt)
      → signed_with codes root c found ≡ ok r
      → (k : SigningKey) × (found ≡ some k) × (coded c k ≡ r)
  signed_with-eq-ok root c none r h = cc
  signed_with-eq-ok root c (some k) r h = elim (Bool-cases (contains c.key_id root.revoked)) [
    | inl e ↦ let bad = rw e at h in cc
    | inr e ↦ (k, refl, ok_injective (rw e at h))
  ]

  consume_nonce-coded :
      (root : SyntheticG00TrustRoot) (c : ReceiptContent) (k : SigningKey)
      → secret_of root c.key_id ≡ some k
      → contains c.key_id root.revoked ≡ false
      → contains c.nonce root.consumed_nonces ≡ false
      → consume_nonce codes root (coded c k)
        ≡ ok (record root { consumed_nonces = c.nonce ∷ root.consumed_nonces })
  unfolding consume_nonce
  consume_nonce-coded root c k found trusted fresh =
      let code = codes.hmac_sha256 k.secret (codes.payload c) in
      let same : str_eq code code ≡ true = ground (arith, eq_iff code code) in
      rw (trusted, found, same, fresh) refl

  same_secret :
      (root root' : SyntheticG00TrustRoot) (id : _)
      → root'.keys ≡ root.keys
      → secret_of root' id ≡ secret_of root id
  unfolding secret_of
  same_secret root root' id e = rw e refl

  -- A receipt that the trust root has signed is accepted, whatever else has been verified or revoked in
  -- the meantime, if by then its key is not revoked and its nonce is not spent, and it is complete, fresh
  -- and of the right context; its nonce is spent from then on.
  pub sign-verify :
      (now : ℕ) (root : SyntheticG00TrustRoot) (c : ReceiptContent) (r : G00AdmissionReceipt)
      (x : AdmissionContext) (between : List (Use codes))
      → sign codes root c ≡ ok r
      → contains c.key_id (use_all codes between root).revoked ≡ false
      → contains c.nonce (use_all codes between root).consumed_nonces ≡ false
      → check_receipt codes now r x ≡ ok tt
      → verify_and_consume codes now (use_all codes between root) r x
        ≡ ok (
          attestation codes r,
          record (use_all codes between root) {
            consumed_nonces = c.nonce ∷ (use_all codes between root).consumed_nonces;
          },
        )
  unfolding verify_and_consume sign
  sign-verify now root c r x between signed trusted fresh checked =
      let (k, found, same) = signed_with-eq-ok root c (secret_of root c.key_id) r signed in
      let later = use_all codes between root in
      let held =
        same_secret root later c.key_id (use_all-Persists codes between root).ring ∙ found in
      let spent =
        subst
          (λ s.
            consume_nonce codes later s
            ≡ ok (record later { consumed_nonces = c.nonce ∷ later.consumed_nonces }))
          same (consume_nonce-coded later c k held trusted fresh) in
      rw (checked, spent) refl
