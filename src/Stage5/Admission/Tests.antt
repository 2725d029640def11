-- ===== src/Stage5/Admission/Tests.antt =====
-- Receipts of the trust root on concrete values.
use automated_trading_bot.Prelude.{false, none, [], ◌∷◌, ok, ◌≡◌, ◌≢◌, refl}
use automated_trading_bot.Prelude.Int.{pos}
use automated_trading_bot.Stage5.Admission.{
  ReceiptContent, G00AdmissionReceipt, AdmissionContext, SyntheticG00TrustRoot, Codes, secret_of,
  contains, revoke, sign, check_receipt, consume_nonce, attestation, verify_and_consume,
}
use automated_trading_bot.Stage5.Admission.Signed.{sign-verify}
use automated_trading_bot.Stage5.Admission.Once.{
  verifying, revoking, use_all, verify-once, revoke-refuses,
}

abbrev codes : Codes
codes = record {
  payload = λ c. 1 ∷ [];
  hmac_sha256 = λ k p. "code";
  verification_digest = λ r. "digest";
}

abbrev content : ReceiptContent
content = record {
  issuer_identity = "issuer";
  deployment_identity = "deployment";
  recipient = "recipient";
  operation_id = "op";
  request_digest = "d";
  scope = "s";
  generation = pos 3;
  issuer_epoch = pos 7;
  ticket_sequence = pos 0;
  observed_cutover_sequence = none;
  issued_ns = 10;
  valid_until_ns = 90;
  nonce = "n";
  key_id = "k";
}

abbrev receipt : G00AdmissionReceipt
receipt = record { content = content; signature = "code" }

abbrev context : AdmissionContext
context = record {
  expected_issuer = "issuer";
  expected_deployment = "deployment";
  expected_recipient = "recipient";
  operation_id = "op";
  request_digest = "d";
  scope = "s";
  generation = pos 3;
  issuer_epoch = pos 7;
}

abbrev root : SyntheticG00TrustRoot
root = record {
  keys = record { key_id = "k"; secret = 5 ∷ [] } ∷ [];
  revoked = [];
  consumed_nonces = [];
}

abbrev spent_root : SyntheticG00TrustRoot
spent_root = record root { consumed_nonces = "n" ∷ [] }

accepted :
    verify_and_consume codes 50 root receipt context ≡ ok (attestation codes receipt, spent_root)
unfolding verify_and_consume check_receipt consume_nonce secret_of
accepted = refl

signed : sign codes root content ≡ ok receipt
unfolding sign secret_of
signed = refl

checked : check_receipt codes 50 receipt context ≡ ok tt
unfolding check_receipt
checked = refl

verify-once_example :
    verify_and_consume codes 60
      (use_all codes (verifying 55 receipt context ∷ revoking "other" ∷ []) spent_root)
      receipt
      context
    ≢ ok (attestation codes receipt, spent_root)
verify-once_example =
    verify-once codes 50 60 root spent_root spent_root receipt receipt context context
      (attestation codes receipt) (attestation codes receipt)
      (verifying 55 receipt context ∷ revoking "other" ∷ []) accepted refl

revoke-refuses_example :
    verify_and_consume codes 50
      (use_all codes (revoking "other" ∷ []) (revoke "k" root))
      receipt
      context
    ≢ ok (attestation codes receipt, spent_root)
revoke-refuses_example =
    revoke-refuses codes 50 root spent_root receipt context (attestation codes receipt)
      (revoking "other" ∷ [])

trusted_later : contains "k" (use_all codes (revoking "other" ∷ []) root).revoked ≡ false
unfolding use_all revoke
trusted_later = refl

fresh_later : contains "n" (use_all codes (revoking "other" ∷ []) root).consumed_nonces ≡ false
unfolding use_all revoke
fresh_later = refl

sign-verify_example :
    verify_and_consume codes 50 (use_all codes (revoking "other" ∷ []) root) receipt context
    ≡ ok (
      attestation codes receipt,
      record (use_all codes (revoking "other" ∷ []) root) {
        consumed_nonces = "n" ∷ (use_all codes (revoking "other" ∷ []) root).consumed_nonces;
      },
    )
sign-verify_example =
    sign-verify codes 50 root content receipt context (revoking "other" ∷ []) signed trusted_later
      fresh_later checked
