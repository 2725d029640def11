-- ===== src/Stage5/Authority/Tests.antt =====
-- Receipts of the authority on concrete values, with a cryptography that accepts one encoding.
use automated_trading_bot.Prelude.{ℕ, zero, suc, none, some, [], ◌∷◌, ◌++◌, ok, ◌≡◌, ◌≢◌, refl}
use automated_trading_bot.Domain.Versioning.Registry.{Bytes}
use automated_trading_bot.Stage5.Authority.{
  bootstrap, terminal, outcome_committed, RecoveryReceipt, RecoveryTrustPolicy,
  RecoveryAuthorityVerifier, Crypto, sha256_der_prefix, padding, verify_rsa_signature,
  validate_common, consume, consume_bootstrap, consume_terminal,
}
use automated_trading_bot.Stage5.Authority.Accepted.{IsAuthorized, consume_terminal-IsAuthorized}
use automated_trading_bot.Stage5.Authority.Once.{
  for_bootstrap, present, verifier_after, present_all, present-once,
}

abbrev zeros : ℕ → Bytes
zeros zero = []
zeros (suc n) = 0 ∷ zeros n

abbrev pub toy : Crypto
toy = record {
  payload = λ r. [];
  fingerprint = λ p. "fingerprint";
  from_hex = λ s. some (zeros 62);
  bit_length = λ n. 496;
  from_bytes = λ b. 0;
  to_bytes = λ n size. 0x00 ∷ 0x01 ∷ padding 8 ++ 0x00 ∷ sha256_der_prefix ++ zeros 32;
  pow_mod = λ b e m. 0;
  sha256 = λ b. zeros 32;
  receipt_digest = λ r. "digest";
}

abbrev pub policy : RecoveryTrustPolicy
policy = record {
  installation_id = "i";
  issuer_identity = "issuer";
  deployment_identity = "deployment";
  recipient = "journal";
  policy_version = 1;
  issuer_epoch = 4;
  rsa_modulus = 3233;
  rsa_exponent = 17;
  max_future_skew_ns = 10;
}

abbrev pub verifier : RecoveryAuthorityVerifier
verifier = record { policy = policy; consumed = [] }

abbrev pub first_receipt : RecoveryReceipt
first_receipt = record {
  receipt_type = bootstrap;
  installation_id = "i";
  store_challenge = "c";
  operation_id = none;
  request_digest = none;
  issuer_identity = "issuer";
  deployment_identity = "deployment";
  recipient = "journal";
  policy_version = 1;
  issuer_epoch = 4;
  terminal_outcome = none;
  valid_from_ns = 40;
  valid_until_ns = 90;
  nonce = "n-1";
  signature = "00";
  attempt_id = none;
  g00_sequence = none;
}

abbrev pub final_receipt : RecoveryReceipt
final_receipt = record first_receipt {
  receipt_type = terminal;
  operation_id = some "op";
  request_digest = some "d";
  terminal_outcome = some outcome_committed;
  nonce = "n-2";
  attempt_id = some "a";
  g00_sequence = some "g";
}

accepted :
    present toy verifier (for_bootstrap 50 first_receipt "c")
    ≡ ok (verifier_after toy verifier (present toy verifier (for_bootstrap 50 first_receipt "c")))
unfolding present consume_bootstrap validate_common verify_rsa_signature consume
accepted = refl

present-once_example :
    present toy
      (present_all toy
        (for_bootstrap 60 first_receipt "c" ∷ [])
        (verifier_after toy verifier (present toy verifier (for_bootstrap 50 first_receipt "c"))))
      (for_bootstrap 70 first_receipt "c")
    ≢ ok verifier
present-once_example =
    present-once toy verifier
      (verifier_after toy verifier (present toy verifier (for_bootstrap 50 first_receipt "c")))
      verifier (for_bootstrap 50 first_receipt "c") (for_bootstrap 70 first_receipt "c")
      (for_bootstrap 60 first_receipt "c" ∷ []) accepted refl

final_accepted :
    consume_terminal toy verifier 50 final_receipt "c" "op" "d" "a" "g" outcome_committed
    ≡ ok (
        verifier_after toy verifier
          (consume_terminal toy verifier 50 final_receipt "c" "op" "d" "a" "g" outcome_committed))
unfolding consume_terminal validate_common verify_rsa_signature consume
final_accepted = refl

consume_terminal-IsAuthorized_example :
    IsAuthorized toy verifier 50 final_receipt "c" "op" "d" "a" "g" outcome_committed
consume_terminal-IsAuthorized_example =
    consume_terminal-IsAuthorized toy verifier
      (verifier_after toy verifier
        (consume_terminal toy verifier 50 final_receipt "c" "op" "d" "a" "g" outcome_committed))
      50 final_receipt "c" "op" "d" "a" "g" outcome_committed final_accepted
