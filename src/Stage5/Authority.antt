-- ===== src/Stage5/Authority.antt =====
-- The receipts of stage5/commit_boundary/recovery_authority.py, and the verifier that consumes each of
-- them once. Times, versions and epochs are natural numbers; a store is the list of consumed receipts,
-- whose nonce is its primary key.
use automated_trading_bot.Prelude.{
  ℕ, zero, suc, ◌+◌, ◌-◌, ◌/◌, String, Bool, true, false, ◌&&◌, ◌||◌, not, Option, none, some, List,
  [], ◌∷◌, ◌++◌, any, length, ltb, leb, ◌==◌, str_eq, if◌then◌else◌, Result, ok, err, ◌>>=◌, ◌>>◌,
  raise_if,
}
use automated_trading_bot.Domain.Versioning.Registry.{Bytes}
use automated_trading_bot.Domain.Versioning.Interpret.{bytes_eq}
pub mod Accepted
pub mod Once
pub mod Later
pub mod Tests

pub data RecoveryReceiptType : Type 0 where
  bootstrap terminal : RecoveryReceiptType

abbrev pub type_eq : RecoveryReceiptType → RecoveryReceiptType → Bool
type_eq bootstrap bootstrap = true
type_eq bootstrap terminal = false
type_eq terminal bootstrap = false
type_eq terminal terminal = true

pub data RecoveryTerminalOutcome : Type 0 where
  outcome_committed outcome_denied : RecoveryTerminalOutcome

abbrev pub terminal_eq : RecoveryTerminalOutcome → RecoveryTerminalOutcome → Bool
terminal_eq outcome_committed outcome_committed = true
terminal_eq outcome_committed outcome_denied = false
terminal_eq outcome_denied outcome_committed = false
terminal_eq outcome_denied outcome_denied = true

pub record RecoveryReceipt : Type 0 where
  pub receipt_type : RecoveryReceiptType
  pub installation_id : String
  pub store_challenge : String
  pub operation_id : Option String
  pub request_digest : Option String
  pub issuer_identity : String
  pub deployment_identity : String
  pub recipient : String
  pub policy_version : ℕ
  pub issuer_epoch : ℕ
  pub terminal_outcome : Option RecoveryTerminalOutcome
  pub valid_from_ns : ℕ
  pub valid_until_ns : ℕ
  pub nonce : String
  pub signature : String
  pub attempt_id : Option String
  pub g00_sequence : Option String

pub record RecoveryTrustPolicy : Type 0 where
  pub installation_id : String
  pub issuer_identity : String
  pub deployment_identity : String
  pub recipient : String
  pub policy_version : ℕ
  pub issuer_epoch : ℕ
  pub rsa_modulus : ℕ
  pub rsa_exponent : ℕ
  pub max_future_skew_ns : ℕ

-- A row of the authority's store.
pub record ConsumedReceipt : Type 0 where
  pub nonce : String
  pub digest : String
  pub receipt_type : RecoveryReceiptType
  pub operation_id : Option String
  pub consumed_ns : ℕ

pub record RecoveryAuthorityVerifier : Type 0 where
  pub policy : RecoveryTrustPolicy
  pub consumed : List ConsumedReceipt

-- What hashlib, json, int and bytes compute.
pub record Crypto : Type 0 where
  pub payload : RecoveryReceipt → Bytes
  pub fingerprint : RecoveryTrustPolicy → String
  pub from_hex : String → Option Bytes
  pub bit_length : ℕ → ℕ
  pub from_bytes : Bytes → ℕ
  pub to_bytes : ℕ → ℕ → Bytes
  pub pow_mod : ℕ → ℕ → ℕ → ℕ
  pub sha256 : Bytes → Bytes
  pub receipt_digest : RecoveryReceipt → String

pub data RecoveryAuthorityError : Type 0 where
  policy_mismatch type_mismatch context_mismatch validity_rejected : RecoveryAuthorityError
  signature_rejected terminal_context replayed authority_required : RecoveryAuthorityError
  outcome_missing binding_mismatch : RecoveryAuthorityError

-- `_SHA256_DER_PREFIX`
abbrev pub sha256_der_prefix : Bytes
sha256_der_prefix =
    0x30 ∷ 0x31 ∷ 0x30 ∷ 0x0d ∷ 0x06 ∷ 0x09 ∷ 0x60 ∷ 0x86 ∷ 0x48 ∷ 0x01 ∷ 0x65 ∷ 0x03 ∷ 0x04 ∷ 0x02
    ∷ 0x01 ∷ 0x05 ∷ 0x00 ∷ 0x04 ∷ 0x20 ∷ []

abbrev pub padding : ℕ → Bytes
padding zero = []
padding (suc n) = 0xff ∷ padding n

module _ (crypto : Crypto) where
  abbrev expected_encoding : ℕ → Bytes → Bytes
  expected_encoding size payload =
      let digest_info = sha256_der_prefix ++ crypto.sha256 payload in
      0x00 ∷ 0x01 ∷ padding (size - length digest_info - 3) ++ 0x00 ∷ digest_info

  abbrev recovered_encoding : ℕ → Bytes → RecoveryTrustPolicy → Bytes
  recovered_encoding size raw policy =
      crypto.to_bytes
        (crypto.pow_mod (crypto.from_bytes raw) policy.rsa_exponent policy.rsa_modulus) size

  abbrev verify_raw : Bytes → Option Bytes → RecoveryTrustPolicy → Bool
  verify_raw payload none policy = false
  verify_raw payload (some raw) policy =
      let size = (crypto.bit_length policy.rsa_modulus + 7) / 8 in
      if not (length raw == size) || ltb size (length sha256_der_prefix + 32 + 11)
      then false
      else bytes_eq (recovered_encoding size raw policy) (expected_encoding size payload)

  -- `_verify_rsa_signature`
  unfoldable pub verify_rsa_signature : Bytes → String → RecoveryTrustPolicy → Bool
  verify_rsa_signature payload signature policy =
      verify_raw payload (crypto.from_hex signature) policy

  -- `RecoveryAuthorityVerifier.__init__`, on the policy and the fingerprint that the store holds
  unfoldable pub open_authority :
      Option (RecoveryTrustPolicy × String)
      → List ConsumedReceipt
      → Result RecoveryAuthorityError RecoveryAuthorityVerifier
  open_authority none consumed = err policy_mismatch
  open_authority (some (policy, fingerprint)) consumed =
      if not (str_eq fingerprint (crypto.fingerprint policy))
      then err policy_mismatch
      else ok (record { policy = policy; consumed = consumed })

  -- `_validate_common`, at the reading `now` of the clock
  unfoldable pub validate_common :
      RecoveryAuthorityVerifier
      → ℕ
      → RecoveryReceipt
      → RecoveryReceiptType
      → String
      → Result RecoveryAuthorityError (Unit {0})
  unfolding verify_rsa_signature
  validate_common a now receipt expected_type challenge = do
    raise_if (not (type_eq receipt.receipt_type expected_type)) type_mismatch
    raise_if
        (not (str_eq receipt.installation_id a.policy.installation_id)
          || not (str_eq receipt.store_challenge challenge)
          || not (str_eq receipt.issuer_identity a.policy.issuer_identity)
          || not (str_eq receipt.deployment_identity a.policy.deployment_identity)
          || not (str_eq receipt.recipient a.policy.recipient)
          || not (receipt.policy_version == a.policy.policy_version)
          || not (receipt.issuer_epoch == a.policy.issuer_epoch))
        context_mismatch
    raise_if
        (ltb (now + a.policy.max_future_skew_ns) receipt.valid_from_ns
          || ltb receipt.valid_until_ns now
          || leb receipt.valid_until_ns receipt.valid_from_ns)
        validity_rejected
    raise_if
        (str_eq receipt.nonce ""
          || not (verify_rsa_signature (crypto.payload receipt) receipt.signature a.policy))
        signature_rejected

  abbrev pub consumed_row : RecoveryReceipt → ℕ → ConsumedReceipt
  consumed_row receipt now = record {
    nonce = receipt.nonce;
    digest = crypto.receipt_digest receipt;
    receipt_type = receipt.receipt_type;
    operation_id = receipt.operation_id;
    consumed_ns = now;
  }

  -- `_consume`: the insertion fails where the nonce is already there.
  unfoldable pub consume :
      RecoveryAuthorityVerifier
      → ℕ
      → RecoveryReceipt
      → Result RecoveryAuthorityError RecoveryAuthorityVerifier
  consume a now receipt =
      if any (λ row. str_eq row.nonce receipt.nonce) a.consumed
      then err replayed
      else ok (record a { consumed = consumed_row receipt now ∷ a.consumed })

  abbrev pub filled : Option String → Bool
  filled none = false
  filled (some s) = not (str_eq s "")

  abbrev pub decided : Option RecoveryTerminalOutcome → Bool
  decided none = false
  decided (some o) = true

  -- `consume_bootstrap`, less the nonce that it returns
  unfoldable pub consume_bootstrap :
      RecoveryAuthorityVerifier
      → ℕ
      → RecoveryReceipt
      → String
      → Result RecoveryAuthorityError RecoveryAuthorityVerifier
  consume_bootstrap a now receipt challenge = do
    validate_common a now receipt bootstrap challenge
    raise_if
        (filled receipt.operation_id
          || filled receipt.request_digest
          || filled receipt.attempt_id
          || filled receipt.g00_sequence
          || decided receipt.terminal_outcome)
        terminal_context
    consume a now receipt

  abbrev pub is_text : String → Option String → Bool
  is_text s none = false
  is_text s (some t) = str_eq t s

  abbrev pub check_terminal :
      RecoveryReceipt
      → String
      → String
      → String
      → String
      → RecoveryTerminalOutcome
      → Option RecoveryTerminalOutcome
      → Result RecoveryAuthorityError (Unit {0})
  check_terminal receipt operation digest attempt g00 expected none = err outcome_missing
  check_terminal receipt operation digest attempt g00 expected (some o) =
      raise_if
        (not (is_text operation receipt.operation_id)
          || not (is_text digest receipt.request_digest)
          || not (is_text attempt receipt.attempt_id)
          || not (is_text g00 receipt.g00_sequence)
          || not (terminal_eq o expected))
        context_mismatch

  -- `consume_terminal`, less the nonce that it returns
  unfoldable pub consume_terminal :
      RecoveryAuthorityVerifier
      → ℕ
      → RecoveryReceipt
      → String
      → String
      → String
      → String
      → String
      → RecoveryTerminalOutcome
      → Result RecoveryAuthorityError RecoveryAuthorityVerifier
  consume_terminal a now receipt challenge operation digest attempt g00 expected = do
    validate_common a now receipt terminal challenge
    check_terminal receipt operation digest attempt g00 expected receipt.terminal_outcome
    consume a now receipt
