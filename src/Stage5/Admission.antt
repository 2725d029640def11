-- ===== src/Stage5/Admission.antt =====
-- The admission receipts of stage5/commit_boundary/g00_auth.py, and the trust root that signs them and
-- consumes each of them once. Sequences and epochs are integers, readings of the clock natural numbers.
use automated_trading_bot.Prelude.{
  ℕ, String, Bool, true, false, ◌&&◌, ◌||◌, not, Option, none, some, List, [], ◌∷◌, ◌++◌, any, find,
  ltb, ◌==◌, str_eq, if◌then◌else◌, Result, ok, err, ◌>>◌, ◌>>=◌, raise_if,
}
use automated_trading_bot.Prelude.Int.{ℤ, pos, pos_part, neg_part, ltb_ℤ}
use automated_trading_bot.Domain.Versioning.Registry.{Bytes}
pub mod Accepted
pub mod Once
pub mod Signed
mod Tests

-- A receipt less its signature, which is what its payload encodes.
pub record ReceiptContent : Type 0 where
  pub issuer_identity : String
  pub deployment_identity : String
  pub recipient : String
  pub operation_id : String
  pub request_digest : String
  pub scope : String
  pub generation : ℤ
  pub issuer_epoch : ℤ
  pub ticket_sequence : ℤ
  pub observed_cutover_sequence : Option ℤ
  pub issued_ns : ℕ
  pub valid_until_ns : ℕ
  pub nonce : String
  pub key_id : String

pub record G00AdmissionReceipt : Type 0 where
  pub content : ReceiptContent
  pub signature : String

pub record VerifiedG00Attestation : Type 0 where
  pub issuer_identity : String
  pub deployment_identity : String
  pub recipient : String
  pub operation_id : String
  pub request_digest : String
  pub scope : String
  pub generation : ℤ
  pub issuer_epoch : ℤ
  pub ticket_sequence : ℤ
  pub observed_cutover_sequence : Option ℤ
  pub replay_identity : String
  pub key_id : String
  pub verification_digest : String

-- The admission that a receipt is verified for.
pub record AdmissionContext : Type 0 where
  pub expected_issuer : String
  pub expected_deployment : String
  pub expected_recipient : String
  pub operation_id : String
  pub request_digest : String
  pub scope : String
  pub generation : ℤ
  pub issuer_epoch : ℤ

pub data G00ReceiptRejected : Type 0 where
  key_unavailable empty_identity negative_sequence not_fresh : G00ReceiptRejected
  foreign_context key_revoked key_not_trusted signature_invalid replayed : G00ReceiptRejected

-- A key of the ring, and the state of `SyntheticG00TrustRoot`.
pub record SigningKey : Type 0 where
  pub key_id : String
  pub secret : Bytes

pub record SyntheticG00TrustRoot : Type 0 where
  pub keys : List SigningKey
  pub revoked : List String
  pub consumed_nonces : List String

-- What json, hmac and hashlib compute: the encoded content, its authentication code, and the digest of
-- a verified receipt.
pub record Codes : Type 0 where
  pub payload : ReceiptContent → Bytes
  pub hmac_sha256 : Bytes → Bytes → String
  pub verification_digest : G00AdmissionReceipt → String

abbrev pub int_eq : ℤ → ℤ → Bool
int_eq a b = pos_part a == pos_part b && neg_part a == neg_part b

abbrev is_key : String → SigningKey → Bool
is_key key_id k = str_eq k.key_id key_id

-- `self._keys.get(key_id)`
unfoldable pub secret_of : SyntheticG00TrustRoot → String → Option SigningKey
secret_of root key_id = find (is_key key_id) root.keys

abbrev pub contains : String → List String → Bool
contains s xs = any (λ x. str_eq x s) xs

-- `SyntheticG00TrustRoot.revoke`
unfoldable pub revoke : String → SyntheticG00TrustRoot → SyntheticG00TrustRoot
revoke key_id root = record root { revoked = key_id ∷ root.revoked }

abbrev any_empty : G00AdmissionReceipt → Bool
any_empty r =
    str_eq r.content.issuer_identity ""
    || str_eq r.content.deployment_identity ""
    || str_eq r.content.recipient ""
    || str_eq r.content.operation_id ""
    || str_eq r.content.request_digest ""
    || str_eq r.content.scope ""
    || str_eq r.content.nonce ""
    || str_eq r.content.key_id ""
    || str_eq r.signature ""

abbrev pub in_context : ReceiptContent → AdmissionContext → Bool
in_context c x =
    str_eq c.issuer_identity x.expected_issuer
    && str_eq c.deployment_identity x.expected_deployment
    && str_eq c.recipient x.expected_recipient
    && str_eq c.operation_id x.operation_id
    && str_eq c.request_digest x.request_digest
    && str_eq c.scope x.scope
    && int_eq c.generation x.generation
    && int_eq c.issuer_epoch x.issuer_epoch

module _ (codes : Codes) where
  abbrev signed_with :
      SyntheticG00TrustRoot
      → ReceiptContent
      → Option SigningKey
      → Result G00ReceiptRejected G00AdmissionReceipt
  signed_with root content none = err key_unavailable
  signed_with root content (some k) =
      if contains content.key_id root.revoked
      then err key_unavailable
      else ok (record {
        content = content;
        signature = codes.hmac_sha256 k.secret (codes.payload content);
      })

  -- `SyntheticG00TrustRoot.sign`
  unfoldable pub sign :
      SyntheticG00TrustRoot → ReceiptContent → Result G00ReceiptRejected G00AdmissionReceipt
  sign root content = signed_with root content (secret_of root content.key_id)

  -- The checks of `verify_and_consume` before its lock.
  unfoldable pub check_receipt :
      ℕ → G00AdmissionReceipt → AdmissionContext → Result G00ReceiptRejected (Unit {0})
  check_receipt now r x = do
    raise_if (any_empty r) empty_identity
    raise_if
        (ltb_ℤ r.content.generation (pos 0)
          || ltb_ℤ r.content.issuer_epoch (pos 0)
          || ltb_ℤ r.content.ticket_sequence (pos 0))
        negative_sequence
    raise_if (ltb now r.content.issued_ns || ltb r.content.valid_until_ns now) not_fresh
    raise_if (not (in_context r.content x)) foreign_context

  abbrev key_or_reject : Option SigningKey → Result G00ReceiptRejected SigningKey
  key_or_reject none = err key_not_trusted
  key_or_reject (some k) = ok k

  -- What it does under its lock.
  unfoldable pub consume_nonce :
      SyntheticG00TrustRoot → G00AdmissionReceipt → Result G00ReceiptRejected SyntheticG00TrustRoot
  consume_nonce root r = do
    raise_if (contains r.content.key_id root.revoked) key_revoked
    k ← key_or_reject (secret_of root r.content.key_id)
    raise_if (not (str_eq r.signature (codes.hmac_sha256 k.secret (codes.payload r.content))))
        signature_invalid
    raise_if (contains r.content.nonce root.consumed_nonces) replayed
    ok (record root { consumed_nonces = r.content.nonce ∷ root.consumed_nonces })

  abbrev pub attestation : G00AdmissionReceipt → VerifiedG00Attestation
  attestation r = record {
    issuer_identity = r.content.issuer_identity;
    deployment_identity = r.content.deployment_identity;
    recipient = r.content.recipient;
    operation_id = r.content.operation_id;
    request_digest = r.content.request_digest;
    scope = r.content.scope;
    generation = r.content.generation;
    issuer_epoch = r.content.issuer_epoch;
    ticket_sequence = r.content.ticket_sequence;
    observed_cutover_sequence = r.content.observed_cutover_sequence;
    replay_identity = r.content.nonce;
    key_id = r.content.key_id;
    verification_digest = codes.verification_digest r;
  }

  -- `SyntheticG00TrustRoot.verify_and_consume`, at the reading `now` of the clock
  unfoldable pub verify_and_consume :
      ℕ
      → SyntheticG00TrustRoot
      → G00AdmissionReceipt
      → AdmissionContext
      → Result G00ReceiptRejected (VerifiedG00Attestation × SyntheticG00TrustRoot)
  verify_and_consume now root r x = do
    check_receipt now r x
    root' ← consume_nonce root r
    ok (attestation r, root')
