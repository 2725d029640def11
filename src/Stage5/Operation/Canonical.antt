-- ===== src/Stage5/Operation/Canonical.antt =====
-- The normalisation and the validation of a request. Mappings come with distinct keys, in any order; all
-- violations of the contract are one error.
use automated_trading_bot.Prelude.{
  ℕ, String, Bool, true, false, ◌&&◌, ◌||◌, not, Option, none, some, length, ◌==◌, str_eq,
  if◌then◌else◌, Result, ok, err, ◌>>=◌, ◌>>◌, raise_if,
}
use automated_trading_bot.Prelude.Texts.{codes, is_unpadded, ltb_codes}
use automated_trading_bot.Stage5.Operation.{
  CanonicalValue, nothing, text, flag, integer, sequence, mapping, proxy, Sequence, nil, cons,
  Mapping, empty, entry, OperationRequest,
}

pub data OperationContractError : Type 0 where
  contract_violated : OperationContractError

-- A request less its digest.
pub record RequestBody : Type 0 where
  pub operation_id : String
  pub request_type : String
  pub scope : String
  pub amount_minor : Option ℕ
  pub currency : Option String
  pub expected_generation : ℕ
  pub expected_epoch : ℕ
  pub immutable_parameters : Mapping

-- What unicodedata, str, json and hashlib compute.
pub record Python : Type 0 where
  pub is_nfc : String → Bool
  pub has_prohibited : String → Bool
  pub upper : String → String
  pub operation_digest : RequestBody → String

abbrev pub before : String → String → Bool
before a b = ltb_codes (codes a) (codes b)

-- An entry is put before the first one whose key does not precede its own.
unfoldable pub insert_entry : String → CanonicalValue → Mapping → Mapping
insert_entry key v empty = entry key v empty
insert_entry key v (entry k w m) =
    let rest = insert_entry key v m in
    if before k key then entry k w rest else entry key v (entry k w m)

-- `_plain`
unfoldable mutual
  pub plain_value : CanonicalValue → CanonicalValue
  plain_value nothing = nothing
  plain_value (text s) = text s
  plain_value (flag b) = flag b
  plain_value (integer n) = integer n
  plain_value (sequence vs) = sequence (plain_sequence vs)
  plain_value (mapping m) = mapping (plain_mapping m)
  plain_value (proxy m) = mapping (plain_mapping m)

  pub plain_sequence : Sequence → Sequence
  plain_sequence nil = nil
  plain_sequence (cons v vs) = cons (plain_value v) (plain_sequence vs)

  pub plain_mapping : Mapping → Mapping
  plain_mapping empty = empty
  plain_mapping (entry k v m) = insert_entry k (plain_value v) (plain_mapping m)

-- `_body`: the parameters are plain.
abbrev pub body_of : RequestBody → RequestBody
body_of b = record b { immutable_parameters = plain_mapping b.immutable_parameters }

module _ (python : Python) where
  abbrev pub is_canonical_text : String → Bool
  is_canonical_text s =
      not (str_eq s "") && is_unpadded s && python.is_nfc s && not (python.has_prohibited s)

  -- `_text`
  unfoldable pub check_text : String → Result OperationContractError (Unit {0})
  check_text s = raise_if (not (is_canonical_text s)) contract_violated

  -- `_canonical`, which takes a dict but no MappingProxyType, which it gives itself
  unfoldable mutual
    pub canonical_value : CanonicalValue → Result OperationContractError CanonicalValue
    canonical_value nothing = ok nothing
    canonical_value (text s) = do check_text s; ok (text s)
    canonical_value (flag b) = ok (flag b)
    canonical_value (integer n) = ok (integer n)
    canonical_value (sequence vs) = do vs' ← canonical_sequence vs; ok (sequence vs')
    canonical_value (mapping m) = do m' ← canonical_mapping m; ok (proxy m')
    canonical_value (proxy m) = err contract_violated

    pub canonical_sequence : Sequence → Result OperationContractError Sequence
    canonical_sequence nil = ok nil
    canonical_sequence (cons v vs) = do
      v' ← canonical_value v
      vs' ← canonical_sequence vs
      ok (cons v' vs')

    pub canonical_mapping : Mapping → Result OperationContractError Mapping
    canonical_mapping empty = ok empty
    canonical_mapping (entry k v m) = do
      check_text k
      v' ← canonical_value v
      m' ← canonical_mapping m
      ok (insert_entry k v' m')

  abbrev paired : Option ℕ → Option String → Bool
  paired none none = true
  paired none (some c) = false
  paired (some n) none = false
  paired (some n) (some c) = true

  abbrev check_currency : Option String → Result OperationContractError (Unit {0})
  check_currency none = ok tt
  check_currency (some c) = do
    check_text c
    raise_if (not (str_eq c (python.upper c)) || not (length (codes c) == 3)) contract_violated

  -- The checks of `__post_init__` but those on the parameters and the digest.
  unfoldable pub check_fields : RequestBody → Result OperationContractError (Unit {0})
  check_fields b = do
    check_text b.operation_id
    check_text b.request_type
    check_text b.scope
    raise_if (not (paired b.amount_minor b.currency)) contract_violated
    check_currency b.currency

  -- What a request was constructed from, less its digest.
  abbrev pub fields_of : OperationRequest → RequestBody
  fields_of r = record {
    operation_id = r.operation_id;
    request_type = r.request_type;
    scope = r.scope;
    amount_minor = r.amount_minor;
    currency = r.currency;
    expected_generation = r.expected_generation;
    expected_epoch = r.expected_epoch;
    immutable_parameters = r.immutable_parameters;
  }

  abbrev pub request_of : RequestBody → String → OperationRequest
  request_of b digest = record {
    operation_id = b.operation_id;
    request_type = b.request_type;
    scope = b.scope;
    amount_minor = b.amount_minor;
    currency = b.currency;
    expected_generation = b.expected_generation;
    expected_epoch = b.expected_epoch;
    immutable_parameters = b.immutable_parameters;
    digest = digest;
  }

  -- `OperationRequest.__post_init__`, with the request that it leaves; `dict` makes a dict of the
  -- parameters themselves, and not of what they hold.
  unfoldable pub construct_request :
      RequestBody → String → Result OperationContractError OperationRequest
  construct_request b digest = do
    check_fields b
    m ← canonical_mapping b.immutable_parameters
    raise_if
        (not (
          str_eq digest
            (python.operation_digest (body_of (record b { immutable_parameters = m })))))
        contract_violated
    ok (request_of (record b { immutable_parameters = m }) digest)

  -- `OperationRequest.create`
  unfoldable pub create : RequestBody → Result OperationContractError OperationRequest
  create b = do
    m ← canonical_mapping b.immutable_parameters
    construct_request (record b { immutable_parameters = m })
        (python.operation_digest (body_of (record b { immutable_parameters = m })))
