-- ===== src/Stage5/Operation/Tests.antt =====
-- A request whose parameters come out of order.
use automated_trading_bot.Prelude.{true, false, some, ok, err, ◌≡◌, refl}
use automated_trading_bot.Prelude.Int.{pos}
use automated_trading_bot.Prelude.Texts.{is_unpadded, ltb_codes}
use automated_trading_bot.Stage5.Operation.{text, integer, mapping, empty, entry, OperationRequest}
use automated_trading_bot.Stage5.Operation.Canonical.{
  contract_violated, RequestBody, Python, insert_entry, check_text, canonical_mapping, check_fields,
  fields_of, construct_request, create,
}
use automated_trading_bot.Stage5.Operation.Rebuilt.{is_flat_mapping, create-construct_request}

abbrev python : Python
python = record {
  is_nfc = λ s. true;
  has_prohibited = λ s. false;
  upper = λ s. s;
  operation_digest = λ b. "digest";
}

abbrev body : RequestBody
body = record {
  operation_id = "op-1";
  request_type = "reserve";
  scope = "s";
  amount_minor = some 100;
  currency = some "EUR";
  expected_generation = 3;
  expected_epoch = 7;
  immutable_parameters = entry "b" (integer (pos 2)) (entry "a" (text "x") empty);
}

abbrev request : OperationRequest
request = record {
  operation_id = "op-1";
  request_type = "reserve";
  scope = "s";
  amount_minor = some 100;
  currency = some "EUR";
  expected_generation = 3;
  expected_epoch = 7;
  immutable_parameters = entry "a" (text "x") (entry "b" (integer (pos 2)) empty);
  digest = "digest";
}

created : create python body ≡ ok request
unfolding create construct_request check_fields canonical_mapping insert_entry check_text
    is_unpadded ltb_codes
created = refl

-- A dict among the parameters is canonical, and refused when the request is constructed.
nested :
    create python (record body { immutable_parameters = entry "a" (mapping empty) empty })
    ≡ err contract_violated
unfolding create construct_request check_fields canonical_mapping insert_entry check_text
    is_unpadded ltb_codes
nested = refl

create-construct_request_example :
    (is_flat_mapping request.immutable_parameters ≡ true)
    × (construct_request python (fields_of python request) request.digest ≡ ok request)
create-construct_request_example = create-construct_request python body request created
