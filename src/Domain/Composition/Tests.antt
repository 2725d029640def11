-- ===== src/Domain/Composition/Tests.antt =====
-- A producer's and a consumer's transaction of one event, and its idempotency record.
use automated_trading_bot.Prelude.{
  ℕ, String, false, [], ◌∷◌, ok, ◌≡◌, ◌≢◌, ◌↔◌, refl, some, suc, zero,
}
use automated_trading_bot.Domain.Versioning.Registry.{ContractVersion, Bytes}
use automated_trading_bot.Domain.Transitions.{
  active, applied_now, transition_contract_v1, GenericState, TransitionResult, terminated,
}
use automated_trading_bot.Domain.Delivery.{
  InboxRecord, pending, applied, OutboxRecord, outbox_pending, inbox_settled, transition_inbox,
}
use automated_trading_bot.Domain.Idempotency.{
  IdempotencyRecord, exact_duplicate, conflicting_reuse, EventAdmission, validate_fingerprint,
  fingerprint_content, validate_record, adjudicate_idempotency,
}
use automated_trading_bot.Domain.Idempotency.Duplicates.{adjudicate_idempotency_lem}
use automated_trading_bot.Domain.Composition.{
  ProducerTransactionIntent, ConsumerTransactionIntent, repeats, validate_producer,
  validate_consumer,
}
use automated_trading_bot.Domain.Composition.Members.{
  IsOutbox, validate_producer-IsOutbox, validate_consumer-IsOutbox,
}

-- A digest of 32 bytes, each of them the first byte of the text, or zero.
abbrev first_byte : Bytes → ℕ
first_byte [] = 0
first_byte (b ∷ bs) = b

abbrev copies : ℕ → ℕ → Bytes
copies zero b = []
copies (suc n) b = b ∷ copies n b

abbrev digest : Bytes → Bytes
digest bytes = copies 32 (first_byte bytes)

abbrev record_of : Bytes → IdempotencyRecord
record_of bytes = record {
  operation_scope = "orders";
  idempotency_key = "key-1";
  canonical_bytes = bytes;
  content_fingerprint = digest bytes;
}

valid : validate_record digest (record_of (1 ∷ 2 ∷ [])) ≡ ok tt
unfolding validate_record fingerprint_content validate_fingerprint
valid = refl

valid_other : validate_record digest (record_of (1 ∷ 3 ∷ [])) ≡ ok tt
unfolding validate_record fingerprint_content validate_fingerprint
valid_other = refl

-- The two digests agree, and the bytes do not.
adjudicate_idempotency_lem_example :
    ((adjudicate_idempotency (record_of (1 ∷ 2 ∷ [])) (some (record_of (1 ∷ 3 ∷ [])))
        ≡ ok exact_duplicate)
      ↔ (◌≡◌ {A = Bytes} (1 ∷ 2 ∷ []) (1 ∷ 3 ∷ [])))
    × ((adjudicate_idempotency (record_of (1 ∷ 2 ∷ [])) (some (record_of (1 ∷ 3 ∷ [])))
          ≡ ok conflicting_reuse)
        ↔ (◌≢◌ {A = Bytes} (1 ∷ 2 ∷ []) (1 ∷ 3 ∷ [])))
adjudicate_idempotency_lem_example =
    adjudicate_idempotency_lem digest (record_of (1 ∷ 2 ∷ [])) (record_of (1 ∷ 3 ∷ [])) valid
      valid_other refl refl

abbrev v1 : ContractVersion
v1 = record { family = "event-envelope"; version = 1 }

abbrev admission : EventAdmission
admission = record {
  event = record {
    envelope = record {
      event_id = 3;
      correlation_id = 1;
      causation_id = 2;
      idempotency_key = "key-1";
      occurred_at = 100;
      schema_version = 1;
    };
    payload = 9 ∷ [];
    contract_version = v1;
  };
  persistence_request = record { contract_version = v1; representation = 1 ∷ 2 ∷ [] };
  idempotency_record = record_of (1 ∷ 2 ∷ []);
}

abbrev destined : String → OutboxRecord
destined d = record {
  identity = record { event_id = 3; destination_id = d };
  state = outbox_pending;
}

abbrev state : GenericState
state = record { state_id = 5; status = active; contract_version = transition_contract_v1 }

abbrev result : TransitionResult
result = record { previous_state = state; next_state = terminated state; disposition = applied_now }

abbrev producer : ProducerTransactionIntent
producer = record {
  transition = record { state_id = 5; result = result; expected_token = 0 };
  events = admission ∷ [];
  outbox = destined "audit" ∷ destined "console" ∷ [];
}

producer_valid : validate_producer producer ≡ ok tt
unfolding validate_producer repeats
producer_valid = refl

validate_producer-IsOutbox_example :
    (producer.events ≢ []) × IsOutbox producer.events producer.outbox
validate_producer-IsOutbox_example = validate_producer-IsOutbox producer producer_valid

abbrev inbox : InboxRecord
inbox = record {
  identity = record { event_id = 2; handler_id = "booker" };
  handler_version = "v1";
  state = pending;
}

abbrev consumer : ConsumerTransactionIntent
consumer = record {
  inbox_transition = transition_inbox inbox applied;
  transition = record { state_id = 5; result = result; expected_token = 0 };
  outgoing_events = admission ∷ [];
  outbox = destined "audit" ∷ [];
}

consumer_valid : validate_consumer consumer ≡ ok tt
unfolding validate_consumer repeats transition_inbox
consumer_valid = refl

validate_consumer-IsOutbox_example :
    (inbox_settled pending ≡ false)
    × (applied ≡ applied)
    × IsOutbox consumer.outgoing_events consumer.outbox
validate_consumer-IsOutbox_example =
    validate_consumer-IsOutbox consumer inbox applied refl consumer_valid
