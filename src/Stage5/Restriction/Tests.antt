-- ===== src/Stage5/Restriction/Tests.antt =====
-- Publications over a table of one row in memory.
use automated_trading_bot.Prelude.{Option, none, some, ◌≡◌, refl}
use automated_trading_bot.Stage5.Restriction.{
  RestrictionState, pending_deny, effective_deny, RestrictionReceiptV1, RestrictionStatusV1,
  returns, raises, connection_error, TransactionConnection, read_restriction_status,
  publish_pending, finalize_restriction,
}
use automated_trading_bot.Stage5.Restriction.Readback.{
  Returned, Written, publish_pending-Written, finalize_restriction-Written,
}

abbrev receipt : RestrictionReceiptV1
receipt = record {
  operation_id = "op";
  request_digest = "d";
  issuer_identity = "issuer";
  issuer_domain = "domain";
  scope_key = "s";
  ticket_sequence = 4;
  receipt_digest = "r";
}

abbrev status : RestrictionReceiptV1 → RestrictionState → RestrictionStatusV1
status r state = record {
  state = state;
  scope_key = r.scope_key;
  ticket_sequence = r.ticket_sequence;
  receipt_digest = r.receipt_digest;
}

-- The row is written at once, and the commit is lost on its way back.
abbrev lossy : TransactionConnection (Option RestrictionStatusV1)
lossy = record {
  begin_serializable = λ w. returns tt w;
  begin_restriction = λ r w. returns tt (some (status r pending_deny));
  finalize = λ r state w. returns tt (some (status r state));
  commit = λ w. raises (connection_error "connection lost") w;
  rollback = λ w. returns tt w;
  read = λ r w. returns w w;
}

published :
    publish_pending lossy receipt none
    ≡ returns (status receipt pending_deny) (some (status receipt pending_deny))
unfolding publish_pending read_restriction_status
published = refl

publish_pending-Written_example :
    Returned (Written lossy receipt pending_deny) (publish_pending lossy receipt none)
publish_pending-Written_example = publish_pending-Written lossy receipt none

finalize_restriction-Written_example :
    Returned
      (Written lossy receipt effective_deny)
      (finalize_restriction lossy receipt effective_deny (some (status receipt pending_deny)))
finalize_restriction-Written_example =
    finalize_restriction-Written lossy receipt effective_deny (some (status receipt pending_deny))
