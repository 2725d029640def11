-- ===== src/Stage5/Restriction.antt =====
-- stage5/commit_boundary/restriction_publisher.py: the publication of an emergency restriction, and its
-- exact readback. A world stands behind the connection.
use automated_trading_bot.Prelude.{
  ℕ, String, Bool, true, false, ◌&&◌, ◌||◌, not, Option, none, some, ◌==◌, str_eq, if◌then◌else◌,
}
use automated_trading_bot.Prelude.Int.{ℤ, pos, ltb_ℤ}
pub mod Readback
mod Tests

pub data RestrictionState : Type 0 where
  pending_deny effective_deny reconciliation_required terminal_denied : RestrictionState

abbrev pub restriction_eq : RestrictionState → RestrictionState → Bool
restriction_eq pending_deny pending_deny = true
restriction_eq effective_deny effective_deny = true
restriction_eq reconciliation_required reconciliation_required = true
restriction_eq terminal_denied terminal_denied = true
restriction_eq _ _ = false

pub record RestrictionReceiptV1 : Type 0 where
  pub operation_id : String
  pub request_digest : String
  pub issuer_identity : String
  pub issuer_domain : String
  pub scope_key : String
  pub ticket_sequence : ℕ
  pub receipt_digest : String

pub record RestrictionStatusV1 : Type 0 where
  pub state : RestrictionState
  pub scope_key : String
  pub ticket_sequence : ℕ
  pub receipt_digest : String

-- What is raised: by the publisher, or by the connection and the conversion of its rows.
pub data PublicationError : Type 0 where
  unresolved conflicting_state readback_failed invalid_state : PublicationError
  context_mismatch missing_evidence : PublicationError
  connection_error : String → PublicationError

pub data Reply (World A : Type 0) : Type 0 where
  returns : A → World → Reply World A
  raises : PublicationError → World → Reply World A

abbrev pub and_then : {W A B : Type 0} → Reply W A → (A → W → Reply W B) → Reply W B
and_then (returns a w) next = next a w
and_then (raises e w) next = raises e w

-- `TransactionConnection`, with the statements of the publisher; `read` fetches a status row.
pub record TransactionConnection (World : Type 0) : Type 0 where
  pub begin_serializable : World → Reply World (Unit {0})
  pub begin_restriction : RestrictionReceiptV1 → World → Reply World (Unit {0})
  pub finalize : RestrictionReceiptV1 → RestrictionState → World → Reply World (Unit {0})
  pub commit : World → Reply World (Unit {0})
  pub rollback : World → Reply World (Unit {0})
  pub read : RestrictionReceiptV1 → World → Reply World (Option RestrictionStatusV1)

abbrev pub matches_receipt : RestrictionReceiptV1 → RestrictionStatusV1 → Bool
matches_receipt r s =
    str_eq s.scope_key r.scope_key
    && s.ticket_sequence == r.ticket_sequence
    && str_eq s.receipt_digest r.receipt_digest

module _ {World : Type 0} (connection : TransactionConnection World) where
  abbrev pub checked_status :
      RestrictionReceiptV1
      → Option RestrictionStatusV1
      → World
      → Reply World (Option RestrictionStatusV1)
  checked_status r none w = returns none w
  checked_status r (some s) w =
      if not (matches_receipt r s) then raises context_mismatch w else returns (some s) w

  -- `read_restriction_status`
  unfoldable pub read_restriction_status :
      RestrictionReceiptV1 → World → Reply World (Option RestrictionStatusV1)
  read_restriction_status r w = and_then (connection.read r w) (checked_status r)

  -- A status that must be there, in the state that was written.
  abbrev pub require_state :
      RestrictionState
      → PublicationError
      → PublicationError
      → Option RestrictionStatusV1
      → World
      → Reply World RestrictionStatusV1
  require_state expected absent other none w = raises absent w
  require_state expected absent other (some s) w =
      if not (restriction_eq s.state expected) then raises other w else returns s w

  -- What follows the transaction: a readback, after a rollback where it has raised.
  abbrev pub read_back :
      RestrictionReceiptV1
      → RestrictionState
      → PublicationError
      → PublicationError
      → Reply World (Unit {0})
      → Reply World RestrictionStatusV1
  read_back r expected absent other (returns done w) =
      and_then (read_restriction_status r w)
        (require_state expected readback_failed readback_failed)
  read_back r expected absent other (raises e w) =
      and_then (connection.rollback w)
        (λ done w. and_then (read_restriction_status r w) (require_state expected absent other))

  abbrev transaction : (World → Reply World (Unit {0})) → World → Reply World (Unit {0})
  transaction statement w =
      and_then (connection.begin_serializable w)
        (λ begun w. and_then (statement w) (λ written w. connection.commit w))

  -- `publish_pending`
  unfoldable pub publish_pending : RestrictionReceiptV1 → World → Reply World RestrictionStatusV1
  publish_pending r w =
      read_back r pending_deny unresolved conflicting_state
        (transaction (connection.begin_restriction r) w)

  -- `finalize_restriction`
  unfoldable pub finalize_restriction :
      RestrictionReceiptV1 → RestrictionState → World → Reply World RestrictionStatusV1
  finalize_restriction r pending_deny w = raises invalid_state w
  finalize_restriction r effective_deny w =
      read_back r effective_deny unresolved unresolved
        (transaction (connection.finalize r effective_deny) w)
  finalize_restriction r reconciliation_required w =
      read_back r reconciliation_required unresolved unresolved
        (transaction (connection.finalize r reconciliation_required) w)
  finalize_restriction r terminal_denied w =
      read_back r terminal_denied unresolved unresolved
        (transaction (connection.finalize r terminal_denied) w)

  abbrev pub require_evidence : Option RestrictionStatusV1 → World → Reply World RestrictionStatusV1
  require_evidence none w = raises missing_evidence w
  require_evidence (some s) w = returns s w

  -- `recover_publication`
  unfoldable pub recover_publication :
      RestrictionReceiptV1 → World → Reply World RestrictionStatusV1
  recover_publication r w = and_then (read_restriction_status r w) require_evidence
