-- ===== src/Stage5/Operation.antt =====
-- The request of stage5/commit_boundary/operation_envelope.py, with its canonical parameters.
use automated_trading_bot.Prelude.{ℕ, String, Bool, Option, str_eq, if◌then◌else◌}
use automated_trading_bot.Prelude.Int.{ℤ}
pub mod Canonical
pub mod Rebuilt
mod Tests

-- `CanonicalValue`, and the values that are normalised: a list or a tuple is a sequence, a dict is a
-- mapping, and a MappingProxyType a proxy. Entries are spelled out in their order.
mutual
  pub data CanonicalValue : Type 0 where
    nothing : CanonicalValue
    text : String → CanonicalValue
    flag : Bool → CanonicalValue
    integer : ℤ → CanonicalValue
    sequence : Sequence → CanonicalValue
    mapping proxy : Mapping → CanonicalValue

  pub data Sequence : Type 0 where
    nil : Sequence
    cons : CanonicalValue → Sequence → Sequence

  pub data Mapping : Type 0 where
    empty : Mapping
    entry : String → CanonicalValue → Mapping → Mapping

pub record OperationRequest : Type 0 where
  pub operation_id : String
  pub request_type : String
  pub scope : String
  pub amount_minor : Option ℕ
  pub currency : Option String
  pub expected_generation : ℕ
  pub expected_epoch : ℕ
  pub immutable_parameters : Mapping
  pub digest : String

-- `immutable_parameters.get(key, default)`
abbrev pub get_or : String → CanonicalValue → Mapping → CanonicalValue
get_or key default empty = default
get_or key default (entry k v m) =
    let rest = get_or key default m in if str_eq k key then v else rest
