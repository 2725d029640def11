-- ===== src/Stage5/Restriction/Readback.antt =====
-- The publisher returns what it has read back: a status of the receipt, in the state that it wrote.
use automated_trading_bot.Prelude.{
  true, not, Option, none, some, ◌≡◌, refl, eq_iff, ==_iff, arith, Bool-cases, inl, inr,
}
use automated_trading_bot.Stage5.Restriction.{
  RestrictionState, pending_deny, effective_deny, reconciliation_required, terminal_denied,
  restriction_eq, RestrictionReceiptV1, RestrictionStatusV1, PublicationError, readback_failed,
  Reply, returns, raises, and_then, TransactionConnection, matches_receipt, checked_status,
  read_restriction_status, require_state, read_back, publish_pending, finalize_restriction,
}

-- What holds of the value and the world, where a call returns.
abbrev pub Returned : {W A : Type 0} → (A → W → Type 0) → Reply W A → Type 0
Returned P (returns a w) = P a w
Returned P (raises e w) = Unit

-- The status is the one that this read of the connection has given.
pub record IsReadback {World : Type 0} (connection : TransactionConnection World)
    (r : RestrictionReceiptV1) (s : RestrictionStatusV1) (w : World) : Type 0 where
  pub before : World
  pub reading : connection.read r before ≡ returns (some s) w
  pub scope : s.scope_key ≡ r.scope_key
  pub sequence : s.ticket_sequence ≡ r.ticket_sequence
  pub digest : s.receipt_digest ≡ r.receipt_digest

module _ {World : Type 0} (connection : TransactionConnection World)
    (r : RestrictionReceiptV1) where
  and_then-Returned :
      {A B : Type 0} (P : A → World → Type 0) (Q : B → World → Type 0) (x : Reply World A)
      (next : A → World → Reply World B)
      → Returned P x
      → ((a : A) (w : World) → P a w → Returned Q (next a w))
      → Returned Q (and_then x next)
  and_then-Returned P Q (returns a w) next p h = h a w p
  and_then-Returned P Q (raises e w) next p h = tt

  abbrev Found : Option RestrictionStatusV1 → World → Type 0
  Found none w = Unit
  Found (some s) w = IsReadback connection r s w

  checked-Found :
      (before : World) (found : Option RestrictionStatusV1) (w : World)
      → connection.read r before ≡ returns found w
      → Returned Found (checked_status connection r found w)
  checked-Found before none w h = tt
  checked-Found before (some s) w h = elim (Bool-cases (not (matches_receipt r s))) [
    | inl e ↦ rw e tt
    | inr e ↦ rw e (record {
      before = before;
      reading = h;
      scope = ground (arith, e, eq_iff s.scope_key r.scope_key);
      sequence = ground (arith, e, ==_iff s.ticket_sequence r.ticket_sequence);
      digest = ground (arith, e, eq_iff s.receipt_digest r.receipt_digest);
    })
  ]

  same-Returned : {A : Type 0} (x : Reply World A) → Returned (λ a w. x ≡ returns a w) x
  same-Returned (returns a w) = refl
  same-Returned (raises e w) = tt

  any-Returned : {A : Type 0} (x : Reply World A) → Returned (λ a w. Unit) x
  any-Returned (returns a w) = tt
  any-Returned (raises e w) = tt

  read-Found : (w : World) → Returned Found (read_restriction_status connection r w)
  unfolding read_restriction_status
  read-Found w =
      and_then-Returned (λ a w'. connection.read r w ≡ returns a w') Found (connection.read r w)
        (checked_status connection r) (same-Returned (connection.read r w))
        (λ a w' h. checked-Found w a w' h)

  restriction_eq-true : (a b : RestrictionState) → restriction_eq a b ≡ true → a ≡ b
  restriction_eq-true pending_deny pending_deny h = refl
  restriction_eq-true effective_deny effective_deny h = refl
  restriction_eq-true reconciliation_required reconciliation_required h = refl
  restriction_eq-true terminal_denied terminal_denied h = refl
  restriction_eq-true pending_deny effective_deny h = cc
  restriction_eq-true pending_deny reconciliation_required h = cc
  restriction_eq-true pending_deny terminal_denied h = cc
  restriction_eq-true effective_deny pending_deny h = cc
  restriction_eq-true effective_deny reconciliation_required h = cc
  restriction_eq-true effective_deny terminal_denied h = cc
  restriction_eq-true reconciliation_required pending_deny h = cc
  restriction_eq-true reconciliation_required effective_deny h = cc
  restriction_eq-true reconciliation_required terminal_denied h = cc
  restriction_eq-true terminal_denied pending_deny h = cc
  restriction_eq-true terminal_denied effective_deny h = cc
  restriction_eq-true terminal_denied reconciliation_required h = cc

  abbrev pub Written : RestrictionState → RestrictionStatusV1 → World → Type 0
  Written state s w = (s.state ≡ state) × IsReadback connection r s w

  require-Written :
      (expected : RestrictionState) (absent other : PublicationError)
      (found : Option RestrictionStatusV1) (w : World)
      → Found found w
      → Returned (Written expected) (require_state connection expected absent other found w)
  require-Written expected absent other none w f = tt
  require-Written expected absent other (some s) w f =
      elim (Bool-cases (restriction_eq s.state expected)) [
        | inl e ↦ rw e (restriction_eq-true s.state expected e, f)
        | inr e ↦ rw e tt
      ]

  read_back-Written :
      (expected : RestrictionState) (absent other : PublicationError) (x : Reply World (Unit {0}))
      → Returned (Written expected) (read_back connection r expected absent other x)
  read_back-Written expected absent other (returns done w) =
      and_then-Returned Found (Written expected) (read_restriction_status connection r w) _
        (read-Found w) (require-Written expected readback_failed readback_failed)
  read_back-Written expected absent other (raises e w) =
      and_then-Returned (λ a w. Unit) (Written expected) (connection.rollback w) _
        (any-Returned (connection.rollback w))
        λ done w' u.
          and_then-Returned Found (Written expected) (read_restriction_status connection r w') _
            (read-Found w') (require-Written expected absent other)

  -- Whatever the connection does, a publication that returns a status has just read it back, bound to
  -- the receipt's scope, sequence and digest, in the state PENDING_DENY.
  pub publish_pending-Written :
      (w : World) → Returned (Written pending_deny) (publish_pending connection r w)
  unfolding publish_pending
  publish_pending-Written w = read_back-Written pending_deny _ _ _

  -- Whatever the connection does, a finalization that returns a status has just read it back, bound to
  -- the receipt, in the state that it was asked for; PENDING_DENY is refused.
  pub finalize_restriction-Written :
      (state : RestrictionState) (w : World)
      → Returned (Written state) (finalize_restriction connection r state w)
  unfolding finalize_restriction
  finalize_restriction-Written pending_deny w = tt
  finalize_restriction-Written effective_deny w = read_back-Written effective_deny _ _ _
  finalize_restriction-Written reconciliation_required w =
      read_back-Written reconciliation_required _ _ _
  finalize_restriction-Written terminal_denied w = read_back-Written terminal_denied _ _ _
