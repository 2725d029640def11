-- ===== src/Domain/Idempotency/Duplicates.antt =====
-- When domain/idempotency.py takes a record or an event for a duplicate.
use automated_trading_bot.Prelude.{
  true, false, some, eq_iff, ok, >>=-eq-ok, >>-eq-ok, ok_injective, ◌≡◌, ◌≢◌, ◌↔◌, sym, ap, ◌∙◌,
  arith, Bool-cases, inl, inr,
}
use mathlib.Core.Path.{subst}
use automated_trading_bot.Domain.Versioning.Registry.{Bytes}
use automated_trading_bot.Domain.Versioning.Interpret.{bytes_eq}
use automated_trading_bot.Domain.Versioning.Readings.{bytes_eq-true, bytes_eq_refl}
use automated_trading_bot.Domain.Idempotency.{
  IdempotencyRecord, exact_duplicate, conflicting_reuse, validate_fingerprint, fingerprint_content,
  validate_record, adjudicate_idempotency,
}

bytes_eq-false : (a b : Bytes) → bytes_eq a b ≡ false → a ≢ b
bytes_eq-false a b f same =
    let t = subst (λ x. bytes_eq a x ≡ true) same (bytes_eq_refl a) in ground (arith, t, f)

module _ (sha256 : Bytes → Bytes) where
  valid_digest :
      (r : IdempotencyRecord)
      → validate_record sha256 r ≡ ok tt
      → r.content_fingerprint ≡ sha256 r.canonical_bytes
  unfolding validate_record fingerprint_content
  valid_digest r h =
      let (digest, e, g) = >>=-eq-ok (fingerprint_content sha256 r.canonical_bytes) _ h in
      let (_, same) = >>-eq-ok (validate_fingerprint (sha256 r.canonical_bytes)) _ e in
      bytes_eq-true r.content_fingerprint digest (ground (arith, g)) ∙ sym (ok_injective same)

  -- Of two valid records under one scoped key, the candidate is an exact duplicate just where the
  -- canonical bytes agree, and a conflicting reuse of the key just where they do not, whatever the
  -- hash: equal digests alone never make a duplicate.
  pub adjudicate_idempotency_lem :
      (candidate established : IdempotencyRecord)
      → validate_record sha256 candidate ≡ ok tt
      → validate_record sha256 established ≡ ok tt
      → candidate.operation_scope ≡ established.operation_scope
      → candidate.idempotency_key ≡ established.idempotency_key
      → ((adjudicate_idempotency candidate (some established) ≡ ok exact_duplicate)
          ↔ (candidate.canonical_bytes ≡ established.canonical_bytes))
        × ((adjudicate_idempotency candidate (some established) ≡ ok conflicting_reuse)
            ↔ (candidate.canonical_bytes ≢ established.canonical_bytes))
  unfolding adjudicate_idempotency
  adjudicate_idempotency_lem c e vc ve s k =
      let digests : c.canonical_bytes ≡ e.canonical_bytes
          → bytes_eq c.content_fingerprint e.content_fingerprint ≡ true =
        λ same.
          subst (λ d. bytes_eq c.content_fingerprint d ≡ true)
            (valid_digest c vc ∙ ap sha256 same ∙ sym (valid_digest e ve))
            (bytes_eq_refl c.content_fingerprint) in
      let scopes = eq_iff c.operation_scope e.operation_scope in
      let keys = eq_iff c.idempotency_key e.idempotency_key in
      elim (Bool-cases (bytes_eq c.canonical_bytes e.canonical_bytes)) [
        | inl t ↦
            let same = bytes_eq-true c.canonical_bytes e.canonical_bytes t in
            let digest = digests same in
            (
              (λ h. same, λ h. ground (arith, scopes, keys, digest)),
              (λ h. ground (arith, scopes, keys, digest), λ differ. absurd (differ same)),
            )
        | inr f ↦
            let differ = bytes_eq-false c.canonical_bytes e.canonical_bytes f in
            (
              (λ h. ground (arith, scopes, keys), λ same. absurd (differ same)),
              (λ h. differ, λ h. ground (arith, scopes, keys)),
            )
      ]
