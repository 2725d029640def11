-- ===== src/Stage5/Operation/Rebuilt.antt =====
-- A created request can be built again from its own fields: what can be normalised twice is normal.
use automated_trading_bot.Prelude.{
  String, Bool, true, false, ◌&&◌, not, str_eq, ok, raise_if, ◌≡◌, refl, sym, ap, ◌∙◌, ok_injective,
  >>-eq-ok, >>=-eq-ok, Bool-cases, inl, inr,
}
use mathlib.Core.Path.{subst}
use automated_trading_bot.Prelude.Texts.{codes, ltb_codes_asym}
use automated_trading_bot.Stage5.Operation.{
  CanonicalValue, nothing, text, flag, integer, sequence, mapping, proxy, Sequence, nil, cons,
  Mapping, empty, entry, OperationRequest,
}
use automated_trading_bot.Stage5.Operation.Canonical.{
  contract_violated, RequestBody, Python, before, insert_entry, check_text, canonical_value,
  canonical_sequence, canonical_mapping, check_fields, body_of, fields_of, request_of,
  construct_request, create,
}

-- The keys of a mapping do not precede the given one.
abbrev Front : String → Mapping → Type 0
Front key empty = Unit
Front key (entry k v m) = before k key ≡ false

-- Values without a dict or a proxy in them.
unfoldable mutual
  is_flat : CanonicalValue → Bool
  is_flat nothing = true
  is_flat (text s) = true
  is_flat (flag b) = true
  is_flat (integer n) = true
  is_flat (sequence vs) = is_flat_sequence vs
  is_flat (mapping m) = false
  is_flat (proxy m) = false

  is_flat_sequence : Sequence → Bool
  is_flat_sequence nil = true
  is_flat_sequence (cons v vs) = is_flat v && is_flat_sequence vs

  pub is_flat_mapping : Mapping → Bool
  is_flat_mapping empty = true
  is_flat_mapping (entry k v m) = is_flat v && is_flat_mapping m

-- A value that is flat and the same again, where it can be normalised.
abbrev IsSteady : Python → CanonicalValue → Type 0
IsSteady python v =
    (w : CanonicalValue) → canonical_value python v ≡ ok w → (w ≡ v) × (is_flat v ≡ true)

-- A mapping whose values are steady, and whose keys are in order.
abbrev IsNormal : Python → Mapping → Type 0
IsNormal python empty = Unit
IsNormal python (entry k v m) = IsSteady python v × IsNormal python m × Front k m

insert_entry-Front :
    (key k : String) (v : CanonicalValue) (m : Mapping)
    → before k key ≡ true
    → Front k m
    → Front k (insert_entry key v m)
unfolding insert_entry
insert_entry-Front key k v empty h f = ltb_codes_asym (codes k) (codes key) h
insert_entry-Front key k v (entry j w m) h f = elim (Bool-cases (before j key)) [
  | inl e ↦ rw e f
  | inr e ↦ rw e (ltb_codes_asym (codes k) (codes key) h)
]

insert_entry-eq-entry :
    (key : String) (v : CanonicalValue) (m : Mapping)
    → Front key m
    → insert_entry key v m ≡ entry key v m
unfolding insert_entry
insert_entry-eq-entry key v empty f = refl
insert_entry-eq-entry key v (entry j w m) f = rw f refl

module _ (python : Python) where
  insert_entry-IsNormal :
      (key : String) (v : CanonicalValue) (m : Mapping)
      → IsSteady python v
      → IsNormal python m
      → IsNormal python (insert_entry key v m)
  unfolding insert_entry
  insert_entry-IsNormal key v empty c n = (c, tt, tt)
  insert_entry-IsNormal key v (entry j w m) c n = elim (Bool-cases (before j key)) [
    | inl e ↦ rw e (n.0, insert_entry-IsNormal key v m c n.1, insert_entry-Front key j v m e n.2)
    | inr e ↦ rw e (c, n, e)
  ]

  IsNormal-canonical :
      (m m' : Mapping)
      → IsNormal python m
      → canonical_mapping python m ≡ ok m'
      → (m' ≡ m) × (is_flat_mapping m ≡ true)
  unfolding canonical_mapping is_flat_mapping
  IsNormal-canonical empty m' n h = (sym (ok_injective h), refl)
  IsNormal-canonical (entry k v m) m' n h =
      let (_, h1) = >>-eq-ok (check_text python k) _ h in
      let (w, c, h2) = >>=-eq-ok (canonical_value python v) _ h1 in
      let (rest, cs, e) = >>=-eq-ok (canonical_mapping python m) _ h2 in
      let (same, flat) = n.0 w c in
      let (sames, flats) = IsNormal-canonical m rest n.1 cs in
      let whole : insert_entry k w rest ≡ entry k v m =
        rw (same, sames) (insert_entry-eq-entry k v m n.2) in
      (sym (ok_injective e) ∙ whole, rw (flat, flats) refl)

  mutual
    unfolding canonical_value is_flat

    value_again : (v v' : CanonicalValue) → canonical_value python v ≡ ok v' → IsSteady python v'
    value_again nothing v' h =
        subst (IsSteady python) (ok_injective h) (λ w e. (sym (ok_injective e), refl))
    value_again (flag b) v' h =
        subst (IsSteady python) (ok_injective h) (λ w e. (sym (ok_injective e), refl))
    value_again (integer n) v' h =
        subst (IsSteady python) (ok_injective h) (λ w e. (sym (ok_injective e), refl))
    value_again (text s) v' h =
        let (_, last) = >>-eq-ok (check_text python s) _ h in
        subst (IsSteady python) (ok_injective last) (λ w e.
          let (_, again) = >>-eq-ok (check_text python s) _ e in (sym (ok_injective again), refl))
    value_again (sequence vs) v' h =
        let (vs', c, last) = >>=-eq-ok (canonical_sequence python vs) _ h in
        subst (IsSteady python) (ok_injective last) (λ w e.
          let (ws, c', again) = >>=-eq-ok (canonical_sequence python vs') _ e in
          let (same, flat) = sequence_again vs vs' ws c c' in
          (sym (ok_injective again) ∙ ap sequence same, flat))
    value_again (mapping m) v' h =
        let (m', _, last) = >>=-eq-ok (canonical_mapping python m) _ h in
        subst (IsSteady python) (ok_injective last) (λ w e. cc)
    value_again (proxy m) v' h = cc

    sequence_again :
        (vs vs' vs'' : Sequence)
        → canonical_sequence python vs ≡ ok vs'
        → canonical_sequence python vs' ≡ ok vs''
        → (vs'' ≡ vs') × (is_flat_sequence vs' ≡ true)
    sequence_again nil vs' vs'' h =
        subst
          (λ x. canonical_sequence python x ≡ ok vs'' → (vs'' ≡ x) × (is_flat_sequence x ≡ true))
          (ok_injective h) (λ e. (sym (ok_injective e), refl))
    sequence_again (cons v vs) vs' vs'' h =
        let (w, c, h1) = >>=-eq-ok (canonical_value python v) _ h in
        let (ws, cs, last) = >>=-eq-ok (canonical_sequence python vs) _ h1 in
        subst
          (λ x. canonical_sequence python x ≡ ok vs'' → (vs'' ≡ x) × (is_flat_sequence x ≡ true))
          (ok_injective last)
          (λ e.
            let (x, d, e1) = >>=-eq-ok (canonical_value python w) _ e in
            let (xs, ds, again) = >>=-eq-ok (canonical_sequence python ws) _ e1 in
            let (same, flat) = value_again v w c x d in
            let (sames, flats) = sequence_again vs ws xs cs ds in
            (sym (ok_injective again) ∙ rw (same, sames) refl, rw (flat, flats) refl))

    mapping-IsNormal : (m m' : Mapping) → canonical_mapping python m ≡ ok m' → IsNormal python m'
    mapping-IsNormal empty m' h = subst (IsNormal python) (ok_injective h) tt
    mapping-IsNormal (entry k v m) m' h =
        let (_, h1) = >>-eq-ok (check_text python k) _ h in
        let (w, c, h2) = >>=-eq-ok (canonical_value python v) _ h1 in
        let (n, cs, e) = >>=-eq-ok (canonical_mapping python m) _ h2 in
        subst (IsNormal python) (ok_injective e)
          (insert_entry-IsNormal k w n (value_again v w c) (mapping-IsNormal m n cs))

  -- A request that is created, its parameters in whatever order, has no mapping within its parameters,
  -- and can be built again from its own fields and its own digest, and is the same request then.
  pub create-construct_request :
      (b : RequestBody) (r : OperationRequest)
      → create python b ≡ ok r
      → (is_flat_mapping r.immutable_parameters ≡ true)
        × (construct_request python (fields_of python r) r.digest ≡ ok r)
  unfolding create construct_request
  create-construct_request b r h =
      let (m, c, built) = >>=-eq-ok (canonical_mapping python b.immutable_parameters) _ h in
      let digest = python.operation_digest (body_of (record b { immutable_parameters = m })) in
      let (_, h1) =
        >>-eq-ok (check_fields python (record b { immutable_parameters = m })) _ built in
      let (m', c', h2) = >>=-eq-ok (canonical_mapping python m) _ h1 in
      let (_, last) =
        >>-eq-ok
          (raise_if
            (not (
              str_eq digest
                (python.operation_digest (body_of (record b { immutable_parameters = m' })))))
            contract_violated)
          _ h2 in
      let (again, flat) =
        IsNormal-canonical m m' (mapping-IsNormal b.immutable_parameters m c) c' in
      let same : m ≡ m' = sym again in
      let final : request_of python (record b { immutable_parameters = m' }) digest ≡ r =
        ok_injective last in
      let rebuilt =
        subst
          (λ x.
            construct_request python (record b { immutable_parameters = x }) digest
            ≡ ok (request_of python (record b { immutable_parameters = m' }) digest))
          same (built ∙ ap ok (sym final)) in
      subst
        (λ x.
          (is_flat_mapping x.immutable_parameters ≡ true)
          × (construct_request python (fields_of python x) x.digest ≡ ok x))
        final (subst (λ x. is_flat_mapping x ≡ true) same flat, rebuilt)
