-- ===== src/Stage5/Admission/Once.antt =====
-- A receipt is accepted once, and never under a revoked key.
use automated_trading_bot.Prelude.{
  ℕ, String, true, false, List, [], ◌∷◌, eq_iff, Result, ok, err, ◌≡◌, ◌≢◌, refl, sym, arith, ◌∙◌,
}
use mathlib.Core.Path.{subst}
use automated_trading_bot.Stage5.Admission.{
  G00AdmissionReceipt, VerifiedG00Attestation, AdmissionContext, G00ReceiptRejected,
  SyntheticG00TrustRoot, Codes, contains, revoke, verify_and_consume,
}
use automated_trading_bot.Stage5.Admission.Accepted.{verify-IsConsumed}

contains-cons : (s : String) (xs : List String) → contains s (s ∷ xs) ≡ true
contains-cons s xs = ground (arith, eq_iff s s)

module _ (codes : Codes) where
  -- What other callers do to the trust root.
  pub data Use : Type 0 where
    revoking : String → Use
    verifying : ℕ → G00AdmissionReceipt → AdmissionContext → Use

  abbrev pub root_after :
      SyntheticG00TrustRoot
      → Result G00ReceiptRejected (VerifiedG00Attestation × SyntheticG00TrustRoot)
      → SyntheticG00TrustRoot
  root_after root (ok (v, root')) = root'
  root_after root (err e) = root

  abbrev pub used : Use → SyntheticG00TrustRoot → SyntheticG00TrustRoot
  used (revoking key_id) root = revoke key_id root
  used (verifying now r x) root = root_after root (verify_and_consume codes now root r x)

  unfoldable pub use_all : List Use → SyntheticG00TrustRoot → SyntheticG00TrustRoot
  use_all [] root = root
  use_all (u ∷ us) root = use_all us (used u root)

  -- Nonces stay spent, keys stay revoked, and the ring of keys stays as it was.
  pub record Persists (root root' : SyntheticG00TrustRoot) : Type 0 where
    pub ring : root'.keys ≡ root.keys
    pub nonces :
        (n : String)
        → contains n root.consumed_nonces ≡ true
        → contains n root'.consumed_nonces ≡ true
    pub keys : (k : String) → contains k root.revoked ≡ true → contains k root'.revoked ≡ true

  used-Persists : (u : Use) (root : SyntheticG00TrustRoot) → Persists root (used u root)
  unfolding revoke
  used-Persists (revoking key_id) root = record {
    ring = refl;
    nonces = λ n s. s;
    keys = λ k s. ground (arith, s);
  }
  used-Persists (verifying now r x) root = after (verify_and_consume codes now root r x) refl
    where
      after :
          (y : Result G00ReceiptRejected (VerifiedG00Attestation × SyntheticG00TrustRoot))
          → verify_and_consume codes now root r x ≡ y
          → Persists root (root_after root y)
      after (err e) h = record { ring = refl; nonces = λ n s. s; keys = λ k s. s }
      after (ok (v, root')) h =
          subst (Persists root) (sym (verify-IsConsumed codes now root root' r x v h).spent)
            (record { ring = refl; nonces = λ n s. ground (arith, s); keys = λ k s. s })

  pub use_all-Persists :
      (us : List Use) (root : SyntheticG00TrustRoot) → Persists root (use_all us root)
  unfolding use_all
  use_all-Persists [] root = record { ring = refl; nonces = λ n s. s; keys = λ k s. s }
  use_all-Persists (u ∷ us) root =
      let first = used-Persists u root in
      let rest = use_all-Persists us (used u root) in
      record {
        ring = rest.ring ∙ first.ring;
        nonces = λ n s. rest.nonces n (first.nonces n s);
        keys = λ k s. rest.keys k (first.keys k s);
      }

  -- Once a receipt is accepted, whatever is verified or revoked afterwards, no receipt with its nonce
  -- is accepted again.
  pub verify-once :
      (now later : ℕ) (root root' root'' : SyntheticG00TrustRoot) (r again : G00AdmissionReceipt)
      (x y : AdmissionContext) (v v' : VerifiedG00Attestation) (between : List Use)
      → verify_and_consume codes now root r x ≡ ok (v, root')
      → again.content.nonce ≡ r.content.nonce
      → verify_and_consume codes later (use_all between root') again y ≢ ok (v', root'')
  verify-once now later root root' root'' r again x y v v' between accepted same h =
      let first = verify-IsConsumed codes now root root' r x v accepted in
      let spent : contains r.content.nonce root'.consumed_nonces ≡ true =
        rw first.spent (contains-cons r.content.nonce root.consumed_nonces) in
      let stays = (use_all-Persists between root').nonces r.content.nonce spent in
      let fresh =
        (verify-IsConsumed codes later (use_all between root') root'' again y v' h).fresh in
      let clash : contains r.content.nonce (use_all between root').consumed_nonces ≡ false =
        subst (λ n. contains n (use_all between root').consumed_nonces ≡ false) same fresh in
      cc

  -- Once a key is revoked, whatever is verified or revoked afterwards, no receipt under it is accepted.
  pub revoke-refuses :
      (later : ℕ) (root root' : SyntheticG00TrustRoot) (r : G00AdmissionReceipt)
      (y : AdmissionContext) (v : VerifiedG00Attestation) (between : List Use)
      → verify_and_consume codes later (use_all between (revoke r.content.key_id root)) r y
        ≢ ok (v, root')
  unfolding revoke
  revoke-refuses later root root' r y v between h =
      let stays =
        (use_all-Persists between (revoke r.content.key_id root)).keys r.content.key_id
          (contains-cons r.content.key_id root.revoked) in
      let trusted =
        (verify-IsConsumed codes later (use_all between (revoke r.content.key_id root)) root' r y v
          h).trusted in
      cc
