-- ===== src/Stage5/Journal/Holding.antt =====
-- The statements of the journal that leave a held row held.
use automated_trading_bot.Prelude.{
  ℕ, String, Bool, true, false, ◌&&◌, ◌||◌, not, List, [], ◌∷◌, some, ◌≡◌, refl, sym, ◌∙◌, inl, inr,
  map, any, find, str_eq, eq_iff, if◌then◌else◌, Bool-cases, arith,
}
use mathlib.Core.Path.{subst}
use automated_trading_bot.Stage5.Journal.Records.{
  is_held, is_intent, RecoveryRecord, AdmissionEvidence, Tables, has_key, row_of, has_conflict,
}
use automated_trading_bot.Stage5.Journal.Connection.{insert_intent, insert_admission, update_where}
use automated_trading_bot.Stage5.Journal.Intents.{
  dispatch_row, insert_dispatch, intent_row, write_intent, Change, changed, row_is_held,
}
use automated_trading_bot.Stage5.Journal.Resolution.{held_again, cleared, Evidence, resolution}
use automated_trading_bot.Stage5.Journal.Kept.{Rows, OnRows, Upkeep}
use automated_trading_bot.Stage5.Journal.Laws.{Coherent, Law}
use automated_trading_bot.Stage5.Journal.Resolved.{resolution-Upkeep}
use automated_trading_bot.Stage5.Journal.Rows.{
  insert_intent-eq-ok, insert_admission-eq-ok, update_one-eq-ok, transition_row-eq-ok,
  insert_dispatch-eq-ok, write_intent-eq-ok,
}

-- The row of an operation's attempt is in a state that only terminal evidence clears.
abbrev pub IsHeld : String → String → Rows
IsHeld o a intents conflicts admissions = row_is_held (find (has_key o a) intents) ≡ true

differ : true ≡ false → ⊥
differ h = cc

changed-has_key :
    (o a : String) (c : Change) (now : ℕ) (row : RecoveryRecord)
    → has_key o a (changed c now row) ≡ has_key o a row
unfolding changed
changed-has_key o a c now row = refl

module _ (o a : String) where
  -- An update that takes no held row of the attempt out of its hold.
  held-updated :
      (p : RecoveryRecord → Bool) (change : RecoveryRecord → RecoveryRecord)
      → ((row : RecoveryRecord) → has_key o a (change row) ≡ has_key o a row)
      → ((row : RecoveryRecord)
          → has_key o a row ≡ true
          → is_held row.state ≡ true
          → p row ≡ true
          → is_held (change row).state ≡ true)
      → (rows : List RecoveryRecord) → row_is_held (find (has_key o a) rows) ≡ true
      → row_is_held (find (has_key o a) (map (λ row. if p row then change row else row) rows))
        ≡ true
  held-updated p change key still [] h = h
  held-updated p change key still (row ∷ rows) h = elim (Bool-cases (p row)) [
    | inl s ↦ elim (Bool-cases (has_key o a row)) [
      | inl k ↦ rw (s, key row, k) (still row k (rw k at h) s)
      | inr k ↦ rw (s, key row, k) (held-updated p change key still rows (rw k at h))
    ]
    | inr s ↦ elim (Bool-cases (has_key o a row)) [
      | inl k ↦ rw (s, k) (rw k at h)
      | inr k ↦ rw (s, k) (held-updated p change key still rows (rw k at h))
    ]
  ]

  held-any :
      (p : RecoveryRecord → Bool) (rows : List RecoveryRecord)
      → row_is_held (find p rows) ≡ true
      → any p rows ≡ true
  held-any p [] h = cc
  held-any p (row ∷ rows) h = elim (Bool-cases (p row)) [
    | inl k ↦ rw k refl
    | inr k ↦ rw k (held-any p rows (rw k at h))
  ]

  has_key-eq :
      (row : RecoveryRecord)
      → has_key o a row ≡ true
      → (row.operation_id ≡ o) × (row.attempt_id ≡ a)
  has_key-eq row h =
      (ground (arith, h, eq_iff row.operation_id o), ground (arith, h, eq_iff row.attempt_id a))

  inserted-held :
      (row : RecoveryRecord) (rows : List RecoveryRecord)
      → row_is_held (find (has_key o a) rows) ≡ true
      → any (has_key row.operation_id row.attempt_id) rows ≡ false
      → row_is_held (find (has_key o a) (row ∷ rows)) ≡ true
  inserted-held row rows q fresh = elim (Bool-cases (has_key o a row)) [
    | inl k ↦
        let (same_operation, same_attempt) = has_key-eq row k in
        let taken : any (has_key row.operation_id row.attempt_id) rows ≡ true =
          rw (same_operation, same_attempt) (held-any (has_key o a) rows q) in
        absurd (differ (sym taken ∙ fresh))
    | inr k ↦ rw k q
  ]

  -- No row is inserted before a held row of the same key.
  insert_intent-IsHeld : (row : RecoveryRecord) → Upkeep (IsHeld o a) (insert_intent row)
  insert_intent-IsHeld row = record {
    at = λ t t' q h.
        let (fresh, same) = insert_intent-eq-ok row t t' h in
        subst (OnRows (IsHeld o a)) same (inserted-held row t.intents q fresh);
  }

  insert_admission-IsHeld : (e : AdmissionEvidence) → Upkeep (IsHeld o a) (insert_admission e)
  insert_admission-IsHeld e = record {
    at = λ t t' q h. subst (OnRows (IsHeld o a)) (insert_admission-eq-ok e t t' h).1 q;
  }

  insert_dispatch-IsHeld :
      (e : AdmissionEvidence) (pid : ℕ) (g00 : String) (now : ℕ)
      → Upkeep (IsHeld o a) (insert_dispatch e pid g00 now)
  insert_dispatch-IsHeld e pid g00 now = record {
    at = λ t t' q h.
        let (between, first, second) = insert_dispatch-eq-ok e pid g00 now t t' h in
        (insert_intent-IsHeld (dispatch_row e pid g00 now)).at between t'
          ((insert_admission-IsHeld e).at t between q first) second;
  }

  write_intent-IsHeld :
      (o' digest a' g00 : String) (now : ℕ)
      → Upkeep (IsHeld o a) (write_intent o' digest a' g00 now)
  write_intent-IsHeld o' digest a' g00 now = record {
    at = λ t t' q h. elim (write_intent-eq-ok o' digest a' g00 now t t' h) [
      | inl same ↦ subst (OnRows (IsHeld o a)) same q
      | inr e ↦ (insert_intent-IsHeld (intent_row o' digest a' g00 now)).at t t' q e
    ];
  }

  update-IsHeld :
      (p : RecoveryRecord → Bool) (change : RecoveryRecord → RecoveryRecord)
      → ((row : RecoveryRecord) → has_key o a (change row) ≡ has_key o a row)
      → (t : Tables)
      → ((row : RecoveryRecord)
          → has_key o a row ≡ true
          → is_held row.state ≡ true
          → p row ≡ true
          → is_held (change row).state ≡ true)
      → OnRows (IsHeld o a) t
      → OnRows (IsHeld o a) (update_where p change t)
  unfolding update_where
  update-IsHeld p change key t still q = held-updated p change key still t.intents q

  same-key :
      (o' a' : String) (row : RecoveryRecord)
      → has_key o a row ≡ true
      → has_key o' a' row ≡ true
      → (o' ≡ o) × (a' ≡ a)
  same-key o' a' row k k' = (
    ground (arith, k, k', eq_iff row.operation_id o, eq_iff row.operation_id o'),
    ground (arith, k, k', eq_iff row.attempt_id a, eq_iff row.attempt_id a'),
  )

  -- A transition that clears its row's uncertainty has found the row out of hold.
  still-held :
      (o' a' : String) (c : Change) (now : ℕ) (t : Tables)
      → Coherent c
      → (not c.uncertain && (has_conflict o' a' t || row_is_held (row_of o' a' t)) ≡ false)
      → OnRows (IsHeld o a) t
      → (row : RecoveryRecord) → has_key o a row ≡ true
      → is_held row.state ≡ true
      → (has_key o' a' row && c.expected row.state) ≡ true
      → is_held (changed c now row).state ≡ true
  unfolding changed row_of
  still-held o' a' c now t coherent guard q row k held s = elim (Bool-cases c.uncertain) [
    | inl u ↦ coherent.1 row.state held (ground (arith, s)) u
    | inr u ↦
        let (same_operation, same_attempt) = same-key o' a' row k (ground (arith, s)) in
        let taken : row_is_held (find (has_key o' a') t.intents) ≡ true =
          rw (same_operation, same_attempt) q in
        ground (arith, guard, u, taken)
  ]

  pub IsHeld-Law : Law (IsHeld o a)
  IsHeld-Law = record {
    admission = insert_admission-IsHeld;
    dispatch = insert_dispatch-IsHeld;
    intent = write_intent-IsHeld;
    worker = λ o' a' pid now message. record {
      at = λ t t' q h. subst (OnRows (IsHeld o a)) (update_one-eq-ok _ _ message t t' h) (
          update-IsHeld (λ row. has_key o' a' row && is_intent row.state)
            (λ row. record row { worker_pid = some pid; updated_ns = now }) (λ row. refl) t
            (λ row k held s. held) q);
    };
    change = λ o' a' c now coherent. record {
      at = λ t t' q h.
          let (guard, same) = transition_row-eq-ok o' a' c now t t' h in
          subst (OnRows (IsHeld o a)) same (
            update-IsHeld (λ row. has_key o' a' row && c.expected row.state) (changed c now)
              (changed-has_key o a c now) t (still-held o' a' c now t coherent guard q) q);
    };
  }

  -- A resolution of another attempt leaves the held row alone.
  pub resolution-IsHeld :
      (o' a' digest : String) (e : Evidence) (nonce : String) (now : ℕ)
      → (str_eq o' o && str_eq a' a) ≡ false
      → Upkeep (IsHeld o a) (resolution o' a' digest e nonce now)
  resolution-IsHeld o' a' digest e nonce now other =
      resolution-Upkeep (IsHeld o a) o' a' digest e nonce now
        (λ t q.
          update-IsHeld (has_key o' a') (held_again now) (λ row. refl) t (λ row k held s. refl) q)
        (λ c t q. q)
        (λ t q.
          update-IsHeld (has_key o' a') (cleared o' digest e.outcome nonce now) (λ row. refl) t
            (λ row k held s.
              let (same_operation, same_attempt) = same-key o' a' row k s in
              ground (arith, other, eq_iff o' o, eq_iff a' a, same_operation, same_attempt))
            q)
