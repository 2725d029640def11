-- ===== src/Stage5/Journal/Rows.antt =====
-- The rows that the journal's statements leave: inversions of the statements, and updates of a list.
use automated_trading_bot.Prelude.{
  ℕ, String, Bool, false, ◌&&◌, ◌||◌, not, List, [], ◌∷◌, Option, none, some, ok, ◌≡◌, ◌⊎◌, inl,
  inr, any, map, All, str_eq, if◌then◌else◌, ok_injective, >>=-eq-ok, >>-eq-ok, raise_if,
  raise_if-eq-ok, ◌==◌, Bool-cases,
}
use automated_trading_bot.Stage5.Journal.Records.{
  RecoveryRecord, AdmissionEvidence, Tables, has_key, row_of, has_conflict,
}
use automated_trading_bot.Stage5.Journal.Connection.{
  insert_intent, insert_admission, update_where, rows_where,
}
use automated_trading_bot.Stage5.Journal.Intents.{
  dispatch_row, insert_dispatch, intent_row, accept_existing, write_intent, update_one, Change,
  changed, row_is_held, transition_row,
}

pub any-eq-false :
    {A : Type 0} (p : A → Bool) (xs : List A) → any p xs ≡ false → All (λ x. p x ≡ false) xs
any-eq-false p [] h = tt
any-eq-false p (x ∷ xs) h = elim (Bool-cases (p x)) [
  | inl e ↦ let bad = rw e at h in cc
  | inr e ↦ (e, any-eq-false p xs (rw e at h))
]

-- Every row after an update is a row before it, changed where it is selected.
pub updated-All :
    {P R : RecoveryRecord → Type 0} (p : RecoveryRecord → Bool)
    (change : RecoveryRecord → RecoveryRecord) (rows : List RecoveryRecord)
    → ((row : RecoveryRecord) → P row → R row)
    → ((row : RecoveryRecord) → P row → R (change row))
    → All P rows
    → All R (map (λ row. if p row then change row else row) rows)
updated-All p change [] h k q = tt
updated-All {R} p change (row ∷ rows) h k q = elim (Bool-cases (p row)) [
  | inl e ↦ rw e (k row q.0, updated-All p change rows h k q.1)
  | inr e ↦ rw e (h row q.0, updated-All p change rows h k q.1)
]

-- What an insertion, an update and a transition leave, where they do not raise.
pub insert_intent-eq-ok :
    (row : RecoveryRecord) (t t' : Tables)
    → insert_intent row t ≡ ok t'
    → (any (has_key row.operation_id row.attempt_id) t.intents ≡ false)
      × (record t { intents = row ∷ t.intents } ≡ t')
unfolding insert_intent
insert_intent-eq-ok row t t' h =
    elim (Bool-cases (any (has_key row.operation_id row.attempt_id) t.intents)) [
      | inl e ↦ let bad = rw e at h in cc
      | inr e ↦ (e, ok_injective (rw e at h))
    ]

pub insert_admission-eq-ok :
    (e : AdmissionEvidence) (t t' : Tables)
    → insert_admission e t ≡ ok t'
    → (any
          (λ a.
            str_eq a.attempt_id e.attempt_id || str_eq a.timeproof_identity e.timeproof_identity)
          t.admissions
        ≡ false)
      × (record t { admissions = e ∷ t.admissions } ≡ t')
unfolding insert_admission
insert_admission-eq-ok e t t' h =
    elim (Bool-cases (
      any
        (λ a. str_eq a.attempt_id e.attempt_id || str_eq a.timeproof_identity e.timeproof_identity)
        t.admissions)) [ inl c ↦ let bad = rw c at h in cc | inr c ↦ (c, ok_injective (rw c at h)) ]

pub update_one-eq-ok :
    (p : RecoveryRecord → Bool) (change : RecoveryRecord → RecoveryRecord) (message : String)
    (t t' : Tables)
    → update_one p change message t ≡ ok t'
    → update_where p change t ≡ t'
unfolding update_one
update_one-eq-ok p change message t t' h =
    let (_, e) = >>-eq-ok (raise_if (not (rows_where p t.intents == 1)) _) _ h in ok_injective e

-- A transition that clears the uncertainty finds no conflict and no hold.
pub transition_row-eq-ok :
    (o a : String) (c : Change) (now : ℕ) (t t' : Tables)
    → transition_row o a c now t ≡ ok t'
    → (not c.uncertain && (has_conflict o a t || row_is_held (row_of o a t)) ≡ false)
      × (update_where (λ row. has_key o a row && c.expected row.state) (changed c now) t ≡ t')
unfolding transition_row
transition_row-eq-ok o a c now t t' h =
    let (g, e) =
      >>-eq-ok (raise_if (not c.uncertain && (has_conflict o a t || row_is_held (row_of o a t))) _)
        _ h in
    (raise_if-eq-ok _ _ g, update_one-eq-ok _ _ _ t t' e)

pub insert_dispatch-eq-ok :
    (e : AdmissionEvidence) (pid : ℕ) (g00 : String) (now : ℕ) (t t' : Tables)
    → insert_dispatch e pid g00 now t ≡ ok t'
    → (between : Tables) × (insert_admission e t ≡ ok between)
      × (insert_intent (dispatch_row e pid g00 now) between ≡ ok t')
unfolding insert_dispatch
insert_dispatch-eq-ok e pid g00 now t t' h = >>=-eq-ok (insert_admission e t) _ h

accept_existing-eq-ok :
    (found : Option RecoveryRecord) (digest g00 : String) (fresh : RecoveryRecord) (t t' : Tables)
    → accept_existing found digest g00 fresh t ≡ ok t'
    → (t ≡ t') ⊎ (insert_intent fresh t ≡ ok t')
accept_existing-eq-ok none digest g00 fresh t t' h = inr h
accept_existing-eq-ok (some row) digest g00 fresh t t' h =
    elim (Bool-cases (not (str_eq row.request_digest digest && str_eq row.g00_sequence g00))) [
      | inl e ↦ let bad = rw e at h in cc
      | inr e ↦ inl (ok_injective (rw e at h))
    ]

pub write_intent-eq-ok :
    (o digest a g00 : String) (now : ℕ) (t t' : Tables)
    → write_intent o digest a g00 now t ≡ ok t'
    → (t ≡ t') ⊎ (insert_intent (intent_row o digest a g00 now) t ≡ ok t')
unfolding write_intent
write_intent-eq-ok o digest a g00 now t t' h =
    accept_existing-eq-ok (row_of o a t) digest g00 (intent_row o digest a g00 now) t t' h
