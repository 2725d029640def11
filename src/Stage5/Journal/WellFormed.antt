-- ===== src/Stage5/Journal/WellFormed.antt =====
-- The invariant of the journal's rows: each fences its effect, and no identity is there twice.
use automated_trading_bot.Prelude.{
  ℕ, String, Bool, false, ◌||◌, List, [], ◌∷◌, Option, some, ◌≡◌, refl, inl, inr, map, All, str_eq,
  if◌then◌else◌, Bool-cases,
}
use mathlib.Core.Path.{subst}
use automated_trading_bot.Stage5.Authority.{
  Crypto, RecoveryTerminalOutcome, outcome_committed, outcome_denied,
}
use automated_trading_bot.Stage5.Journal.Records.{
  is_restrictive, RecoveryRecord, TerminalConflict, AdmissionEvidence, Tables, RecoveryJournal,
  has_key,
}
use automated_trading_bot.Stage5.Journal.Connection.{
  journal_after, insert_intent, insert_admission, update_where,
}
use automated_trading_bot.Stage5.Journal.Intents.{
  dispatch_row, insert_dispatch, intent_row, write_intent, Change, changed,
}
use automated_trading_bot.Stage5.Journal.Resolution.{held_again, cleared, Evidence, resolution}
use automated_trading_bot.Stage5.Journal.Commands.{Command, perform, perform_all}
use automated_trading_bot.Stage5.Journal.Kept.{OnRows, OnJournal, Upkeep}
use automated_trading_bot.Stage5.Journal.Laws.{Coherent, Law}
use automated_trading_bot.Stage5.Journal.Lives.{perform-OnJournal}
use automated_trading_bot.Stage5.Journal.Resolved.{resolution-Upkeep, resolve-OnJournal}
use automated_trading_bot.Stage5.Journal.Rows.{
  any-eq-false, updated-All, insert_intent-eq-ok, insert_admission-eq-ok, update_one-eq-ok,
  transition_row-eq-ok, insert_dispatch-eq-ok, write_intent-eq-ok,
}

-- The uncertainty of a transaction is on record exactly in the states that forbid exposure.
abbrev pub IsFenced : RecoveryRecord → Type 0
IsFenced row = row.transaction_uncertain ≡ is_restrictive row.state

abbrev pub Keyed : List RecoveryRecord → Type 0
Keyed [] = Unit
Keyed (row ∷ rows) = All (λ r. has_key row.operation_id row.attempt_id r ≡ false) rows × Keyed rows

abbrev pub Consumed : List AdmissionEvidence → Type 0
Consumed [] = Unit
Consumed (e ∷ es) =
    All
      (λ a.
        str_eq a.attempt_id e.attempt_id || str_eq a.timeproof_identity e.timeproof_identity
        ≡ false)
      es
    × Consumed es

pub record IsWellFormed (intents : List RecoveryRecord) (conflicts : List TerminalConflict)
    (admissions : List AdmissionEvidence) : Type 0 where
  pub fenced : All IsFenced intents
  pub keyed : Keyed intents
  pub consumed : Consumed admissions

-- A change of a row that keeps the fence and the key.
record IsSafe (change : RecoveryRecord → RecoveryRecord) : Type 0 where
  fence : (row : RecoveryRecord) → IsFenced row → IsFenced (change row)
  key : (o a : String) (row : RecoveryRecord) → has_key o a (change row) ≡ has_key o a row
  operation : (row : RecoveryRecord) → (change row).operation_id ≡ row.operation_id
  attempt : (row : RecoveryRecord) → (change row).attempt_id ≡ row.attempt_id

module _ (p : RecoveryRecord → Bool) (change : RecoveryRecord → RecoveryRecord)
    (safe : IsSafe change) where
  absent-updated :
      (o a : String) (rows : List RecoveryRecord)
      → All (λ r. has_key o a r ≡ false) rows
      → All (λ r. has_key o a r ≡ false) (map (λ row. if p row then change row else row) rows)
  absent-updated o a rows q =
      updated-All p change rows (λ row e. e) (λ row e. rw (safe.key o a row) e) q

  Keyed-updated :
      (rows : List RecoveryRecord)
      → Keyed rows
      → Keyed (map (λ row. if p row then change row else row) rows)
  Keyed-updated [] k = tt
  Keyed-updated (row ∷ rows) k = elim (Bool-cases (p row)) [
    | inl e ↦ rw e (
      rw (safe.operation row, safe.attempt row)
          (absent-updated row.operation_id row.attempt_id rows k.0),
      Keyed-updated rows k.1,
    )
    | inr e ↦ rw e (absent-updated row.operation_id row.attempt_id rows k.0, Keyed-updated rows k.1)
  ]

  update-IsWellFormed :
      (t : Tables) → OnRows IsWellFormed t → OnRows IsWellFormed (update_where p change t)
  unfolding update_where
  update-IsWellFormed t q = record {
    fenced = updated-All p change t.intents (λ row f. f) (λ row f. safe.fence row f) q.fenced;
    keyed = Keyed-updated t.intents q.keyed;
    consumed = q.consumed;
  }

changed-IsSafe : (c : Change) (now : ℕ) → Coherent c → IsSafe (changed c now)
unfolding changed
changed-IsSafe c now h = record {
  fence = λ row f. h.0;
  key = λ o a row. refl;
  operation = λ row. refl;
  attempt = λ row. refl;
}

worker-IsSafe :
    (pid now : ℕ) → IsSafe (λ row. record row { worker_pid = some pid; updated_ns = now })
worker-IsSafe pid now = record {
  fence = λ row f. f;
  key = λ o a row. refl;
  operation = λ row. refl;
  attempt = λ row. refl;
}

held_again-IsSafe : (now : ℕ) → IsSafe (held_again now)
held_again-IsSafe now = record {
  fence = λ row f. refl;
  key = λ o a row. refl;
  operation = λ row. refl;
  attempt = λ row. refl;
}

cleared-IsFenced :
    (o digest nonce : String) (outcome : RecoveryTerminalOutcome) (now : ℕ) (row : RecoveryRecord)
    → IsFenced (cleared o digest outcome nonce now row)
cleared-IsFenced o digest nonce outcome_committed now row = refl
cleared-IsFenced o digest nonce outcome_denied now row = refl

cleared-IsSafe :
    (o digest nonce : String) (outcome : RecoveryTerminalOutcome) (now : ℕ)
    → IsSafe (cleared o digest outcome nonce now)
cleared-IsSafe o digest nonce outcome now = record {
  fence = λ row f. cleared-IsFenced o digest nonce outcome now row;
  key = λ p a row. refl;
  operation = λ row. refl;
  attempt = λ row. refl;
}

insert_intent-IsWellFormed :
    (row : RecoveryRecord) → IsFenced row → Upkeep IsWellFormed (insert_intent row)
insert_intent-IsWellFormed row f = record {
  at = λ t t' q e.
      let (fresh, same) = insert_intent-eq-ok row t t' e in
      subst (OnRows IsWellFormed) same (record {
        fenced = (f, q.fenced);
        keyed = (any-eq-false (has_key row.operation_id row.attempt_id) t.intents fresh, q.keyed);
        consumed = q.consumed;
      });
}

insert_admission-IsWellFormed : (e : AdmissionEvidence) → Upkeep IsWellFormed (insert_admission e)
insert_admission-IsWellFormed e = record {
  at = λ t t' q h.
      let (fresh, same) = insert_admission-eq-ok e t t' h in
      subst (OnRows IsWellFormed) same (record {
        fenced = q.fenced;
        keyed = q.keyed;
        consumed = (any-eq-false _ t.admissions fresh, q.consumed);
      });
}

insert_dispatch-IsWellFormed :
    (e : AdmissionEvidence) (pid : ℕ) (g00 : String) (now : ℕ)
    → Upkeep IsWellFormed (insert_dispatch e pid g00 now)
insert_dispatch-IsWellFormed e pid g00 now = record {
  at = λ t t' q h.
      let (between, first, second) = insert_dispatch-eq-ok e pid g00 now t t' h in
      (insert_intent-IsWellFormed (dispatch_row e pid g00 now) refl).at between t'
        ((insert_admission-IsWellFormed e).at t between q first) second;
}

write_intent-IsWellFormed :
    (o digest a g00 : String) (now : ℕ) → Upkeep IsWellFormed (write_intent o digest a g00 now)
write_intent-IsWellFormed o digest a g00 now = record {
  at = λ t t' q h. elim (write_intent-eq-ok o digest a g00 now t t' h) [
    | inl same ↦ subst (OnRows IsWellFormed) same q
    | inr e ↦ (insert_intent-IsWellFormed (intent_row o digest a g00 now) refl).at t t' q e
  ];
}

IsWellFormed-Law : Law IsWellFormed
IsWellFormed-Law = record {
  admission = insert_admission-IsWellFormed;
  dispatch = insert_dispatch-IsWellFormed;
  intent = write_intent-IsWellFormed;
  worker = λ o a pid now message. record {
    at = λ t t' q h.
        subst (OnRows IsWellFormed) (update_one-eq-ok _ _ message t t' h)
          (update-IsWellFormed _ _ (worker-IsSafe pid now) t q);
  };
  change = λ o a c now k. record {
    at = λ t t' q h.
        subst (OnRows IsWellFormed) (transition_row-eq-ok o a c now t t' h).1
          (update-IsWellFormed _ _ (changed-IsSafe c now k) t q);
  };
}

resolution-IsWellFormed :
    (o a digest : String) (e : Evidence) (nonce : String) (now : ℕ)
    → Upkeep IsWellFormed (resolution o a digest e nonce now)
resolution-IsWellFormed o a digest e nonce now =
    resolution-Upkeep IsWellFormed o a digest e nonce now
      (λ t q. update-IsWellFormed (has_key o a) (held_again now) (held_again-IsSafe now) t q)
      (λ c t q. record { fenced = q.fenced; keyed = q.keyed; consumed = q.consumed })
      (λ t q.
        update-IsWellFormed (has_key o a) (cleared o digest e.outcome nonce now)
          (cleared-IsSafe o digest nonce e.outcome now) t q)

module _ (crypto : Crypto) (pick : Tables → String → Option RecoveryRecord) where
  perform-IsWellFormed :
      (c : Command) (j : RecoveryJournal)
      → OnJournal IsWellFormed j
      → OnJournal IsWellFormed (journal_after (perform crypto pick c j))
  perform-IsWellFormed c j q =
      elim (perform-OnJournal IsWellFormed-Law crypto pick (λ c j. ⊥)
        (λ reading fate d o a digest receipt now j q. inl (
          resolve-OnJournal IsWellFormed crypto fate d o a digest receipt now reading j q
            λ v e r s. resolution-IsWellFormed o a digest e receipt.nonce now))
        c j q) [ inl kept ↦ kept | inr impossible ↦ absurd impossible ]

  -- Through every sequence of operations, however their connections end, a row of the journal says that
  -- its transaction is uncertain exactly where its state forbids exposure, an operation's attempt has one
  -- row at most, and no attempt and no time proof is admitted twice.
  pub perform_all-IsWellFormed :
      (cs : List Command) (j : RecoveryJournal)
      → OnJournal IsWellFormed j
      → OnJournal IsWellFormed (perform_all crypto pick cs j)
  unfolding perform_all
  perform_all-IsWellFormed [] j q = q
  perform_all-IsWellFormed (c ∷ cs) j q =
      perform_all-IsWellFormed cs (journal_after (perform crypto pick c j))
        (perform-IsWellFormed c j q)
