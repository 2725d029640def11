-- ===== src/Stage5/Commit/Attempts.antt =====
-- `SerializableOperationEnvelope.execute`: the attempts, one transaction each, and their exceptions.
use automated_trading_bot.Prelude.{
  ℕ, zero, suc, ◌+◌, ◌*◌, String, Bool, true, false, not, Option, none, some, List, [], ◌∷◌, ◌++◌,
  ◌==◌, if◌then◌else◌, is_some, ok, err,
}
use automated_trading_bot.Stage5.Operation.{OperationRequest}
use automated_trading_bot.Stage5.Commit.Outcome.{
  Raised, deadline_exhausted, isolation_violation, operation_conflict, invalid_outcome,
  authentication_failure, driver, is_serialization, Checked, DurableOutcome, outcome_eq,
  AttemptContext, AttemptRecord, EnvelopeResult, validate_outcome, validate_evidence, unknown,
}
use automated_trading_bot.Stage5.Commit.Effects.{
  Environment, Locals, Answer, Action, ◌>>=◌, ◌>>◌, return, raise, of_result, external, try, locals,
  set_locals,
}
use automated_trading_bot.Stage5.Commit.Envelope.{
  SerializableOperationEnvelope, ordering_key, ensure, begin_transaction, lookup_checked, cleanup,
  context_of, readback, backoff,
}

-- How an attempt leaves the loop: with a result, for another attempt, or out of attempts.
pub data Step : Type 0 where
  finished : EnvelopeResult → Step
  again exhausted : Step

abbrev identity_or : (AttemptContext → String) → Option AttemptContext → String
identity_or field none = "UNESTABLISHED"
identity_or field (some c) = field c

-- The record of an attempt, from the local variables.
abbrev pub attempt_record :
    OperationRequest → String → ℕ → Option AttemptContext → String → String → AttemptRecord
attempt_record request key attempt context evidence disposition = record {
  operation_id = request.operation_id;
  request_digest = request.digest;
  attempt = attempt;
  backend_identity = identity_or (λ c. c.backend_identity) context;
  transaction_identity = identity_or (λ c. c.transaction_identity) context;
  isolation = identity_or (λ c. c.isolation) context;
  disposition = disposition;
  ordering_key = key;
  evidence_digest = evidence;
}

-- The operation did persist its exact outcome.
unfoldable pub check_persisted : Option DurableOutcome → DurableOutcome → Checked (Unit {0})
check_persisted none outcome = err invalid_outcome
check_persisted (some found) outcome =
    if outcome_eq found outcome then ok tt else err invalid_outcome

module _ {World Connection : Type 0} (env : Environment World Connection)
    (settings : SerializableOperationEnvelope) (request : OperationRequest) (deadline : ℕ)
    (key : String) (attempt : ℕ) where
  unfoldable pub note : String → Action Connection World (List AttemptRecord)
  note disposition = do
    l ← locals
    let attempts =
        l.attempts
        ++ attempt_record request key attempt l.context l.evidence_digest disposition ∷ []
    set_locals (record l { attempts = attempts })
    return attempts

  -- Cleanup of the open connection, which is then forgotten.
  unfoldable pub release : Connection → Bool → Action Connection World Bool
  release c rolls_back = do
    clean ← cleanup env c deadline rolls_back
    l ← locals
    set_locals (record l { connection = none })
    return clean

  -- The same in the exception handlers, where there may be no connection.
  unfoldable pub release_open : Option Connection → Action Connection World Bool
  unfolding release
  release_open none = return true
  release_open (some c) = release c true

  -- What follows a serialization abort, once the connection is released.
  unfoldable pub after_abort : Bool → List AttemptRecord → Action Connection World Step
  after_abort clean attempts =
      if not clean
      then return (finished (unknown request attempts "CLEANUP_UNRESOLVED" true))
      else if attempt == settings.max_attempts
      then return exhausted
      else (do backoff env settings.backoff_ms deadline attempt; return again)

  -- What follows a commit that failed otherwise: nothing is known, or what a readback finds.
  unfoldable pub unreleased : Action Connection World Step
  unfolding note
  unreleased = do
    attempts ← note "AMBIGUOUS_RELEASE_FAILED"
    return (finished (unknown request attempts "COMMIT_OUTCOME_UNKNOWN" true))

  abbrev pub recovered : List AttemptRecord → Bool → Option DurableOutcome → Step
  recovered attempts clean none =
      finished (unknown request attempts "COMMIT_OUTCOME_UNKNOWN" (not clean))
  recovered attempts clean (some outcome) =
      finished (record { outcome = outcome; attempts = attempts; cleanup_unresolved = not clean })

  unfoldable pub recover : Action Connection World Step
  unfolding note
  recover = do
    found ← readback env request deadline attempt key
    attempts ←
        note (if is_some found.0 then "AMBIGUOUS_COMMIT_RECOVERED" else "AMBIGUOUS_COMMIT_UNKNOWN")
    return (recovered attempts found.1 found.0)

  unfoldable pub after_ambiguous : Connection → Action Connection World Step
  unfolding release unreleased recover
  after_ambiguous c = do released ← release c false; if released then recover else unreleased

  unfoldable pub finish : Connection → DurableOutcome → Action Connection World Step
  unfolding release note
  finish c outcome = do
    clean ← release c false
    attempts ← note (if clean then "COMMITTED" else "COMMITTED_CLEANUP_UNRESOLVED")
    return (
        finished
          (record { outcome = outcome; attempts = attempts; cleanup_unresolved = not clean }))

  unfoldable pub serialization_abort : Connection → Action Connection World Step
  unfolding after_abort release note
  serialization_abort c = do
    clean ← release c true
    attempts ← note "SERIALIZATION_ABORT"
    after_abort clean attempts

  unfoldable pub after_commit :
      Connection → DurableOutcome → Option Raised → Action Connection World Step
  unfolding finish after_ambiguous serialization_abort
  after_commit c outcome none = finish c outcome
  after_commit c outcome (some error) =
      if is_serialization error then serialization_abort c else after_ambiguous c

  -- The attempt where no outcome is on record yet.
  unfoldable pub protected : Connection → AttemptContext → Action Connection World Step
  unfolding after_commit
  protected c context = do
    evidence ← external (env.verify_attempt c request context)
    l ← locals
    of_result (validate_evidence evidence request context l.seen_proofs)
    set_locals (record l {
      evidence_digest = evidence.verification_digest;
      seen_proofs = evidence.time_proof_id ∷ l.seen_proofs;
    })
    outcome ← external (env.backend_execute c request context evidence)
    of_result (validate_outcome outcome request)
    durable ← lookup_checked env c request context
    of_result (check_persisted durable outcome)
    error ← try (do external (env.commit c deadline); return none) (λ e. return (some e))
    after_commit c outcome error

  unfoldable pub idempotent : Connection → DurableOutcome → Action Connection World Step
  unfolding release note
  idempotent c existing = do
    clean ← release c true
    attempts ← note "IDEMPOTENT_READBACK"
    return (
        finished
          (record { outcome = existing; attempts = attempts; cleanup_unresolved = not clean }))

  unfoldable pub body : Action Connection World Step
  unfolding idempotent protected
  body = do
    ensure env deadline
    c ← external (env.connect deadline)
    l ← locals
    set_locals (record l { connection = some c })
    identity ← begin_transaction env c deadline
    let context = context_of request attempt key deadline identity
    l' ← locals
    set_locals (record l' { context = some context })
    existing ← lookup_checked env c request context
    elim existing [ some found ↦ idempotent c found | none ↦ protected c context ]

  -- `except DeadlineExhausted`
  unfoldable pub breach : Action Connection World Step
  unfolding release_open note
  breach = do
    l ← locals
    clean ← release_open l.connection
    attempts ← note "G00_PROGRESS_BREACH"
    return (finished (unknown request attempts "G00_PROGRESS_BREACH" (not clean)))

  -- A backoff that runs out of time within the handler.
  abbrev pub breach_of : List AttemptRecord → Raised → Action Connection World Step
  breach_of attempts deadline_exhausted =
      return (finished (unknown request attempts "G00_PROGRESS_BREACH" false))
  breach_of attempts isolation_violation = raise isolation_violation
  breach_of attempts operation_conflict = raise operation_conflict
  breach_of attempts invalid_outcome = raise invalid_outcome
  breach_of attempts authentication_failure = raise authentication_failure
  breach_of attempts (driver code) = raise (driver code)

  unfoldable pub retried : Bool → Action Connection World Step
  unfolding note after_abort
  retried clean = do
    attempts ← note "SERIALIZATION_ABORT"
    try (after_abort clean attempts) (breach_of attempts)

  -- `except Exception as error`
  unfoldable pub aborted : Raised → Action Connection World Step
  unfolding release_open retried
  aborted error = do
    l ← locals
    clean ← release_open l.connection
    if is_serialization error then retried clean else raise error

  unfoldable pub handler : Raised → Action Connection World Step
  unfolding breach aborted
  handler deadline_exhausted = breach
  handler isolation_violation = aborted isolation_violation
  handler operation_conflict = aborted operation_conflict
  handler invalid_outcome = aborted invalid_outcome
  handler authentication_failure = aborted authentication_failure
  handler (driver code) = aborted (driver code)

  unfoldable pub one_attempt : Action Connection World Step
  one_attempt = try body handler

module _ {World Connection : Type 0} (env : Environment World Connection)
    (settings : SerializableOperationEnvelope) (request : OperationRequest) where
  -- The local variables at the head of an attempt.
  abbrev pub fresh : Locals Connection → Locals Connection
  fresh l = record l { connection = none; context = none; evidence_digest = "UNVERIFIED" }

  -- The loop over the attempts that are left.
  unfoldable pub attempt_all : ℕ → String → ℕ → ℕ → Action Connection World EnvelopeResult
  attempt_all deadline key zero attempt = do
    l ← locals
    return (unknown request l.attempts "SERIALIZATION_RETRY_EXHAUSTED" false)
  attempt_all deadline key (suc rounds) attempt = do
    l ← locals
    set_locals (fresh l)
    step ← one_attempt env settings request deadline key attempt
    elim step [
      | finished result ↦ return result
      | again ↦ attempt_all deadline key rounds (attempt + 1)
      | exhausted ↦ do
        l' ← locals
        return (unknown request l'.attempts "SERIALIZATION_RETRY_EXHAUSTED" false)
    ]

  abbrev no_locals : Locals Connection
  no_locals = record {
    connection = none;
    context = none;
    evidence_digest = "UNVERIFIED";
    attempts = [];
    seen_proofs = [];
  }

  unfoldable pub execute : World → Answer Connection World EnvelopeResult
  execute w =
      let (now, w') = env.clock_ns w in
      let deadline = now + settings.operation_timeout_ms * 1_000_000 in
      (do key ← of_result (ordering_key request); attempt_all deadline key settings.max_attempts 1)
        no_locals w'
