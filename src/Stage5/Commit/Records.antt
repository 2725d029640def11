-- ===== src/Stage5/Commit/Records.antt =====
-- An attempt of `execute` adds at most two records.
use automated_trading_bot.Prelude.{
  ℕ, suc, ◌≤◌, String, Bool, true, false, not, Option, none, some, List, [], ◌∷◌, ◌++◌, length,
  length-append, refl, arith, ◌==◌,
}
use automated_trading_bot.Stage5.Operation.{OperationRequest}
use automated_trading_bot.Stage5.Commit.Outcome.{
  Raised, deadline_exhausted, isolation_violation, operation_conflict, invalid_outcome,
  authentication_failure, driver, is_serialization, DurableOutcome, AttemptContext, AttemptRecord,
  validate_evidence,
}
use automated_trading_bot.Stage5.Commit.Effects.{
  Environment, Locals, Action, ◌>>=◌, ◌>>◌, return, locals, set_locals,
}
use automated_trading_bot.Stage5.Commit.Envelope.{SerializableOperationEnvelope}
use automated_trading_bot.Stage5.Commit.Attempts.{
  Step, again, exhausted, attempt_record, note, release, release_open, after_abort, unreleased,
  recovered, recover, after_ambiguous, finish, serialization_abort, after_commit, protected,
  idempotent, body, breach, breach_of, retried, aborted, handler, one_attempt,
}
use automated_trading_bot.Stage5.Commit.Counting.{
  Quiet, StepWithin, Bounded, Quiet-bind, Quiet-update, Quiet-return, Quiet-of_result,
  Quiet-external, Bounded-bind, Bounded-then, Bounded-update, Bounded-checked, Bounded-return,
  Bounded-raise, Bounded-if, Bounded-try, locals-Quiet, quiet_rules,
}
use automated_trading_bot.Stage5.Commit.Quietness.{
  ensure-Quiet, begin-Quiet, lookup-Quiet, cleanup-Quiet, readback-Quiet, backoff-Quiet,
}

module _ {World Connection : Type 0} (env : Environment World Connection)
    (settings : SerializableOperationEnvelope) (request : OperationRequest) (d : ℕ) (key : String)
    (n : ℕ) where
  -- The note of an attempt adds one record, and hands the records on.
  note-Bounded :
      {a b : ℕ} (disposition : String) {f : List AttemptRecord → Action Connection World Step}
      → ((xs : List AttemptRecord) → length xs ≤ suc a → Bounded (suc a) b (f xs))
      → Bounded a b (note env settings request d key n disposition >>= f)
  unfolding note ◌>>=◌ ◌>>◌ locals set_locals return
  note-Bounded {a} disposition {f} q = record {
    at = λ l w h.
        let more : length (
              l.attempts
              ++ attempt_record request key n l.context l.evidence_digest disposition ∷ [])
            ≤ suc a =
          omega (
            arith,
            h,
            length-append l.attempts
                (attempt_record request key n l.context l.evidence_digest disposition ∷ []),
          ) in
        (q _ more).at _ w more;
  }

  release-Quiet : (c : Connection) (b : Bool) → Quiet (release env settings request d key n c b)
  unfolding release
  release-Quiet c b =
      Quiet-bind (cleanup-Quiet env c d b)
        λ clean. Quiet-update (λ l. record l { connection = none }) (λ l. refl) (Quiet-return clean)

  release_open-Quiet : (c : Option Connection) → Quiet (release_open env settings request d key n c)
  unfolding release_open
  release_open-Quiet none = Quiet-return true
  release_open-Quiet (some c) = release-Quiet c true

  after_abort-Bounded :
      (a : ℕ) (clean : Bool) (xs : List AttemptRecord)
      → length xs ≤ a
      → Bounded a a (after_abort env settings request d key n clean xs)
  unfolding after_abort
  after_abort-Bounded a clean xs h = Bounded-if (not clean) (Bounded-return _ (λ l k. h)) (
      Bounded-if (n == settings.max_attempts) (Bounded-return exhausted (λ l k. k)) (
        Bounded-then (omega arith) (backoff-Quiet env settings.backoff_ms d n)
          (Bounded-return again (λ l k. k))))

  finish-Bounded :
      (a : ℕ) (c : Connection) (o : DurableOutcome)
      → Bounded a (suc a) (finish env settings request d key n c o)
  unfolding finish
  finish-Bounded a c o =
      Bounded-bind (omega arith) (release-Quiet c false)
        λ clean. note-Bounded _ λ xs h. Bounded-return _ (λ l k. h)

  idempotent-Bounded :
      (a : ℕ) (c : Connection) (o : DurableOutcome)
      → Bounded a (suc a) (idempotent env settings request d key n c o)
  unfolding idempotent
  idempotent-Bounded a c o =
      Bounded-bind (omega arith) (release-Quiet c true)
        λ clean. note-Bounded _ λ xs h. Bounded-return _ (λ l k. h)

  serialization_abort-Bounded :
      (a : ℕ) (c : Connection)
      → Bounded a (suc a) (serialization_abort env settings request d key n c)
  unfolding serialization_abort
  serialization_abort-Bounded a c =
      Bounded-bind (omega arith) (release-Quiet c true)
        λ clean. note-Bounded _ λ xs h. after_abort-Bounded (suc a) clean xs h

  recovered-Within :
      (b : ℕ) (xs : List AttemptRecord) (clean : Bool) (found : Option DurableOutcome)
      (l : Locals Connection)
      → length xs ≤ b
      → StepWithin b (recovered env settings request d key n xs clean found) l
  recovered-Within b xs clean none l h = h
  recovered-Within b xs clean (some o) l h = h

  recover-Bounded : (a : ℕ) → Bounded a (suc a) (recover env settings request d key n)
  unfolding recover
  recover-Bounded a = Bounded-bind (omega arith) (readback-Quiet env request d n key) λ found.
      note-Bounded _
        λ xs h. Bounded-return _ (λ l k. recovered-Within (suc a) xs found.1 found.0 l h)

  unreleased-Bounded : (a : ℕ) → Bounded a (suc a) (unreleased env settings request d key n)
  unfolding unreleased
  unreleased-Bounded a = note-Bounded _ λ xs h. Bounded-return _ (λ l k. h)

  after_ambiguous-Bounded :
      (a : ℕ) (c : Connection) → Bounded a (suc a) (after_ambiguous env settings request d key n c)
  unfolding after_ambiguous
  after_ambiguous-Bounded a c =
      Bounded-bind (omega arith) (release-Quiet c false)
        λ released. Bounded-if released (recover-Bounded a) (unreleased-Bounded a)

  after_commit-Bounded :
      (a : ℕ) (c : Connection) (o : DurableOutcome) (e : Option Raised)
      → Bounded a (suc a) (after_commit env settings request d key n c o e)
  unfolding after_commit
  after_commit-Bounded a c o none = finish-Bounded a c o
  after_commit-Bounded a c o (some e) =
      Bounded-if (is_serialization e) (serialization_abort-Bounded a c)
        (after_ambiguous-Bounded a c)

  protected-Bounded :
      (a : ℕ) (c : Connection) (x : AttemptContext)
      → Bounded a (suc a) (protected env settings request d key n c x)
  unfolding protected
  protected-Bounded a c x = Bounded-bind (omega arith) (Quiet-external _) λ evidence.
      Bounded-checked (λ l. validate_evidence evidence request x l.seen_proofs) _ (omega arith)
        (λ l. refl)
        (Bounded-bind (omega arith) (Quiet-external _) λ o.
          Bounded-then (omega arith) (Quiet-of_result _) (
            Bounded-bind (omega arith) (lookup-Quiet env c request x) λ durable.
              Bounded-then (omega arith) (Quiet-of_result _) (
                Bounded-bind (omega arith) (search (quiet_rules) depth 8)
                  λ e. after_commit-Bounded a c o e)))

  found-Bounded :
      (a : ℕ) (c : Connection) (x : AttemptContext) (existing : Option DurableOutcome)
      → Bounded a (suc a) (elim existing [
        | some found ↦ idempotent env settings request d key n c found
        | none ↦ protected env settings request d key n c x
      ])
  found-Bounded a c x none = protected-Bounded a c x
  found-Bounded a c x (some o) = idempotent-Bounded a c o

  body-Bounded : (a : ℕ) → Bounded a (suc a) (body env settings request d key n)
  unfolding body
  body-Bounded a = Bounded-then (omega arith) (ensure-Quiet env d) (
      Bounded-bind (omega arith) (Quiet-external _) λ c.
        Bounded-update _ (λ l. refl)
          (Bounded-bind (omega arith) (begin-Quiet env c d) λ identity.
            Bounded-update _ (λ l. refl)
              (Bounded-bind (omega arith) (lookup-Quiet env c request _)
                λ existing. found-Bounded a c _ existing)))

  breach-Bounded : (a : ℕ) → Bounded a (suc a) (breach env settings request d key n)
  unfolding breach
  breach-Bounded a = Bounded-bind (omega arith) locals-Quiet λ l.
      Bounded-bind (omega arith) (release_open-Quiet l.connection)
        λ clean. note-Bounded _ λ xs h. Bounded-return _ (λ l k. h)

  breach_of-Bounded :
      (a : ℕ) (xs : List AttemptRecord) (e : Raised)
      → length xs ≤ a
      → Bounded a a (breach_of env settings request d key n xs e)
  breach_of-Bounded a xs deadline_exhausted h = Bounded-return _ (λ l k. h)
  breach_of-Bounded a xs isolation_violation h = Bounded-raise _ (omega arith)
  breach_of-Bounded a xs operation_conflict h = Bounded-raise _ (omega arith)
  breach_of-Bounded a xs invalid_outcome h = Bounded-raise _ (omega arith)
  breach_of-Bounded a xs authentication_failure h = Bounded-raise _ (omega arith)
  breach_of-Bounded a xs (driver code) h = Bounded-raise _ (omega arith)

  retried-Bounded :
      (a : ℕ) (clean : Bool) → Bounded a (suc a) (retried env settings request d key n clean)
  unfolding retried
  retried-Bounded a clean = note-Bounded _ λ xs h.
      Bounded-try (suc a) (omega arith) (after_abort-Bounded (suc a) clean xs h)
        (λ e. breach_of-Bounded (suc a) xs e h)

  aborted-Bounded :
      (a : ℕ) (e : Raised) → Bounded a (suc a) (aborted env settings request d key n e)
  unfolding aborted
  aborted-Bounded a e = Bounded-bind (omega arith) locals-Quiet λ l.
      Bounded-bind (omega arith) (release_open-Quiet l.connection) λ clean.
        Bounded-if (is_serialization e) (retried-Bounded a clean) (Bounded-raise e (omega arith))

  handler-Bounded :
      (a : ℕ) (e : Raised) → Bounded a (suc a) (handler env settings request d key n e)
  unfolding handler
  handler-Bounded a deadline_exhausted = breach-Bounded a
  handler-Bounded a isolation_violation = aborted-Bounded a isolation_violation
  handler-Bounded a operation_conflict = aborted-Bounded a operation_conflict
  handler-Bounded a invalid_outcome = aborted-Bounded a invalid_outcome
  handler-Bounded a authentication_failure = aborted-Bounded a authentication_failure
  handler-Bounded a (driver code) = aborted-Bounded a (driver code)

  pub one_attempt-Bounded :
      (a : ℕ) → Bounded a (suc (suc a)) (one_attempt env settings request d key n)
  unfolding one_attempt
  one_attempt-Bounded a =
      Bounded-try (suc a) (omega arith) (body-Bounded a) (λ e. handler-Bounded (suc a) e)
