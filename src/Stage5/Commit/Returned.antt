-- ===== src/Stage5/Commit/Returned.antt =====
-- Whatever `execute` returns stands in the relation to the world that the database upholds.
use automated_trading_bot.Prelude.{
  ℕ, zero, suc, ◌+◌, String, Bool, false, not, Option, none, some, List, ok, ◌≡◌, ap, ◌∙◌, arith,
  ok_injective, >>-eq-ok, raise_if, str_eq,
}
use mathlib.Core.Path.{subst}
use automated_trading_bot.Stage5.Operation.{OperationRequest}
use automated_trading_bot.Stage5.Commit.Outcome.{
  Raised, deadline_exhausted, isolation_violation, operation_conflict, invalid_outcome,
  authentication_failure, driver, is_serialization, DurableOutcome, AttemptContext, AttemptRecord,
  validate_outcome, check_found, unknown,
}
use automated_trading_bot.Stage5.Commit.Effects.{
  Environment, returns, locals, set_locals, of_result, try, return, external, ◌>>=◌, ◌>>◌,
}
use automated_trading_bot.Stage5.Commit.Envelope.{
  SerializableOperationEnvelope, ordering_key, ensure, lookup_checked,
}
use automated_trading_bot.Stage5.Commit.Attempts.{
  Step, finished, again, exhausted, check_persisted, note, release_open, idempotent, after_commit,
  protected, body, breach, breach_of, retried, aborted, handler, one_attempt, attempt_all, execute,
}
use automated_trading_bot.Stage5.Commit.Triples.{
  Post, Triple, Always, Triple-bind, Triple-then, Triple-return, Triple-raise, Triple-of_result,
  Triple-external, Triple-try, Triple-any, Triple-kept, Triple-if, Keeps-locals, Keeps-set_locals,
}
use automated_trading_bot.Stage5.Commit.Kept.{
  Upholds, FoundK, StepK, begin-Clean, lookup-FoundK, idempotent-StepK,
}
use automated_trading_bot.Stage5.Commit.Ended.{
  outcome_eq-true, after_abort-StepK, after_commit-StepK,
}

module _ {World Connection : Type 0} {env : Environment World Connection}
    {request : OperationRequest} {K : DurableOutcome → World → Type 0}
    {Clean : Connection → World → Type 0} (law : Upholds env request K Clean)
    (settings : SerializableOperationEnvelope) (d : ℕ) (key : String) (n : ℕ) where
  -- What a lookup has seen, its transaction's commit makes so.
  abbrev CommitK : Connection → Option DurableOutcome → World → Type 0
  CommitK c found w =
      (o : DurableOutcome)
      → found ≡ some o
      → validate_outcome o request ≡ ok tt
      → (a : Unit {0}) (w' : World) → env.commit c d w ≡ returns a w'
      → K o w'

  persisted :
      (c : Connection) (found : Option DurableOutcome) (o : DurableOutcome) (w : World)
      → validate_outcome o request ≡ ok tt
      → CommitK c found w
      → check_persisted found o ≡ ok tt
      → (a : Unit {0}) (w' : World) → env.commit c d w ≡ returns a w'
      → K o w'
  unfolding check_persisted
  persisted c none o w v k e = cc
  persisted c (some found) o w v k e =
      let same = outcome_eq-true found o (ground (arith, e)) in k o (ap some same) v

  check_found-eq-ok :
      (found a : Option DurableOutcome) → check_found found request ≡ ok a → found ≡ a
  unfolding check_found
  check_found-eq-ok none a e = ok_injective e
  check_found-eq-ok (some o) a e =
      let (_, rest) = >>-eq-ok (raise_if (not (str_eq o.request_digest request.digest)) _) _ e in
      let (v, last) = >>-eq-ok (validate_outcome o request) _ rest in ok_injective last

  lookup-CommitK :
      (c : Connection) (x : AttemptContext)
      → Triple Always (lookup_checked env c request x) (CommitK c)
  unfolding lookup_checked
  lookup-CommitK c x =
      Triple-bind (CommitK c)
        (Triple-external (env.lookup c request x) λ w a w' p e o s v u w'' q.
          law.committed c x d o w w' u w'' (e ∙ ap (λ z. returns z w') s) v q)
        λ found.
          Triple-of_result (check_found found request)
            λ w a h e. subst (λ z. CommitK c z w) (check_found-eq-ok found a e) h

  -- The rest of the attempt, once the backend has executed.
  settled-StepK :
      (c : Connection) (x : AttemptContext) (o : DurableOutcome)
      → validate_outcome o request ≡ ok tt
      → Triple {C = Connection} Always
          (do
            durable ← lookup_checked env c request x
            of_result (check_persisted durable o)
            error ← try (do external (env.commit c d); return none) (λ e. return (some e))
            after_commit env settings request d key n c o error)
          (StepK K)
  settled-StepK c x o v = Triple-bind (CommitK c) (lookup-CommitK c x) λ durable.
      Triple-then (λ w. (a : Unit {0}) (w' : World) → env.commit c d w ≡ returns a w' → K o w')
        (Triple-of_result (check_persisted durable o) λ w _ p e. persisted c durable o w v p e)
        (Triple-bind (λ error w. error ≡ none → K o w)
          (Triple-try
            (Triple-then (K o) (Triple-external (env.commit c d) λ w a w' p e. p a w' e)
              (Triple-return none λ w k e. k))
            λ e. Triple-return (some e) λ w k h. cc)
          λ error. after_commit-StepK law settings d key n c o error)

  protected_outcome :
      (c : Connection) (x : AttemptContext) (o : DurableOutcome)
      → Triple {C = Connection} Always
          (do
            of_result (validate_outcome o request)
            durable ← lookup_checked env c request x
            of_result (check_persisted durable o)
            error ← try (do external (env.commit c d); return none) (λ e. return (some e))
            after_commit env settings request d key n c o error)
          (StepK K)
  protected_outcome c x o =
      Triple-then (λ w. validate_outcome o request ≡ ok tt)
        (Triple-of_result (validate_outcome o request) λ w a p e. e)
        (record { at = λ l w v. (settled-StepK c x o v).at l w tt })

  protected-StepK :
      (c : Connection) (x : AttemptContext)
      → Triple Always (protected env settings request d key n c x) (StepK K)
  unfolding protected
  protected-StepK c x =
      Triple-bind (λ _. Always) (Triple-any (external (env.verify_attempt c request x)))
        λ evidence.
          Triple-bind (λ _. Always) (Triple-any locals)
            λ l. Triple-then Always (Triple-any (of_result _)) (
              Triple-then Always (Triple-any (set_locals _)) (
                Triple-bind (λ _. Always)
                  (Triple-any (external (env.backend_execute c request x evidence)))
                  λ o. protected_outcome c x o))

  existing-StepK :
      (c : Connection) (x : AttemptContext) (existing : Option DurableOutcome)
      → Triple {C = Connection}
          (FoundK K existing)
          (elim existing [
            | some found ↦ idempotent env settings request d key n c found
            | none ↦ protected env settings request d key n c x
          ])
          (StepK K)
  existing-StepK c x none = protected-StepK c x
  existing-StepK c x (some found) = idempotent-StepK law settings d key n found c

  body-StepK : Triple Always (body env settings request d key n) (StepK K)
  unfolding body
  body-StepK = Triple-then Always (Triple-any (ensure env d)) (
      Triple-bind (λ c. Always) (Triple-any (external (env.connect d)))
        λ c.
          Triple-bind (λ l. Always) (Triple-any locals)
            λ l. Triple-then Always (Triple-any (set_locals _)) (
              Triple-bind (λ identity. Clean c) (begin-Clean law settings c d)
                λ identity.
                  Triple-bind (λ l'. Clean c) (Triple-kept Keeps-locals)
                    λ l'. Triple-then (Clean c) (Triple-kept (Keeps-set_locals _)) (
                      Triple-bind (FoundK K) (lookup-FoundK law settings c _)
                        λ existing. existing-StepK c _ existing)))

  breach-StepK : Triple Always (breach env settings request d key n) (StepK K)
  unfolding breach
  breach-StepK =
      Triple-bind (λ l. Always) (Triple-any locals)
        λ l.
          Triple-bind (λ clean. Always) (Triple-any (release_open env settings request d key n _))
            λ clean.
              Triple-bind (λ _. Always) (Triple-any (note env settings request d key n _))
                λ attempts. Triple-return _ λ w k. law.unknown_held _ w

  breach_of-StepK :
      (attempts : List AttemptRecord) (e : Raised)
      → Triple Always (breach_of env settings request d key n attempts e) (StepK K)
  breach_of-StepK attempts deadline_exhausted = Triple-return _ λ w k. law.unknown_held _ w
  breach_of-StepK attempts isolation_violation = Triple-raise _
  breach_of-StepK attempts operation_conflict = Triple-raise _
  breach_of-StepK attempts invalid_outcome = Triple-raise _
  breach_of-StepK attempts authentication_failure = Triple-raise _
  breach_of-StepK attempts (driver code) = Triple-raise _

  retried-StepK :
      (clean : Bool) → Triple Always (retried env settings request d key n clean) (StepK K)
  unfolding retried
  retried-StepK clean =
      Triple-bind (λ _. Always) (Triple-any (note env settings request d key n _))
        λ attempts.
          Triple-try (after_abort-StepK law settings d key n clean attempts)
            (breach_of-StepK attempts)

  aborted-StepK : (e : Raised) → Triple Always (aborted env settings request d key n e) (StepK K)
  unfolding aborted
  aborted-StepK e =
      Triple-bind (λ l. Always) (Triple-any locals)
        λ l.
          Triple-bind (λ clean. Always) (Triple-any (release_open env settings request d key n _))
            λ clean. Triple-if (is_serialization e) (retried-StepK clean) (Triple-raise e)

  handler-StepK : (e : Raised) → Triple Always (handler env settings request d key n e) (StepK K)
  unfolding handler
  handler-StepK deadline_exhausted = breach-StepK
  handler-StepK isolation_violation = aborted-StepK isolation_violation
  handler-StepK operation_conflict = aborted-StepK operation_conflict
  handler-StepK invalid_outcome = aborted-StepK invalid_outcome
  handler-StepK authentication_failure = aborted-StepK authentication_failure
  handler-StepK (driver code) = aborted-StepK (driver code)

  one_attempt-StepK : Triple Always (one_attempt env settings request d key n) (StepK K)
  unfolding one_attempt
  one_attempt-StepK = Triple-try body-StepK handler-StepK

module _ {World Connection : Type 0} {env : Environment World Connection}
    {request : OperationRequest} {K : DurableOutcome → World → Type 0}
    {Clean : Connection → World → Type 0} (law : Upholds env request K Clean)
    (settings : SerializableOperationEnvelope) where
  spent :
      Triple {C = Connection} Always
        (do l' ← locals; return (unknown request l'.attempts "SERIALIZATION_RETRY_EXHAUSTED" false))
        (λ r. K r.outcome)
  spent =
      Triple-bind (λ l. Always) (Triple-any locals) λ l. Triple-return _ λ w k. law.unknown_held _ w

  next :
      (d : ℕ) (key : String) (rounds n : ℕ)
      → Triple Always (attempt_all env settings request d key rounds (n + 1)) (λ r. K r.outcome)
      → (step : Step)
      → Triple {C = Connection}
          (StepK K step)
          (elim step [
            | finished result ↦ return result
            | again ↦ attempt_all env settings request d key rounds (n + 1)
            | exhausted ↦ do
              l' ← locals
              return (unknown request l'.attempts "SERIALIZATION_RETRY_EXHAUSTED" false)
          ])
          (λ r. K r.outcome)
  next d key rounds n ih (finished result) = Triple-return result λ w k. k
  next d key rounds n ih again = ih
  next d key rounds n ih exhausted = spent

  attempt_all-K :
      (d : ℕ) (key : String) (rounds n : ℕ)
      → Triple Always (attempt_all env settings request d key rounds n) (λ r. K r.outcome)
  unfolding attempt_all
  attempt_all-K d key zero n = spent
  attempt_all-K d key (suc rounds) n =
      Triple-bind (λ l. Always) (Triple-any locals)
        λ l. Triple-then Always (Triple-any (set_locals _)) (
          Triple-bind (StepK K) (one_attempt-StepK law settings d key n)
            λ step. next d key rounds n (attempt_all-K d key rounds (n + 1)) step)

  pub execute-K : (w : World) → Post (λ r. K r.outcome) (execute env settings request w)
  unfolding execute
  execute-K w =
      (Triple-bind (λ key. Always) (Triple-any {P = Always} (of_result (ordering_key request)))
          λ key. attempt_all-K _ key settings.max_attempts 1).at
        _ _ tt
