-- ===== src/Stage5/Commit/Ended.antt =====
-- How the attempts of `execute` end in the relation to the world, once they have tried to commit.
use automated_trading_bot.Prelude.{
  ℕ, String, Bool, true, false, not, Option, none, some, List, ◌==◌, ◌≡◌, refl, arith, eq_iff,
}
use automated_trading_bot.Stage5.Operation.{OperationRequest}
use automated_trading_bot.Stage5.Commit.Outcome.{
  Raised, is_serialization, DurableOutcome, outcome_eq, AttemptRecord,
}
use automated_trading_bot.Stage5.Commit.Effects.{Environment}
use automated_trading_bot.Stage5.Commit.Envelope.{SerializableOperationEnvelope, backoff}
use automated_trading_bot.Stage5.Commit.Attempts.{
  note, release, after_abort, unreleased, recovered, recover, after_ambiguous, serialization_abort,
  after_commit,
}
use automated_trading_bot.Stage5.Commit.Triples.{
  Triple, Always, Triple-bind, Triple-then, Triple-return, Triple-any, Triple-kept, Triple-if,
}
use automated_trading_bot.Stage5.Commit.Kept.{
  Upholds, FoundK, StepK, note-Keeps, finish-StepK, readback-FoundK,
}

pub outcome_eq-true : (a b : DurableOutcome) → outcome_eq a b ≡ true → a ≡ b
unfolding outcome_eq
outcome_eq-true a b h = ground (
  arith,
  eq_iff a.operation_id b.operation_id,
  eq_iff a.request_digest b.request_digest,
  eq_iff a.result_code b.result_code,
)

module _ {World Connection : Type 0} {env : Environment World Connection}
    {request : OperationRequest} {K : DurableOutcome → World → Type 0}
    {Clean : Connection → World → Type 0} (law : Upholds env request K Clean)
    (settings : SerializableOperationEnvelope) (d : ℕ) (key : String) (n : ℕ) where
  -- A part that ends in an unknown outcome or in another attempt.
  recovered-StepK :
      (attempts : List AttemptRecord) (clean : Bool) (found : Option DurableOutcome) (w : World)
      → FoundK K found w
      → StepK K (recovered env settings request d key n attempts clean found) w
  recovered-StepK attempts clean none w k = law.unknown_held _ w
  recovered-StepK attempts clean (some o) w k = k

  note_found :
      (found : Option DurableOutcome) (text : String)
      → Triple (FoundK K found) (note env settings request d key n text) (λ _. FoundK K found)
  note_found none text = Triple-any _
  note_found (some o) text = Triple-kept (note-Keeps law settings d key n o text)

  recover-StepK : Triple Always (recover env settings request d key n) (StepK K)
  unfolding recover
  recover-StepK =
      Triple-bind (λ r. FoundK K r.0) (readback-FoundK law settings d n key)
        λ r.
          Triple-bind (λ _. FoundK K r.0) (note_found r.0 _)
            λ attempts. Triple-return _ λ w k. recovered-StepK attempts r.1 r.0 w k

  unreleased-StepK : Triple Always (unreleased env settings request d key n) (StepK K)
  unfolding unreleased
  unreleased-StepK =
      Triple-bind (λ _. Always) (Triple-any (note env settings request d key n _))
        λ attempts. Triple-return _ λ w k. law.unknown_held _ w

  after_ambiguous-StepK :
      (c : Connection) → Triple Always (after_ambiguous env settings request d key n c) (StepK K)
  unfolding after_ambiguous
  after_ambiguous-StepK c =
      Triple-bind (λ _. Always) (Triple-any (release env settings request d key n c false))
        λ released. Triple-if released recover-StepK unreleased-StepK

  pub after_abort-StepK :
      (clean : Bool) (attempts : List AttemptRecord)
      → Triple Always (after_abort env settings request d key n clean attempts) (StepK K)
  unfolding after_abort
  after_abort-StepK clean attempts =
      Triple-if (not clean) (Triple-return _ λ w k. law.unknown_held _ w) (
        Triple-if (n == settings.max_attempts) (Triple-return _ λ w k. tt) (
          Triple-then Always (Triple-any (backoff env settings.backoff_ms d n))
            (Triple-return _ λ w k. tt)))

  serialization_abort-StepK :
      (c : Connection)
      → Triple Always (serialization_abort env settings request d key n c) (StepK K)
  unfolding serialization_abort
  serialization_abort-StepK c =
      Triple-bind (λ _. Always) (Triple-any (release env settings request d key n c true))
        λ clean.
          Triple-bind (λ _. Always) (Triple-any (note env settings request d key n _))
            λ attempts. after_abort-StepK clean attempts

  pub after_commit-StepK :
      (c : Connection) (o : DurableOutcome) (error : Option Raised)
      → Triple
          (λ w. error ≡ none → K o w)
          (after_commit env settings request d key n c o error)
          (StepK K)
  unfolding after_commit
  after_commit-StepK c o none = record {
    at = λ l w p. (finish-StepK law settings d key n o c).at l w (p refl);
  }
  after_commit-StepK c o (some error) = record {
    at = λ l w p.
        (Triple-if (is_serialization error) (serialization_abort-StepK c)
            (after_ambiguous-StepK c)).at
          l w tt;
  }
