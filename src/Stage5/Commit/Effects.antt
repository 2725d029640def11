-- ===== src/Stage5/Commit/Effects.antt =====
-- The calls that leave stage5/commit_boundary/postgres_serializable.py, and the calls that may raise in
-- a method with local variables: a state of the world, behind the connection, is passed along.
use automated_trading_bot.Prelude.{ℕ, String, Bool, Option, List, Result, ok, err}
use automated_trading_bot.Stage5.Operation.{OperationRequest}
use automated_trading_bot.Stage5.Commit.Outcome.{
  Raised, DurableOutcome, AttemptContext, VerifiedAttemptEvidence, AttemptRecord,
}

-- A call of code that is not the module's: it returns or raises, and leaves a world behind.
pub data Reply (World A : Type 0) : Type 0 where
  returns : A → World → Reply World A
  raises : Raised → World → Reply World A

abbrev pub External : Type 0 → Type 0 → Type 0
External World A = World → Reply World A

-- The statements of `_begin`; the timeouts are in milliseconds.
pub data Statement : Type 0 where
  begin_serializable transaction_identity : Statement
  lock_timeout statement_timeout : ℕ → Statement

-- The clock, the sleeper, the connection factory, the connection with its cursor, and the backend.
pub record Environment (World Connection : Type 0) : Type 0 where
  pub clock_ns : World → ℕ × World
  pub sleep_ms : ℕ → External World (Unit {0})
  pub connect : ℕ → External World Connection
  pub set_deadline : Connection → ℕ → External World (Unit {0})
  pub cursor : Connection → External World (Unit {0})
  pub statement : Connection → Statement → External World (Unit {0})
  pub fetchone : Connection → External World (Option (List String))
  pub lookup :
      Connection → OperationRequest → AttemptContext → External World (Option DurableOutcome)
  pub verify_attempt :
      Connection → OperationRequest → AttemptContext → External World VerifiedAttemptEvidence
  pub backend_execute :
      Connection
      → OperationRequest
      → AttemptContext
      → VerifiedAttemptEvidence
      → External World DurableOutcome
  pub commit : Connection → ℕ → External World (Unit {0})
  pub rollback : Connection → ℕ → External World Bool
  pub close : Connection → ℕ → External World Bool
  pub cancel : Connection → ℕ → External World Bool
  pub terminate : Connection → External World (Unit {0})

-- The local variables of `execute` that its exception handlers read.
pub record Locals (Connection : Type 0) : Type 0 where
  pub connection : Option Connection
  pub context : Option AttemptContext
  pub evidence_digest : String
  pub attempts : List AttemptRecord
  pub seen_proofs : List String

-- A call within the method: the same, with the local variables that it leaves.
pub data Answer (C W A : Type 0) : Type 0 where
  done : A → Locals C → W → Answer C W A
  failed : Raised → Locals C → W → Answer C W A

abbrev pub Action : Type 0 → Type 0 → Type 0 → Type 0
Action C W A = Locals C → W → Answer C W A

abbrev pub continue : {C W A B : Type 0} → Answer C W A → (A → Action C W B) → Answer C W B
continue (done a l w) f = f a l w
continue (failed e l w) f = failed e l w

infixl 5 ◌>>=◌ ◌>>◌
unfoldable pub ◌>>=◌ : {C W A B : Type 0} → Action C W A → (A → Action C W B) → Action C W B
◌>>=◌ m f l w = continue (m l w) f

unfoldable pub ◌>>◌ : {C W B : Type 0} → Action C W (Unit {0}) → Action C W B → Action C W B
unfolding ◌>>=◌
m >> k = m >>= λ _. k

module _ {C W A : Type 0} where
  unfoldable pub return : A → Action C W A
  return a l w = done a l w

  unfoldable pub raise : Raised → Action C W A
  raise e l w = failed e l w

  unfoldable pub of_result : Result Raised A → Action C W A
  of_result (ok a) l w = done a l w
  of_result (err e) l w = failed e l w

  abbrev pub answer : Reply W A → Locals C → Answer C W A
  answer (returns a w) l = done a l w
  answer (raises e w) l = failed e l w

  unfoldable pub external : External W A → Action C W A
  external call l w = answer (call w) l

  abbrev pub caught : Answer C W A → (Raised → Action C W A) → Answer C W A
  caught (done a l w) handler = done a l w
  caught (failed e l w) handler = handler e l w

  -- `try: … except Exception as error: …`
  unfoldable pub try : Action C W A → (Raised → Action C W A) → Action C W A
  try m handler l w = caught (m l w) handler

module _ {C W : Type 0} where
  unfoldable pub locals : Action C W (Locals C)
  locals l w = done l l w

  unfoldable pub set_locals : Locals C → Action C W (Unit {0})
  set_locals l _ w = done tt l w
