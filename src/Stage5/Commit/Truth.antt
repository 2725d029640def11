-- ===== src/Stage5/Commit/Truth.antt =====
-- What `execute` returns is bound to its request, and over a transactional database it is true.
use automated_trading_bot.Prelude.{ℕ, Option, some, ok, eq_iff, ◌≡◌, ◌≢◌, refl, arith}
use automated_trading_bot.Stage5.Operation.{OperationRequest}
use automated_trading_bot.Stage5.Commit.Outcome.{
  committed, restrictive_unknown, DurableOutcome, AttemptContext, validate_outcome,
}
use automated_trading_bot.Stage5.Commit.Effects.{
  Environment, begin_serializable, transaction_identity, lock_timeout, statement_timeout, returns,
}
use automated_trading_bot.Stage5.Commit.Envelope.{SerializableOperationEnvelope}
use automated_trading_bot.Stage5.Commit.Attempts.{execute}
use automated_trading_bot.Stage5.Commit.Triples.{Post}
use automated_trading_bot.Stage5.Commit.Kept.{Stable, Upholds}
use automated_trading_bot.Stage5.Commit.Returned.{execute-K}

-- An outcome of the request, with financial effects only where it is committed.
pub record IsOutcome (request : OperationRequest) (o : DurableOutcome) : Type 0 where
  pub operation : o.operation_id ≡ request.operation_id
  pub digest : o.request_digest ≡ request.digest
  pub capital : o.status ≢ committed → o.capital_effect_minor ≡ 0
  pub liability : o.status ≢ committed → o.liability_effect_minor ≡ 0

validate_outcome-IsOutcome :
    (o : DurableOutcome) (request : OperationRequest)
    → validate_outcome o request ≡ ok tt
    → IsOutcome request o
unfolding validate_outcome
validate_outcome-IsOutcome o request h = record {
  operation = ground (arith, h, eq_iff o.operation_id request.operation_id);
  digest = ground (arith, h, eq_iff o.request_digest request.digest);
  capital = λ n. ground (arith, h, n);
  liability = λ n. ground (arith, h, n);
}

module _ {World Connection : Type 0} (env : Environment World Connection)
    (request : OperationRequest) where
  IsOutcome-Upholds : Upholds env request (λ o w. IsOutcome request o) (λ c w. Unit)
  IsOutcome-Upholds = record {
    unknown_held = λ code w. record {
      operation = refl;
      digest = refl;
      capital = λ n. refl;
      liability = λ n. refl;
    };
    rollback = λ o c d w p. p;
    cancel = λ o c d w p. p;
    close = λ o c d w p. p;
    terminate = λ o c w p. p;
    begun = λ c w a w' e. tt;
    clock = λ c w p. tt;
    lock = λ c n w p. tt;
    timeout = λ c n w p. tt;
    identity = λ c w p. tt;
    fetched = λ c w p. tt;
    found = λ c x o w w' p e v. validate_outcome-IsOutcome o request v;
    committed = λ c x d o w w' a w'' e v q. validate_outcome-IsOutcome o request v;
  }

  -- Whatever the database, its connections, the clock and the backend answer or raise, an outcome
  -- that `execute` returns is bound to the request's identity and digest, and without the status
  -- COMMITTED it has no capital and no liability effect.
  pub execute-IsOutcome :
      (settings : SerializableOperationEnvelope) (w : World)
      → Post (λ r _. IsOutcome request r.outcome) (execute env settings request w)
  execute-IsOutcome settings w = execute-K IsOutcome-Upholds settings w

-- A transactional store of outcomes: `durable` is what the world holds for good of the request's
-- operation. A transaction that has written nothing (`Clean`) looks up what is durable; a commit that
-- returns makes durable what its transaction has looked up; cleanup calls change nothing for good.
pub record Database {World Connection : Type 0} (env : Environment World Connection)
    (request : OperationRequest) (durable : World → Option DurableOutcome)
    (Clean : Connection → World → Type 0) : Type 0 where
  pub rollback :
      (o : DurableOutcome) (c : Connection) (d : ℕ)
      → Stable (λ w. durable w ≡ some o) (env.rollback c d)
  pub cancel :
      (o : DurableOutcome) (c : Connection) (d : ℕ)
      → Stable (λ w. durable w ≡ some o) (env.cancel c d)
  pub close :
      (o : DurableOutcome) (c : Connection) (d : ℕ)
      → Stable (λ w. durable w ≡ some o) (env.close c d)
  pub terminate :
      (o : DurableOutcome) (c : Connection) → Stable (λ w. durable w ≡ some o) (env.terminate c)
  pub begun :
      (c : Connection) (w : World) (a : Unit {0}) (w' : World)
      → env.statement c begin_serializable w ≡ returns a w'
      → Clean c w'
  pub clock : (c : Connection) (w : World) → Clean c w → Clean c (env.clock_ns w).1
  pub lock : (c : Connection) (n : ℕ) → Stable (Clean c) (env.statement c (lock_timeout n))
  pub timeout : (c : Connection) (n : ℕ) → Stable (Clean c) (env.statement c (statement_timeout n))
  pub identity : (c : Connection) → Stable (Clean c) (env.statement c transaction_identity)
  pub fetched : (c : Connection) → Stable (Clean c) (env.fetchone c)
  pub found :
      (c : Connection) (x : AttemptContext) (o : DurableOutcome) (w w' : World)
      → Clean c w
      → env.lookup c request x w ≡ returns (some o) w'
      → durable w' ≡ some o
  pub committed :
      (c : Connection) (x : AttemptContext) (d : ℕ) (o : DurableOutcome) (w w' : World)
      (a : Unit {0}) (w'' : World)
      → env.lookup c request x w ≡ returns (some o) w'
      → env.commit c d w' ≡ returns a w''
      → durable w'' ≡ some o

abbrev pub True :
    {World : Type 0} → (World → Option DurableOutcome) → DurableOutcome → World → Type 0
True durable o w = o.status ≢ restrictive_unknown → durable w ≡ some o

module _ {World Connection : Type 0} (env : Environment World Connection)
    (request : OperationRequest) (durable : World → Option DurableOutcome)
    (Clean : Connection → World → Type 0) (db : Database env request durable Clean) where
  Database-Upholds : Upholds env request (True durable) Clean
  Database-Upholds = record {
    unknown_held = λ code w n. absurd (n refl);
    rollback = λ o c d w p n. db.rollback o c d w (p n);
    cancel = λ o c d w p n. db.cancel o c d w (p n);
    close = λ o c d w p n. db.close o c d w (p n);
    terminate = λ o c w p n. db.terminate o c w (p n);
    begun = db.begun;
    clock = db.clock;
    lock = db.lock;
    timeout = db.timeout;
    identity = db.identity;
    fetched = db.fetched;
    found = λ c x o w w' p e v n. db.found c x o w w' p e;
    committed = λ c x d o w w' a w'' e v q n. db.committed c x d o w w' a w'' e q;
  }

  -- Over a transactional store of outcomes, whatever else fails or is retried, an outcome that
  -- `execute` returns with another status than RESTRICTIVE_UNKNOWN is durable when it returns: nothing
  -- is reported as committed or denied that the store does not hold.
  pub execute-durable :
      (settings : SerializableOperationEnvelope) (w : World)
      → Post
          (λ r w'. r.outcome.status ≢ restrictive_unknown → durable w' ≡ some r.outcome)
          (execute env settings request w)
  execute-durable settings w = execute-K Database-Upholds settings w
