-- ===== src/Stage5/Commit/Tests.antt =====
-- Runs of `execute` over a store in memory whose commits fail with a serialization error a number of
-- times.
use automated_trading_bot.Prelude.{
  ℕ, zero, suc, ◌+◌, ◌*◌, String, true, Option, none, some, List, [], ◌∷◌, map, length, ◌≤◌, ◌≡◌,
  ◌≢◌, refl, ap, sym, ◌∙◌,
}
use automated_trading_bot.Stage5.Operation.{empty, OperationRequest}
use automated_trading_bot.Stage5.Commit.Outcome.{
  committed, restrictive_unknown, driver, DurableOutcome, AttemptContext, VerifiedAttemptEvidence,
  EnvelopeResult, check_found, validate_outcome, validate_evidence, outcome_eq,
}
use automated_trading_bot.Stage5.Commit.Effects.{
  Answer, done, failed, raise, return, external, of_result, try, locals, set_locals, ◌>>=◌, ◌>>◌,
  Reply, returns, raises, Environment, begin_serializable, transaction_identity, lock_timeout,
  statement_timeout, Statement,
}
use automated_trading_bot.Stage5.Commit.Envelope.{
  SerializableOperationEnvelope, backoff, readback, read_on, cleanup, lookup_checked,
  begin_transaction, remaining_ms, ensure, remaining_ns, delay_at, identified, ordering_key,
  ordering_key_of, is_serializable,
}
use automated_trading_bot.Stage5.Commit.Attempts.{
  execute, attempt_all, one_attempt, handler, aborted, retried, breach, body, idempotent, protected,
  after_commit, serialization_abort, finish, after_ambiguous, after_abort, recover, unreleased,
  release_open, release, note, check_persisted,
}
use automated_trading_bot.Stage5.Commit.Triples.{Post}
use automated_trading_bot.Stage5.Commit.Bound.{execute-AtMost}
use automated_trading_bot.Stage5.Commit.Truth.{
  IsOutcome, execute-IsOutcome, Database, execute-durable,
}

-- What is stored for good, what the open transaction has written, the serialization failures to
-- come, and the time in milliseconds.
record Store : Type 0 where
  durable : Option DurableOutcome
  written : Option DurableOutcome
  failures : ℕ
  now : ℕ

abbrev seen : Option DurableOutcome → Option DurableOutcome → Option DurableOutcome
seen (some o) d = some o
seen none d = d

abbrev rolled_back : Store → Store
rolled_back s = record s { written = none }

abbrev commit_with : ℕ → Store → Reply Store (Unit {0})
commit_with zero s = returns tt (record s { durable = seen s.written s.durable; written = none })
commit_with (suc n) s = raises (driver (some "40001")) (record s { failures = n; written = none })

abbrev run : Statement → Store → Store
run begin_serializable s = rolled_back s
run transaction_identity s = s
run (lock_timeout n) s = s
run (statement_timeout n) s = s

abbrev outcome : DurableOutcome
outcome = record {
  operation_id = "op-1";
  request_digest = "d1";
  status = committed;
  result_code = "OK";
  capital_effect_minor = 100;
  liability_effect_minor = 0;
}

abbrev request : OperationRequest
request = record {
  operation_id = "op-1";
  request_type = "reserve";
  scope = "scope-1";
  amount_minor = some 100;
  currency = some "EUR";
  expected_generation = 3;
  expected_epoch = 7;
  immutable_parameters = empty;
  digest = "d1";
}

abbrev proof : ℕ → String
proof zero = "proof-1"
proof (suc n) = "proof-2"

abbrev evidence_of : AttemptContext → ℕ → VerifiedAttemptEvidence
evidence_of x now = record {
  operation_id = x.operation_id;
  request_digest = x.request_digest;
  attempt = x.attempt;
  backend_identity = x.backend_identity;
  transaction_identity = x.transaction_identity;
  scope = "scope-1";
  authority_generation = 3;
  authority_epoch = 7;
  issuer_identity = "issuer";
  time_proof_id = proof now;
  verification_digest = "verified";
}

abbrev env : Environment Store (Unit {0})
env = record {
  clock_ns = λ s. (s.now, s);
  sleep_ms = λ n s. returns tt (record s { now = s.now + n * 1_000_000 });
  connect = λ d s. returns tt s;
  set_deadline = λ c d s. returns tt s;
  cursor = λ c s. returns tt s;
  statement = λ c q s. returns tt (run q s);
  fetchone = λ c s. returns (some ("SERIALIZABLE" ∷ "4242" ∷ "17" ∷ [])) s;
  lookup = λ c r x s. returns (seen s.written s.durable) s;
  verify_attempt = λ c r x s. returns (evidence_of x s.now) s;
  backend_execute = λ c r x e s. returns outcome (record s { written = some outcome });
  commit = λ c d s. commit_with s.failures s;
  rollback = λ c d s. returns true (rolled_back s);
  close = λ c d s. returns true s;
  cancel = λ c d s. returns true s;
  terminate = λ c s. returns tt s;
}

abbrev Clean : Unit {0} → Store → Type 0
Clean c s = s.written ≡ none

abbrev reply_world : {A : Type 0} → Reply Store A → Store
reply_world (returns a s) = s
reply_world (raises e s) = s

abbrev reply_value : {A : Type 0} → A → Reply Store A → A
reply_value d (returns a s) = a
reply_value d (raises e s) = d

seen_of_none : (a d : Option DurableOutcome) → a ≡ none → seen a d ≡ d
seen_of_none none d e = refl
seen_of_none (some o) d e = cc

commit_with-durable :
    (n : ℕ) (s s' : Store) (a : Unit {0})
    → commit_with n s ≡ returns a s'
    → s'.durable ≡ seen s.written s.durable
commit_with-durable zero s s' a e = sym (ap (λ r. (reply_world r).durable) e)
commit_with-durable (suc n) s s' a e = cc

store-Database : Database env request (λ s. s.durable) Clean
store-Database = record {
  rollback = λ o c d s p. p;
  cancel = λ o c d s p. p;
  close = λ o c d s p. p;
  terminate = λ o c s p. p;
  begun = λ c s a s' e. sym (ap (λ r. (reply_world r).written) e);
  clock = λ c s p. p;
  lock = λ c n s p. p;
  timeout = λ c n s p. p;
  identity = λ c s p. p;
  fetched = λ c s p. p;
  found = λ c x o s s' p e.
      sym (ap (λ r. (reply_world r).durable) e)
      ∙ sym (seen_of_none s.written s.durable p)
      ∙ ap (reply_value none) e;
  committed = λ c x d o s s' a s'' e f.
      commit_with-durable s'.failures s' s'' a f
      ∙ sym (ap (λ r. seen (reply_world r).written (reply_world r).durable) e)
      ∙ ap (reply_value none) e;
}

abbrev settings : SerializableOperationEnvelope
settings = record { max_attempts = 3; operation_timeout_ms = 1000; backoff_ms = 5 ∷ 10 ∷ [] }

abbrev one_failure : Store
one_failure = record { durable = none; written = none; failures = 1; now = 0 }

execute-IsOutcome_example :
    Post (λ r _. IsOutcome request r.outcome) (execute env settings request one_failure)
execute-IsOutcome_example = execute-IsOutcome env request settings one_failure

execute-durable_example :
    Post
      (λ r s. r.outcome.status ≢ restrictive_unknown → s.durable ≡ some r.outcome)
      (execute env settings request one_failure)
execute-durable_example =
    execute-durable env request (λ s. s.durable) Clean store-Database settings one_failure

abbrev dispositions : Answer (Unit {0}) Store EnvelopeResult → List String
dispositions (done r l s) = map (λ a. a.disposition) r.attempts
dispositions (failed e l s) = []

execute_retries :
    dispositions (execute env settings request one_failure)
    ≡ "SERIALIZATION_ABORT" ∷ "COMMITTED" ∷ []
unfolding execute attempt_all one_attempt handler aborted retried breach body idempotent protected
    after_commit serialization_abort finish after_ambiguous after_abort recover unreleased
    release_open release note check_persisted backoff readback read_on cleanup lookup_checked
    begin_transaction remaining_ms ensure remaining_ns delay_at identified ordering_key
    ordering_key_of is_serializable check_found validate_outcome validate_evidence outcome_eq raise
    return external of_result try locals set_locals ◌>>=◌ ◌>>◌
execute_retries = refl

execute-AtMost_example :
    Post
      (λ r s. length r.attempts ≤ 2 * settings.max_attempts)
      (execute env settings request one_failure)
execute-AtMost_example = execute-AtMost env settings request one_failure
