-- ===== src/Stage5/Commit/Bound.antt =====
-- The number of records that `execute` returns.
use automated_trading_bot.Prelude.{
  ℕ, zero, suc, ◌≤◌, ◌+◌, ◌*◌, String, false, length, Result, ok, err, arith,
}
use automated_trading_bot.Stage5.Operation.{OperationRequest}
use automated_trading_bot.Stage5.Commit.Outcome.{Raised, EnvelopeResult, unknown}
use automated_trading_bot.Stage5.Commit.Effects.{
  Environment, Locals, Answer, done, failed, Action, continue, ◌>>=◌, ◌>>◌, return, of_result,
  locals, set_locals,
}
use automated_trading_bot.Stage5.Commit.Envelope.{SerializableOperationEnvelope, ordering_key}
use automated_trading_bot.Stage5.Commit.Attempts.{
  Step, finished, again, exhausted, one_attempt, fresh, attempt_all, execute,
}
use automated_trading_bot.Stage5.Commit.Triples.{Post}
use automated_trading_bot.Stage5.Commit.Counting.{Within}
use automated_trading_bot.Stage5.Commit.Records.{one_attempt-Bounded}

module _ {World Connection : Type 0} (env : Environment World Connection)
    (settings : SerializableOperationEnvelope) (request : OperationRequest) where
  abbrev AtMost : ℕ → Answer Connection World EnvelopeResult → Type 0
  AtMost b x = Post (λ r w. length r.attempts ≤ b) x

  after_step :
      (b c : ℕ) (x : Answer Connection World Step)
      (k : Step → Action Connection World EnvelopeResult)
      → Within b x
      → ((s : Step) (l : Locals Connection) (w : World)
          → Within b (done s l w)
          → AtMost c (k s l w))
      → AtMost c (continue x k)
  after_step b c (done s l w) k h next = next s l w h
  after_step b c (failed e l w) k h next = tt

  more : (b c : ℕ) (x : Answer Connection World EnvelopeResult) → b ≤ c → AtMost b x → AtMost c x
  more b c (done r l w) le h = omega (arith, le, h)
  more b c (failed e l w) le h = tt

  stepped :
      (d : ℕ) (key : String) (rounds n a : ℕ)
      → ((l : Locals Connection) (w : World)
          → length l.attempts ≤ suc (suc a)
          → AtMost
              (suc (suc a) + 2 * rounds)
              (attempt_all env settings request d key rounds (n + 1) l w))
      → (s : Step) (l : Locals Connection) (w : World) → Within (suc (suc a)) (done s l w)
      → AtMost (a + 2 * suc rounds) (
          (elim s as (λ x. Action Connection World EnvelopeResult) [
            | finished result ↦ return result
            | again ↦ attempt_all env settings request d key rounds (n + 1)
            | exhausted ↦ locals >>= λ l'.
                return (unknown request l'.attempts "SERIALIZATION_RETRY_EXHAUSTED" false)
          ])
            l w)
  unfolding ◌>>=◌ locals return
  stepped d key rounds n a rest (finished r) l w k = omega (arith, k)
  stepped d key rounds n a rest exhausted l w k = omega (arith, k)
  stepped d key rounds n a rest again l w k =
      more (suc (suc a) + 2 * rounds) (a + 2 * suc rounds) _ (omega arith) (rest l w k)

  attempt_all-AtMost :
      (d : ℕ) (key : String) (rounds n a : ℕ) (l : Locals Connection) (w : World)
      → length l.attempts ≤ a
      → AtMost (a + 2 * rounds) (attempt_all env settings request d key rounds n l w)
  unfolding attempt_all ◌>>=◌ ◌>>◌ locals set_locals return
  attempt_all-AtMost d key zero n a l w h = omega (arith, h)
  attempt_all-AtMost d key (suc rounds) n a l w h =
      after_step (suc (suc a)) (a + 2 * suc rounds)
        (one_attempt env settings request d key n (fresh env settings request l) w) _
        ((one_attempt-Bounded env settings request d key n a).at (fresh env settings request l) w h)
        (stepped d key rounds n a
          (λ l' w' k. attempt_all-AtMost d key rounds (n + 1) (suc (suc a)) l' w' k))

  keyed :
      (r : Result Raised String) (d : ℕ) (l : Locals Connection) (w : World)
      → length l.attempts ≤ 0
      → AtMost (2 * settings.max_attempts) (
          (of_result r >>= λ key. attempt_all env settings request d key settings.max_attempts 1) l
            w)
  unfolding ◌>>=◌ of_result
  keyed (err e) d l w h = tt
  keyed (ok key) d l w h =
      more (0 + 2 * settings.max_attempts) (2 * settings.max_attempts) _ (omega arith)
        (attempt_all-AtMost d key settings.max_attempts 1 0 l w h)

  -- However the calls end, `execute` returns at most two records of attempts for each attempt that its
  -- settings allow.
  pub execute-AtMost :
      (w : World)
      → Post (λ r _. length r.attempts ≤ 2 * settings.max_attempts) (execute env settings request w)
  unfolding execute
  execute-AtMost w = keyed (ordering_key request) _ _ _ (omega arith)
