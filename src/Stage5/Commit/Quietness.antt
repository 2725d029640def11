-- ===== src/Stage5/Commit/Quietness.antt =====
-- The parts of the envelope around one connection add no record of an attempt.
use automated_trading_bot.Prelude.{ℕ, String, Bool, List}
use automated_trading_bot.Stage5.Operation.{OperationRequest}
use automated_trading_bot.Stage5.Commit.Outcome.{AttemptContext}
use automated_trading_bot.Stage5.Commit.Effects.{Environment}
use automated_trading_bot.Stage5.Commit.Envelope.{
  remaining_ns, ensure, remaining_ms, begin_transaction, lookup_checked, cleanup, read_on, readback,
  backoff,
}
use automated_trading_bot.Stage5.Commit.Counting.{Quiet, Quiet-bind, Quiet-of_result, quiet_rules}

module _ {World Connection : Type 0} (env : Environment World Connection) where
  remaining_ns-Quiet : (d : ℕ) → Quiet {C = Connection} (remaining_ns env d)
  unfolding remaining_ns
  remaining_ns-Quiet d = record { at = λ b l w h. h }

  pub ensure-Quiet : (d : ℕ) → Quiet {C = Connection} (ensure env d)
  unfolding ensure
  ensure-Quiet d = Quiet-bind (remaining_ns-Quiet d) λ r. Quiet-of_result _

  remaining_ms-Quiet : (d : ℕ) → Quiet {C = Connection} (remaining_ms env d)
  unfolding remaining_ms
  remaining_ms-Quiet d = Quiet-bind (remaining_ns-Quiet d) λ r. Quiet-of_result _

  pub begin-Quiet : (c : Connection) (d : ℕ) → Quiet (begin_transaction env c d)
  unfolding begin_transaction
  begin-Quiet c d = search (quiet_rules, ensure-Quiet, remaining_ms-Quiet) depth 14

  pub lookup-Quiet :
      (c : Connection) (r : OperationRequest) (x : AttemptContext)
      → Quiet {C = Connection} (lookup_checked env c r x)
  unfolding lookup_checked
  lookup-Quiet c r x = search (quiet_rules) depth 8

  pub cleanup-Quiet :
      (c : Connection) (d : ℕ) (b : Bool) → Quiet {C = Connection} (cleanup env c d b)
  unfolding cleanup
  cleanup-Quiet c d b = search (quiet_rules) depth 14

  read_on-Quiet :
      (r : OperationRequest) (d n : ℕ) (key : String) (c : Connection)
      → Quiet {C = Connection} (read_on env r d n key c)
  unfolding read_on
  read_on-Quiet r d n key c =
      search (quiet_rules, begin-Quiet, lookup-Quiet, cleanup-Quiet) depth 14

  pub readback-Quiet :
      (r : OperationRequest) (d n : ℕ) (key : String) → Quiet (readback env r d n key)
  unfolding readback
  readback-Quiet r d n key = search (quiet_rules, read_on-Quiet) depth 10

  pub backoff-Quiet : (delays : List ℕ) (d n : ℕ) → Quiet {C = Connection} (backoff env delays d n)
  unfolding backoff
  backoff-Quiet delays d n = search (quiet_rules, ensure-Quiet, remaining_ms-Quiet) depth 12
