-- ===== src/Stage5/Commit/Envelope.antt =====
-- The parts of `SerializableOperationEnvelope` around one connection: deadlines, the beginning of a
-- transaction, lookups, cleanup and readback. Times are nanoseconds.
use automated_trading_bot.Prelude.{
  ℕ, suc, ◌+◌, ◌-◌, ◌/◌, max, zero, String, Bool, true, false, ◌&&◌, ◌||◌, not, Option, none, some,
  List, [], ◌∷◌, map, ltb, leb, ◌==◌, str_eq, if◌then◌else◌, Result, ok, err, raise_if,
}
use automated_trading_bot.Prelude.Texts.{codes}
use automated_trading_bot.Domain.Versioning.Interpret.{bytes_eq}
use automated_trading_bot.Stage5.Operation.{
  CanonicalValue, nothing, text, flag, integer, sequence, mapping, proxy, OperationRequest, get_or,
}
use automated_trading_bot.Stage5.Commit.Outcome.{
  deadline_exhausted, isolation_violation, invalid_outcome, Checked, DurableOutcome, AttemptContext,
  check_found,
}
use automated_trading_bot.Stage5.Commit.Effects.{
  Environment, begin_serializable, transaction_identity, lock_timeout, statement_timeout, Action,
  ◌>>=◌, ◌>>◌, done, return, of_result, external, try,
}

-- The settings that the constructor checks.
pub record SerializableOperationEnvelope : Type 0 where
  pub max_attempts : ℕ
  pub operation_timeout_ms : ℕ
  pub backoff_ms : List ℕ

pub data SettingsError : Type 0 where
  bad_attempts bad_timeout bad_backoff : SettingsError

abbrev is_nil : List ℕ → Bool
is_nil [] = true
is_nil (_ ∷ _) = false

-- `SerializableOperationEnvelope.__init__`
unfoldable pub validate_settings : SerializableOperationEnvelope → Result SettingsError (Unit {0})
validate_settings s =
    if ltb s.max_attempts 1 || ltb 10 s.max_attempts
    then err bad_attempts
    else if not (leb 1 s.operation_timeout_ms && leb s.operation_timeout_ms 300_000)
    then err bad_timeout
    else if is_nil s.backoff_ms
    then err bad_backoff
    else ok tt

-- `_ordering_key`
unfoldable pub ordering_key_of : CanonicalValue → Checked String
ordering_key_of (text key) = if str_eq key "" then err invalid_outcome else ok key
ordering_key_of nothing = err invalid_outcome
ordering_key_of (flag _) = err invalid_outcome
ordering_key_of (integer _) = err invalid_outcome
ordering_key_of (sequence _) = err invalid_outcome
ordering_key_of (mapping _) = err invalid_outcome
ordering_key_of (proxy _) = err invalid_outcome

unfoldable pub ordering_key : OperationRequest → Checked String
unfolding ordering_key_of
ordering_key r =
    ordering_key_of (get_or "g00_ticket_id" (text r.operation_id) r.immutable_parameters)

abbrev lower : ℕ → ℕ
lower c = if leb b'A' c && leb c b'Z' then c + 32 else c

-- `isolation.lower() == "serializable"`: no letter of the word is the lower case of another sign.
unfoldable pub is_serializable : String → Bool
is_serializable s = bytes_eq (map lower (codes s)) (codes "serializable")

-- The backend and the transaction of the row that `_begin` reads.
unfoldable pub identified : Option (List String) → Checked (String × String)
unfolding is_serializable
identified (some (isolation ∷ backend ∷ transaction ∷ [])) =
    if is_serializable isolation then ok (backend, transaction) else err isolation_violation
identified (some []) = err isolation_violation
identified (some (_ ∷ [])) = err isolation_violation
identified (some (_ ∷ _ ∷ [])) = err isolation_violation
identified (some (_ ∷ _ ∷ _ ∷ _ ∷ _)) = err isolation_violation
identified none = err isolation_violation

-- The delay before the next attempt: the last one, once there are no more.
unfoldable pub delay_at : ℕ → List ℕ → ℕ
delay_at n [] = 0
delay_at n (d ∷ []) = d
delay_at zero (d ∷ e ∷ ds) = d
delay_at (suc n) (d ∷ e ∷ ds) = delay_at n (e ∷ ds)

abbrev pub context_of : OperationRequest → ℕ → String → ℕ → String × String → AttemptContext
context_of request attempt key deadline (backend, transaction) = record {
  operation_id = request.operation_id;
  request_digest = request.digest;
  attempt = attempt;
  backend_identity = backend;
  transaction_identity = transaction;
  isolation = "serializable";
  ordering_key = key;
  deadline_ns = deadline;
}

module _ {World Connection : Type 0} (env : Environment World Connection) where
  -- `remaining_ns`, at the clock's next reading
  unfoldable pub remaining_ns : ℕ → Action Connection World ℕ
  remaining_ns deadline l w = let (now, w') = env.clock_ns w in done (deadline - now) l w'

  -- `OperationDeadline.ensure`
  unfoldable pub ensure : ℕ → Action Connection World (Unit {0})
  ensure deadline = do
    remaining ← remaining_ns deadline
    of_result (raise_if (remaining == 0) deadline_exhausted)

  unfoldable pub remaining_ms : ℕ → Action Connection World ℕ
  remaining_ms deadline = do
    remaining ← remaining_ns deadline
    of_result (
        if remaining == 0
        then err deadline_exhausted
        else ok (max 1 ((remaining + 999_999) / 1_000_000)))

  -- `_begin`
  unfoldable pub begin_transaction : Connection → ℕ → Action Connection World (String × String)
  begin_transaction c deadline = do
    ensure deadline
    external (env.set_deadline c deadline)
    external (env.cursor c)
    external (env.statement c begin_serializable)
    timeout ← remaining_ms deadline
    external (env.statement c (lock_timeout timeout))
    external (env.statement c (statement_timeout timeout))
    external (env.statement c transaction_identity)
    row ← external (env.fetchone c)
    of_result (identified row)

  -- `_lookup_checked`
  unfoldable pub lookup_checked :
      Connection
      → OperationRequest
      → AttemptContext
      → Action Connection World (Option DurableOutcome)
  lookup_checked c request context = do
    found ← external (env.lookup c request context)
    of_result (check_found found request)

  -- `_cleanup`: every exception of the connection counts as a failure to clean up.
  unfoldable pub cleanup : Connection → ℕ → Bool → Action Connection World Bool
  cleanup c deadline rolls_back = do
    clean ←
        (if rolls_back
          then try (external (env.rollback c deadline)) (λ e. return false)
          else return true)
    _ ← (if clean then return true else try (external (env.cancel c deadline)) (λ e. return false))
    closed ← try (external (env.close c deadline)) (λ e. return false)
    (if closed then return tt else try (external (env.terminate c)) (λ e. return tt))
    return (clean && closed)

  -- `_readback` on its connection
  unfoldable pub read_on :
      OperationRequest
      → ℕ
      → ℕ
      → String
      → Connection
      → Action Connection World (Option DurableOutcome × Bool)
  read_on request deadline attempt key c =
      try
        (do
          identity ← begin_transaction c deadline
          outcome ← lookup_checked c request (context_of request attempt key deadline identity)
          clean ← cleanup c deadline true
          return (outcome, clean))
        (λ e. do _ ← cleanup c deadline true; return (none, false))

  -- `_readback`
  unfoldable pub readback :
      OperationRequest → ℕ → ℕ → String → Action Connection World (Option DurableOutcome × Bool)
  readback request deadline attempt key =
      try (do c ← external (env.connect deadline); read_on request deadline attempt key c)
        (λ e. return (none, false))

  -- `_backoff`
  unfoldable pub backoff : List ℕ → ℕ → ℕ → Action Connection World (Unit {0})
  backoff delays deadline attempt =
      let delay = delay_at (attempt - 1) delays in
      if delay == 0 then ensure deadline else do
        remaining ← remaining_ms deadline
        of_result (raise_if (leb remaining delay) deadline_exhausted)
        external (env.sleep_ms delay)
        ensure deadline
