-- ===== src/Stage5/Commit/Kept.antt =====
-- A relation between an outcome and the world that the lookups and commits of a database establish, and
-- that its cleanup calls keep, holds of whatever outcome `execute` returns.
use automated_trading_bot.Prelude.{
  ℕ, String, Bool, true, false, not, Option, none, some, ok, ◌≡◌, refl, ap, ◌∙◌, str_eq,
  ok_injective, >>-eq-ok, raise_if,
}
use mathlib.Core.Path.{subst}
use automated_trading_bot.Stage5.Operation.{OperationRequest}
use automated_trading_bot.Stage5.Commit.Outcome.{
  DurableOutcome, AttemptContext, validate_outcome, check_found, unknown_outcome,
}
use automated_trading_bot.Stage5.Commit.Effects.{
  Environment, begin_serializable, transaction_identity, lock_timeout, statement_timeout, returns,
  External, ◌>>=◌, ◌>>◌, of_result, external,
}
use automated_trading_bot.Stage5.Commit.Envelope.{
  SerializableOperationEnvelope, identified, remaining_ns, ensure, remaining_ms, begin_transaction,
  lookup_checked, cleanup, context_of, read_on, readback,
}
use automated_trading_bot.Stage5.Commit.Attempts.{
  Step, finished, again, exhausted, note, release, finish, idempotent,
}
use automated_trading_bot.Stage5.Commit.Triples.{
  world_of, Triple, Keeps, Always, Triple-bind, Triple-then, Triple-return, Triple-of_result,
  Triple-external, Triple-try, Triple-any, Triple-kept, Keeps-bind, Keeps-then, Keeps-return,
  Keeps-of_result, Keeps-locals, Keeps-set_locals, keeps_rules,
}

-- Whatever holds before the call holds after it, also where it raises.
abbrev pub Stable : {W A : Type 0} → (W → Type 0) → External W A → Type 0
Stable P call = (w : _) → P w → P (world_of (call w))

-- What the database must do for an outcome to stand in the relation K to the world: a transaction is
-- clean once it has begun and has written nothing.
pub record Upholds {World Connection : Type 0} (env : Environment World Connection)
    (request : OperationRequest) (K : DurableOutcome → World → Type 0)
    (Clean : Connection → World → Type 0) : Type 0 where
  pub unknown_held : (code : String) (w : World) → K (unknown_outcome request code) w
  pub rollback : (o : DurableOutcome) (c : Connection) (d : ℕ) → Stable (K o) (env.rollback c d)
  pub cancel : (o : DurableOutcome) (c : Connection) (d : ℕ) → Stable (K o) (env.cancel c d)
  pub close : (o : DurableOutcome) (c : Connection) (d : ℕ) → Stable (K o) (env.close c d)
  pub terminate : (o : DurableOutcome) (c : Connection) → Stable (K o) (env.terminate c)
  pub begun :
      (c : Connection) (w : World) (a : Unit {0}) (w' : World)
      → env.statement c begin_serializable w ≡ returns a w'
      → Clean c w'
  pub clock : (c : Connection) (w : World) → Clean c w → Clean c (env.clock_ns w).1
  pub lock : (c : Connection) (n : ℕ) → Stable (Clean c) (env.statement c (lock_timeout n))
  pub timeout : (c : Connection) (n : ℕ) → Stable (Clean c) (env.statement c (statement_timeout n))
  pub identity : (c : Connection) → Stable (Clean c) (env.statement c transaction_identity)
  pub fetched : (c : Connection) → Stable (Clean c) (env.fetchone c)
  pub found :
      (c : Connection) (x : AttemptContext) (o : DurableOutcome) (w w' : World)
      → Clean c w
      → env.lookup c request x w ≡ returns (some o) w'
      → validate_outcome o request ≡ ok tt
      → K o w'
  pub committed :
      (c : Connection) (x : AttemptContext) (d : ℕ) (o : DurableOutcome) (w w' : World)
      (a : Unit {0}) (w'' : World)
      → env.lookup c request x w ≡ returns (some o) w'
      → validate_outcome o request ≡ ok tt
      → env.commit c d w' ≡ returns a w''
      → K o w''

abbrev pub FoundK :
    {World : Type 0} → (DurableOutcome → World → Type 0) → Option DurableOutcome → World → Type 0
FoundK K none w = Unit
FoundK K (some o) w = K o w

abbrev pub StepK : {World : Type 0} → (DurableOutcome → World → Type 0) → Step → World → Type 0
StepK K (finished r) w = K r.outcome w
StepK K again w = Unit
StepK K exhausted w = Unit

module _ {World Connection : Type 0} {env : Environment World Connection}
    {request : OperationRequest} {K : DurableOutcome → World → Type 0}
    {Clean : Connection → World → Type 0} (law : Upholds env request K Clean)
    (settings : SerializableOperationEnvelope) where
  pub cleanup-Keeps :
      (o : DurableOutcome) (c : Connection) (d : ℕ) (b : Bool) → Keeps (K o) (cleanup env c d b)
  unfolding cleanup
  cleanup-Keeps o c d b =
      search (keeps_rules, law.rollback o c d, law.cancel o c d, law.close o c d, law.terminate o c)
        depth 12

  remaining_ms-Keeps : (c : Connection) (d : ℕ) → Keeps (Clean c) (remaining_ms env d)
  unfolding remaining_ms remaining_ns
  remaining_ms-Keeps c d =
      Keeps-bind (record { at = λ l w p. law.clock c w p }) λ remaining. Keeps-of_result _

  timed-Keeps :
      (c : Connection) (n : ℕ)
      → Keeps {C = Connection} (Clean c) (do
        external (env.statement c (lock_timeout n))
        external (env.statement c (statement_timeout n))
        external (env.statement c transaction_identity)
        row ← external (env.fetchone c)
        of_result (identified row))
  timed-Keeps c n =
      search (keeps_rules, law.lock c n, law.timeout c n, law.identity c, law.fetched c) depth 12

  pub begin-Clean :
      (c : Connection) (d : ℕ) → Triple Always (begin_transaction env c d) (λ identity w. Clean c w)
  unfolding begin_transaction
  begin-Clean c d = Triple-then Always (Triple-any (ensure env d)) (
      Triple-then Always (Triple-any (external (env.set_deadline c d))) (
        Triple-then Always (Triple-any (external (env.cursor c))) (
          Triple-then (Clean c)
            (Triple-external (env.statement c begin_serializable)
              (λ w a w' p e. law.begun c w a w' e))
            (Triple-bind (λ timeout. Clean c) (Triple-kept (remaining_ms-Keeps c d))
              λ timeout. Triple-kept (timed-Keeps c timeout)))))

  checked :
      (found a : Option DurableOutcome) (w : World)
      → ((o : DurableOutcome) → found ≡ some o → validate_outcome o request ≡ ok tt → K o w)
      → check_found found request ≡ ok a
      → FoundK K a w
  unfolding check_found
  checked none a w h e = subst (λ x. FoundK K x w) (ok_injective e) tt
  checked (some o) a w h e =
      let (_, rest) = >>-eq-ok (raise_if (not (str_eq o.request_digest request.digest)) _) _ e in
      let (v, last) = >>-eq-ok (validate_outcome o request) _ rest in
      subst (λ x. FoundK K x w) (ok_injective last) (h o refl v)

  cleanup_found :
      (c : Connection) (d : ℕ) (found : Option DurableOutcome)
      → Keeps (FoundK K found) (cleanup env c d true)
  cleanup_found c d none = record { at = λ l w p. tt }
  cleanup_found c d (some o) = cleanup-Keeps o c d true

  pub lookup-FoundK :
      (c : Connection) (x : AttemptContext)
      → Triple (Clean c) (lookup_checked env c request x) (FoundK K)
  unfolding lookup_checked
  lookup-FoundK c x =
      Triple-bind
        (λ found w.
          (o : DurableOutcome) → found ≡ some o → validate_outcome o request ≡ ok tt → K o w)
        (Triple-external (env.lookup c request x)
          λ w a w' p e o s v. law.found c x o w w' p (e ∙ ap (λ z. returns z w') s) v)
        λ found. Triple-of_result (check_found found request) λ w a h e. checked found a w h e

  pub release-Keeps :
      (d : ℕ) (key : String) (n : ℕ) (o : DurableOutcome) (c : Connection) (b : Bool)
      → Keeps (K o) (release env settings request d key n c b)
  unfolding release
  release-Keeps d key n o c b =
      Keeps-bind (cleanup-Keeps o c d b)
        λ clean. Keeps-bind Keeps-locals λ l. Keeps-then (Keeps-set_locals _) (Keeps-return clean)

  pub note-Keeps :
      (d : ℕ) (key : String) (n : ℕ) (o : DurableOutcome) (disposition : String)
      → Keeps (K o) (note env settings request d key n disposition)
  unfolding note
  note-Keeps d key n o disposition =
      Keeps-bind Keeps-locals λ l. Keeps-then (Keeps-set_locals _) (Keeps-return _)

  pub finish-StepK :
      (d : ℕ) (key : String) (n : ℕ) (o : DurableOutcome) (c : Connection)
      → Triple (K o) (finish env settings request d key n c o) (StepK K)
  unfolding finish
  finish-StepK d key n o c =
      Triple-bind (λ clean. K o) (Triple-kept (release-Keeps d key n o c false))
        λ clean.
          Triple-bind (λ attempts. K o) (Triple-kept (note-Keeps d key n o _))
            λ attempts. Triple-return _ λ w k. k

  pub idempotent-StepK :
      (d : ℕ) (key : String) (n : ℕ) (o : DurableOutcome) (c : Connection)
      → Triple (K o) (idempotent env settings request d key n c o) (StepK K)
  unfolding idempotent
  idempotent-StepK d key n o c =
      Triple-bind (λ clean. K o) (Triple-kept (release-Keeps d key n o c true))
        λ clean.
          Triple-bind (λ attempts. K o) (Triple-kept (note-Keeps d key n o _))
            λ attempts. Triple-return _ λ w k. k

  read_on-FoundK :
      (d n : ℕ) (key : String) (c : Connection)
      → Triple Always (read_on env request d n key c) (λ r. FoundK K r.0)
  unfolding read_on
  read_on-FoundK d n key c =
      Triple-try
        (Triple-bind (λ identity. Clean c) (begin-Clean c d)
          λ identity.
            Triple-bind (FoundK K) (lookup-FoundK c (context_of request n key d identity)) λ found.
              Triple-bind (λ clean. FoundK K found) (Triple-kept (cleanup_found c d found))
                λ clean. Triple-return _ λ w k. k)
        λ e.
          Triple-bind (λ clean. Always) (Triple-any (cleanup env c d true))
            λ clean. Triple-return _ λ w k. tt

  pub readback-FoundK :
      (d n : ℕ) (key : String) → Triple Always (readback env request d n key) (λ r. FoundK K r.0)
  unfolding readback
  readback-FoundK d n key =
      Triple-try
        (Triple-bind (λ c. Always) (Triple-any (external (env.connect d)))
          λ c. read_on-FoundK d n key c)
        λ e. Triple-return _ λ w k. tt
