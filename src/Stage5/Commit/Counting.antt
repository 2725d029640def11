-- ===== src/Stage5/Commit/Counting.antt =====
-- The records of attempts, counted along calls that may raise.
use automated_trading_bot.Prelude.{
  ℕ, ◌≤◌, Bool, true, false, length, if◌then◌else◌, Result, ok, err, ◌≡◌, arith,
}
use automated_trading_bot.Stage5.Commit.Outcome.{Raised}
use automated_trading_bot.Stage5.Commit.Effects.{
  Reply, returns, raises, External, Locals, Answer, done, failed, Action, continue, ◌>>=◌, ◌>>◌,
  return, raise, of_result, answer, external, caught, try, locals, set_locals,
}
use automated_trading_bot.Stage5.Commit.Attempts.{Step, finished, again, exhausted}

abbrev pub locals_after : {C W A : Type 0} → Answer C W A → Locals C
locals_after (done a l w) = l
locals_after (failed e l w) = l

-- The call adds no record.
pub record Quiet {C W A : Type 0} (m : Action C W A) : Type 0 where
  pub at :
      (b : ℕ) (l : Locals C) (w : W)
      → length l.attempts ≤ b
      → length (locals_after (m l w)).attempts ≤ b

-- However an attempt is left, there are at most `b` records.
abbrev pub StepWithin : {C : Type 0} → ℕ → Step → Locals C → Type 0
StepWithin b (finished r) l = length r.attempts ≤ b
StepWithin b again l = length l.attempts ≤ b
StepWithin b exhausted l = length l.attempts ≤ b

abbrev pub Within : {C W : Type 0} → ℕ → Answer C W Step → Type 0
Within b (done s l w) = StepWithin b s l
Within b (failed e l w) = length l.attempts ≤ b

-- Started with at most `a` records, the call ends with at most `b`.
pub record Bounded {C W : Type 0} (a b : ℕ) (m : Action C W Step) : Type 0 where
  pub at : (l : Locals C) (w : W) → length l.attempts ≤ a → Within b (m l w)

module _ {C W A B : Type 0} where
  continue-Quiet :
      (b : ℕ) (x : Answer C W A) (f : A → Action C W B)
      → length (locals_after x).attempts ≤ b
      → ((v : A) → Quiet (f v))
      → length (locals_after (continue x f)).attempts ≤ b
  continue-Quiet b (done v l w) f h q = (q v).at b l w h
  continue-Quiet b (failed e l w) f h q = h

  pub Quiet-bind :
      {m : Action C W A} {f : A → Action C W B}
      → Quiet m
      → ((v : A) → Quiet (f v))
      → Quiet (m >>= f)
  unfolding ◌>>=◌
  Quiet-bind {m} {f} q r = record { at = λ b l w h. continue-Quiet b (m l w) f (q.at b l w h) r }

module _ {C W B : Type 0} where
  pub Quiet-then :
      {m : Action C W (Unit {0})} {k : Action C W B} → Quiet m → Quiet k → Quiet (m >> k)
  unfolding ◌>>◌
  Quiet-then q r = Quiet-bind q (λ _. r)

  -- An update of the local variables that leaves the records alone.
  pub Quiet-update :
      (f : Locals C → Locals C) {k : Action C W B}
      → ((l : Locals C) → (f l).attempts ≡ l.attempts)
      → Quiet k
      → Quiet (locals >>= λ l. set_locals (f l) >> k)
  unfolding ◌>>=◌ ◌>>◌ locals set_locals
  Quiet-update f {k} same q = record { at = λ b l w h. q.at b (f l) w (rw (same l) h) }

module _ {C W A : Type 0} where
  pub Quiet-return : (v : A) → Quiet {C = C} {W = W} (return v)
  unfolding return
  Quiet-return v = record { at = λ b l w h. h }

  pub Quiet-of_result : (r : Result Raised A) → Quiet {C = C} {W = W} (of_result r)
  unfolding of_result
  Quiet-of_result (ok v) = record { at = λ b l w h. h }
  Quiet-of_result (err e) = record { at = λ b l w h. h }

  answer-Quiet :
      (b : ℕ) (x : Reply W A) (l : Locals C)
      → length l.attempts ≤ b
      → length (locals_after (answer x l)).attempts ≤ b
  answer-Quiet b (returns v w) l h = h
  answer-Quiet b (raises e w) l h = h

  pub Quiet-external : (call : External W A) → Quiet {C = C} (external call)
  unfolding external
  Quiet-external call = record { at = λ b l w h. answer-Quiet b (call w) l h }

  caught-Quiet :
      (b : ℕ) (x : Answer C W A) (handler : Raised → Action C W A)
      → length (locals_after x).attempts ≤ b
      → ((e : Raised) → Quiet (handler e))
      → length (locals_after (caught x handler)).attempts ≤ b
  caught-Quiet b (done v l w) handler h q = h
  caught-Quiet b (failed e l w) handler h q = (q e).at b l w h

  pub Quiet-try :
      {m : Action C W A} {handler : Raised → Action C W A}
      → Quiet m
      → ((e : Raised) → Quiet (handler e))
      → Quiet (try m handler)
  unfolding try
  Quiet-try {m} {handler} q r = record {
    at = λ b l w h. caught-Quiet b (m l w) handler (q.at b l w h) r;
  }

  pub Quiet-if : (c : Bool) {m n : Action C W A} → Quiet m → Quiet n → Quiet (if c then m else n)
  Quiet-if true q r = q
  Quiet-if false q r = r

  continue-Within :
      (a b : ℕ) (x : Answer C W A) (f : A → Action C W Step)
      → length (locals_after x).attempts ≤ a
      → a ≤ b
      → ((v : A) → Bounded a b (f v))
      → Within b (continue x f)
  continue-Within a b (done v l w) f h le q = (q v).at l w h
  continue-Within a b (failed e l w) f h le q = omega (arith, h, le)

  pub Bounded-bind :
      {a b : ℕ} {m : Action C W A} {f : A → Action C W Step}
      → a ≤ b
      → Quiet m
      → ((v : A) → Bounded a b (f v))
      → Bounded a b (m >>= f)
  unfolding ◌>>=◌
  Bounded-bind {a} {b} {m} {f} le q r = record {
    at = λ l w h. continue-Within a b (m l w) f (q.at a l w h) le r;
  }

step-more :
    {C : Type 0} (b c : ℕ) (s : Step) (l : Locals C) → b ≤ c → StepWithin b s l → StepWithin c s l
step-more b c (finished r) l le h = omega (arith, le, h)
step-more b c again l le h = omega (arith, le, h)
step-more b c exhausted l le h = omega (arith, le, h)

module _ {C W : Type 0} where
  pub Bounded-then :
      {a b : ℕ} {m : Action C W (Unit {0})} {k : Action C W Step}
      → a ≤ b
      → Quiet m
      → Bounded a b k
      → Bounded a b (m >> k)
  unfolding ◌>>◌
  Bounded-then le q r = Bounded-bind le q (λ _. r)

  pub Bounded-update :
      {a b : ℕ} (f : Locals C → Locals C) {k : Action C W Step}
      → ((l : Locals C) → (f l).attempts ≡ l.attempts)
      → Bounded a b k
      → Bounded a b (locals >>= λ l. set_locals (f l) >> k)
  unfolding ◌>>=◌ ◌>>◌ locals set_locals
  Bounded-update f {k} same q = record { at = λ l w h. q.at (f l) w (rw (same l) h) }

  checked-Within :
      (a b : ℕ) (r : Result Raised (Unit {0})) (l x : Locals C) (w : W) {k : Action C W Step}
      → a ≤ b
      → length l.attempts ≤ a
      → x.attempts ≡ l.attempts
      → Bounded a b k
      → Within b ((of_result r >> (set_locals x >> k)) l w)
  unfolding of_result ◌>>=◌ ◌>>◌ set_locals
  checked-Within a b (err e) l x w le h same q = omega (arith, h, le)
  checked-Within a b (ok u) l x w le h same q = q.at x w (rw same h)

  -- The same, after a check that may raise.
  pub Bounded-checked :
      {a b : ℕ} (r : Locals C → Result Raised (Unit {0})) (f : Locals C → Locals C)
      {k : Action C W Step}
      → a ≤ b
      → ((l : Locals C) → (f l).attempts ≡ l.attempts)
      → Bounded a b k
      → Bounded a b (locals >>= λ l. of_result (r l) >> (set_locals (f l) >> k))
  unfolding ◌>>=◌ locals
  Bounded-checked {a} {b} r f le same q = record {
    at = λ l w h. checked-Within a b (r l) l (f l) w le h (same l) q;
  }

  pub Bounded-return :
      {a b : ℕ} (s : Step)
      → ((l : Locals C) → length l.attempts ≤ a → StepWithin b s l)
      → Bounded {C = C} {W = W} a b (return s)
  unfolding return
  Bounded-return s k = record { at = λ l w h. k l h }

  pub Bounded-raise : {a b : ℕ} (e : Raised) → a ≤ b → Bounded {C = C} {W = W} a b (raise e)
  unfolding raise
  Bounded-raise e le = record { at = λ l w h. omega (arith, h, le) }

  pub Bounded-if :
      {a b : ℕ} (c : Bool) {m n : Action C W Step}
      → Bounded a b m
      → Bounded a b n
      → Bounded a b (if c then m else n)
  Bounded-if true q r = q
  Bounded-if false q r = r

  caught-Within :
      (b c : ℕ) (x : Answer C W Step) (handler : Raised → Action C W Step)
      → b ≤ c
      → Within b x
      → ((e : Raised) → Bounded b c (handler e))
      → Within c (caught x handler)
  caught-Within b c (done s l w) handler le h q = step-more b c s l le h
  caught-Within b c (failed e l w) handler le h q = (q e).at l w h

  pub Bounded-try :
      {a c : ℕ} (b : ℕ) {m : Action C W Step} {handler : Raised → Action C W Step}
      → b ≤ c
      → Bounded a b m
      → ((e : Raised) → Bounded b c (handler e))
      → Bounded a c (try m handler)
  unfolding try
  Bounded-try {c} b {m} {handler} le q r = record {
    at = λ l w h. caught-Within b c (m l w) handler le (q.at l w h) r;
  }

pub ruleset quiet_rules =
    (Quiet-bind, Quiet-then, Quiet-return, Quiet-of_result, Quiet-external, Quiet-try, Quiet-if)

pub locals-Quiet : {C W : Type 0} → Quiet {C = C} {W = W} locals
unfolding locals
locals-Quiet = record { at = λ b l w h. h }
