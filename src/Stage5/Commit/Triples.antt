-- ===== src/Stage5/Commit/Triples.antt =====
-- Assertions on calls that may raise: what holds of the value and the world where a call returns, and
-- what a call keeps of the world however it ends.
use automated_trading_bot.Prelude.{Bool, true, false, if◌then◌else◌, Result, ok, err, ◌≡◌, refl}
use automated_trading_bot.Stage5.Commit.Outcome.{Raised}
use automated_trading_bot.Stage5.Commit.Effects.{
  Reply, returns, raises, External, Locals, Answer, done, failed, Action, continue, ◌>>=◌, ◌>>◌,
  return, raise, of_result, answer, external, caught, try, locals, set_locals,
}

abbrev pub world_of : {W A : Type 0} → Reply W A → W
world_of (returns a w) = w
world_of (raises e w) = w

abbrev pub after : {C W A : Type 0} → Answer C W A → W
after (done a l w) = w
after (failed e l w) = w

abbrev pub Post : {C W A : Type 0} → (A → W → Type 0) → Answer C W A → Type 0
Post Q (done a l w) = Q a w
Post Q (failed e l w) = Unit

-- Where the call starts from P and returns, Q holds.
pub record Triple {C W A : Type 0} (P : W → Type 0) (m : Action C W A) (Q : A → W → Type 0)
    : Type 0 where
  pub at : (l : Locals C) (w : W) → P w → Post Q (m l w)

-- The call keeps P, also where it raises.
pub record Keeps {C W A : Type 0} (P : W → Type 0) (m : Action C W A) : Type 0 where
  pub at : (l : Locals C) (w : W) → P w → P (after (m l w))

abbrev pub Always : {W : Type 0} → W → Type 0
Always w = Unit

module _ {C W A B : Type 0} where
  continue-Post :
      (R : A → W → Type 0) (Q : B → W → Type 0) (x : Answer C W A) (f : A → Action C W B)
      → Post R x
      → ((a : A) → Triple (R a) (f a) Q)
      → Post Q (continue x f)
  continue-Post R Q (done a l w) f r t = (t a).at l w r
  continue-Post R Q (failed e l w) f r t = tt

  pub Triple-bind :
      {P : W → Type 0} {Q : B → W → Type 0} (R : A → W → Type 0) {m : Action C W A}
      {f : A → Action C W B}
      → Triple P m R
      → ((a : A) → Triple (R a) (f a) Q)
      → Triple P (m >>= f) Q
  unfolding ◌>>=◌
  Triple-bind {Q} R {m} {f} t u = record {
    at = λ l w p. continue-Post R Q (m l w) f (t.at l w p) u;
  }

  continue-Keeps :
      (P : W → Type 0) (x : Answer C W A) (f : A → Action C W B)
      → P (after x)
      → ((a : A) → Keeps P (f a))
      → P (after (continue x f))
  continue-Keeps P (done a l w) f p k = (k a).at l w p
  continue-Keeps P (failed e l w) f p k = p

  pub Keeps-bind :
      {P : W → Type 0} {m : Action C W A} {f : A → Action C W B}
      → Keeps P m
      → ((a : A) → Keeps P (f a))
      → Keeps P (m >>= f)
  unfolding ◌>>=◌
  Keeps-bind {P} {m} {f} k h = record { at = λ l w p. continue-Keeps P (m l w) f (k.at l w p) h }

module _ {C W B : Type 0} where
  pub Triple-then :
      {P : W → Type 0} {Q : B → W → Type 0} (R : W → Type 0) {m : Action C W (Unit {0})}
      {k : Action C W B}
      → Triple P m (λ _. R)
      → Triple R k Q
      → Triple P (m >> k) Q
  unfolding ◌>>◌
  Triple-then R t u = Triple-bind (λ _. R) t (λ _. u)

  pub Keeps-then :
      {P : W → Type 0} {m : Action C W (Unit {0})} {k : Action C W B}
      → Keeps P m
      → Keeps P k
      → Keeps P (m >> k)
  unfolding ◌>>◌
  Keeps-then h k = Keeps-bind h (λ _. k)

module _ {C W A : Type 0} where
  pub Triple-return :
      {P : W → Type 0} {Q : A → W → Type 0} (a : A)
      → ((w : W) → P w → Q a w)
      → Triple {C = C} P (return a) Q
  unfolding return
  Triple-return a h = record { at = λ l w p. h w p }

  pub Triple-raise :
      {P : W → Type 0} {Q : A → W → Type 0} (e : Raised) → Triple {C = C} P (raise e) Q
  unfolding raise
  Triple-raise e = record { at = λ l w p. tt }

  pub Triple-of_result :
      {P : W → Type 0} {Q : A → W → Type 0} (r : Result Raised A)
      → ((w : W) (a : A) → P w → r ≡ ok a → Q a w)
      → Triple {C = C} P (of_result r) Q
  unfolding of_result
  Triple-of_result (ok a) h = record { at = λ l w p. h w a p refl }
  Triple-of_result (err e) h = record { at = λ l w p. tt }

  answer-Post :
      (Q : A → W → Type 0) (x : Reply W A) (l : Locals C)
      → ((a : A) (w : W) → x ≡ returns a w → Q a w)
      → Post Q (answer x l)
  answer-Post Q (returns a w) l h = h a w refl
  answer-Post Q (raises e w) l h = tt

  pub Triple-external :
      {P : W → Type 0} {Q : A → W → Type 0} (call : External W A)
      → ((w : W) (a : A) (w' : W) → P w → call w ≡ returns a w' → Q a w')
      → Triple {C = C} P (external call) Q
  unfolding external
  Triple-external {Q} call h = record {
    at = λ l w p. answer-Post Q (call w) l (λ a w' e. h w a w' p e);
  }

  caught-Post :
      (Q : A → W → Type 0) (x : Answer C W A) (handler : Raised → Action C W A)
      → Post Q x
      → ((e : Raised) → Triple Always (handler e) Q)
      → Post Q (caught x handler)
  caught-Post Q (done a l w) handler q h = q
  caught-Post Q (failed e l w) handler q h = (h e).at l w tt

  pub Triple-try :
      {P : W → Type 0} {Q : A → W → Type 0} {m : Action C W A} {handler : Raised → Action C W A}
      → Triple P m Q
      → ((e : Raised) → Triple Always (handler e) Q)
      → Triple P (try m handler) Q
  unfolding try
  Triple-try {Q} {m} {handler} t h = record {
    at = λ l w p. caught-Post Q (m l w) handler (t.at l w p) h;
  }

  -- Whatever a call does, it returns, if at all, with nothing known.
  Post-any : (x : Answer C W A) → Post (λ a w. Unit) x
  Post-any (done a l w) = tt
  Post-any (failed e l w) = tt

  pub Triple-any : {P : W → Type 0} (m : Action C W A) → Triple P m (λ a w. Unit)
  Triple-any m = record { at = λ l w p. Post-any (m l w) }

  Post-kept : (P : W → Type 0) (x : Answer C W A) → P (after x) → Post (λ a. P) x
  Post-kept P (done a l w) p = p
  Post-kept P (failed e l w) p = tt

  pub Triple-kept : {P : W → Type 0} {m : Action C W A} → Keeps P m → Triple P m (λ a. P)
  Triple-kept {P} {m} k = record { at = λ l w p. Post-kept P (m l w) (k.at l w p) }

  pub Keeps-return : {P : W → Type 0} (a : A) → Keeps {C = C} P (return a)
  unfolding return
  Keeps-return a = record { at = λ l w p. p }

  pub Keeps-of_result : {P : W → Type 0} (r : Result Raised A) → Keeps {C = C} P (of_result r)
  unfolding of_result
  Keeps-of_result (ok a) = record { at = λ l w p. p }
  Keeps-of_result (err e) = record { at = λ l w p. p }

  answer-after :
      (P : W → Type 0) (x : Reply W A) (l : Locals C) → P (world_of x) → P (after (answer x l))
  answer-after P (returns a w) l p = p
  answer-after P (raises e w) l p = p

  pub Keeps-external :
      {P : W → Type 0} (call : External W A)
      → ((w : W) → P w → P (world_of (call w)))
      → Keeps {C = C} P (external call)
  unfolding external
  Keeps-external {P} call h = record { at = λ l w p. answer-after P (call w) l (h w p) }

  caught-after :
      (P : W → Type 0) (x : Answer C W A) (handler : Raised → Action C W A)
      → P (after x)
      → ((e : Raised) → Keeps P (handler e))
      → P (after (caught x handler))
  caught-after P (done a l w) handler p h = p
  caught-after P (failed e l w) handler p h = (h e).at l w p

  pub Keeps-try :
      {P : W → Type 0} {m : Action C W A} {handler : Raised → Action C W A}
      → Keeps P m
      → ((e : Raised) → Keeps P (handler e))
      → Keeps P (try m handler)
  unfolding try
  Keeps-try {P} {m} {handler} k h = record {
    at = λ l w p. caught-after P (m l w) handler (k.at l w p) h;
  }

  pub Keeps-if :
      {P : W → Type 0} (b : Bool) {m n : Action C W A}
      → Keeps P m
      → Keeps P n
      → Keeps P (if b then m else n)
  Keeps-if true k h = k
  Keeps-if false k h = h

  pub Triple-if :
      {P : W → Type 0} {Q : A → W → Type 0} (b : Bool) {m n : Action C W A}
      → Triple P m Q
      → Triple P n Q
      → Triple P (if b then m else n) Q
  Triple-if true t u = t
  Triple-if false t u = u

module _ {C W : Type 0} where
  pub Keeps-locals : {P : W → Type 0} → Keeps {C = C} P locals
  unfolding locals
  Keeps-locals = record { at = λ l w p. p }

  pub Keeps-set_locals : {P : W → Type 0} (l : Locals C) → Keeps P (set_locals l)
  unfolding set_locals
  Keeps-set_locals l = record { at = λ _ w p. p }

pub ruleset keeps_rules = (
  Keeps-bind, Keeps-then, Keeps-return, Keeps-of_result, Keeps-external, Keeps-try, Keeps-if,
  Keeps-locals, Keeps-set_locals,
)
