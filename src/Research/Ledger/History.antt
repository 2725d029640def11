-- ===== src/Research/Ledger/History.antt =====
-- The history of a ledger: numbered, with distinct identities, opened once, and enough to rebuild
-- the ledger.
use mathlib.Core.Path.{subst}
use text.Mathlib.TextPositions.{eq_refl}
use automated_trading_bot.Prelude.{
  ℕ, ◌+◌, String, ◌≡◌, refl, true, false, none, some, List, [], ◌∷◌, ◌++◌, ◌∙◌, ap, sym, arith,
  str_eq, eq_iff, length, All, All-snoc, ok, ◌>>=◌, >>=-eq-ok, inl, inr, Option-cases, Result-cases,
  ok_injective, ◌⊎◌,
}
use automated_trading_bot.Decimal.{decimals}
use automated_trading_bot.Research.Ledger.Event.{
  FinancialEvent, opening_cash, kind_eq, event_eq_refl, validate_shape,
}
use automated_trading_bot.Research.Ledger.State.{transition}
use automated_trading_bot.Research.Ledger.Accounting.{IsSettled, transition-IsSettled}
use automated_trading_bot.Research.Ledger.Book.{
  SimulationLedger, empty, recorded, is_empty, admit, apply, apply_all, replay,
}

-- The sequence numbers count up from n.
abbrev pub Numbered : ℕ → List FinancialEvent → Type 0
Numbered n [] = Unit
Numbered n (e ∷ es) = (e.sequence ≡ n) × Numbered (n + 1) es

-- No identity is used twice.
abbrev pub Unrepeated : List FinancialEvent → Type 0
Unrepeated [] = Unit
Unrepeated (e ∷ es) = (recorded e.event_id es ≡ none) × Unrepeated es

-- The first event opens the cash, and no other does.
abbrev pub OpenedOnce : List FinancialEvent → Type 0
OpenedOnce [] = Unit
OpenedOnce (e ∷ es) = (e.kind ≡ opening_cash) × All (λ f. kind_eq f.kind opening_cash ≡ false) es

pub record IsHistory (l : SimulationLedger) : Type 0 where
  pub numbered : Numbered 1 l.events
  pub unrepeated : Unrepeated l.events
  pub opened_once : OpenedOnce l.events
  pub settled : IsSettled l.state

-- The events alone rebuild the ledger.
abbrev pub Rebuilds : SimulationLedger → Type 0
Rebuilds l = replay l.currency l.events ≡ ok l

pub recorded-snoc_self :
    (e : FinancialEvent) (es : List FinancialEvent)
    → recorded e.event_id es ≡ none
    → recorded e.event_id (es ++ e ∷ []) ≡ some e
recorded-snoc_self e [] h = rw eq_refl
recorded-snoc_self e (f ∷ es) h = ground (arith, recorded-snoc_self e es)

recorded-snoc_ne :
    (id : String) (e : FinancialEvent) (es : List FinancialEvent)
    → recorded id es ≡ none
    → str_eq e.event_id id ≡ false
    → recorded id (es ++ e ∷ []) ≡ none
recorded-snoc_ne id e [] h n = rw n
recorded-snoc_ne id e (f ∷ es) h n = ground (arith, recorded-snoc_ne id e es)

Numbered-snoc :
    (n : ℕ) (e : FinancialEvent) (es : List FinancialEvent)
    → Numbered n es
    → e.sequence ≡ n + length es
    → Numbered n (es ++ e ∷ [])
Numbered-snoc n e [] h k = (omega arith, tt)
Numbered-snoc n e (f ∷ es) h k = (h.0, Numbered-snoc (n + 1) e es h.1 (omega arith))

Unrepeated-snoc :
    (e : FinancialEvent) (es : List FinancialEvent)
    → Unrepeated es
    → recorded e.event_id es ≡ none
    → Unrepeated (es ++ e ∷ [])
Unrepeated-snoc e [] h k = (refl, tt)
Unrepeated-snoc e (f ∷ es) h k = (
  recorded-snoc_ne f.event_id e es h.0
      (ground (arith, eq_iff e.event_id f.event_id, eq_iff f.event_id e.event_id)),
  Unrepeated-snoc e es h.1 (ground arith),
)

-- What a successful `admit` has tested and done.
pub record Admitted (l : SimulationLedger) (e : FinancialEvent) (l' : SimulationLedger)
    : Type 0 where
  pub next : e.sequence ≡ length l.events + 1
  pub opening : is_empty l.events ≡ true → e.kind ≡ opening_cash
  pub ordinary : is_empty l.events ≡ false → kind_eq e.kind opening_cash ≡ false
  pub moved : transition l.state e ≡ ok l'.state
  pub currency : l'.currency ≡ l.currency
  pub events : l'.events ≡ l.events ++ e ∷ []

pub admit-Admitted :
    (l : SimulationLedger) (e : FinancialEvent) {l' : SimulationLedger}
    → admit l e ≡ ok l'
    → Admitted l e l'
unfolding admit
admit-Admitted l e h = record {
  next = ground arith;
  opening = ground arith;
  ordinary = ground arith;
  moved = ground arith;
  currency = ground arith;
  events = ground arith;
}

-- A successful `apply` is a repeat that changes nothing, or admits an event of a new identity.
pub apply-cases :
    (l : SimulationLedger) (e : FinancialEvent) {l' : SimulationLedger}
    → apply l e ≡ ok l'
    → (l' ≡ l) ⊎ ((recorded e.event_id l.events ≡ none) × Admitted l e l')
unfolding apply
apply-cases l e h = elim (Option-cases (recorded e.event_id l.events)) [
  | inl n ↦ inr (n, admit-Admitted l e (ground arith))
  | inr (x, r) ↦ inl (ground arith)
]

-- Submitting an accepted event again changes nothing.
pub apply_idempotent :
    (l : SimulationLedger) (e : FinancialEvent) {l' : SimulationLedger}
    → apply l e ≡ ok l'
    → apply l' e ≡ ok l'
unfolding apply
apply_idempotent l e {l'} h = elim (apply-cases l e h) [
  | inl same ↦ subst (λ x. apply x e ≡ ok x) (sym same) (subst (λ x. apply l e ≡ ok x) same h)
  | inr (n, a) ↦
      ground (arith, a.currency, a.events, recorded-snoc_self e l.events n, event_eq_refl e)
]

apply_all-append :
    (l : SimulationLedger) (xs ys : List FinancialEvent)
    → apply_all l (xs ++ ys) ≡ (apply_all l xs >>= λ m. apply_all m ys)
unfolding apply_all
apply_all-append l [] ys = refl
apply_all-append l (x ∷ xs) ys = elim (Result-cases (apply l x)) [
  | inl (m, e) ↦ rw e (apply_all-append m xs ys)
  | inr (x, e) ↦ rw e
]

Rebuilds-apply :
    (l : SimulationLedger) (e : FinancialEvent) {l' : SimulationLedger}
    → Rebuilds l
    → apply l e ≡ ok l'
    → Rebuilds l'
unfolding replay
Rebuilds-apply l e {l'} r h = elim (apply-cases l e h) [
  | inl same ↦ subst Rebuilds (sym same) r
  | inr (n, a) ↦
      ap (λ c. apply_all (empty c) l'.events) a.currency
      ∙ ap (apply_all (empty l.currency)) a.events
      ∙ apply_all-append (empty l.currency) l.events (e ∷ [])
      ∙ ap (λ r. r >>= λ m. apply_all m (e ∷ [])) r
      ∙ rw h
]

opened-snoc :
    (l : SimulationLedger) (e : FinancialEvent) (es : List FinancialEvent)
    → OpenedOnce es
    → (is_empty es ≡ true → e.kind ≡ opening_cash)
    → (is_empty es ≡ false → kind_eq e.kind opening_cash ≡ false)
    → OpenedOnce (es ++ e ∷ [])
opened-snoc l e [] h o n = (o refl, tt)
opened-snoc l e (f ∷ es) h o n =
    (h.0, All-snoc (λ g. kind_eq g.kind opening_cash ≡ false) e es h.1 (n refl))

-- An accepted valid event keeps a history in order: numbered from 1 with no gap, no identity
-- repeated, opened by its first event alone, its state settled.
pub apply-IsHistory :
    (l : SimulationLedger) (e : FinancialEvent) {l' : SimulationLedger}
    → IsHistory l
    → validate_shape e ≡ ok tt
    → apply l e ≡ ok l'
    → IsHistory l'
apply-IsHistory l e {l'} i v h = elim (apply-cases l e h) [
  | inl same ↦ subst IsHistory (sym same) i
  | inr (n, a) ↦ record {
    numbered = rw a.events (Numbered-snoc 1 e l.events i.numbered (omega (arith, a.next)));
    unrepeated = rw a.events (Unrepeated-snoc e l.events i.unrepeated n);
    opened_once = rw a.events (opened-snoc l e l.events i.opened_once a.opening a.ordinary);
    settled = transition-IsSettled l.state e i.settled v a.moved;
  }
]

abbrev pub AreValid : List FinancialEvent → Type 0
AreValid = All (λ e. validate_shape e ≡ ok tt)

apply_all-IsHistory :
    (l : SimulationLedger) (es : List FinancialEvent) {l' : SimulationLedger}
    → IsHistory l
    → AreValid es
    → apply_all l es ≡ ok l'
    → IsHistory l'
unfolding apply_all
apply_all-IsHistory l [] i v h = subst IsHistory (ok_injective h) i
apply_all-IsHistory l (e ∷ es) i v h =
    let (m, em, rest) = >>=-eq-ok (apply l e) _ h in
    apply_all-IsHistory m es (apply-IsHistory l e i v.0 em) v.1 rest

apply_all-Rebuilds :
    (l : SimulationLedger) (es : List FinancialEvent) {l' : SimulationLedger}
    → Rebuilds l
    → apply_all l es ≡ ok l'
    → Rebuilds l'
unfolding apply_all
apply_all-Rebuilds l [] r h = subst Rebuilds (ok_injective h) r
apply_all-Rebuilds l (e ∷ es) r h =
    let (m, em, rest) = >>=-eq-ok (apply l e) _ h in
    apply_all-Rebuilds m es (Rebuilds-apply l e r em) rest

empty-IsHistory : (c : String) → IsHistory (empty c)
unfolding empty decimals
empty-IsHistory c = record {
  numbered = tt;
  unrepeated = tt;
  opened_once = tt;
  settled = record { ascending = tt; long = tt; realised = refl; unrealised = refl; value = refl };
}

-- Whatever valid events are replayed, repeats included, a replay that succeeds leaves a history that
-- is numbered from 1 with no gap, repeats no identity, is opened by its first event alone, and has
-- a settled state.
pub replay-IsHistory :
    (c : String) (es : List FinancialEvent) {l : SimulationLedger}
    → AreValid es
    → replay c es ≡ ok l
    → IsHistory l
unfolding replay
replay-IsHistory c es v h = apply_all-IsHistory (empty c) es (empty-IsHistory c) v h

-- The history that a replay has recorded, repeats dropped, replays to the same ledger.
pub replay_history :
    (c : String) (es : List FinancialEvent) {l : SimulationLedger}
    → replay c es ≡ ok l
    → replay l.currency l.events ≡ ok l
unfolding replay empty
replay_history c es h = apply_all-Rebuilds (empty c) es refl h
