-- ===== src/Research/Posting/Once.antt =====
-- A posted fill: what it does to the accounts, and that it is posted once.
use automated_trading_bot.Prelude.{
  ℕ, ◌+◌, ◌≤◌, String, true, false, none, some, List, [], ◌∷◌, ◌++◌, not, length, length-append,
  str_eq, Result, ok, err, raise_if, >>-eq-ok, ok_injective, Option-cases, Bool-cases, ◌≡◌, ◌≢◌,
  inl, inr, refl, sym, ap, ◌∙◌, arith,
}
use mathlib.Core.Path.{subst}
use automated_trading_bot.Decimal.{zero_dec, leb_dec}
use automated_trading_bot.Research.Ledger.Event.{
  FinancialEvent, event_id_conflict, event_eq, Ledger, validate_event, validate_shape,
}
use automated_trading_bot.Research.Ledger.Book.{SimulationLedger, is_foreign, recorded, apply}
use automated_trading_bot.Research.Ledger.History.{
  Numbered, IsHistory, Admitted, admit-Admitted, recorded-snoc_self,
}
use automated_trading_bot.Research.Execution.Orders.{SimulatedFill}
use automated_trading_bot.Research.Posting.{
  ledger_failed, of_ledger, unit_amount, fill_event, fill_event_id, post_fill_to_ledger,
}

of_ledger-eq-ok : {A : Type 0} (r : Ledger A) {a : A} → of_ledger r ≡ ok a → r ≡ ok a
of_ledger-eq-ok (ok a) h = ap ok (ok_injective h)
of_ledger-eq-ok (err e) h = cc

-- The numbers of a history's events are at most its length.
recorded_le :
    (n : ℕ) (id : String) (es : List FinancialEvent) (e : FinancialEvent)
    → Numbered n es
    → recorded id es ≡ some e
    → e.sequence + 1 ≤ n + length es
recorded_le n id [] e h r = cc
recorded_le n id (f ∷ es) e h r = elim (Bool-cases (str_eq f.event_id id)) [
  | inl t ↦ ground (arith, h.0)
  | inr u ↦ ground (arith, recorded_le (n + 1) id es e h.1 (ground arith))
]

-- An event of another number conflicts with the one recorded under its identity.
apply_conflict :
    (l : SimulationLedger) (e existing : FinancialEvent)
    → is_foreign l.currency e.currency ≡ false
    → recorded e.event_id l.events ≡ some existing
    → existing.sequence ≢ e.sequence
    → apply l e ≡ err event_id_conflict
unfolding apply event_eq
apply_conflict l e existing f r n = ground arith

-- What a successful posting has tested and done.
record Posted (l : SimulationLedger) (fill : SimulatedFill) (l' : SimulationLedger) : Type 0 where
  same_currency : str_eq fill.currency l.currency ≡ true
  priced : leb_dec (unit_amount fill) zero_dec ≡ false
  valid : validate_event (fill_event l fill) ≡ ok tt
  applied : apply l (fill_event l fill) ≡ ok l'

post-Posted :
    (l : SimulationLedger) (fill : SimulatedFill) {l' : SimulationLedger}
    → post_fill_to_ledger l fill ≡ ok l'
    → Posted l fill l'
unfolding post_fill_to_ledger
post-Posted l fill h =
    let (c, h1) = >>-eq-ok (raise_if (not (str_eq fill.currency l.currency)) _) _ h in
    let (p, h2) = >>-eq-ok (raise_if (leb_dec (unit_amount fill) zero_dec) _) _ h1 in
    let (v, last) = >>-eq-ok (of_ledger (validate_event (fill_event l fill))) _ h2 in
    record {
      same_currency = ground (arith, c);
      priced = ground (arith, p);
      valid = of_ledger-eq-ok (validate_event (fill_event l fill)) v;
      applied = of_ledger-eq-ok (apply l (fill_event l fill)) last;
    }

home_currency :
    (l : SimulationLedger) (fill : SimulatedFill)
    → str_eq fill.currency l.currency ≡ true
    → is_foreign l.currency (fill_event l fill).currency ≡ false
unfolding fill_event
home_currency l fill h = ground (arith, h)

apply-new :
    (l : SimulationLedger) (e : FinancialEvent) {l' : SimulationLedger}
    → recorded e.event_id l.events ≡ none
    → apply l e ≡ ok l'
    → Admitted l e l'
unfolding apply
apply-new l e n h = admit-Admitted l e (ground arith)

ok_ne_err : {E A : Type 0} {a : A} {e : E} → ◌≢◌ {A = Result E A} (ok a) (err e)
ok_ne_err h = cc

appended :
    (l : SimulationLedger) (fill : SimulatedFill)
    → recorded (fill_event_id fill) l.events ≡ none
    → recorded (fill_event_id fill) (l.events ++ fill_event l fill ∷ []) ≡ some (fill_event l fill)
unfolding fill_event
appended l fill n = recorded-snoc_self (fill_event l fill) l.events n

next_number :
    (l l' : SimulationLedger) (fill : SimulatedFill)
    → l'.events ≡ l.events ++ fill_event l fill ∷ []
    → (fill_event l fill).sequence ≢ (fill_event l' fill).sequence
unfolding fill_event
next_number l l' fill e same =
    omega (arith, same, ap length e, length-append l.events (fill_event l fill ∷ []))

-- A posting always adds an event: its number is beyond those that a history holds.
post-Admitted :
    (l : SimulationLedger) (fill : SimulatedFill) {l' : SimulationLedger}
    → IsHistory l
    → Posted l fill l'
    → (recorded (fill_event_id fill) l.events ≡ none) × Admitted l (fill_event l fill) l'
unfolding fill_event
post-Admitted l fill i d = elim (Option-cases (recorded (fill_event_id fill) l.events)) [
  | inl n ↦ (n, apply-new l (fill_event l fill) n d.applied)
  | inr (e, r) ↦
      let low = recorded_le 1 (fill_event_id fill) l.events e i.numbered r in
      let clash =
        apply_conflict l (fill_event l fill) e (home_currency l fill d.same_currency) r
          (λ same. omega (arith, low, same)) in
      absurd (ok_ne_err (sym d.applied ∙ clash))
]

-- The checks on a fill's event do not depend on the ledger that numbers it.
valid_anywhere :
    (l m : SimulationLedger) (fill : SimulatedFill)
    → validate_event (fill_event l fill) ≡ ok tt
    → validate_event (fill_event m fill) ≡ ok tt
unfolding validate_event validate_shape fill_event
valid_anywhere l m fill h = ground (arith, h)

-- A fill that has been posted to a ledger whose history was in order is not posted again: the
-- second posting is refused as a conflict of identities.
pub posted_once :
    (l : SimulationLedger) (fill : SimulatedFill) {l' : SimulationLedger}
    → IsHistory l
    → post_fill_to_ledger l fill ≡ ok l'
    → post_fill_to_ledger l' fill ≡ err (ledger_failed event_id_conflict)
unfolding post_fill_to_ledger fill_event fill_event_id
posted_once l fill {l'} i h =
    let d = post-Posted l fill h in
    let (n, a) = post-Admitted l fill i d in
    let same = subst (λ c. str_eq fill.currency c ≡ true) (sym a.currency) d.same_currency in
    let there = ap (λ es. recorded (fill_event_id fill) es) a.events ∙ appended l fill n in
    let clash =
      apply_conflict l' (fill_event l' fill) (fill_event l fill) (home_currency l' fill same) there
        (next_number l l' fill a.events) in
    rw (same, d.priced, valid_anywhere l l' fill d.valid, clash) refl
