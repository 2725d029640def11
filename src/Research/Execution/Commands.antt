-- ===== src/Research/Execution/Commands.antt =====
-- The operations of the order management as commands, and the invariant through any run of them.
use mathlib.Core.Path.{subst}
use automated_trading_bot.Prelude.{
  ℕ, String, ◌≡◌, refl, true, false, not, Option, none, some, List, [], ◌∷◌, arith, inl, inr, ◌⊎◌,
  Bool-cases, Option-cases, ok, ok_injective, raise_if, >>=-eq-ok, >>-eq-ok, Ensures, Ensures-ok,
  Ensures-guard, Ensures-bind, ensures_rules,
}
use automated_trading_bot.Prelude.Texts.{is_blank}
use automated_trading_bot.Decimal.{Decimal, zero_dec, add, ltb_dec, eq_dec}
use automated_trading_bot.Research.Execution.Costs.{
  overfill, reason_missing, partly_executed, ExecutionCostModel, require_positive,
}
use automated_trading_bot.Research.Execution.Orders.{
  cancelled, unfilled, OrderRecord, SimulatedFill, ExecutionSnapshot, remaining_quantity,
  execution_reasons,
}
use automated_trading_bot.Research.Execution.Oms.{
  SimulatedOms, find_order, find_fill, active, cancel, mark_unfilled, filled, book_fill, apply_fill,
  check_fill,
}
use automated_trading_bot.Research.Execution.Execute.{
  FillBody, execute, attempt, execute_fill, reject_attempt,
}
use automated_trading_bot.Research.Execution.Records.{StatusFits, IsBook}
use automated_trading_bot.Research.Execution.Keeps.{active-found, IsBook-status, IsBook-fill}

pub cancel-IsBook :
    (oms : SimulatedOms) (id : ℕ) {oms' : SimulatedOms}
    → IsBook oms
    → cancel oms id ≡ ok oms'
    → IsBook oms'
unfolding cancel
cancel-IsBook oms id b h =
    let (r, er, rest) = >>=-eq-ok (active oms id) _ h in
    subst IsBook (ok_injective rest) (
      IsBook-status oms id r (record r { status = cancelled }) (active-found oms id er).0 refl b
        oms.attempts refl tt)

pub mark_unfilled-IsBook :
    (oms : SimulatedOms) (id : ℕ) (reason : String) {oms' : SimulatedOms}
    → IsBook oms
    → mark_unfilled oms id reason ≡ ok oms'
    → IsBook oms'
unfolding mark_unfilled
mark_unfilled-IsBook oms id reason b h =
    let (r, er, rest) = >>=-eq-ok (active oms id) _ h in
    let (explicit, rest') = >>-eq-ok (raise_if (is_blank reason) reason_missing) _ rest in
    let partly = not (eq_dec r.filled_quantity zero_dec) in
    let (whole, same) = >>-eq-ok (raise_if partly partly_executed) _ rest' in
    let empty_fill : eq_dec r.filled_quantity zero_dec ≡ true = ground arith in
    subst IsBook (ok_injective same) (
      IsBook-status oms id r (record r { status = unfilled; reasons = reason ∷ [] })
        (active-found oms id er).0 refl b _ refl empty_fill)

filled-StatusFits :
    (r : OrderRecord) (cumulative : Decimal)
    → StatusFits (filled r cumulative).status r.order.quantity cumulative
unfolding filled
filled-StatusFits r cumulative = elim (Bool-cases (eq_dec cumulative r.order.quantity)) [
  | inl e ↦ rw e e
  | inr e ↦ rw e e
]

check_fill-within :
    (r : OrderRecord) (fill : SimulatedFill) (cumulative : Decimal)
    → check_fill r fill cumulative ≡ ok tt
    → ltb_dec r.order.quantity cumulative ≡ false
unfolding check_fill
check_fill-within r fill cumulative h = ground arith

book_fill-IsBook :
    (oms : SimulatedOms) (fill : SimulatedFill) (requested : Option Decimal) {oms' : SimulatedOms}
    → IsBook oms
    → find_fill fill.fill_id oms.fills ≡ none
    → book_fill oms fill requested ≡ ok oms'
    → IsBook oms'
unfolding book_fill
book_fill-IsBook oms fill requested b fresh h =
    let (r, er, rest) = >>=-eq-ok (active oms fill.order_id) _ h in
    let cumulative = add r.filled_quantity fill.quantity in
    let (checked, rest') = >>-eq-ok (check_fill r fill cumulative) _ rest in
    let (asked, same) = >>-eq-ok _ _ rest' in
    subst IsBook (ok_injective same) (
      IsBook-fill oms fill.order_id r (filled r cumulative) (active-found oms fill.order_id er).0
        refl b fill _ refl fresh refl (check_fill-within r fill cumulative checked)
        (filled-StatusFits r cumulative))

-- A successful `apply_fill` is a repeat that changes nothing, or books a fill of a new identity.
pub apply_fill-cases :
    (oms : SimulatedOms) (fill : SimulatedFill) (requested : Option Decimal) {oms' : SimulatedOms}
    → apply_fill oms fill requested ≡ ok oms'
    → (oms ≡ oms')
      ⊎ ((find_fill fill.fill_id oms.fills ≡ none) × (book_fill oms fill requested ≡ ok oms'))
unfolding apply_fill
apply_fill-cases oms fill requested h = elim (Option-cases (find_fill fill.fill_id oms.fills)) [
  | inl fresh ↦ inr (fresh, ground arith)
  | inr (x, e) ↦ inl (ground arith)
]

pub apply_fill-IsBook :
    (oms : SimulatedOms) (fill : SimulatedFill) (requested : Option Decimal) {oms' : SimulatedOms}
    → IsBook oms
    → apply_fill oms fill requested ≡ ok oms'
    → IsBook oms'
apply_fill-IsBook oms fill requested b h = elim (apply_fill-cases oms fill requested h) [
  | inl same ↦ subst IsBook same b
  | inr (fresh, booked) ↦ book_fill-IsBook oms fill requested b fresh booked
]

reject_attempt-IsBook :
    (oms : SimulatedOms) (r : OrderRecord) (id : ℕ) (requested : Decimal) (reasons : List String)
    → IsBook oms
    → find_order id oms.orders ≡ some r
    → IsBook (reject_attempt oms r id requested reasons)
unfolding reject_attempt
reject_attempt-IsBook oms r id requested reasons b found =
    elim (Bool-cases (eq_dec r.filled_quantity zero_dec)) [
      | inl e ↦ rw e (
          IsBook-status oms id r (record r { status = unfilled; reasons = reasons }) found refl b _
            refl e)
      | inr e ↦ rw e (record {
        records = b.records;
        distinct_orders = b.distinct_orders;
        distinct_fills = b.distinct_fills;
        known = b.known;
      })
    ]

module _ (uuid : FillBody → ℕ) (oms : SimulatedOms) (b : IsBook oms) (id : ℕ) (requested : Decimal)
    (snapshot : ExecutionSnapshot) (model : ExecutionCostModel) where
  no_liquidity : Ensures IsBook (mark_unfilled oms id "NO_AVAILABLE_LIQUIDITY")
  no_liquidity = record { at = λ x e. mark_unfilled-IsBook oms id "NO_AVAILABLE_LIQUIDITY" b e }

  filled-IsBook : (fill : SimulatedFill) → Ensures IsBook (apply_fill oms fill (some requested))
  filled-IsBook fill = record { at = λ x e. apply_fill-IsBook oms fill (some requested) b e }

  execute_fill-IsBook :
      (r : OrderRecord) → Ensures IsBook (execute_fill uuid oms r id requested snapshot model)
  unfolding execute_fill
  execute_fill-IsBook r = search (ensures_rules, no_liquidity, filled-IsBook) depth 12

  attempt-IsBook :
      (r : OrderRecord) (reasons : List String)
      → find_order id oms.orders ≡ some r
      → Ensures IsBook (attempt uuid oms r id requested snapshot model reasons)
  unfolding attempt
  attempt-IsBook r [] found = execute_fill-IsBook r
  attempt-IsBook r (s ∷ ss) found =
      Ensures-ok _ (reject_attempt-IsBook oms r id requested (s ∷ ss) b found)

  pub execute-IsBook : Ensures IsBook (execute uuid oms id requested snapshot model)
  unfolding execute
  execute-IsBook = Ensures-bind (active oms id) _ λ r er.
      Ensures-guard (require_positive requested) _ λ _.
        Ensures-guard (raise_if (ltb_dec (remaining_quantity r) requested) overfill) _
          λ _. attempt-IsBook r (execution_reasons r.order snapshot) (active-found oms id er).0
