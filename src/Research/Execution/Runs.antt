-- ===== src/Research/Execution/Runs.antt =====
-- Runs of commands over the order management, and what they can never do.
use mathlib.Core.Path.{subst}
use automated_trading_bot.Prelude.{
  ℕ, String, ◌≡◌, refl, Bool, true, false, Option, none, some, List, [], ◌∷◌, ◌++◌, if◌then◌else◌,
  All, sym, arith, inl, inr, Option-cases, ok, err, ok_injective, is_some, ◌⊎◌, ◌↔◌, ◌<◌,
}
use automated_trading_bot.Prelude.Texts.{canonical, canonical-eq-nil}
use automated_trading_bot.Decimal.{Decimal, zero_dec, ltb_dec, leb_dec}
use automated_trading_bot.Decimal.Order.{ltb_dec-zero, zero-ltb_dec}
use automated_trading_bot.Research.Execution.Costs.{Execution, ExecutionCostModel, terminal_order}
use automated_trading_bot.Research.Execution.Orders.{
  eligible, accepted, rejected, is_terminal, SimulatedOrder, validate_order, OrderRecord,
  SimulatedFill, ExecutionSnapshot, validate_fill,
}
use automated_trading_bot.Research.Execution.Oms.{
  SimulatedOms, empty, order, find_order, find_fill, active, submitted, submission_reasons, submit,
  cancel, mark_unfilled, book_fill, apply_fill,
}
use automated_trading_bot.Research.Execution.Execute.{FillBody, execute}
use automated_trading_bot.Research.Execution.Records.{
  IsRecord, IsBook, filled_total, filled_total-unknown, find_order-snoc, DistinctOrders-snoc,
}
use automated_trading_bot.Research.Execution.Commands.{
  cancel-IsBook, mark_unfilled-IsBook, apply_fill-IsBook, execute-IsBook,
}

All-records-snoc :
    (P : OrderRecord → Type 0) (new : OrderRecord) (rs : List OrderRecord)
    → All P rs
    → P new
    → All P (rs ++ new ∷ [])
All-records-snoc P new [] a p = (p, tt)
All-records-snoc P new (r ∷ rs) a p = (a.0, All-records-snoc P new rs a.1 p)

known-snoc :
    (new : OrderRecord) (rs : List OrderRecord) (fs : List SimulatedFill)
    → All (λ f. is_some (find_order f.order_id rs) ≡ true) fs
    → All (λ f. is_some (find_order f.order_id (rs ++ new ∷ [])) ≡ true) fs
known-snoc new rs [] k = tt
known-snoc new rs (f ∷ fs) k =
    (rw (find_order-snoc f.order_id new rs k.0) k.0, known-snoc new rs fs k.1)

positive-not_below : (q : Decimal) → leb_dec q zero_dec ≡ false → ltb_dec q zero_dec ≡ false
unfolding leb_dec
positive-not_below q h = ground (arith, ltb_dec-zero q, zero-ltb_dec q)

submitted-IsRecord :
    (o : SimulatedOrder) (reasons : List String) (fs : List SimulatedFill)
    → ltb_dec o.quantity zero_dec ≡ false
    → filled_total o.order_id fs ≡ zero_dec
    → IsRecord fs (submitted o reasons)
submitted-IsRecord o [] fs q t = record {
  reconciled = sym t;
  not_overfilled = q;
  status_fits = refl;
}
submitted-IsRecord o (r ∷ rs) fs q t = record {
  reconciled = sym t;
  not_overfilled = q;
  status_fits = refl;
}

submitted_id : (o : SimulatedOrder) (reasons : List String) → (submitted o reasons).order ≡ o
submitted_id o [] = refl
submitted_id o (r ∷ rs) = refl

valid_quantity :
    (o : SimulatedOrder) → validate_order o ≡ ok tt → leb_dec o.quantity zero_dec ≡ false
unfolding validate_order
valid_quantity o v = ground arith

submit-cases :
    (oms : SimulatedOms) (o : SimulatedOrder) {oms' : SimulatedOms}
    → submit oms o ≡ ok oms'
    → (oms ≡ oms')
      ⊎ ((find_order o.order_id oms.orders ≡ none)
          × ((record oms { orders = oms.orders ++ submitted o (submission_reasons o) ∷ [] })
              ≡ oms'))
unfolding submit
submit-cases oms o h = elim (Option-cases (find_order o.order_id oms.orders)) [
  | inl fresh ↦ inr (fresh, ok_injective (rw (fresh, submit) at h))
  | inr (x, e) ↦ inl (ground arith)
]

pub submit-IsBook :
    (oms : SimulatedOms) (o : SimulatedOrder) {oms' : SimulatedOms}
    → IsBook oms
    → validate_order o ≡ ok tt
    → submit oms o ≡ ok oms'
    → IsBook oms'
submit-IsBook oms o b v h = elim (submit-cases oms o h) [
  | inl same ↦ subst IsBook same b
  | inr (fresh, e) ↦
      let new = submitted o (submission_reasons o) in
      subst IsBook e (record {
        records = All-records-snoc (IsRecord oms.fills) new oms.orders b.records (
            submitted-IsRecord o (submission_reasons o) oms.fills
              (positive-not_below o.quantity (valid_quantity o v))
              (filled_total-unknown o.order_id oms.orders oms.fills b.known fresh));
        distinct_orders =
            DistinctOrders-snoc new oms.orders b.distinct_orders
              (rw (submitted_id o (submission_reasons o)) fresh);
        distinct_fills = b.distinct_fills;
        known = known-snoc new oms.orders oms.fills b.known;
      })
]

-- The calls that a simulation makes.
pub data Command : Type 0 where
  submits : SimulatedOrder → Command
  cancels : ℕ → Command
  marks : ℕ → String → Command
  applies : SimulatedFill → Option Decimal → Command
  executes : ℕ → Decimal → ExecutionSnapshot → ExecutionCostModel → Command

-- An order that reaches `submit` has passed its constructor.
abbrev pub IsConstructed : Command → Type 0
IsConstructed (submits o) = validate_order o ≡ ok tt
IsConstructed _ = Unit

unfoldable pub perform : (FillBody → ℕ) → SimulatedOms → Command → Execution SimulatedOms
perform uuid oms (submits o) = submit oms o
perform uuid oms (cancels id) = cancel oms id
perform uuid oms (marks id reason) = mark_unfilled oms id reason
perform uuid oms (applies fill requested) = apply_fill oms fill requested
perform uuid oms (executes id requested snapshot model) =
    execute uuid oms id requested snapshot model

-- A call that raises leaves the caller with the book that it had.
abbrev pub kept : SimulatedOms → Execution SimulatedOms → SimulatedOms
kept oms (ok next) = next
kept oms (err e) = oms

unfoldable pub run : (FillBody → ℕ) → SimulatedOms → List Command → SimulatedOms
run uuid oms [] = oms
run uuid oms (c ∷ cs) = run uuid (kept oms (perform uuid oms c)) cs

perform-IsBook :
    (uuid : FillBody → ℕ) (oms : SimulatedOms) (c : Command) {oms' : SimulatedOms}
    → IsBook oms
    → IsConstructed c
    → perform uuid oms c ≡ ok oms'
    → IsBook oms'
unfolding perform
perform-IsBook uuid oms (submits o) b v h = submit-IsBook oms o b v h
perform-IsBook uuid oms (cancels id) b v h = cancel-IsBook oms id b h
perform-IsBook uuid oms (marks id reason) b v h = mark_unfilled-IsBook oms id reason b h
perform-IsBook uuid oms (applies fill requested) b v h = apply_fill-IsBook oms fill requested b h
perform-IsBook uuid oms (executes id requested snapshot model) {oms'} b v h =
    (execute-IsBook uuid oms b id requested snapshot model).at oms' h

kept-IsBook :
    (oms : SimulatedOms) (r : Execution SimulatedOms)
    → IsBook oms
    → ((next : SimulatedOms) → r ≡ ok next → IsBook next)
    → IsBook (kept oms r)
kept-IsBook oms (ok next) b k = k next refl
kept-IsBook oms (err e) b k = b

-- From a book in order, whatever the calls with constructed orders, failing calls included: every order is filled by just
-- what its fills add up to and never beyond its quantity, its status fits what is filled, no order
-- or fill is listed twice, and every fill is of a known order.
pub run-IsBook :
    (uuid : FillBody → ℕ) (oms : SimulatedOms) (cs : List Command)
    → IsBook oms
    → All IsConstructed cs
    → IsBook (run uuid oms cs)
unfolding run
run-IsBook uuid oms [] b v = b
run-IsBook uuid oms (c ∷ cs) b v =
    run-IsBook uuid (kept oms (perform uuid oms c)) cs
      (kept-IsBook oms (perform uuid oms c) b (λ next e. perform-IsBook uuid oms c b v.0 e)) v.1

pub empty-IsBook : IsBook empty
empty-IsBook = record { records = tt; distinct_orders = tt; distinct_fills = tt; known = tt }

-- An order in a terminal status takes no further cancellation, unfilled mark, execution or new
-- fill, whatever the arguments.
pub terminal_absorbs :
    (uuid : FillBody → ℕ) (oms : SimulatedOms) (id : ℕ) (r : OrderRecord)
    → order oms id ≡ some r
    → is_terminal r.status ≡ true
    → (cancel oms id ≡ err terminal_order)
      × ((reason : String) → mark_unfilled oms id reason ≡ err terminal_order)
      × ((requested : Decimal) (snapshot : ExecutionSnapshot) (model : ExecutionCostModel)
          → execute uuid oms id requested snapshot model ≡ err terminal_order)
      × ((fill : SimulatedFill) (requested : Option Decimal)
          → fill.order_id ≡ id
          → validate_fill fill ≡ ok tt
          → find_fill fill.fill_id oms.fills ≡ none
          → apply_fill oms fill requested ≡ err terminal_order)
unfolding cancel mark_unfilled execute apply_fill book_fill active
terminal_absorbs uuid oms id r e t = (
  rw e (rw t refl),
  λ reason. rw e (rw t refl),
  λ requested snapshot model. rw e (rw t refl),
  λ fill requested same valid fresh. rw valid (rw fresh (rw same (rw e (rw t refl)))),
)

-- What `submit` asks of an order: its input was eligible with no reason against it, and it is
-- released after the decision.
pub record IsReleasable (o : SimulatedOrder) : Type 0 where
  pub input_eligible : o.eligibility_state ≡ eligible
  pub no_reasons : o.eligibility_reasons ≡ []
  pub later : o.decision_time < o.release_at

releasable_parts :
    (rs : List String) (fit late : Bool) (s t : String)
    → (rs ++ ((if fit then [] else s ∷ []) ++ (if late then t ∷ [] else []))) ≡ []
    → (rs ≡ []) × (fit ≡ true) × (late ≡ false)
releasable_parts [] fit late s t h = ground arith
releasable_parts (r ∷ rs) fit late s t h = cc

reasons-IsReleasable : (o : SimulatedOrder) → submission_reasons o ≡ [] → IsReleasable o
unfolding submission_reasons
reasons-IsReleasable o h =
    let (none_given, fit, late) =
      releasable_parts o.eligibility_reasons _ _ _ _ (canonical-eq-nil _ h) in
    record { input_eligible = ground arith; no_reasons = none_given; later = ground arith }

IsReleasable-reasons : (o : SimulatedOrder) → IsReleasable o → submission_reasons o ≡ []
unfolding submission_reasons canonical
IsReleasable-reasons o k = ground arith

submitted_status :
    (o : SimulatedOrder) (reasons : List String)
    → ((submitted o reasons).status ≡ accepted) ↔ (reasons ≡ [])
submitted_status o [] = (λ h. refl, λ h. refl)
submitted_status o (r ∷ rs) = (λ h. cc, λ h. cc)

submitted_either :
    (o : SimulatedOrder) (reasons : List String)
    → ((submitted o reasons).status ≡ accepted) ⊎ ((submitted o reasons).status ≡ rejected)
submitted_either o [] = inl refl
submitted_either o (r ∷ rs) = inr refl

-- An order of a new identity is booked behind the others, accepted exactly when its input was
-- eligible with no reason against it and it is released after the decision, and rejected otherwise.
pub submit_accepts :
    (oms : SimulatedOms) (o : SimulatedOrder)
    → find_order o.order_id oms.orders ≡ none
    → (r : OrderRecord) × (submit oms o ≡ ok (record oms { orders = oms.orders ++ r ∷ [] }))
      × (r.order ≡ o)
      × ((r.status ≡ accepted) ↔ IsReleasable o)
      × ((r.status ≡ accepted) ⊎ (r.status ≡ rejected))
unfolding submit
submit_accepts oms o fresh =
    let reasons = submission_reasons o in
    let status = submitted_status o reasons in
    (
      submitted o reasons,
      rw (fresh, submit) refl,
      submitted_id o reasons,
      (λ h. reasons-IsReleasable o (status.0 h), λ k. status.1 (IsReleasable-reasons o k)),
      submitted_either o reasons,
    )
