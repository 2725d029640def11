-- ===== src/Research/Execution/Keeps.antt =====
-- Every operation of the order management keeps its invariant.
use automated_trading_bot.Prelude.{
  ℕ, ◌≡◌, refl, true, false, none, some, List, [], ◌∷◌, ◌++◌, ◌==◌, is_some, All, sym, ap, arith,
  ◌∙◌, ok,
}
use automated_trading_bot.Decimal.{add, ltb_dec}
use automated_trading_bot.Research.Execution.Orders.{
  is_terminal, OrderRecord, SimulatedFill, ExecutionAttempt,
}
use automated_trading_bot.Research.Execution.Oms.{
  SimulatedOms, find_order, find_fill, active, replace_order,
}
use automated_trading_bot.Research.Execution.Records.{
  StatusFits, IsRecord, IsBook, DistinctFills, filled_total-snoc_self, filled_total-snoc_ne,
  find_order-replace, DistinctOrders-replace, All-replace, All-find,
}

-- An active record is the one that the book finds, and it is not terminal.
pub active-found :
    (oms : SimulatedOms) (id : ℕ) {r : OrderRecord}
    → active oms id ≡ ok r
    → (find_order id oms.orders ≡ some r) × (is_terminal r.status ≡ false)
unfolding active
active-found oms id h = ground arith

All-map :
    (P Q : SimulatedFill → Type 0) (fs : List SimulatedFill)
    → ((f : SimulatedFill) → P f → Q f)
    → All P fs
    → All Q fs
All-map P Q [] k a = tt
All-map P Q (f ∷ fs) k a = (k f a.0, All-map P Q fs k a.1)

All-snoc :
    (P : SimulatedFill → Type 0) (g : SimulatedFill) (fs : List SimulatedFill)
    → All P fs
    → P g
    → All P (fs ++ g ∷ [])
All-snoc P g [] a p = (p, tt)
All-snoc P g (f ∷ fs) a p = (a.0, All-snoc P g fs a.1 p)

find_fill-snoc_ne :
    (id : ℕ) (g : SimulatedFill) (fs : List SimulatedFill)
    → find_fill id fs ≡ none
    → (g.fill_id == id) ≡ false
    → find_fill id (fs ++ g ∷ []) ≡ none
find_fill-snoc_ne id g [] h e = rw e
find_fill-snoc_ne id g (f ∷ fs) h e = ground (arith, find_fill-snoc_ne id g fs)

DistinctFills-snoc :
    (g : SimulatedFill) (fs : List SimulatedFill)
    → DistinctFills fs
    → find_fill g.fill_id fs ≡ none
    → DistinctFills (fs ++ g ∷ [])
DistinctFills-snoc g [] d h = (refl, tt)
DistinctFills-snoc g (f ∷ fs) d h = (
  find_fill-snoc_ne f.fill_id g fs d.0 (ground arith),
  DistinctFills-snoc g fs d.1 (ground arith),
)

module _ (oms : SimulatedOms) (id : ℕ) (r new : OrderRecord)
    (found : find_order id oms.orders ≡ some r) (same_order : new.order ≡ r.order)
    (book : IsBook oms) where
  new_id : new.order.order_id ≡ id
  new_id = ap (λ o. o.order_id) same_order ∙ (All-find _ id oms.orders book.records found).1

  known-replace :
      (f : SimulatedFill)
      → is_some (find_order f.order_id oms.orders) ≡ true
      → is_some (find_order f.order_id (replace_order id new oms.orders)) ≡ true
  known-replace f k =
      ground (arith, find_order-replace f.order_id id new oms.orders new_id (ap is_some found))

  -- A change of status alone.
  pub IsBook-status :
      (attempts : List ExecutionAttempt)
      → new.filled_quantity ≡ r.filled_quantity
      → StatusFits new.status new.order.quantity new.filled_quantity
      → IsBook (record {
        orders = replace_order id new oms.orders;
        fills = oms.fills;
        attempts = attempts;
      })
  IsBook-status attempts same_filled fits =
      let old : IsRecord oms.fills r = (All-find _ id oms.orders book.records found).0 in
      record {
        records =
            All-replace (IsRecord oms.fills) (IsRecord oms.fills) id new oms.orders (λ x ne p. p)
              (record {
                reconciled = cc (same_filled, same_order, old.reconciled);
                not_overfilled = cc (same_filled, same_order, old.not_overfilled);
                status_fits = fits;
              })
              book.distinct_orders book.records;
        distinct_orders = DistinctOrders-replace id new oms.orders new_id book.distinct_orders;
        distinct_fills = book.distinct_fills;
        known = All-map _ _ oms.fills known-replace book.known;
      }

  -- A new fill of the order, which its record takes in.
  pub IsBook-fill :
      (fill : SimulatedFill) (attempts : List ExecutionAttempt)
      → fill.order_id ≡ id
      → find_fill fill.fill_id oms.fills ≡ none
      → new.filled_quantity ≡ add r.filled_quantity fill.quantity
      → ltb_dec new.order.quantity new.filled_quantity ≡ false
      → StatusFits new.status new.order.quantity new.filled_quantity
      → IsBook (record {
        orders = replace_order id new oms.orders;
        fills = oms.fills ++ fill ∷ [];
        attempts = attempts;
      })
  IsBook-fill fill attempts of_order fresh taken within fits =
      let old : IsRecord oms.fills r = (All-find _ id oms.orders book.records found).0 in
      record {
        records =
            All-replace (IsRecord oms.fills) (IsRecord (oms.fills ++ fill ∷ [])) id new oms.orders
              (λ x ne p. record {
                reconciled =
                    p.reconciled
                    ∙ sym (filled_total-snoc_ne x.order.order_id fill oms.fills (ground arith));
                not_overfilled = p.not_overfilled;
                status_fits = p.status_fits;
              })
              (record {
                reconciled = ground (
                  arith,
                  taken,
                  old.reconciled,
                  filled_total-snoc_self fill oms.fills,
                  of_order,
                  new_id,
                  (All-find _ id oms.orders book.records found).1,
                );
                not_overfilled = within;
                status_fits = fits;
              })
              book.distinct_orders book.records;
        distinct_orders = DistinctOrders-replace id new oms.orders new_id book.distinct_orders;
        distinct_fills = DistinctFills-snoc fill oms.fills book.distinct_fills fresh;
        known =
            All-snoc _ fill (oms.fills) (All-map _ _ oms.fills known-replace book.known)
              (known-replace fill (ground arith));
      }
