-- ===== src/Research/Execution/Records.antt =====
-- The invariant of the order management: what every record says of the fills.
use mathlib.Core.Path.{subst}
use automated_trading_bot.Prelude.{
  ℕ, ◌≡◌, refl, true, false, none, some, List, [], ◌∷◌, ◌++◌, ◌==◌, ==_iff, ==_refl, if◌then◌else◌,
  is_some, All, arith, inl, inr, Bool-cases,
}
use automated_trading_bot.Decimal.{Decimal, zero_dec, add, ltb_dec, eq_dec}
use automated_trading_bot.Research.Execution.Orders.{
  OrderStatus, accepted, rejected, cancelled, unfilled, partially_filled, fully_filled, OrderRecord,
  SimulatedFill,
}
use automated_trading_bot.Research.Execution.Oms.{
  SimulatedOms, find_order, find_fill, replace_order,
}

-- The quantities of an order's fills, added up in the order of the fills.
abbrev filled_from : ℕ → Decimal → List SimulatedFill → Decimal
filled_from id acc [] = acc
filled_from id acc (f ∷ fs) =
    filled_from id (if f.order_id == id then add acc f.quantity else acc) fs

abbrev pub filled_total : ℕ → List SimulatedFill → Decimal
filled_total id fs = filled_from id zero_dec fs

-- What a status says of the quantity filled so far.
abbrev pub StatusFits : OrderStatus → Decimal → Decimal → Type 0
StatusFits accepted quantity filled = filled ≡ zero_dec
StatusFits rejected quantity filled = filled ≡ zero_dec
StatusFits cancelled quantity filled = Unit
StatusFits unfilled quantity filled = eq_dec filled zero_dec ≡ true
StatusFits partially_filled quantity filled = eq_dec filled quantity ≡ false
StatusFits fully_filled quantity filled = eq_dec filled quantity ≡ true

pub record IsRecord (fills : List SimulatedFill) (r : OrderRecord) : Type 0 where
  pub reconciled : r.filled_quantity ≡ filled_total r.order.order_id fills
  pub not_overfilled : ltb_dec r.order.quantity r.filled_quantity ≡ false
  pub status_fits : StatusFits r.status r.order.quantity r.filled_quantity

abbrev pub DistinctOrders : List OrderRecord → Type 0
DistinctOrders [] = Unit
DistinctOrders (r ∷ rs) = (find_order r.order.order_id rs ≡ none) × DistinctOrders rs

abbrev pub DistinctFills : List SimulatedFill → Type 0
DistinctFills [] = Unit
DistinctFills (f ∷ fs) = (find_fill f.fill_id fs ≡ none) × DistinctFills fs

pub record IsBook (oms : SimulatedOms) : Type 0 where
  pub records : All (IsRecord oms.fills) oms.orders
  pub distinct_orders : DistinctOrders oms.orders
  pub distinct_fills : DistinctFills oms.fills
  pub known : All (λ f. is_some (find_order f.order_id oms.orders) ≡ true) oms.fills

filled_from-snoc :
    (id : ℕ) (acc : Decimal) (f : SimulatedFill) (fs : List SimulatedFill)
    → filled_from id acc (fs ++ f ∷ [])
      ≡ (if f.order_id == id then add (filled_from id acc fs) f.quantity else filled_from id acc fs)
filled_from-snoc id acc f [] = refl
filled_from-snoc id acc f (g ∷ fs) =
    filled_from-snoc id (if g.order_id == id then add acc g.quantity else acc) f fs

pub filled_total-snoc_self :
    (f : SimulatedFill) (fs : List SimulatedFill)
    → filled_total f.order_id (fs ++ f ∷ []) ≡ add (filled_total f.order_id fs) f.quantity
filled_total-snoc_self f fs = rw (filled_from-snoc f.order_id zero_dec f fs) (rw ==_refl)

pub filled_total-snoc_ne :
    (id : ℕ) (f : SimulatedFill) (fs : List SimulatedFill)
    → (f.order_id == id) ≡ false
    → filled_total id (fs ++ f ∷ []) ≡ filled_total id fs
filled_total-snoc_ne id f fs h = rw (filled_from-snoc id zero_dec f fs) (rw h)

-- An order that no fill names has nothing filled.
filled_from-unknown :
    (id : ℕ) (acc : Decimal) (rs : List OrderRecord) (fs : List SimulatedFill)
    → All (λ f. is_some (find_order f.order_id rs) ≡ true) fs
    → find_order id rs ≡ none
    → filled_from id acc fs ≡ acc
filled_from-unknown id acc rs [] k n = refl
filled_from-unknown id acc rs (f ∷ fs) k n = elim (Bool-cases (f.order_id == id)) [
  | inl e ↦ absurd (cc (k.0, n, (==_iff _ _).0 e))
  | inr e ↦ rw e (filled_from-unknown id acc rs fs k.1 n)
]

pub filled_total-unknown :
    (id : ℕ) (rs : List OrderRecord) (fs : List SimulatedFill)
    → All (λ f. is_some (find_order f.order_id rs) ≡ true) fs
    → find_order id rs ≡ none
    → filled_total id fs ≡ zero_dec
filled_total-unknown id rs fs k n = filled_from-unknown id zero_dec rs fs k n

-- A record that is replaced, by one of the same order, is still found; no other lookup changes.
pub find_order-replace :
    (j id : ℕ) (new : OrderRecord) (rs : List OrderRecord)
    → new.order.order_id ≡ id
    → is_some (find_order id rs) ≡ true
    → find_order j (replace_order id new rs) ≡ (if id == j then some new else find_order j rs)
unfolding replace_order
find_order-replace j id new [] e h = cc
find_order-replace j id new (r ∷ rs) e h = ground (arith, find_order-replace j id new rs e)

pub find_order-snoc :
    (j : ℕ) (new : OrderRecord) (rs : List OrderRecord)
    → is_some (find_order j rs) ≡ true
    → find_order j (rs ++ new ∷ []) ≡ find_order j rs
find_order-snoc j new [] h = cc
find_order-snoc j new (r ∷ rs) h = ground (arith, find_order-snoc j new rs)

find_order-snoc_ne :
    (j : ℕ) (new : OrderRecord) (rs : List OrderRecord)
    → find_order j rs ≡ none
    → (new.order.order_id == j) ≡ false
    → find_order j (rs ++ new ∷ []) ≡ none
find_order-snoc_ne j new [] h e = rw e
find_order-snoc_ne j new (r ∷ rs) h e = ground (arith, find_order-snoc_ne j new rs)

pub DistinctOrders-snoc :
    (new : OrderRecord) (rs : List OrderRecord)
    → DistinctOrders rs
    → find_order new.order.order_id rs ≡ none
    → DistinctOrders (rs ++ new ∷ [])
DistinctOrders-snoc new [] d h = (refl, tt)
DistinctOrders-snoc new (r ∷ rs) d h = (
  find_order-snoc_ne r.order.order_id new rs d.0 (ground arith),
  DistinctOrders-snoc new rs d.1 (ground arith),
)

find_order-replace_ne :
    (j id : ℕ) (new : OrderRecord) (rs : List OrderRecord)
    → new.order.order_id ≡ id
    → (id == j) ≡ false
    → find_order j (replace_order id new rs) ≡ find_order j rs
unfolding replace_order
find_order-replace_ne j id new [] e h = refl
find_order-replace_ne j id new (r ∷ rs) e h = ground (arith, find_order-replace_ne j id new rs e h)

pub DistinctOrders-replace :
    (id : ℕ) (new : OrderRecord) (rs : List OrderRecord)
    → new.order.order_id ≡ id
    → DistinctOrders rs
    → DistinctOrders (replace_order id new rs)
unfolding replace_order
DistinctOrders-replace id new [] e d = tt
DistinctOrders-replace id new (r ∷ rs) e d = elim (Bool-cases (r.order.order_id == id)) [
  | inl h ↦ rw h (cc (d.0, e, (==_iff _ _).0 h), d.1)
  | inr h ↦ rw h (
    ground (arith, find_order-replace_ne r.order.order_id id new rs e),
    DistinctOrders-replace id new rs e d.1,
  )
]

module _ (P Q : OrderRecord → Type 0) (id : ℕ) where
  All-others :
      (rs : List OrderRecord)
      → ((r : OrderRecord) → (r.order.order_id == id) ≡ false → P r → Q r)
      → find_order id rs ≡ none
      → All P rs
      → All Q rs
  All-others [] f h a = tt
  All-others (r ∷ rs) f h a = (f r (ground arith) a.0, All-others rs f (ground arith) a.1)

  -- What holds of the other records and of the new one holds after a replacement.
  pub All-replace :
      (new : OrderRecord) (rs : List OrderRecord)
      → ((r : OrderRecord) → (r.order.order_id == id) ≡ false → P r → Q r)
      → Q new
      → DistinctOrders rs
      → All P rs
      → All Q (replace_order id new rs)
  unfolding replace_order
  All-replace new [] f q d a = tt
  All-replace new (r ∷ rs) f q d a = elim (Bool-cases (r.order.order_id == id)) [
    | inl h ↦ rw h (q, All-others rs f (cc (d.0, (==_iff _ _).0 h)) a.1)
    | inr h ↦ rw h (f r h a.0, All-replace new rs f q d.1 a.1)
  ]

pub All-find :
    (P : OrderRecord → Type 0) (id : ℕ) (rs : List OrderRecord) {r : OrderRecord}
    → All P rs
    → find_order id rs ≡ some r
    → P r × (r.order.order_id ≡ id)
All-find P id [] a h = cc
All-find P id (x ∷ rs) {r} a h = elim (Bool-cases (x.order.order_id == id)) [
  | inl e ↦
      let same : x ≡ r = ground arith in
      subst (λ y. P y × (y.order.order_id ≡ id)) same (a.0, (==_iff _ _).0 e)
  | inr e ↦ All-find P id rs a.1 (ground arith)
]
