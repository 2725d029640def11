-- ===== src/Research/Ledger/State.antt =====
-- Positions, the state of the ledger and `_transition`.
use automated_trading_bot.Prelude.{
  ℕ, String, Option, none, some, List, [], ◌∷◌, map, foldl, leb, ◌==◌, if◌then◌else◌, find, ok, err,
  ◌>>=◌, ◌>>◌, raise_if, or_raise,
}
use automated_trading_bot.Decimal.{
  Decimal, zero_dec, add, sub, mul, div, neg, ltb_dec, eq_dec, sum_dec,
}
use automated_trading_bot.Research.Ledger.Event.{
  FinancialEvent, FinancialEventKind, opening_cash, cash_adjustment, trade, mark, cash_dividend,
  split, Ledger, short_position, empty_position, assertion,
}

pub record PositionState : Type 0 where
  pub instrument_id : ℕ
  pub quantity : Decimal
  pub cost_basis : Decimal
  pub mark_price : Decimal
  pub realised_pnl : Decimal

unfoldable pub market_value : PositionState → Decimal
market_value p = mul p.quantity p.mark_price

unfoldable pub unrealised_pnl : PositionState → Decimal
unfolding market_value
unrealised_pnl p = sub (market_value p) p.cost_basis

pub record LedgerState : Type 0 where
  pub currency : String
  pub cash : Decimal
  pub positions : List PositionState
  pub realised_pnl : Decimal
  pub unrealised_pnl : Decimal
  pub portfolio_value : Decimal

-- `positions.get(id)`, and the search in `LedgerState.position`
abbrev pub get : ℕ → List PositionState → Option PositionState
get id ps = find (λ p. p.instrument_id == id) ps

unfoldable pub position : LedgerState → ℕ → Option PositionState
position s id = get id s.positions

-- `positions[p.instrument_id] = p`: in place, or at the end
unfoldable pub put : PositionState → List PositionState → List PositionState
put p [] = p ∷ []
put p (q ∷ qs) = if q.instrument_id == p.instrument_id then p ∷ qs else q ∷ put p qs

-- `{item.instrument_id: item for item in state.positions}`
unfoldable pub dict_of : List PositionState → List PositionState
unfolding put
dict_of = foldl (λ d p. put p d) []

-- `sorted(…, key=…)`: stable. Instrument identities of one length sort as texts as the numbers do.
unfoldable pub insert_sorted : PositionState → List PositionState → List PositionState
insert_sorted p [] = p ∷ []
insert_sorted p (q ∷ qs) =
    if leb p.instrument_id q.instrument_id then p ∷ q ∷ qs else q ∷ insert_sorted p qs

unfoldable pub sort : List PositionState → List PositionState
unfolding insert_sorted
sort [] = []
sort (p ∷ ps) = insert_sorted p (sort ps)

-- What the branches of `_transition` leave: the cash, and the position that they write, if any.
abbrev pub Update : Type 0
Update = Decimal × Option PositionState

held : Option PositionState → Ledger PositionState
held none = err empty_position
held (some p) = if eq_dec p.quantity zero_dec then err empty_position else ok p

opened : ℕ → Decimal → Option PositionState → PositionState
opened id price none = record {
  instrument_id = id;
  quantity = zero_dec;
  cost_basis = zero_dec;
  mark_price = price;
  realised_pnl = zero_dec;
}
opened id price (some p) = p

-- The cost basis and the realised result of a trade of `quantity` at `price`.
traded : PositionState → Decimal → Decimal → Ledger (Decimal × Decimal)
traded old quantity price =
    if ltb_dec zero_dec quantity
    then ok (add old.cost_basis (mul quantity price), old.realised_pnl)
    else if eq_dec old.quantity zero_dec
    then err empty_position
    else let sold = neg quantity in
      let average_cost = div old.cost_basis old.quantity in
      ok (
        sub old.cost_basis (mul average_cost sold),
        add old.realised_pnl (mul (sub price average_cost) sold),
      )

-- What a trade writes, once the quantity it leaves and its cost and result are known.
unfoldable pub written_trade :
    Decimal → ℕ → Decimal → Decimal → Decimal → Decimal × Decimal → Update
written_trade cash id new_quantity quantity price (cost_basis, realised) = (
  sub cash (mul quantity price),
  some (record {
    instrument_id = id;
    quantity = new_quantity;
    cost_basis = if eq_dec new_quantity zero_dec then zero_dec else cost_basis;
    mark_price = price;
    realised_pnl = realised;
  }),
)

unfoldable pub trade_update : Decimal → Option PositionState → ℕ → Decimal → Decimal → Ledger Update
unfolding opened traded written_trade
trade_update cash found id quantity price = do
  let old = opened id price found
  let new_quantity = add old.quantity quantity
  raise_if (ltb_dec new_quantity zero_dec) short_position
  costs ← traded old quantity price
  ok (written_trade cash id new_quantity quantity price costs)

unfoldable pub update :
    FinancialEventKind → FinancialEvent → Decimal → List PositionState → Ledger Update
unfolding held trade_update
update opening_cash e cash ps = do
  delta ← or_raise e.cash_delta assertion
  ok (add cash delta, none)
update cash_adjustment e cash ps = do
  delta ← or_raise e.cash_delta assertion
  ok (add cash delta, none)
update trade e cash ps = do
  id ← or_raise e.instrument_id assertion
  quantity ← or_raise e.quantity assertion
  price ← or_raise e.unit_amount assertion
  trade_update cash (get id ps) id quantity price
update mark e cash ps = do
  id ← or_raise e.instrument_id assertion
  price ← or_raise e.unit_amount assertion
  old ← held (get id ps)
  ok (cash, some (record old { mark_price = price }))
update cash_dividend e cash ps = do
  id ← or_raise e.instrument_id assertion
  amount ← or_raise e.unit_amount assertion
  old ← held (get id ps)
  let income = mul old.quantity amount
  ok (add cash income, some (record old { realised_pnl = add old.realised_pnl income }))
update split e cash ps = do
  id ← or_raise e.instrument_id assertion
  factor ← or_raise e.quantity assertion
  old ← held (get id ps)
  ok (
    cash,
    some
        (record old { quantity = mul old.quantity factor; mark_price = div old.mark_price factor }),
  )

unfoldable pub write : Option PositionState → List PositionState → List PositionState
write none ps = ps
write (some p) ps = put p ps

-- The totals over the ordered positions. The test of `portfolio_value` against the sum that it was
-- computed from cannot fail.
unfoldable pub settle : String → Decimal → List PositionState → LedgerState
settle currency cash ordered = record {
  currency = currency;
  cash = cash;
  positions = ordered;
  realised_pnl = sum_dec (map (λ p. p.realised_pnl) ordered);
  unrealised_pnl = sum_dec (map unrealised_pnl ordered);
  portfolio_value = add cash (sum_dec (map market_value ordered));
}

unfoldable pub transition : LedgerState → FinancialEvent → Ledger LedgerState
unfolding dict_of update write sort settle
transition s e = do
  let ps = dict_of s.positions
  (cash, written) ← update e.kind e s.cash ps
  ok (settle s.currency cash (sort (write written ps)))
