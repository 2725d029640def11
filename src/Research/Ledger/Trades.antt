-- ===== src/Research/Ledger/Trades.antt =====
-- What an accepted trade does, and which trades are refused.
use mathlib.Core.Path.{subst}
use automated_trading_bot.Prelude.{
  ℕ, ◌≡◌, refl, Bool, true, false, Option, none, some, List, ◌∙◌, ap, sym, arith, ok, err, raise_if,
  ◌>>◌, ◌>>=◌,
}
use automated_trading_bot.Decimal.{Decimal, zero_dec, add, sub, mul, ltb_dec, eq_dec}
use automated_trading_bot.Research.Ledger.Event.{FinancialEvent, trade, Ledger, short_position}
use automated_trading_bot.Research.Ledger.State.{
  PositionState, LedgerState, position, settle, get, dict_of, trade_update, written_trade, update,
  transition, Update,
}
use automated_trading_bot.Research.Ledger.Positions.{get-dict_of, Ascending-Distinct}
use automated_trading_bot.Research.Ledger.Accounting.{
  IsSettled, transition-inv, position-written, after_write,
}

abbrev quantity_of : Option PositionState → Decimal
quantity_of none = zero_dec
quantity_of (some p) = p.quantity

-- The quantity that the state holds of an instrument: zero where it has no position.
abbrev pub held_quantity : LedgerState → ℕ → Decimal
held_quantity s id = quantity_of (position s id)

-- The event asks for a trade of `q` units of the instrument at a price.
pub record IsTrade (e : FinancialEvent) (id : ℕ) (q price : Decimal) : Type 0 where
  pub is_trade : e.kind ≡ trade
  pub instrument : e.instrument_id ≡ some id
  pub quantity : e.quantity ≡ some q
  pub amount : e.unit_amount ≡ some price

-- The position that a trade leaves.
pub record Traded (held : Decimal) (id : ℕ) (q price : Decimal) (p : PositionState) : Type 0 where
  pub instrument : p.instrument_id ≡ id
  pub quantity : p.quantity ≡ add held q
  pub not_short : ltb_dec p.quantity zero_dec ≡ false
  pub marked : p.mark_price ≡ price
  pub flat : eq_dec p.quantity zero_dec ≡ true → p.cost_basis ≡ zero_dec

-- Inversion of the guard and the computation of the costs.
trade_steps :
    (short : Bool) (costs : Ledger (Decimal × Decimal)) (f : Decimal × Decimal → Update)
    {u : Update}
    → (raise_if short short_position >> (costs >>= λ c. ok (f c))) ≡ ok u
    → (short ≡ false) × (c : Decimal × Decimal) × (u ≡ f c)
trade_steps true costs f h = cc
trade_steps false (err x) f h = cc
trade_steps false (ok c) f h = (refl, c, ground arith)

-- What an update that a trade writes says of the trade.
abbrev Effect : Decimal → Decimal → ℕ → Decimal → Decimal → Update → Type 0
Effect cash held id q price u =
    (u.0 ≡ sub cash (mul q price)) × (p : PositionState) × (u.1 ≡ some p) × Traded held id q price p

written_trade-Effect :
    (cash held : Decimal) (id : ℕ) (q price : Decimal) (c : Decimal × Decimal)
    → ltb_dec (add held q) zero_dec ≡ false
    → Effect cash held id q price (written_trade cash id (add held q) q price c)
unfolding written_trade
written_trade-Effect cash held id q price c long = (
  refl,
  _,
  refl,
  record { instrument = refl; quantity = refl; not_short = long; marked = refl; flat = λ e. rw e },
)

trade_update-Effect :
    (cash : Decimal) (found : Option PositionState) (id : ℕ) (q price : Decimal) {u : Update}
    → trade_update cash found id q price ≡ ok u
    → Effect cash (quantity_of found) id q price u
unfolding trade_update
trade_update-Effect cash none id q price h =
    let (long, c, e) = trade_steps _ _ (written_trade cash id _ q price) h in
    subst (Effect cash zero_dec id q price) (sym e)
      (written_trade-Effect cash zero_dec id q price c long)
trade_update-Effect cash (some old) id q price h =
    let (long, c, e) = trade_steps _ _ (written_trade cash id _ q price) h in
    subst (Effect cash old.quantity id q price) (sym e)
      (written_trade-Effect cash old.quantity id q price c long)

trade_update_short :
    (cash : Decimal) (found : Option PositionState) (id : ℕ) (q price : Decimal)
    → ltb_dec (add (quantity_of found) q) zero_dec ≡ true
    → trade_update cash found id q price ≡ err short_position
unfolding trade_update
trade_update_short cash found id q price h = ground arith

update-trade :
    (e : FinancialEvent) (id : ℕ) (q price cash : Decimal) (ps : List PositionState)
    → IsTrade e id q price
    → update e.kind e cash ps ≡ trade_update cash (get id ps) id q price
unfolding update
update-trade e id q price cash ps t = ground arith

position_after :
    (s : LedgerState) (id : ℕ) (u : Update) (p : PositionState)
    → IsSettled s
    → u.1 ≡ some p
    → p.instrument_id ≡ id
    → after_write id u.1 (get id s.positions) ≡ some p
position_after s id u p i w e = ground arith

-- From a settled state, an accepted trade of q units at a price takes q times the price from the
-- cash, adds q to the instrument's quantity, which does not fall below zero, marks the
-- position at the price, and a trade that leaves no units leaves no cost basis.
pub trade_effect :
    (s : LedgerState) (e : FinancialEvent) (id : ℕ) (q price : Decimal) {s' : LedgerState}
    → IsSettled s
    → IsTrade e id q price
    → transition s e ≡ ok s'
    → (s'.cash ≡ sub s.cash (mul q price))
      × (p : PositionState) × (position s' id ≡ some p)
      × Traded (held_quantity s id) id q price p
unfolding position settle
trade_effect s e id q price {s'} i t h =
    let (u, eu, es) = transition-inv s e h in
    let ps = dict_of s.positions in
    let same : get id ps ≡ get id s.positions =
      get-dict_of id s.positions (Ascending-Distinct s.positions i.ascending) in
    let (paid, p, w, traded) = trade_update-Effect s.cash (get id s.positions) id q price (
      ap (λ o. trade_update s.cash o id q price) (sym same)
      ∙ sym (update-trade e id q price s.cash ps t)
      ∙ eu) in
    (
      ap (λ x. x.cash) es ∙ paid,
      p,
      ap (λ x. get id x.positions) es
          ∙ position-written id s.currency u.0 u.1 s.positions i.ascending
          ∙ position_after s id u p i w traded.instrument,
      traded,
    )

-- From a settled state, a trade that would leave less than nothing of the instrument is refused.
pub short_refused :
    (s : LedgerState) (e : FinancialEvent) (id : ℕ) (q price : Decimal)
    → IsSettled s
    → IsTrade e id q price
    → ltb_dec (add (held_quantity s id) q) zero_dec ≡ true
    → transition s e ≡ err short_position
unfolding position transition
short_refused s e id q price i t short =
    let ps = dict_of s.positions in
    rw (update-trade e id q price s.cash ps t) (
      rw (get-dict_of id s.positions (Ascending-Distinct s.positions i.ascending))
        (rw (trade_update_short s.cash (get id s.positions) id q price short) refl))
