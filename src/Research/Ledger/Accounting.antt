-- ===== src/Research/Ledger/Accounting.antt =====
-- What `_transition` does to the state: the accounting identities, and that no position is short.
use mathlib.Core.Path.{subst}
use automated_trading_bot.Prelude.{
  ℕ, String, ◌≡◌, ◌≢◌, refl, Option, none, some, List, [], ◌∷◌, map, ◌==◌, ◌∙◌, sym, arith,
  if◌then◌else◌, All, ok, >>=-eq-ok,
}
use automated_trading_bot.Decimal.{Decimal, add, leb_dec, sum_dec}
use automated_trading_bot.Decimal.Order.{mul_nonneg}
use automated_trading_bot.Research.Ledger.Event.{
  FinancialEvent, FinancialEventKind, opening_cash, cash_adjustment, trade, mark, cash_dividend,
  split, validate_shape,
}
use automated_trading_bot.Research.Ledger.State.{
  PositionState, LedgerState, position, get, dict_of, sort, write, settle, update, transition,
  market_value, unrealised_pnl, Update,
}
use automated_trading_bot.Research.Ledger.Positions.{
  Ascending, IsLong, get-written, get-unwritten, IsLong-written, Ascending-sort, Distinct-write,
  Distinct-dict_of, get-dict_of, Ascending-Distinct,
}

-- The totals of a state are those of its positions, which are sorted, distinct and long.
pub record IsSettled (s : LedgerState) : Type 0 where
  pub ascending : Ascending s.positions
  pub long : All IsLong s.positions
  pub realised : s.realised_pnl ≡ sum_dec (map (λ p. p.realised_pnl) s.positions)
  pub unrealised : s.unrealised_pnl ≡ sum_dec (map unrealised_pnl s.positions)
  pub value : s.portfolio_value ≡ add s.cash (sum_dec (map market_value s.positions))

-- The position that an event writes is its instrument's.
abbrev Targets : FinancialEvent → Option PositionState → Type 0
Targets e none = Unit
Targets e (some p) = e.instrument_id ≡ some p.instrument_id

-- What a lookup finds carries the identity that was looked up.
pub get_id :
    (j : ℕ) (ps : List PositionState) (p : PositionState) → get j ps ≡ some p → p.instrument_id ≡ j
get_id j [] p h = cc
get_id j (q ∷ ps) p h = ground (arith, get_id j ps p)

update-Targets :
    (k : FinancialEventKind) (e : FinancialEvent) (cash : Decimal) (ps : List PositionState)
    {u : Update}
    → update k e cash ps ≡ ok u
    → Targets e u.1
unfolding update
update-Targets opening_cash e cash ps h = ground arith
update-Targets cash_adjustment e cash ps h = ground arith
update-Targets trade e cash ps h = ground arith
update-Targets mark e cash ps h = grind (arith, get_id)
update-Targets cash_dividend e cash ps h = grind (arith, get_id)
update-Targets split e cash ps h = grind (arith, get_id)

-- A split keeps a position long: its factor is positive in a valid event.
update-IsLong :
    (k : FinancialEventKind) (e : FinancialEvent) (cash : Decimal) (ps : List PositionState)
    {u : Update} {p : PositionState}
    → validate_shape (record e { kind = k }) ≡ ok tt
    → ((j : ℕ) (q : PositionState) → get j ps ≡ some q → IsLong q)
    → update k e cash ps ≡ ok u
    → u.1 ≡ some p
    → IsLong p
unfolding update validate_shape leb_dec
update-IsLong opening_cash e cash ps v l h w = ground arith
update-IsLong cash_adjustment e cash ps v l h w = ground arith
update-IsLong trade e cash ps v l h w = ground arith
update-IsLong mark e cash ps v l h w = grind arith
update-IsLong cash_dividend e cash ps v l h w = grind arith
update-IsLong split e cash ps v l h w = grind (arith, mul_nonneg)

-- A successful transition settles what its branch has written.
pub transition-inv :
    (s : LedgerState) (e : FinancialEvent) {s' : LedgerState}
    → transition s e ≡ ok s'
    → (u : Update) × (update e.kind e s.cash (dict_of s.positions) ≡ ok u)
      × (s' ≡ settle s.currency u.0 (sort (write u.1 (dict_of s.positions))))
unfolding transition
transition-inv s e h =
    let (u, eu, es) = >>=-eq-ok (update e.kind e s.cash (dict_of s.positions)) _ h in
    (u, eu, ground arith)

settle-IsSettled :
    (c : String) (cash : Decimal) (ps : List PositionState)
    → Ascending ps
    → All IsLong ps
    → IsSettled (settle c cash ps)
unfolding settle
settle-IsSettled c cash ps a l = record {
  ascending = a;
  long = l;
  realised = refl;
  unrealised = refl;
  value = refl;
}

get-IsLong :
    (j : ℕ) (ps : List PositionState) (q : PositionState)
    → All IsLong ps
    → get j ps ≡ some q
    → IsLong q
get-IsLong j [] q l h = cc
get-IsLong j (p ∷ ps) q l h = ground (arith, get-IsLong j ps q l.1)

-- From a settled state, a valid event that is accepted leads to a settled state: sorted distinct
-- positions, none of them short, and totals that are the sums over the positions.
pub transition-IsSettled :
    (s : LedgerState) (e : FinancialEvent) {s' : LedgerState}
    → IsSettled s
    → validate_shape e ≡ ok tt
    → transition s e ≡ ok s'
    → IsSettled s'
transition-IsSettled s e {s'} i v h =
    let (u, eu, es) = transition-inv s e h in
    let ps = dict_of s.positions in
    subst IsSettled (sym es) (
      settle-IsSettled s.currency u.0 (sort (write u.1 ps))
        (Ascending-sort (write u.1 ps) (Distinct-write u.1 ps (Distinct-dict_of s.positions)))
        (IsLong-written u.1 s.positions
          (λ p w.
            update-IsLong e.kind e s.cash ps v
              (λ j q g.
                get-IsLong j s.positions q i.long (
                  sym (get-dict_of j s.positions (Ascending-Distinct s.positions i.ascending)) ∙ g))
              eu w)
          i.long))

abbrev pub after_write : ℕ → Option PositionState → Option PositionState → Option PositionState
after_write j none old = old
after_write j (some p) old = if p.instrument_id == j then some p else old

pub position-written :
    (j : ℕ) (c : String) (cash : Decimal) (w : Option PositionState) (ps : List PositionState)
    → Ascending ps
    → position (settle c cash (sort (write w (dict_of ps)))) j ≡ after_write j w (get j ps)
unfolding position settle
position-written j c cash none ps a = get-unwritten j ps a
position-written j c cash (some p) ps a = get-written j p ps a

untouched :
    (e : FinancialEvent) (j : ℕ) (w old : Option PositionState)
    → Targets e w
    → e.instrument_id ≢ some j
    → after_write j w old ≡ old
untouched e j none old t ne = refl
untouched e j (some p) old t ne = ground arith

-- From a settled state, an accepted event leaves the position of every instrument but its own as
-- it was.
pub transition_others :
    (s : LedgerState) (e : FinancialEvent) (j : ℕ) {s' : LedgerState}
    → IsSettled s
    → e.instrument_id ≢ some j
    → transition s e ≡ ok s'
    → position s' j ≡ position s j
unfolding position
transition_others s e j {s'} i ne h =
    let (u, eu, es) = transition-inv s e h in
    subst (λ x. get j x.positions ≡ get j s.positions) (sym es)
      (position-written j s.currency u.0 u.1 s.positions i.ascending
        ∙ untouched e j u.1 (get j s.positions)
            (update-Targets e.kind e s.cash (dict_of s.positions) eu) ne)
