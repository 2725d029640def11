-- ===== src/Research/Execution/Costs.antt =====
-- The cost model of research/simulated_execution.py and the errors of the module.
use automated_trading_bot.Prelude.{
  String, Bool, true, false, ◌&&◌, ◌||◌, not, List, [], ◌∷◌, ◌==◌, if◌then◌else◌, all, any, length,
  Result, ok, err, ◌>>=◌, ◌>>◌, raise_if,
}
use automated_trading_bot.Prelude.Texts.{matches_identity}
use automated_trading_bot.Decimal.{Decimal, zero_dec, of_ℕ, add, mul, div, ltb_dec, leb_dec, eq_dec}

-- `SimulatedExecutionError`, by its message, and the `KeyError` of a missing cost.
pub data ExecutionError : Type 0 where
  not_positive negative_cost bad_model_id : ExecutionError
  missing_component duplicate_component not_zero_cost not_explicit_cost : ExecutionError
  order_id_conflict fill_id_conflict unknown_order terminal_order : ExecutionError
  reason_missing partly_executed overfill : ExecutionError
  foreign_order foreign_currency foreign_run early_execution : ExecutionError
  requested_below_fill requested_above_remaining : ExecutionError
  price_not_positive assertion : ExecutionError

abbrev pub Execution : Type 0 → Type 0
Execution A = Result ExecutionError A

pub data CostScenario : Type 0 where
  ec0 ec1 ec2 ec3 : CostScenario

abbrev pub scenario_eq : CostScenario → CostScenario → Bool
scenario_eq ec0 ec0 = true
scenario_eq ec1 ec1 = true
scenario_eq ec2 ec2 = true
scenario_eq ec3 ec3 = true
scenario_eq _ _ = false

pub data CostProvenance : Type 0 where
  observed modelled proxy : CostProvenance

pub data CostComponent : Type 0 where
  commission_fees bid_ask_spread slippage market_impact additional_friction : CostComponent

abbrev pub component_eq : CostComponent → CostComponent → Bool
component_eq commission_fees commission_fees = true
component_eq bid_ask_spread bid_ask_spread = true
component_eq slippage slippage = true
component_eq market_impact market_impact = true
component_eq additional_friction additional_friction = true
component_eq _ _ = false

-- `set(CostComponent)`
abbrev components : List CostComponent
components = commission_fees ∷ bid_ask_spread ∷ slippage ∷ market_impact ∷ additional_friction ∷ []

pub record CostRate : Type 0 where
  pub component : CostComponent
  pub basis_points : Decimal
  pub provenance : CostProvenance
  pub evidence_digest : String

-- `CostRate.__post_init__`
unfoldable pub validate_rate : CostRate → Execution (Unit {0})
validate_rate r = raise_if (ltb_dec r.basis_points zero_dec) negative_cost

pub record CostBreakdown : Type 0 where
  pub commission_fees : Decimal
  pub bid_ask_spread : Decimal
  pub slippage : Decimal
  pub market_impact : Decimal
  pub additional_friction : Decimal

unfoldable pub total : CostBreakdown → Decimal
total c =
    add (add (add (add c.commission_fees c.bid_ask_spread) c.slippage) c.market_impact)
      c.additional_friction

abbrev pub costs_eq : CostBreakdown → CostBreakdown → Bool
costs_eq a b =
    eq_dec a.commission_fees b.commission_fees
    && eq_dec a.bid_ask_spread b.bid_ask_spread
    && eq_dec a.slippage b.slippage
    && eq_dec a.market_impact b.market_impact
    && eq_dec a.additional_friction b.additional_friction

-- `_validate_cost_breakdown`
unfoldable pub validate_costs : CostBreakdown → Execution (Unit {0})
validate_costs c =
    raise_if
      (ltb_dec c.commission_fees zero_dec
        || ltb_dec c.bid_ask_spread zero_dec
        || ltb_dec c.slippage zero_dec
        || ltb_dec c.market_impact zero_dec
        || ltb_dec c.additional_friction zero_dec)
      negative_cost

-- `_validate_cost_binding`
unfoldable pub validate_binding : String → Execution (Unit {0})
validate_binding model_id =
    raise_if (not (matches_identity "atis:simulation-cost-model:v1:" 160 model_id)) bad_model_id

-- `_finite(…, positive=True)`
unfoldable pub require_positive : Decimal → Execution (Unit {0})
require_positive v = raise_if (leb_dec v zero_dec) not_positive

pub record ExecutionCostModel : Type 0 where
  pub model_id : String
  pub scenario : CostScenario
  pub rates : List CostRate
  pub diagnostic_only : Bool

abbrev has_component : CostComponent → List CostRate → Bool
has_component c rates = any (λ r. component_eq r.component c) rates

-- `ExecutionCostModel.__post_init__`
unfoldable pub validate_model : ExecutionCostModel → Execution (Unit {0})
unfolding validate_binding
validate_model m = do
  validate_binding m.model_id
  raise_if (not (all (λ c. has_component c m.rates) components)) missing_component
  raise_if (not (length m.rates == 5)) duplicate_component
  let all_zero = all (λ r. eq_dec r.basis_points zero_dec) m.rates
  if scenario_eq m.scenario ec0
      then raise_if (not m.diagnostic_only || not all_zero) not_zero_cost
      else raise_if (m.diagnostic_only || all_zero) not_explicit_cost

abbrev bps : Decimal
bps = of_ℕ 10000

-- `values[component]`: a later rate of a component replaces an earlier one.
cost_of : CostComponent → Decimal → List CostRate → Execution Decimal
cost_of c notional [] = err missing_component
cost_of c notional (r ∷ rates) = elim (cost_of c notional rates) [
  | ok v ↦ ok v
  | err e ↦ if component_eq r.component c then ok (div (mul notional r.basis_points) bps) else err e
]

-- `ExecutionCostModel.calculate`
unfoldable pub calculate : ExecutionCostModel → Decimal → Decimal → Execution CostBreakdown
unfolding require_positive cost_of validate_costs
calculate m quantity price = do
  require_positive quantity
  require_positive price
  let notional = mul quantity price
  c ← cost_of CostComponent.commission_fees notional m.rates
  b ← cost_of CostComponent.bid_ask_spread notional m.rates
  s ← cost_of CostComponent.slippage notional m.rates
  i ← cost_of CostComponent.market_impact notional m.rates
  f ← cost_of CostComponent.additional_friction notional m.rates
  let costs : CostBreakdown = record {
    commission_fees = c;
    bid_ask_spread = b;
    slippage = s;
    market_impact = i;
    additional_friction = f;
  }
  validate_costs costs
  ok costs
