-- ===== src/Research/Execution/Orders.antt =====
-- Orders, market snapshots and fills of research/simulated_execution.py.
use automated_trading_bot.Prelude.{
  ℕ, String, Bool, true, false, ◌&&◌, Option, none, some, List, [], ◌∷◌, ◌++◌, leb, ltb, ◌==◌,
  str_eq, if◌then◌else◌, is_none, ok, ◌>>◌, raise_if,
}
use automated_trading_bot.Prelude.Texts.{canonical}
use automated_trading_bot.Decimal.{Decimal, zero_dec, sub, leb_dec, eq_dec}
use automated_trading_bot.Research.Execution.Costs.{
  Execution, CostScenario, scenario_eq, CostBreakdown, costs_eq, validate_costs, validate_binding,
  require_positive, reason_missing,
}

pub data OrderSide : Type 0 where
  buy sell : OrderSide

abbrev pub side_eq : OrderSide → OrderSide → Bool
side_eq buy buy = true
side_eq sell sell = true
side_eq _ _ = false

pub data OrderStatus : Type 0 where
  accepted rejected cancelled unfilled partially_filled fully_filled : OrderStatus

-- `_TERMINAL`
abbrev pub is_terminal : OrderStatus → Bool
is_terminal accepted = false
is_terminal partially_filled = false
is_terminal _ = true

pub data ExecutionInputState : Type 0 where
  available unavailable unknown : ExecutionInputState

pub data EligibilityState : Type 0 where
  eligible ineligible : EligibilityState

pub record SimulatedOrder : Type 0 where
  pub order_id : ℕ
  pub instrument_id : ℕ
  pub side : OrderSide
  pub quantity : Decimal
  pub currency : String
  pub release_at : ℕ
  pub research_run_id : String
  pub evidence_digest : String
  pub eligibility_state : EligibilityState
  pub eligibility_reasons : List String
  pub eligibility_observation_id : String
  pub decision_time : ℕ

-- The part of `DecisionInputEligibility` that an order binds.
pub record DecisionInputEligibility : Type 0 where
  pub observation_id : String
  pub decision_time : ℕ
  pub state : EligibilityState
  pub reasons : List String

-- `SimulatedOrder.__post_init__`
unfoldable pub validate_order : SimulatedOrder → Execution (Unit {0})
unfolding require_positive
validate_order o = do
  require_positive o.quantity
  raise_if (str_eq o.eligibility_observation_id "") reason_missing

-- What the identity of an order is derived from.
pub record OrderBody : Type 0 where
  pub currency : String
  pub decision_time : ℕ
  pub evidence_digest : String
  pub instrument_id : ℕ
  pub observation_id : String
  pub quantity : Decimal
  pub release_at : ℕ
  pub research_run_id : String
  pub side : OrderSide

-- `create_order`, over the derivation `_uuid` of an identity from the SHA-256 of its body.
unfoldable pub create_order :
    (OrderBody → ℕ)
    → ℕ
    → OrderSide
    → Decimal
    → String
    → ℕ
    → String
    → String
    → DecisionInputEligibility
    → Execution SimulatedOrder
unfolding require_positive validate_order
create_order uuid instrument_id side quantity currency release_at run digest eligibility = do
  require_positive quantity
  let body : OrderBody = record {
    currency = currency;
    decision_time = eligibility.decision_time;
    evidence_digest = digest;
    instrument_id = instrument_id;
    observation_id = eligibility.observation_id;
    quantity = quantity;
    release_at = release_at;
    research_run_id = run;
    side = side;
  }
  let order : SimulatedOrder = record {
    order_id = uuid body;
    instrument_id = instrument_id;
    side = side;
    quantity = quantity;
    currency = currency;
    release_at = release_at;
    research_run_id = run;
    evidence_digest = digest;
    eligibility_state = eligibility.state;
    eligibility_reasons = eligibility.reasons;
    eligibility_observation_id = eligibility.observation_id;
    decision_time = eligibility.decision_time;
  }
  validate_order order
  ok order

abbrev eligibility_eq : EligibilityState → EligibilityState → Bool
eligibility_eq eligible eligible = true
eligibility_eq ineligible ineligible = true
eligibility_eq _ _ = false

abbrev texts_eq : List String → List String → Bool
texts_eq [] [] = true
texts_eq (s ∷ ss) (t ∷ ts) = str_eq s t && texts_eq ss ts
texts_eq _ _ = false

unfoldable pub order_eq : SimulatedOrder → SimulatedOrder → Bool
order_eq a b =
    a.order_id == b.order_id
    && a.instrument_id == b.instrument_id
    && side_eq a.side b.side
    && eq_dec a.quantity b.quantity
    && str_eq a.currency b.currency
    && a.release_at == b.release_at
    && str_eq a.research_run_id b.research_run_id
    && str_eq a.evidence_digest b.evidence_digest
    && eligibility_eq a.eligibility_state b.eligibility_state
    && texts_eq a.eligibility_reasons b.eligibility_reasons
    && str_eq a.eligibility_observation_id b.eligibility_observation_id
    && a.decision_time == b.decision_time

pub record OrderRecord : Type 0 where
  pub order : SimulatedOrder
  pub status : OrderStatus
  pub filled_quantity : Decimal
  pub reasons : List String

unfoldable pub remaining_quantity : OrderRecord → Decimal
remaining_quantity r = sub r.order.quantity r.filled_quantity

pub record ExecutionSnapshot : Type 0 where
  pub execution_at : ℕ
  pub price : Option Decimal
  pub price_available_at : Option ℕ
  pub security_state : ExecutionInputState
  pub liquidity_state : ExecutionInputState
  pub available_quantity : Option Decimal
  pub currency : Option String
  pub evidence_digest : Option String

pub record SimulatedFill : Type 0 where
  pub fill_id : ℕ
  pub order_id : ℕ
  pub instrument_id : ℕ
  pub side : OrderSide
  pub quantity : Decimal
  pub execution_price : Decimal
  pub execution_at : ℕ
  pub currency : String
  pub execution_evidence : String
  pub cost_model_id : String
  pub cost_scenario : CostScenario
  pub costs : CostBreakdown
  pub research_run_id : String

unfoldable pub fill_eq : SimulatedFill → SimulatedFill → Bool
fill_eq a b =
    a.fill_id == b.fill_id
    && a.order_id == b.order_id
    && a.instrument_id == b.instrument_id
    && side_eq a.side b.side
    && eq_dec a.quantity b.quantity
    && eq_dec a.execution_price b.execution_price
    && a.execution_at == b.execution_at
    && str_eq a.currency b.currency
    && str_eq a.execution_evidence b.execution_evidence
    && str_eq a.cost_model_id b.cost_model_id
    && scenario_eq a.cost_scenario b.cost_scenario
    && costs_eq a.costs b.costs
    && str_eq a.research_run_id b.research_run_id

-- `_validate_fill_payload`, and `SimulatedFill.__post_init__`
unfoldable pub validate_fill : SimulatedFill → Execution (Unit {0})
unfolding require_positive validate_binding validate_costs
validate_fill f = do
  require_positive f.quantity
  require_positive f.execution_price
  validate_binding f.cost_model_id
  validate_costs f.costs

pub record ExecutionAttempt : Type 0 where
  pub order_id : ℕ
  pub requested_quantity : Decimal
  pub outcome : OrderStatus
  pub reasons : List String
  pub fill_id : Option ℕ

abbrev price_reasons : ExecutionSnapshot → List String
price_reasons s = elim s.price [
  | none ↦ "PRICE_UNAVAILABLE" ∷ []
  | some _ ↦ elim s.price_available_at [
    | none ↦ "PRICE_UNAVAILABLE" ∷ []
    | some t ↦ if ltb s.execution_at t then "PRICE_NOT_AVAILABLE_AT_EXECUTION" ∷ [] else []
  ]
]

abbrev security_reasons : ExecutionInputState → List String
security_reasons available = []
security_reasons unavailable = "SECURITY_UNAVAILABLE" ∷ []
security_reasons unknown = "SECURITY_UNKNOWN" ∷ []

abbrev liquidity_reasons : ExecutionInputState → List String
liquidity_reasons available = []
liquidity_reasons unavailable = "LIQUIDITY_UNAVAILABLE" ∷ []
liquidity_reasons unknown = "LIQUIDITY_UNKNOWN" ∷ []

abbrev quantity_reasons : Option Decimal → List String
quantity_reasons none = "LIQUIDITY_QUANTITY_INVALID" ∷ []
quantity_reasons (some q) = if leb_dec q zero_dec then "LIQUIDITY_QUANTITY_INVALID" ∷ [] else []

abbrev currency_reasons : String → Option String → List String
currency_reasons currency none = "CURRENCY_UNKNOWN" ∷ []
currency_reasons currency (some c) = if str_eq c currency then [] else "CURRENCY_MISMATCH" ∷ []

-- The reasons of `_execution_reasons`, before they are sorted.
unfoldable pub listed_reasons : SimulatedOrder → ExecutionSnapshot → List String
listed_reasons o s =
    price_reasons s
    ++ (security_reasons s.security_state
        ++ (liquidity_reasons s.liquidity_state
            ++ (quantity_reasons s.available_quantity
                ++ ((if leb s.execution_at o.release_at
                      then "EXECUTION_NOT_AFTER_RELEASE" ∷ []
                      else [])
                    ++ (currency_reasons o.currency s.currency
                        ++ (if is_none s.evidence_digest
                            then "EXECUTION_EVIDENCE_MISSING" ∷ []
                            else []))))))

unfoldable pub execution_reasons : SimulatedOrder → ExecutionSnapshot → List String
unfolding listed_reasons
execution_reasons o s = canonical (listed_reasons o s)
