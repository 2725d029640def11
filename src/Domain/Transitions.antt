-- ===== src/Domain/Transitions.antt =====
-- domain/state_transitions.py: the generic state and its transition. UUIDs are their integers.
use automated_trading_bot.Prelude.{
  ℕ, ◌+◌, ◌≤◌, not, List, [], ◌∷◌, ◌==◌, str_eq, ok, ◌>>=◌, ◌>>◌, raise_if, >>=-eq-ok, ok_injective,
  ◌≡◌, ◌≢◌, refl, arith,
}
use mathlib.Core.Path.{subst}
use automated_trading_bot.Domain.Versioning.Registry.{
  Versioned, unknown_contract, unsupported_version, ContractVersion, version_eq,
}

pub data TransitionState : Type 0 where
  active terminal unknown : TransitionState

pub data TransitionActionKind : Type 0 where
  apply duplicate : TransitionActionKind

pub data TransitionDisposition : Type 0 where
  applied_now illegal duplicated terminal_kept unknown_kept : TransitionDisposition

-- `TRANSITION_CONTRACT_V1`
abbrev pub transition_contract_v1 : ContractVersion
transition_contract_v1 = record { family = "state-transition"; version = 1 }

pub record GenericState : Type 0 where
  pub state_id : ℕ
  pub status : TransitionState
  pub contract_version : ContractVersion

pub record TransitionAction : Type 0 where
  pub action_id : ℕ
  pub kind : TransitionActionKind
  pub target_state : TransitionState
  pub contract_version : ContractVersion

pub record TransitionResult : Type 0 where
  pub previous_state : GenericState
  pub next_state : GenericState
  pub disposition : TransitionDisposition

-- `_require_transition_version`
unfoldable pub require_transition_version : ContractVersion → Versioned (Unit {0})
require_transition_version v = do
  raise_if (not (str_eq v.family transition_contract_v1.family)) unknown_contract
  raise_if (not (v.version == transition_contract_v1.version)) unsupported_version

-- `_unchanged_result`
abbrev pub unchanged_result : GenericState → TransitionDisposition → TransitionResult
unchanged_result s d = record { previous_state = s; next_state = s; disposition = d }

abbrev pub terminated : GenericState → GenericState
terminated s = record {
  state_id = s.state_id;
  status = terminal;
  contract_version = transition_contract_v1;
}

-- The dispositions of `transition`, on the status, the kind and the target.
unfoldable pub dispose :
    TransitionState → TransitionActionKind → TransitionState → GenericState → TransitionResult
dispose unknown k t s = unchanged_result s unknown_kept
dispose terminal k t s = unchanged_result s terminal_kept
dispose active duplicate t s = unchanged_result s duplicated
dispose active apply terminal s = record {
  previous_state = s;
  next_state = terminated s;
  disposition = applied_now;
}
dispose active apply active s = unchanged_result s illegal
dispose active apply unknown s = unchanged_result s illegal

unfoldable pub transition : GenericState → TransitionAction → Versioned TransitionResult
transition s a = do
  require_transition_version s.contract_version
  require_transition_version a.contract_version
  raise_if (not (version_eq s.contract_version a.contract_version)) unsupported_version
  ok (dispose s.status a.kind a.target_state s)

-- The results of one action after another, each on the state that the last one left.
unfoldable pub transition_all :
    GenericState → List TransitionAction → Versioned (List TransitionResult)
transition_all s [] = ok []
transition_all s (a ∷ actions) = do
  r ← transition s a
  rest ← transition_all r.next_state actions
  ok (r ∷ rest)

abbrev is_applied : TransitionDisposition → ℕ
is_applied applied_now = 1
is_applied illegal = 0
is_applied duplicated = 0
is_applied terminal_kept = 0
is_applied unknown_kept = 0

abbrev pub applications : List TransitionResult → ℕ
applications [] = 0
applications (r ∷ rs) = is_applied r.disposition + applications rs

-- How many applications a status leaves room for.
abbrev pub room : TransitionState → ℕ
room active = 1
room terminal = 0
room unknown = 0

pub transition-dispose :
    (s : GenericState) (a : TransitionAction) {r : TransitionResult}
    → transition s a ≡ ok r
    → dispose s.status a.kind a.target_state s ≡ r
unfolding transition
transition-dispose s a h = ground (arith, h)

dispose-room :
    (st : TransitionState) (k : TransitionActionKind) (t : TransitionState) (s : GenericState)
    → s.status ≡ st
    → is_applied (dispose st k t s).disposition + room (dispose st k t s).next_state.status
      ≤ room st
unfolding dispose
dispose-room unknown k t s h = ground arith
dispose-room terminal k t s h = ground arith
dispose-room active duplicate t s h = ground arith
dispose-room active apply terminal s h = ground arith
dispose-room active apply active s h = ground arith
dispose-room active apply unknown s h = ground arith

transition-room :
    (s : GenericState) (a : TransitionAction) {r : TransitionResult}
    → transition s a ≡ ok r
    → is_applied r.disposition + room r.next_state.status ≤ room s.status
transition-room s a h =
    subst (λ r. is_applied r.disposition + room r.next_state.status ≤ room s.status)
      (transition-dispose s a h) (dispose-room s.status a.kind a.target_state s refl)

-- A result either leaves its state exactly as it was, under another disposition than APPLIED, or is
-- APPLIED and takes an active state to its terminated one.
pub data IsStep (r : TransitionResult) : Type 0 where
  kept : r.next_state ≡ r.previous_state → r.disposition ≢ applied_now → IsStep r
  terminates :
      r.previous_state.status ≡ active
      → r.next_state ≡ terminated r.previous_state
      → r.disposition ≡ applied_now
      → IsStep r

dispose-IsStep :
    (st : TransitionState) (k : TransitionActionKind) (t : TransitionState) (s : GenericState)
    → s.status ≡ st
    → IsStep (dispose st k t s)
unfolding dispose
dispose-IsStep unknown k t s h = kept refl (λ e. cc)
dispose-IsStep terminal k t s h = kept refl (λ e. cc)
dispose-IsStep active duplicate t s h = kept refl (λ e. cc)
dispose-IsStep active apply terminal s h = terminates h refl refl
dispose-IsStep active apply active s h = kept refl (λ e. cc)
dispose-IsStep active apply unknown s h = kept refl (λ e. cc)

dispose-previous_state :
    (st : TransitionState) (k : TransitionActionKind) (t : TransitionState) (s : GenericState)
    → (dispose st k t s).previous_state ≡ s
unfolding dispose
dispose-previous_state unknown k t s = refl
dispose-previous_state terminal k t s = refl
dispose-previous_state active duplicate t s = refl
dispose-previous_state active apply terminal s = refl
dispose-previous_state active apply active s = refl
dispose-previous_state active apply unknown s = refl

-- Each result starts from the state that the last one left, and is such a step.
abbrev pub AreSteps : GenericState → List TransitionResult → Type 0
AreSteps s [] = Unit
AreSteps s (r ∷ rs) = (r.previous_state ≡ s) × IsStep r × AreSteps r.next_state rs

transition_all-AreSteps :
    (s : GenericState) (actions : List TransitionAction) (rs : List TransitionResult)
    → transition_all s actions ≡ ok rs
    → AreSteps s rs
unfolding transition_all
transition_all-AreSteps s [] rs h = subst (AreSteps s) (ok_injective h) tt
transition_all-AreSteps s (a ∷ actions) rs h =
    let (r, e, h1) = >>=-eq-ok (transition s a) _ h in
    let (rest, e', last) = >>=-eq-ok (transition_all r.next_state actions) _ h1 in
    let same = transition-dispose s a e in
    subst (AreSteps s) (ok_injective last) (
      subst (λ x. x.previous_state ≡ s) same
          (dispose-previous_state s.status a.kind a.target_state s),
      subst IsStep same (dispose-IsStep s.status a.kind a.target_state s refl),
      transition_all-AreSteps r.next_state actions rest e',
    )

applications-room :
    (s : GenericState) (actions : List TransitionAction) {rs : List TransitionResult}
    → transition_all s actions ≡ ok rs
    → applications rs ≤ room s.status
unfolding transition_all
applications-room s [] h = ground arith
applications-room s (a ∷ actions) h =
    let (r, e, h1) = >>=-eq-ok (transition s a) _ h in
    let (rest, e', last) = >>=-eq-ok (transition_all r.next_state actions) _ h1 in
    ground
      (arith, ok_injective last, transition-room s a e, applications-room r.next_state actions e')

-- However many actions a state is given, each result starts from the state that the last one left and
-- either keeps it exactly, or is APPLIED and takes it from active to terminated; the latter happens once
-- at most, and only if the first state was active.
pub applied_once :
    (s : GenericState) (actions : List TransitionAction) {rs : List TransitionResult}
    → transition_all s actions ≡ ok rs
    → AreSteps s rs × (applications rs ≤ room s.status)
applied_once s actions {rs} h =
    (transition_all-AreSteps s actions rs h, applications-room s actions h)
