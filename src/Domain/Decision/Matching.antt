-- ===== src/Domain/Decision/Matching.antt =====
-- When an approval of domain/decision.py matches.
use automated_trading_bot.Prelude.{ℕ, ◌≤◌, ◌<◌, Bool, true, false, ◌≡◌, ◌↔◌, ◌⊎◌, refl, sym, arith}
use mathlib.Core.Path.{subst}
use automated_trading_bot.Domain.Decision.{
  ApprovalScope, scope_eq, trade_proposed, approved, Proposal, Approval, Intent, proposes, declines,
  is_eligible, in_window, matches_current_proposal,
}

-- An approval of just this proposal in the current scope, both issued by now and neither expired.
pub record IsCurrent (a : Approval) (p : Proposal) (current : ApprovalScope) (now : ℕ)
    : Type 0 where
  pub approval : a.status ≡ approved
  pub proposal : p.status ≡ trade_proposed
  pub decision : a.decision_id ≡ p.decision_id
  pub approved_scope : scope_eq a.scope p.scope ≡ true
  pub proposed_scope : scope_eq p.scope current ≡ true
  pub order : p.issued_at ≤ a.issued_at
  pub issued : a.issued_at ≤ now
  pub approval_open : now < a.expires_at
  pub proposal_open : now < p.expires_at

matched :
    (a : Approval) (p : Proposal) (current : ApprovalScope) (now : ℕ)
    → is_eligible a p current ≡ true
    → in_window a p now ≡ true
    → IsCurrent a p current now
unfolding is_eligible in_window
matched a p current now e w = record {
  approval = ground arith;
  proposal = ground arith;
  decision = ground arith;
  approved_scope = ground arith;
  proposed_scope = ground arith;
  order = ground arith;
  issued = ground arith;
  approval_open = ground arith;
  proposal_open = ground arith;
}

current_both :
    (a : Approval) (p : Proposal) (current : ApprovalScope) (now : ℕ)
    → IsCurrent a p current now
    → (is_eligible a p current ≡ true) × (in_window a p now ≡ true)
unfolding is_eligible in_window
current_both a p current now c = (
  ground (arith, c.approval, c.proposal, c.decision, c.approved_scope, c.proposed_scope, c.order),
  ground (arith, c.order, c.issued, c.approval_open, c.proposal_open),
)

proposes_injective : {p q : Proposal} → proposes p ≡ proposes q → p ≡ q
proposes_injective h = cc

-- An approval matches an intent exactly where the intent is a proposal and the approval is a
-- current one of it, with or without a callback; a decision not to trade is never matched.
pub matches-IsCurrent :
    (a : Approval) (i : Intent) (current : ApprovalScope) (now : ℕ) (has_callback : Bool)
    → ((matches_current_proposal a i current now has_callback).0 ≡ true)
      ↔ ((p : Proposal) × (i ≡ proposes p) × IsCurrent a p current now)
unfolding matches_current_proposal
matches-IsCurrent a (declines n) current now has_callback = (λ h. cc, λ (p, e, c). cc)
matches-IsCurrent a (proposes p) current now has_callback = (
  λ h. (p, refl, matched a p current now (ground arith) (ground arith)),
  λ (q, e, c).
      let same = subst (λ x. IsCurrent a x current now) (sym (proposes_injective e)) c in
      let (eligible, inside) = current_both a p current now same in rw (eligible, inside) refl,
)

-- The expiry callback is called only for an approval that does not match, and then it has expired
-- or its proposal has: it matches at no later time either.
pub expiry_rejection :
    (a : Approval) (p : Proposal) (current : ApprovalScope) (now : ℕ) (has_callback : Bool)
    → (matches_current_proposal a (proposes p) current now has_callback).1 ≡ true
    → ((matches_current_proposal a (proposes p) current now has_callback).0 ≡ false)
      × ((a.expires_at ≤ now) ⊎ (p.expires_at ≤ now))
      × ((later : ℕ)
          → now ≤ later
          → (matches_current_proposal a (proposes p) current later has_callback).0 ≡ false)
unfolding matches_current_proposal in_window
expiry_rejection a p current now has_callback h =
    (ground arith, ground arith, λ later l. ground arith)
