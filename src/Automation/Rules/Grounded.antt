-- ===== src/Automation/Rules/Grounded.antt =====
-- src/automation/rulePlanner.ts: what a proposal rests on.
use online_seller_control_hu.Common.{
  ◌≡◌, refl, sym, subst, ◌⊎◌, inl, inr, Bool, true, false, not, List, [], ◌∷◌, map, Text, text_eq,
  if◌then◌else◌, filter, Result, ok, throw, Issue, parse, parse_iff, All, All-append, IsUnique,
  includes, returned-first, ok_injective, arith, Bool-cases,
}
use online_seller_control_hu.Common.Sorting.{
  sort, All-sort, All-of_sort, sort-IsUnique, sort-IsSorted,
}
use online_seller_control_hu.Core.Types.{market_eq}
use online_seller_control_hu.Automation.Alerts.{alert_kind_eq, OperationsSignal, parse_signals}
use online_seller_control_hu.Automation.Rules.{
  AutomationRule, AutomationProposal, automation_rules_schema, matches, signal_before, proposal_of,
  propose_first, proposals_from, both_parsed, proposal_before, plan_automation_actions,
}
use online_seller_control_hu.Automation.Rules.Causes.{
  Any, IsBehind, IsGuarded, IsCaused, propose_first-lem, filter-matches, All-filter_back,
  signal_before-IsOrder,
}

abbrev pub IsGrounded : List AutomationRule → List OperationsSignal → AutomationProposal → Type 0
IsGrounded rules signals p = Any (λ r. IsCaused signals r p) rules × IsGuarded p

IsGrounded-head :
    (signals : List OperationsSignal) (r : AutomationRule) (rules : List AutomationRule)
    (ps : List AutomationProposal)
    → All (λ p. IsCaused signals r p × IsGuarded p) ps
    → All (IsGrounded (r ∷ rules) signals) ps
IsGrounded-head signals r rules [] h = tt
IsGrounded-head signals r rules (p ∷ ps) h =
    ((inl h.0.0, h.0.1), IsGrounded-head signals r rules ps h.1)

IsGrounded-tail :
    (signals : List OperationsSignal) (r : AutomationRule) (rules : List AutomationRule)
    (ps : List AutomationProposal)
    → All (IsGrounded rules signals) ps
    → All (IsGrounded (r ∷ rules) signals) ps
IsGrounded-tail signals r rules [] h = tt
IsGrounded-tail signals r rules (p ∷ ps) h =
    ((inr h.0.0, h.0.1), IsGrounded-tail signals r rules ps h.1)

-- What one rule proposes.
abbrev pub rule_proposals : List OperationsSignal → AutomationRule → List AutomationProposal
rule_proposals signals r =
    if not r.enabled then [] else propose_first r (sort signal_before (filter (matches r) signals))

rule_proposals-IsCaused :
    (signals : List OperationsSignal) (r : AutomationRule)
    → automation_rules_schema.faults r ≡ []
    → All (λ p. IsCaused signals r p × IsGuarded p) (rule_proposals signals r)
rule_proposals-IsCaused signals r sound = elim (Bool-cases r.enabled) [
  | inr off ↦ subst (λ on. All P (if not on then [] else propose_first r sorted)) (sym off) tt
  | inl on ↦
      subst (λ on. All P (if not on then [] else propose_first r sorted)) (sym on)
        (propose_first-lem signals r sorted on sound (sort-IsSorted signal_before-IsOrder matching)
          (All-sort (λ s. (matches r s ≡ true) × Any (λ x. x ≡ s) signals) signal_before matching
            (filter-matches r signals))
          (λ s h.
            All-filter_back r (λ x. IsBehind x s) signals
              (All-of_sort (λ x. IsBehind x s) signal_before matching h)))
]
  where
    P : AutomationProposal → Type 0
    P p = IsCaused signals r p × IsGuarded p

    matching : List OperationsSignal
    matching = filter (matches r) signals

    sorted : List OperationsSignal
    sorted = sort signal_before matching

proposals_from-IsGrounded :
    (signals : List OperationsSignal) (rules : List AutomationRule)
    → All (λ r. automation_rules_schema.faults r ≡ []) rules
    → All (IsGrounded rules signals) (proposals_from signals rules)
unfolding proposals_from
proposals_from-IsGrounded signals [] h = tt
proposals_from-IsGrounded signals (r ∷ rules) h =
    All-append (IsGrounded (r ∷ rules) signals) (rule_proposals signals r)
      (proposals_from signals rules)
      (IsGrounded-head signals r rules _ (rule_proposals-IsCaused signals r h.0))
      (IsGrounded-tail signals r rules _ (proposals_from-IsGrounded signals rules h.1))

-- A rule has at most one proposal, which carries its id.
rule_proposals-cases :
    (signals : List OperationsSignal) (r : AutomationRule)
    → (rule_proposals signals r ≡ [])
      ⊎ ((p : AutomationProposal) × (rule_proposals signals r ≡ p ∷ []) × (p.rule_id ≡ r.id))
unfolding propose_first proposal_of
rule_proposals-cases signals r = one r.enabled (sort signal_before (filter (matches r) signals))
  where
    one :
        (on : Bool) (ss : List OperationsSignal)
        → ((if not on then [] else propose_first r ss) ≡ [])
          ⊎ ((p : AutomationProposal) × ((if not on then [] else propose_first r ss) ≡ p ∷ [])
              × (p.rule_id ≡ r.id))
    one false ss = inl refl
    one true [] = inl refl
    one true (s ∷ ss) = inr (proposal_of r s, refl, refl)

proposals_from-fresh :
    (id : Text) (signals : List OperationsSignal) (rules : List AutomationRule)
    → includes id (map (λ r. r.id) rules) ≡ false
    → includes id (map (λ p. p.rule_id) (proposals_from signals rules)) ≡ false
unfolding proposals_from
proposals_from-fresh id signals [] h = refl
proposals_from-fresh id signals (r ∷ rules) h =
    let rest = proposals_from-fresh id signals rules (ground (arith, h)) in
    elim (rule_proposals-cases signals r) [
      | inl e ↦ rw e rest
      | inr (p, e, same) ↦ rw e (ground (arith, h, same, rest))
    ]

proposals_from-IsUnique :
    (signals : List OperationsSignal) (rules : List AutomationRule)
    → IsUnique (λ r. r.id) rules
    → IsUnique (λ p. p.rule_id) (proposals_from signals rules)
unfolding proposals_from
proposals_from-IsUnique signals [] u = tt
proposals_from-IsUnique signals (r ∷ rules) u =
    let rest = proposals_from-IsUnique signals rules u.1 in
    elim (rule_proposals-cases signals r) [
      | inl e ↦ rw e rest
      | inr (p, e, same) ↦ rw e (
        subst (λ id. includes id (map (λ q. q.rule_id) (proposals_from signals rules)) ≡ false)
            (sym same) (proposals_from-fresh r.id signals rules u.0),
        rest,
      )
    ]

both_parsed-ok :
    (a : Result (List Issue) (List AutomationRule))
    (b : Result (List Issue) (List OperationsSignal)) (rules : List AutomationRule)
    (signals : List OperationsSignal)
    → both_parsed a b ≡ ok (rules, signals)
    → (a ≡ ok rules) × (b ≡ ok signals)
unfolding both_parsed
both_parsed-ok (ok rs) (ok ss) rules signals h = (cc, cc)
both_parsed-ok (ok rs) (throw e) rules signals h = cc
both_parsed-ok (throw e) (ok ss) rules signals h = cc
both_parsed-ok (throw e) (throw f) rules signals h = cc

-- Where actions are proposed, the rules and the signals are valid. Each proposal comes from an enabled
-- rule and from one of the signals: the signal has the rule's kind, the rule's marketplace if it
-- has one, and a count of at least one that reaches both thresholds, and no signal of which that
-- holds is later, or as late with a larger count. The proposal has the rule's id, action and
-- cooldown, the signal's kind, marketplace, count and date, and a threshold that is at least that
-- of both. An action that would change a marketplace has to be
-- confirmed, has a high risk, names the marketplace and is about stock at risk. No rule has two
-- proposals.
pub plan_automation_actions-IsGrounded :
    (locale_le : Text → Text → Bool) (rules : List AutomationRule) (signals : List OperationsSignal)
    (proposals : List AutomationProposal)
    → plan_automation_actions locale_le rules signals ≡ ok proposals
    → (rows : List AutomationRule) × (seen : List OperationsSignal) × (parse automation_rules_schema
          0 200 rules
        ≡ ok rows)
      × (parse_signals signals ≡ ok seen)
      × All (IsGrounded rows seen) proposals
      × IsUnique (λ p. p.rule_id) proposals
unfolding plan_automation_actions
plan_automation_actions-IsGrounded locale_le rules signals proposals h =
    let ((rows, seen), made, parsed) =
      returned-first _
        (both_parsed (parse automation_rules_schema 0 200 rules) (parse_signals signals)) h in
    let (rules_ok, signals_ok) = both_parsed-ok _ _ rows seen parsed in
    let valid = ((parse_iff automation_rules_schema 0 200 rules rows).0 rules_ok).1 in
    let before = proposal_before locale_le in
    let found = proposals_from seen rows in
    let made_is = ok_injective made in
    (
      rows,
      seen,
      rules_ok,
      signals_ok,
      subst (All (IsGrounded rows seen)) made_is (
          All-sort (IsGrounded rows seen) before found
            (proposals_from-IsGrounded seen rows valid.faults)),
      subst (IsUnique (λ p. p.rule_id)) made_is (
          sort-IsUnique (λ p. p.rule_id) before found
            (proposals_from-IsUnique seen rows valid.unique)),
    )
