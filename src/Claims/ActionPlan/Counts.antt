-- ===== src/Claims/ActionPlan/Counts.antt =====
-- src/claims/claimActionPlan.ts: how often each risk and each market is among the items of a plan.
use online_seller_control_hu.Common.{
  Bool, not, ◌==◌, ◌+◌, ◌≡◌, refl, true, false, List, [], ◌∷◌, map, text_eq, arith, All, length,
  pair_eq, count_if,
}
use online_seller_control_hu.Core.Types.{Market, market_eq}
use online_seller_control_hu.Claims.ActionPlan.{
  ClaimRisk, ClaimAction, ClaimActionRequest, ClaimActionPlanItem, approve, reject,
  request_collection, mark_collected, ship_replacement, complete, claim_action_requests_schema,
  is_high,
}
use online_seller_control_hu.Claims.ActionPlan.Items.{
  HasRisk, collection_medium, collected_medium, approve_high, reject_high, replacement_high,
  complete_high, IsItem, requests_of,
}

-- Whether an action moves goods back to the seller, and can still be undone.
abbrev pub is_collection : ClaimAction → Bool
is_collection request_collection = true
is_collection mark_collected = true
is_collection approve = false
is_collection reject = false
is_collection ship_replacement = false
is_collection complete = false

risk-is_collection :
    (a : ClaimAction) (k : ClaimRisk) → HasRisk a k → is_high k ≡ not (is_collection a)
risk-is_collection _ _ collection_medium = refl
risk-is_collection _ _ collected_medium = refl
risk-is_collection _ _ approve_high = refl
risk-is_collection _ _ reject_high = refl
risk-is_collection _ _ replacement_high = refl
risk-is_collection _ _ complete_high = refl

-- The high risks and the others, by the actions that were asked for.
pub count_risks :
    (input : List ClaimActionRequest) (items : List ClaimActionPlanItem)
    → requests_of items ≡ map claim_action_requests_schema.normalize input
    → All IsItem items
    → (count_if (λ i. is_high i.risk) items + count_if (λ r. is_collection r.action) input
        ≡ length items)
      × (count_if (λ i. is_high i.risk) items ≡ count_if (λ r. not (is_collection r.action)) input)
count_risks [] [] e h = (refl, refl)
count_risks [] (i ∷ items) e h = cc
count_risks (r ∷ input) [] e h = cc
count_risks (r ∷ input) (i ∷ items) e h =
    let action : i.request.action ≡ r.action = cc in
    let high_risk = risk-is_collection i.request.action i.risk h.0.risk in
    let rest = count_risks input items (cc) h.1 in ground (arith, action, high_risk, rest)

-- The claims of a market are those that were asked for.
pub count_markets :
    (m : Market) (input : List ClaimActionRequest) (items : List ClaimActionPlanItem)
    → requests_of items ≡ map claim_action_requests_schema.normalize input
    → count_if (λ i. i.request.market == m) items ≡ count_if (λ r. r.market == m) input
count_markets m [] [] e = refl
count_markets m [] (i ∷ items) e = cc
count_markets m (r ∷ input) [] e = cc
count_markets m (r ∷ input) (i ∷ items) e =
    let market : i.request.market ≡ r.market = cc in
    let rest = count_markets m input items (cc) in rw market (ground (arith, rest))

pub confirmed_all :
    (items : List ClaimActionPlanItem)
    → All IsItem items
    → count_if (λ i. i.requires_confirmation) items ≡ length items
confirmed_all [] h = refl
confirmed_all (i ∷ items) h =
    let rest = confirmed_all items h.1 in rw h.0.confirmed (omega (arith, rest))
