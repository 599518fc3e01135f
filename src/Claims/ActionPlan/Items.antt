-- ===== src/Claims/ActionPlan/Items.antt =====
-- src/claims/claimActionPlan.ts: the risk and the confirmation of an item, told by its action.
use online_seller_control_hu.Common.{
  ◌≡◌, refl, true, List, [], ◌∷◌, map, text_eq, arith, All, pair_eq,
}
use online_seller_control_hu.Core.Types.{market_eq}
use online_seller_control_hu.Claims.ActionPlan.{
  ClaimRisk, medium, high, risk_for, ClaimAction, ClaimActionRequest, ClaimActionPlanItem, approve,
  reject, request_collection, mark_collected, ship_replacement, complete, plan_claim_item,
}

-- The risk of an action: asking for the goods and taking them in can be undone, the others cannot.
pub data HasRisk : ClaimAction → ClaimRisk → Type 0 where
  collection_medium : HasRisk request_collection medium
  collected_medium : HasRisk mark_collected medium
  approve_high : HasRisk approve high
  reject_high : HasRisk reject high
  replacement_high : HasRisk ship_replacement high
  complete_high : HasRisk complete high

-- An item of a plan has to be confirmed, and has the risk of its action.
pub record IsItem (i : ClaimActionPlanItem) : Type 0 where
  pub confirmed : i.requires_confirmation ≡ true
  pub risk : HasRisk i.request.action i.risk

pub risk_for-HasRisk : (a : ClaimAction) → HasRisk a (risk_for a)
unfolding risk_for
risk_for-HasRisk request_collection = collection_medium
risk_for-HasRisk mark_collected = collected_medium
risk_for-HasRisk approve = approve_high
risk_for-HasRisk reject = reject_high
risk_for-HasRisk ship_replacement = replacement_high
risk_for-HasRisk complete = complete_high

risk_of_HasRisk : (a : ClaimAction) (k : ClaimRisk) → HasRisk a k → k ≡ risk_for a
unfolding risk_for
risk_of_HasRisk _ _ collection_medium = refl
risk_of_HasRisk _ _ collected_medium = refl
risk_of_HasRisk _ _ approve_high = refl
risk_of_HasRisk _ _ reject_high = refl
risk_of_HasRisk _ _ replacement_high = refl
risk_of_HasRisk _ _ complete_high = refl

pub items-IsItem : (rows : List ClaimActionRequest) → All IsItem (map plan_claim_item rows)
items-IsItem [] = tt
items-IsItem (r ∷ rows) =
    (record { confirmed = refl; risk = risk_for-HasRisk r.action }, items-IsItem rows)

abbrev pub requests_of : List ClaimActionPlanItem → List ClaimActionRequest
requests_of items = map (λ i. i.request) items

pub requests_of-items :
    (rows : List ClaimActionRequest) → requests_of (map plan_claim_item rows) ≡ rows
requests_of-items [] = refl
requests_of-items (r ∷ rows) = rw (requests_of-items rows)

-- Items are told by their requests.
pub items_of_requests :
    (items : List ClaimActionPlanItem)
    → All IsItem items
    → items ≡ map plan_claim_item (requests_of items)
items_of_requests [] h = refl
items_of_requests (i ∷ items) h =
    let same : i ≡ plan_claim_item i.request =
      ground (arith, h.0.confirmed, risk_of_HasRisk i.request.action i.risk h.0.risk) in
    let rest = items_of_requests items h.1 in ground (arith, same, rest)
