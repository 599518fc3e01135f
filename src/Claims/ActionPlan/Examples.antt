-- ===== src/Claims/ActionPlan/Examples.antt =====
-- src/claims/claimActionPlan.ts on two claims.
use online_seller_control_hu.Common.{
  ◌≡◌, ◌↔◌, refl, none, some, [], ◌∷◌, List, ok, codes, running, map, All,
}
use online_seller_control_hu.Core.Types.{naver, coupang, Market-discrete, market_eq}
use online_seller_control_hu.Claims.ActionPlan.{
  ClaimActionRequest, ClaimActionPlanItem, return, exchange, requested, processing, reject,
  ship_replacement, is_action, allowed_actions, risk_for, plan_claim_item, plan_claim_actions,
  summarize_claims, summarize_claim_action_plan, claim_action_requests_schema,
}
use online_seller_control_hu.Claims.ActionPlan.Items.{IsItem, requests_of}
use online_seller_control_hu.Claims.ActionPlan.Lawful.{
  IsClaimPlan, IsTally, plan_claim_actions_iff, summarize_claim_action_plan_total,
}

program : Unit {0}
unfolding running Market-discrete is_action allowed_actions risk_for plan_claim_actions
    summarize_claims summarize_claim_action_plan
program = tt

abbrev input : List ClaimActionRequest
input =
    record {
      market = naver;
      external_claim_id = codes " C-1";
      order_line_id = codes "L-1";
      type = return;
      status = requested;
      action = reject;
      note = some (codes "used");
    }
    ∷ record {
      market = coupang;
      external_claim_id = codes "C-1";
      order_line_id = codes "L-2";
      type = exchange;
      status = processing;
      action = ship_replacement;
      note = none;
    }
    ∷ []

abbrev items : List ClaimActionPlanItem
items = map plan_claim_item (map claim_action_requests_schema.normalize input)

planned : plan_claim_actions input ≡ ok items
unfolding program
planned = refl

plan_claim_actions_iff_example : (plan_claim_actions input ≡ ok items) ↔ (
    (requests_of items ≡ map claim_action_requests_schema.normalize input)
    × All IsItem items
    × IsClaimPlan (map claim_action_requests_schema.normalize input))
plan_claim_actions_iff_example = plan_claim_actions_iff input items

summarized : summarize_claim_action_plan input ≡ ok (summarize_claims items)
unfolding program
summarized = refl

summarize_claim_action_plan_total_example :
    (planned_items : List ClaimActionPlanItem) × (plan_claim_actions input ≡ ok planned_items)
    × IsTally input planned_items (summarize_claims items)
summarize_claim_action_plan_total_example =
    summarize_claim_action_plan_total input (summarize_claims items) summarized
