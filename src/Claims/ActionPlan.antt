-- ===== src/Claims/ActionPlan.antt =====
-- src/claims/claimActionPlan.ts: actions on claims, each of which has to be confirmed. The types and
-- states of a claim are those of src/orders/claimInbox.ts.
pub mod Items
pub mod Counts
pub mod Lawful
mod Examples
use online_seller_control_hu.Common.{
  ℕ, ◌-◌, ◌≡◌, Bool, true, false, ◌&&◌, ◌||◌, not, Option, none, some, List, [], ◌∷◌, ◌++◌, map,
  ◌==◌, Text, text_eq, if◌then◌else◌, trim, count_if, length, Result, ok, ◌>>=◌, Schema, Issue,
  parse, text_between, if_present, fault_if, filter, Eq, includes,
}
use online_seller_control_hu.Core.Types.{Market, market_key, market_eq}

pub data ClaimType : Type 0 where
  cancel return exchange : ClaimType

pub data ClaimStatus : Type 0 where
  requested processing completed rejected : ClaimStatus

pub data ClaimAction : Type 0 where
  approve reject request_collection mark_collected ship_replacement complete : ClaimAction

pub data ClaimRisk : Type 0 where
  medium high : ClaimRisk

pub record ClaimActionRequest : Type 0 where
  pub market : Market
  pub external_claim_id : Text
  pub order_line_id : Text
  pub type : ClaimType
  pub status : ClaimStatus
  pub action : ClaimAction
  pub note : Option Text

pub record ClaimActionPlanItem : Type 0 where
  pub request : ClaimActionRequest
  pub requires_confirmation : Bool
  pub risk : ClaimRisk

unfoldable pub is_action : ClaimAction → ClaimAction → Bool
is_action approve approve = true
is_action reject reject = true
is_action request_collection request_collection = true
is_action mark_collected mark_collected = true
is_action ship_replacement ship_replacement = true
is_action complete complete = true
is_action _ _ = false

-- `actions.includes(action)`
abbrev pub has_action : ClaimAction → List ClaimAction → Bool
has_action a [] = false
has_action a (b ∷ bs) = is_action a b || has_action a bs

unfoldable pub allowed_actions : ClaimType → ClaimStatus → List ClaimAction
allowed_actions type completed = []
allowed_actions type rejected = []
allowed_actions cancel requested = approve ∷ reject ∷ []
allowed_actions type requested = approve ∷ reject ∷ request_collection ∷ []
allowed_actions cancel processing = complete ∷ reject ∷ []
allowed_actions return processing = mark_collected ∷ complete ∷ reject ∷ []
allowed_actions exchange processing = mark_collected ∷ ship_replacement ∷ complete ∷ reject ∷ []

unfoldable pub risk_for : ClaimAction → ClaimRisk
risk_for request_collection = medium
risk_for mark_collected = medium
risk_for _ = high

abbrev pub is_absent : Option Text → Bool
is_absent none = true
is_absent (some _) = false

abbrev pub trim_note : Option Text → Option Text
trim_note none = none
trim_note (some s) = some (trim s)

-- `claimActionRequestSchema` and `claimActionRequestsSchema`.
abbrev pub claim_action_requests_schema : Schema ClaimActionRequest
claim_action_requests_schema = record {
  normalize = λ r. record r {
    external_claim_id = trim r.external_claim_id;
    order_line_id = trim r.order_line_id;
    note = trim_note r.note;
  };
  fields = λ r.
      text_between 1 120 r.external_claim_id
      && text_between 1 120 r.order_line_id
      && if_present (text_between 1 500) r.note;
  key = λ r. market_key r.market r.external_claim_id;
  duplicate = "duplicate marketplace claim action";
  faults = λ r.
      fault_if (not (has_action r.action (allowed_actions r.type r.status)))
        "action is not allowed for the current claim type/status"
      ++ fault_if (is_action r.action reject && is_absent r.note)
          "rejection requires a reason note";
}

abbrev pub plan_claim_item : ClaimActionRequest → ClaimActionPlanItem
plan_claim_item r = record { request = r; requires_confirmation = true; risk = risk_for r.action }

unfoldable pub plan_claim_actions :
    List ClaimActionRequest → Result (List Issue) (List ClaimActionPlanItem)
plan_claim_actions input =
    parse claim_action_requests_schema 0 500 input >>= λ items. ok (map plan_claim_item items)

pub record ClaimActionSummary : Type 0 where
  pub total : ℕ
  pub high_risk : ℕ
  pub medium_risk : ℕ
  pub confirmation_required : ℕ
  pub by_market : Market → ℕ

abbrev pub is_high : ClaimRisk → Bool
is_high high = true
is_high medium = false

-- A market without an item has no entry in the source's object; here it counts zero.
unfoldable pub summarize_claims : List ClaimActionPlanItem → ClaimActionSummary
summarize_claims items =
    let high_risk = count_if (λ i. is_high i.risk) items in
    record {
      total = length items;
      high_risk = high_risk;
      medium_risk = length items - high_risk;
      confirmation_required = length items;
      by_market = λ m. count_if (λ i. i.request.market == m) items;
    }

unfoldable pub summarize_claim_action_plan :
    List ClaimActionRequest → Result (List Issue) ClaimActionSummary
summarize_claim_action_plan input =
    plan_claim_actions input >>= λ items. ok (summarize_claims items)
