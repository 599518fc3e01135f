-- ===== src/Automation/Rules.antt =====
-- src/automation/rulePlanner.ts: rules that propose an action on the latest signal that they match. The
-- rows are typed values in which the defaults of the schemas are filled in; the order of
-- `localeCompare` is a parameter.
pub mod Causes
pub mod Grounded
mod Examples
use online_seller_control_hu.Common.{
  ℕ, ◌+◌, ◌*◌, ◌≡◌, Bool, true, false, ◌&&◌, ◌||◌, not, Option, none, some, List, [], ◌∷◌, ◌++◌,
  map, ◌==◌, nat_eq, Text, text_eq, codes, if◌then◌else◌, trim, count_if, length, filter, Result,
  ok, throw, ◌>>=◌, Schema, Issue, parse, fault_if, text_between, leb, ltb, Eq, ◌:+◌, Stamp, max,
  is_some,
}
use online_seller_control_hu.Common.Sorting.{sort}
use online_seller_control_hu.Core.Types.{Market, market_eq}
use online_seller_control_hu.Automation.Alerts.{
  AlertKind, stock_risk, alert_kind_eq, OperationsSignal, parse_signals,
}

pub data AutomationAction : Type 0 where
  notify_telegram request_review pause_listing set_stock_zero : AutomationAction

pub data ProposalRisk : Type 0 where
  low high : ProposalRisk

pub record AutomationRule : Type 0 where
  pub id : Text
  pub kind : AlertKind
  pub market : Option Market
  pub min_count : ℕ
  pub action : AutomationAction
  pub enabled : Bool
  pub cooldown_minutes : ℕ

pub record AutomationProposal : Type 0 where
  pub proposal_id : Text
  pub rule_id : Text
  pub kind : AlertKind
  pub market : Option Market
  pub action : AutomationAction
  pub count : ℕ
  pub threshold : ℕ
  pub detected_at : Stamp
  pub cooldown_minutes : ℕ
  pub requires_confirmation : Bool
  pub risk : ProposalRisk

abbrev pub is_marketplace_mutation : AutomationAction → Bool
is_marketplace_mutation pause_listing = true
is_marketplace_mutation set_stock_zero = true
is_marketplace_mutation notify_telegram = false
is_marketplace_mutation request_review = false

abbrev pub is_notification : AutomationAction → Bool
is_notification notify_telegram = true
is_notification _ = false

-- `automationRuleSchema` and `automationRulesSchema`.
abbrev pub automation_rules_schema : Schema AutomationRule
automation_rules_schema = record {
  normalize = λ r. record r { id = trim r.id };
  fields = λ r. text_between 1 100 r.id && leb r.min_count 1000000 && leb r.cooldown_minutes 10080;
  key = λ r. r.id;
  duplicate = "duplicate automation rule id";
  faults = λ r.
      fault_if (is_marketplace_mutation r.action && not (r.kind == stock_risk))
        "marketplace mutation actions are only allowed for stock-risk rules"
      ++ fault_if (is_marketplace_mutation r.action && not (is_some r.market))
          "marketplace mutation rules require an explicit market";
}

abbrev pub is_rule_market : Option Market → Option Market → Bool
is_rule_market none signal = true
is_rule_market (some m) none = false
is_rule_market (some m) (some k) = k == m

abbrev pub matches : AutomationRule → OperationsSignal → Bool
matches r s =
    s.kind == r.kind
    && is_rule_market r.market s.market
    && (ltb 0 s.count && leb s.threshold s.count && leb r.min_count s.count)

-- The latest first, and the largest first among those.
abbrev pub signal_before : OperationsSignal → OperationsSignal → Bool
signal_before a b =
    ltb b.detected_at.at a.detected_at.at
    || (b.detected_at.at == a.detected_at.at && leb b.count a.count)

abbrev pub or_market : Option Market → Option Market → Option Market
or_market none signal = signal
or_market (some m) signal = some m

unfoldable pub proposal_of : AutomationRule → OperationsSignal → AutomationProposal
proposal_of r s = record {
  proposal_id = r.id :+ s.detected_at.text;
  rule_id = r.id;
  kind = s.kind;
  market = or_market r.market s.market;
  action = r.action;
  count = s.count;
  threshold = max s.threshold r.min_count;
  detected_at = s.detected_at;
  cooldown_minutes = r.cooldown_minutes;
  requires_confirmation = is_marketplace_mutation r.action;
  risk = if is_marketplace_mutation r.action then high else low;
}

unfoldable pub propose_first : AutomationRule → List OperationsSignal → List AutomationProposal
propose_first r [] = []
propose_first r (s ∷ ss) = proposal_of r s ∷ []

unfoldable pub proposals_from :
    List OperationsSignal → List AutomationRule → List AutomationProposal
proposals_from signals [] = []
proposals_from signals (r ∷ rules) =
    (if not r.enabled
      then []
      else propose_first r (sort signal_before (filter (matches r) signals)))
    ++ proposals_from signals rules

-- Both parts of the input are checked, and their issues are reported together.
unfoldable pub both_parsed :
    Result (List Issue) (List AutomationRule)
    → Result (List Issue) (List OperationsSignal)
    → Result (List Issue) (List AutomationRule × List OperationsSignal)
both_parsed (ok rules) (ok signals) = ok (rules, signals)
both_parsed (ok rules) (throw issues) = throw issues
both_parsed (throw issues) (ok signals) = throw issues
both_parsed (throw issues) (throw more) = throw (issues ++ more)

module _ (locale_le : Text → Text → Bool) where
  abbrev pub proposal_before : AutomationProposal → AutomationProposal → Bool
  proposal_before a b =
      ltb b.detected_at.at a.detected_at.at
      || (b.detected_at.at == a.detected_at.at && locale_le a.rule_id b.rule_id)

  unfoldable pub plan_automation_actions :
      List AutomationRule → List OperationsSignal → Result (List Issue) (List AutomationProposal)
  plan_automation_actions rules signals =
      both_parsed (parse automation_rules_schema 0 200 rules) (parse_signals signals) >>= λ parsed.
      ok (sort proposal_before (proposals_from parsed.1 parsed.0))

  pub record AutomationSummary : Type 0 where
    pub total : ℕ
    pub confirmation_required : ℕ
    pub notifications : ℕ
    pub marketplace_mutations : ℕ

  unfoldable pub summarize_automation_plan :
      List AutomationRule → List OperationsSignal → Result (List Issue) AutomationSummary
  summarize_automation_plan rules signals = plan_automation_actions rules signals >>= λ proposals.
      ok (record {
        total = length proposals;
        confirmation_required = count_if (λ p. p.requires_confirmation) proposals;
        notifications = count_if (λ p. is_notification p.action) proposals;
        marketplace_mutations = count_if (λ p. is_marketplace_mutation p.action) proposals;
      })
