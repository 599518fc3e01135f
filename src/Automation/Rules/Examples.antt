-- ===== src/Automation/Rules/Examples.antt =====
-- src/automation on three signals and two rules.
use online_seller_control_hu.Common.{
  ℕ, ◌≡◌, refl, none, some, true, false, Bool, [], ◌∷◌, ok, throw, codes, running, List, Text,
  text_eq, parse, All, IsUnique, Option, custom,
}
use online_seller_control_hu.Core.Types.{Market, naver, coupang, Market-discrete}
use online_seller_control_hu.Automation.Alerts.{
  AlertKind-discrete, AlertSeverity-discrete, OperationsSignal, stock_risk, parse_signals,
  severity_for, alert_of, plan_operations_alerts, summarize_operations_alerts, warning, critical,
}
use online_seller_control_hu.Automation.Digest.{
  DigestInput, digest_severity, build_alert_digest, summarize_alert_digest, auth, claim_sla,
}
use online_seller_control_hu.Automation.Rules.{
  AutomationRule, AutomationProposal, automation_rules_schema, proposal_of, propose_first,
  proposals_from, both_parsed, plan_automation_actions, summarize_automation_plan, notify_telegram,
  set_stock_zero, low, high,
}
use online_seller_control_hu.Automation.Rules.Grounded.{
  IsGrounded, plan_automation_actions-IsGrounded,
}

program : Unit {0}
unfolding running Market-discrete AlertKind-discrete AlertSeverity-discrete parse_signals
    severity_for alert_of plan_operations_alerts summarize_operations_alerts digest_severity
    build_alert_digest summarize_alert_digest proposal_of propose_first proposals_from both_parsed
    plan_automation_actions summarize_automation_plan
program = tt

abbrev signal : Option Market → ℕ → ℕ → OperationsSignal
signal m count at = record {
  kind = stock_risk;
  market = m;
  count = count;
  threshold = 2;
  label = codes "low";
  detected_at = record { text = codes "t"; at = at };
}

abbrev three_signals : List OperationsSignal
three_signals =
    signal (some naver) 3 10 ∷ signal (some naver) 4 20 ∷ signal (some coupang) 9 30 ∷ []

abbrev sell_out : AutomationRule
sell_out = record {
  id = codes "r1";
  kind = stock_risk;
  market = some naver;
  min_count = 1;
  action = set_stock_zero;
  enabled = true;
  cooldown_minutes = 60;
}

abbrev tell : AutomationRule
tell = record sell_out { id = codes "r2"; market = none; action = notify_telegram }

abbrev any_order : Text → Text → Bool
any_order a b = true

abbrev proposal : Text → Option Market → ℕ → ℕ → AutomationProposal
proposal id m count at = record {
  proposal_id = id;
  rule_id = codes "r1";
  kind = stock_risk;
  market = m;
  action = set_stock_zero;
  count = count;
  threshold = 2;
  detected_at = record { text = codes "t"; at = at };
  cooldown_minutes = 60;
  requires_confirmation = true;
  risk = high;
}

abbrev both_proposals : List AutomationProposal
both_proposals =
    record (proposal (codes "r2:t") (some coupang) 9 30) {
      rule_id = codes "r2";
      action = notify_telegram;
      requires_confirmation = false;
      risk = low;
    }
    ∷ proposal (codes "r1:t") (some naver) 4 20
    ∷ []

proposed :
    plan_automation_actions any_order (sell_out ∷ tell ∷ []) three_signals ≡ ok both_proposals
unfolding program
proposed = refl

rule_without_market :
    plan_automation_actions any_order (record sell_out { market = none } ∷ []) three_signals
    ≡ throw (custom 0 "marketplace mutation rules require an explicit market" ∷ [])
unfolding program
rule_without_market = refl

two_alerts :
    plan_operations_alerts (signal none 3 10 ∷ signal none 1 15 ∷ signal none 4 5 ∷ [])
    ≡ ok (alert_of (signal none 4 5) ∷ alert_of (signal none 3 10) ∷ [])
unfolding program
two_alerts = refl

severities :
    (severity_for (signal none 4 5) ≡ critical) × (severity_for (signal none 3 5) ≡ warning)
unfolding program
severities = (refl, refl)

abbrev digest_input : DigestInput
digest_input = record { market = none; type = claim_sla; message = codes "late"; count = 2 }

digested :
    summarize_alert_digest (digest_input ∷ record digest_input { type = auth; count = 5 } ∷ [])
    ≡ ok (record { total = 7; critical = 5; warning = 2 })
unfolding program
digested = refl

plan_automation_actions-IsGrounded_example :
    (rows : List AutomationRule) × (seen : List OperationsSignal) × (parse automation_rules_schema 0
        200
        (sell_out ∷ tell ∷ [])
      ≡ ok rows)
    × (parse_signals three_signals ≡ ok seen)
    × All (IsGrounded rows seen) both_proposals
    × IsUnique (λ p. p.rule_id) both_proposals
plan_automation_actions-IsGrounded_example =
    plan_automation_actions-IsGrounded any_order (sell_out ∷ tell ∷ []) three_signals both_proposals
      proposed
