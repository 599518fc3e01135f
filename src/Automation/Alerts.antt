-- ===== src/Automation/Alerts.antt =====
-- src/automation/operationsAlert.ts: alerts on signals, the severest first. The rows are typed values.
use online_seller_control_hu.Common.{
  ℕ, ◌*◌, Bool, ◌&&◌, ◌||◌, Option, none, some, List, [], ◌∷◌, ◌++◌, map, ◌==◌, nat_eq, Text,
  text_eq, codes, if◌then◌else◌, trim, count_if, length, filter, Result, ok, throw, ◌>>=◌, Schema,
  Issue, size_issues, field_issues, text_between, leb, ltb, Eq, ◌:+◌, Stamp,
}
use online_seller_control_hu.Common.Sorting.{sort}
use online_seller_control_hu.Core.Types.{Market, market_eq, market_name}

pub data AlertKind : Type 0 where
  order_backlog unmapped_sku stock_risk claim_backlog settlement_gap : AlertKind

unfoldable pub AlertKind-discrete : Discrete AlertKind
AlertKind-discrete = hlevel

instance abbrev pub alert_kind_eq : Eq AlertKind
alert_kind_eq = record { dec_eq = AlertKind-discrete }

abbrev pub kind_name : AlertKind → Text
kind_name order_backlog = codes "order_backlog"
kind_name unmapped_sku = codes "unmapped_sku"
kind_name stock_risk = codes "stock_risk"
kind_name claim_backlog = codes "claim_backlog"
kind_name settlement_gap = codes "settlement_gap"

pub data AlertSeverity : Type 0 where
  info warning critical : AlertSeverity

unfoldable pub AlertSeverity-discrete : Discrete AlertSeverity
AlertSeverity-discrete = hlevel

instance abbrev pub alert_severity_eq : Eq AlertSeverity
alert_severity_eq = record { dec_eq = AlertSeverity-discrete }

pub record OperationsSignal : Type 0 where
  pub kind : AlertKind
  pub market : Option Market
  pub count : ℕ
  pub threshold : ℕ
  pub label : Text
  pub detected_at : Stamp

pub record OperationsAlert : Type 0 where
  pub signal : OperationsSignal
  pub id : Text
  pub severity : AlertSeverity
  pub requires_confirmation : Bool

-- The fields of `operationsSignalSchema`. The array has no key; this one is not used.
abbrev pub operations_signal_schema : Schema OperationsSignal
operations_signal_schema = record {
  normalize = λ s. record s { label = trim s.label };
  fields = λ s. leb s.count 1000000 && leb s.threshold 1000000 && text_between 1 200 s.label;
  key = λ s. s.label;
  duplicate = "";
  faults = λ s. [];
}

abbrev pub settle_signals :
    List Issue → List OperationsSignal → Result (List Issue) (List OperationsSignal)
settle_signals [] rows = ok rows
settle_signals (i ∷ is) rows = throw (i ∷ is)

-- `operationsSignalsSchema.parse`
unfoldable pub parse_signals : List OperationsSignal → Result (List Issue) (List OperationsSignal)
parse_signals input =
    let rows = map operations_signal_schema.normalize input in
    settle_signals (size_issues 0 5000 rows ++ field_issues operations_signal_schema 0 rows) rows

-- The quotient of two such numbers is at least 2 (or 1) just if the first is at least twice (once)
-- the second.
unfoldable pub severity_for : OperationsSignal → AlertSeverity
severity_for s =
    if s.threshold == 0
    then (if ltb 0 s.count then critical else info)
    else if leb (2 * s.threshold) s.count
    then critical
    else if leb s.threshold s.count
    then warning
    else info

abbrev pub is_alarming : OperationsSignal → Bool
is_alarming s = leb s.threshold s.count && ltb 0 s.count

abbrev pub market_or_all : Option Market → Text
market_or_all none = codes "all"
market_or_all (some m) = market_name m

unfoldable pub alert_of : OperationsSignal → OperationsAlert
alert_of s = record {
  signal = s;
  id = kind_name s.kind :+ (market_or_all s.market :+ s.detected_at.text);
  severity = severity_for s;
  requires_confirmation = s.kind == stock_risk || s.kind == claim_backlog;
}

abbrev pub rank : AlertSeverity → ℕ
rank critical = 2
rank warning = 1
rank info = 0

-- The severest first, and the latest first among those.
abbrev pub alert_before : OperationsAlert → OperationsAlert → Bool
alert_before a b =
    ltb (rank b.severity) (rank a.severity)
    || (rank b.severity == rank a.severity && leb b.signal.detected_at.at a.signal.detected_at.at)

unfoldable pub plan_operations_alerts :
    List OperationsSignal → Result (List Issue) (List OperationsAlert)
plan_operations_alerts input = parse_signals input >>= λ signals.
    ok (sort alert_before (map alert_of (filter is_alarming signals)))

pub record OperationsAlertSummary : Type 0 where
  pub total : ℕ
  pub critical : ℕ
  pub warning : ℕ
  pub confirmation_required : ℕ
  pub by_kind : AlertKind → ℕ

unfoldable pub summarize_operations_alerts :
    List OperationsSignal → Result (List Issue) OperationsAlertSummary
summarize_operations_alerts input = plan_operations_alerts input >>= λ alerts. ok (record {
  total = length alerts;
  critical = count_if (λ a. a.severity == critical) alerts;
  warning = count_if (λ a. a.severity == warning) alerts;
  confirmation_required = count_if (λ a. a.requires_confirmation) alerts;
  by_kind = λ k. count_if (λ a. a.signal.kind == k) alerts;
})
