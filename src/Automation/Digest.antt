-- ===== src/Automation/Digest.antt =====
-- src/automation/alertDigest.ts: a digest of alerts, the severest first. The rows are typed values in which
-- the default of the count is filled in.
use online_seller_control_hu.Common.{
  ℕ, Bool, false, ◌&&◌, Option, List, [], ◌∷◌, ◌++◌, map, ◌==◌, Text, trim, sum_by, filter, Result,
  ok, throw, ◌>>=◌, Schema, Issue, size_issues, field_issues, text_between, leb, ltb,
}
use online_seller_control_hu.Common.Sorting.{sort}
use online_seller_control_hu.Core.Types.{Market}
use online_seller_control_hu.Automation.Alerts.{
  AlertSeverity, info, warning, critical, alert_severity_eq, rank,
}

pub data DigestType : Type 0 where
  auth sync_failure stock_risk claim_sla settlement_mismatch order_backlog : DigestType

pub record DigestInput : Type 0 where
  pub market : Option Market
  pub type : DigestType
  pub message : Text
  pub count : ℕ

pub record DigestRow : Type 0 where
  pub alert : DigestInput
  pub severity : AlertSeverity
  pub requires_confirmation : Bool

unfoldable pub digest_severity : DigestType → AlertSeverity
digest_severity auth = critical
digest_severity sync_failure = critical
digest_severity stock_risk = warning
digest_severity claim_sla = warning
digest_severity settlement_mismatch = warning
digest_severity order_backlog = info

abbrev pub digest_schema : Schema DigestInput
digest_schema = record {
  normalize = λ a. record a { message = trim a.message };
  fields = λ a. text_between 1 500 a.message && ltb 0 a.count;
  key = λ a. a.message;
  duplicate = "";
  faults = λ a. [];
}

abbrev settle_digest : List Issue → List DigestInput → Result (List Issue) (List DigestInput)
settle_digest [] rows = ok rows
settle_digest (i ∷ is) rows = throw (i ∷ is)

abbrev pub digest_row : DigestInput → DigestRow
digest_row a = record {
  alert = a;
  severity = digest_severity a.type;
  requires_confirmation = false;
}

unfoldable pub build_alert_digest : List DigestInput → Result (List Issue) (List DigestRow)
build_alert_digest input =
    let rows = map digest_schema.normalize input in
    settle_digest (size_issues 0 2000 rows ++ field_issues digest_schema 0 rows) rows >>= λ alerts.
    ok (sort (λ a b. leb (rank b.severity) (rank a.severity)) (map digest_row alerts))

pub record DigestSummary : Type 0 where
  pub total : ℕ
  pub critical : ℕ
  pub warning : ℕ

unfoldable pub summarize_alert_digest : List DigestInput → Result (List Issue) DigestSummary
summarize_alert_digest input = build_alert_digest input >>= λ rows. ok (record {
  total = sum_by (λ r. r.alert.count) rows;
  critical = sum_by (λ r. r.alert.count) (filter (λ r. r.severity == critical) rows);
  warning = sum_by (λ r. r.alert.count) (filter (λ r. r.severity == warning) rows);
})
