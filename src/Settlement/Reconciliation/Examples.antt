-- ===== src/Settlement/Reconciliation/Examples.antt =====
-- src/settlement/settlementReconciliation.ts on three orders, with whole numbers for amounts.
use Prim.Native.Nat.{Ordering}
use online_seller_control_hu.Common.{
  ℕ, ◌+◌, ◌-◌, ◌≡◌, refl, none, some, true, [], ◌∷◌, ok, codes, running, Text, text_eq, length, leb,
}
use online_seller_control_hu.Core.Types.{naver, Market-discrete}
use online_seller_control_hu.Settlement.Amounts.{Amounts, money, text_le}
use online_seller_control_hu.Settlement.Rows.{
  Status-discrete, SettlementReconciliationStatus, matched, missing, unexpected,
  ReconciliationInput, ExpectedSettlement, ActualSettlement, SettlementReconciliationRow,
  SettlementReconciliationReport,
}
use online_seller_control_hu.Settlement.Reconciliation.{
  input_parsed, parse_input, aggregate_from, expected_row, expected_rows, unexpected_rows,
  pushed_rows, sum_of, report_of, reconcile_settlements,
}
use online_seller_control_hu.Settlement.Reconciliation.Complete.{
  IsComplete, reconcile_settlements-IsComplete,
}

program : Unit {0}
unfolding running Market-discrete Status-discrete money text_le input_parsed parse_input
    aggregate_from expected_row expected_rows unexpected_rows pushed_rows sum_of report_of
    reconcile_settlements
program = tt

-- Amounts that are never negative.
abbrev won : Amounts ℕ
won = record {
  zero_amount = 0;
  add = λ a b. a + b;
  sub = λ a b. a - b + (b - a);
  negate = λ a. a;
  abs = λ a. a;
  le = leb;
  epsilon = 0;
  times_100 = λ a. a;
  per_100 = λ a. a;
  round = λ a. a;
  is_net_amount = λ a. true;
  is_fee = λ a. true;
  is_tolerance = λ a. true;
}

abbrev any_order : Text → Text → Ordering
any_order a b = Ordering.eq

abbrev wanted : Text → ℕ → ExpectedSettlement ℕ
wanted id amount = record {
  market = naver;
  order_id = id;
  expected_net_amount = amount;
  expected_marketplace_fee = 0;
}

abbrev paid : Text → Text → ℕ → ActualSettlement ℕ
paid id order amount = record {
  market = naver;
  settlement_id = id;
  order_id = order;
  net_amount = amount;
  marketplace_fee = 0;
}

abbrev input : ReconciliationInput ℕ
input = record {
  expected = wanted (codes "o1") 10 ∷ wanted (codes "o2") 20 ∷ [];
  actual =
      paid (codes "s2") (codes "o1") 6
      ∷ paid (codes "s1") (codes "o1") 4
      ∷ paid (codes "s3") (codes "o3") 5
      ∷ [];
  tolerance = 1;
}

abbrev row : Text → SettlementReconciliationStatus → SettlementReconciliationRow ℕ
row id status = record {
  market = naver;
  order_id = id;
  status = status;
  expected_net_amount = none;
  actual_net_amount = none;
  net_difference = 0;
  expected_marketplace_fee = none;
  actual_marketplace_fee = none;
  fee_difference = 0;
  settlement_ids = [];
}

abbrev report : SettlementReconciliationReport ℕ
report = record {
  rows =
      record (row (codes "o1") matched) {
        expected_net_amount = some 10;
        actual_net_amount = some 10;
        expected_marketplace_fee = some 0;
        actual_marketplace_fee = some 0;
        settlement_ids = codes "s1" ∷ codes "s2" ∷ [];
      }
      ∷ record (row (codes "o2") missing) {
        expected_net_amount = some 20;
        net_difference = 20;
        expected_marketplace_fee = some 0;
      }
      ∷ record (row (codes "o3") unexpected) {
        actual_net_amount = some 5;
        net_difference = 5;
        actual_marketplace_fee = some 0;
        settlement_ids = codes "s3" ∷ [];
      }
      ∷ [];
  summary = record {
    total_orders = 3;
    matched = 1;
    missing = 1;
    mismatch = 0;
    unexpected = 1;
    absolute_net_difference = 25;
  };
}

reconciled : reconcile_settlements won any_order input ≡ ok report
unfolding program
reconciled = refl

reconcile_settlements-IsComplete_example :
    (parsed : ReconciliationInput ℕ) × (parse_input won input ≡ ok parsed)
    × IsComplete won parsed report.rows
    × (report.summary.matched + report.summary.missing + report.summary.mismatch
          + report.summary.unexpected
        ≡ report.summary.total_orders)
    × (report.summary.total_orders ≡ length report.rows)
reconcile_settlements-IsComplete_example =
    reconcile_settlements-IsComplete won any_order input report reconciled
