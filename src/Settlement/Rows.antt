-- ===== src/Settlement/Rows.antt =====
-- src/settlement/settlementReconciliation.ts: the settlements that are expected and paid, and the rows of the report.
use online_seller_control_hu.Common.{ℕ, Option, List, nat_eq, Text, text_eq, Eq}
use online_seller_control_hu.Core.Types.{Market, market_eq}

pub data SettlementReconciliationStatus : Type 0 where
  matched missing mismatch unexpected : SettlementReconciliationStatus

unfoldable pub Status-discrete : Discrete SettlementReconciliationStatus
Status-discrete = hlevel

instance abbrev pub status_eq : Eq SettlementReconciliationStatus
status_eq = record { dec_eq = Status-discrete }

pub record ExpectedSettlement (A : Type 0) : Type 0 where
  pub market : Market
  pub order_id : Text
  pub expected_net_amount : A
  pub expected_marketplace_fee : A

pub record ActualSettlement (A : Type 0) : Type 0 where
  pub market : Market
  pub settlement_id : Text
  pub order_id : Text
  pub net_amount : A
  pub marketplace_fee : A

pub record ReconciliationInput (A : Type 0) : Type 0 where
  pub expected : List (ExpectedSettlement A)
  pub actual : List (ActualSettlement A)
  pub tolerance : A

pub record SettlementReconciliationRow (A : Type 0) : Type 0 where
  pub market : Market
  pub order_id : Text
  pub status : SettlementReconciliationStatus
  pub expected_net_amount : Option A
  pub actual_net_amount : Option A
  pub net_difference : A
  pub expected_marketplace_fee : Option A
  pub actual_marketplace_fee : Option A
  pub fee_difference : A
  pub settlement_ids : List Text

pub record SettlementReconciliationSummary (A : Type 0) : Type 0 where
  pub total_orders : ℕ
  pub matched : ℕ
  pub missing : ℕ
  pub mismatch : ℕ
  pub unexpected : ℕ
  pub absolute_net_difference : A

pub record SettlementReconciliationReport (A : Type 0) : Type 0 where
  pub rows : List (SettlementReconciliationRow A)
  pub summary : SettlementReconciliationSummary A

pub record ActualAggregate (A : Type 0) : Type 0 where
  pub market : Market
  pub order_id : Text
  pub net_amount : A
  pub marketplace_fee : A
  pub settlement_ids : List Text
