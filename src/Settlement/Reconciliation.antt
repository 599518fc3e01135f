-- ===== src/Settlement/Reconciliation.antt =====
-- src/settlement/settlementReconciliation.ts: what marketplaces paid, against what was expected. The order of
-- `localeCompare` is a parameter, and the issues of the two arrays are reported one array after
-- the other.
pub mod Aggregates
pub mod Keys
pub mod Statuses
pub mod Ids
pub mod Complete
mod Examples
use Prim.Native.Nat.{Ordering}
use online_seller_control_hu.Common.{
  ℕ, ◌+◌, ◌≡◌, Bool, true, false, ◌&&◌, ◌||◌, not, Option, none, some, List, [], ◌∷◌, ◌++◌, map,
  ◌==◌, nat_eq, Text, text_eq, if◌then◌else◌, trim, count_if, length, filter, includes, Result, ok,
  throw, ◌>>=◌, Schema, Issue, parse, custom, text_between, Eq, or_else, arith,
}
use online_seller_control_hu.Common.Dicts.{Dict, get, set, keys}
use online_seller_control_hu.Common.Sorting.{sort}
use online_seller_control_hu.Core.Types.{Market, market_eq, market_key, market_name}
use online_seller_control_hu.Settlement.Amounts.{Amounts, money, text_le}
use online_seller_control_hu.Settlement.Rows.{
  ActualAggregate, ActualSettlement, ExpectedSettlement, ReconciliationInput,
  SettlementReconciliationReport, SettlementReconciliationRow, SettlementReconciliationStatus,
  SettlementReconciliationSummary, Status-discrete, matched, mismatch, missing, status_eq,
  unexpected,
}

module _ {A : Type 0} (m : Amounts A) where
  abbrev pub expected_schema : Schema (ExpectedSettlement A)
  expected_schema = record {
    normalize = λ r. record r { order_id = trim r.order_id };
    fields = λ r.
        text_between 1 200 r.order_id
        && m.is_net_amount r.expected_net_amount
        && m.is_fee r.expected_marketplace_fee;
    key = λ r. market_key r.market r.order_id;
    duplicate = "duplicate expected marketplace order";
    faults = λ r. [];
  }

  abbrev pub actual_schema : Schema (ActualSettlement A)
  actual_schema = record {
    normalize = λ r. record r { settlement_id = trim r.settlement_id; order_id = trim r.order_id };
    fields = λ r.
        text_between 1 200 r.settlement_id
        && text_between 1 200 r.order_id
        && m.is_net_amount r.net_amount
        && m.is_fee r.marketplace_fee;
    key = λ r. market_key r.market r.settlement_id;
    duplicate = "duplicate marketplace settlement";
    faults = λ r. [];
  }

  unfoldable pub input_parsed :
      A
      → Result (List Issue) (List (ExpectedSettlement A))
      → Result (List Issue) (List (ActualSettlement A))
      → Result (List Issue) (ReconciliationInput A)
  input_parsed tolerance (ok expected) (ok actual) =
      if m.is_tolerance tolerance
      then ok (record { expected = expected; actual = actual; tolerance = tolerance })
      else throw (custom 0 "tolerance" ∷ [])
  input_parsed tolerance (ok expected) (throw issues) = throw issues
  input_parsed tolerance (throw issues) (ok actual) = throw issues
  input_parsed tolerance (throw issues) (throw more) = throw (issues ++ more)

  -- `reconciliationInputSchema.parse`
  unfoldable pub parse_input : ReconciliationInput A → Result (List Issue) (ReconciliationInput A)
  parse_input input =
      input_parsed input.tolerance (parse expected_schema 0 5000 input.expected)
        (parse actual_schema 0 10000 input.actual)

  abbrev pub no_aggregate : ActualSettlement A → ActualAggregate A
  no_aggregate r = record {
    market = r.market;
    order_id = r.order_id;
    net_amount = m.zero_amount;
    marketplace_fee = m.zero_amount;
    settlement_ids = [];
  }

  abbrev pub with_actual : ActualSettlement A → ActualAggregate A → ActualAggregate A
  with_actual r a = record a {
    net_amount = money m (m.add a.net_amount r.net_amount);
    marketplace_fee = money m (m.add a.marketplace_fee r.marketplace_fee);
    settlement_ids = a.settlement_ids ++ (r.settlement_id ∷ []);
  }

  -- The payouts of each order, by its key.
  unfoldable pub aggregate_from :
      Dict Text (ActualAggregate A) → List (ActualSettlement A) → Dict Text (ActualAggregate A)
  aggregate_from by_order [] = by_order
  aggregate_from by_order (r ∷ rs) =
      let key = market_key r.market r.order_id in
      aggregate_from
        (set key (with_actual r (or_else (get key by_order) (no_aggregate r))) by_order) rs

  unfoldable pub expected_row :
      A → ExpectedSettlement A → Option (ActualAggregate A) → SettlementReconciliationRow A
  expected_row tolerance e none = record {
    market = e.market;
    order_id = e.order_id;
    status = missing;
    expected_net_amount = some e.expected_net_amount;
    actual_net_amount = none;
    net_difference = money m (m.negate e.expected_net_amount);
    expected_marketplace_fee = some e.expected_marketplace_fee;
    actual_marketplace_fee = none;
    fee_difference = money m (m.negate e.expected_marketplace_fee);
    settlement_ids = [];
  }
  expected_row tolerance e (some a) =
      let net = money m (m.sub a.net_amount e.expected_net_amount) in
      let fee = money m (m.sub a.marketplace_fee e.expected_marketplace_fee) in
      record {
        market = e.market;
        order_id = e.order_id;
        status =
            if m.le (m.abs net) tolerance && m.le (m.abs fee) tolerance then matched else mismatch;
        expected_net_amount = some e.expected_net_amount;
        actual_net_amount = some a.net_amount;
        net_difference = net;
        expected_marketplace_fee = some e.expected_marketplace_fee;
        actual_marketplace_fee = some a.marketplace_fee;
        fee_difference = fee;
        settlement_ids = sort text_le a.settlement_ids;
      }

  abbrev pub unexpected_row : ActualAggregate A → SettlementReconciliationRow A
  unexpected_row a = record {
    market = a.market;
    order_id = a.order_id;
    status = unexpected;
    expected_net_amount = none;
    actual_net_amount = some a.net_amount;
    net_difference = a.net_amount;
    expected_marketplace_fee = none;
    actual_marketplace_fee = some a.marketplace_fee;
    fee_difference = a.marketplace_fee;
    settlement_ids = sort text_le a.settlement_ids;
  }

  abbrev pub order_key : ExpectedSettlement A → Text
  order_key e = market_key e.market e.order_id

  unfoldable pub expected_rows :
      A
      → Dict Text (ActualAggregate A)
      → List (ExpectedSettlement A)
      → List (SettlementReconciliationRow A)
  expected_rows tolerance by_order [] = []
  expected_rows tolerance by_order (e ∷ es) =
      expected_row tolerance e (get (order_key e) by_order) ∷ expected_rows tolerance by_order es

  unfoldable pub unexpected_rows :
      List Text → Dict Text (ActualAggregate A) → List (SettlementReconciliationRow A)
  unexpected_rows expected_keys [] = []
  unexpected_rows expected_keys ((key, a) ∷ by_order) =
      let rest = unexpected_rows expected_keys by_order in
      if includes key expected_keys then rest else unexpected_row a ∷ rest

  -- The rows in the order in which the loops push them.
  unfoldable pub pushed_rows : ReconciliationInput A → List (SettlementReconciliationRow A)
  pushed_rows input =
      let by_order = aggregate_from [] input.actual in
      expected_rows input.tolerance by_order input.expected
      ++ unexpected_rows (map order_key input.expected) by_order

  abbrev pub with_status : SettlementReconciliationStatus → List (SettlementReconciliationRow A) → ℕ
  with_status status rows = count_if (λ r. r.status == status) rows

  unfoldable pub sum_of : (A → A → A) → A → List A → A
  sum_of plus total [] = total
  sum_of plus total (x ∷ xs) = sum_of plus (plus total x) xs

  unfoldable pub report_of : List (SettlementReconciliationRow A) → SettlementReconciliationReport A
  report_of rows = record {
    rows = rows;
    summary = record {
      total_orders = length rows;
      matched = with_status matched rows;
      missing = with_status missing rows;
      mismatch = with_status mismatch rows;
      unexpected = with_status unexpected rows;
      absolute_net_difference =
          money m (sum_of m.add m.zero_amount (map (λ r. m.abs r.net_difference) rows));
    };
  }

  module _ (locale_compare : Text → Text → Ordering) where
    abbrev pub not_after : Ordering → Bool
    not_after Ordering.gt = false
    not_after _ = true

    -- By market, and by order among those of one market.
    abbrev pub row_before : SettlementReconciliationRow A → SettlementReconciliationRow A → Bool
    row_before a b = elim (locale_compare (market_name a.market) (market_name b.market)) [
      | Ordering.lt ↦ true
      | Ordering.gt ↦ false
      | Ordering.eq ↦ not_after (locale_compare a.order_id b.order_id)
    ]

    unfoldable pub reconcile_settlements :
        ReconciliationInput A → Result (List Issue) (SettlementReconciliationReport A)
    reconcile_settlements input =
        parse_input input >>= λ parsed. ok (report_of (sort row_before (pushed_rows parsed)))
