-- ===== src/Core/Bulk/Examples.antt =====
-- src/core/bulkControlPlan.ts on a request for two products.
use online_seller_control_hu.Common.{
  ◌≡◌, refl, some, List, [], ◌∷◌, codes, ok, running, lower_unit, map,
}
use online_seller_control_hu.Core.Types.{naver, coupang, set_price, stop_sales, Market-discrete}
use online_seller_control_hu.Core.Bulk.{
  BulkControlItem, plan_row, plan_rows, build_bulk_control_plan,
}
use online_seller_control_hu.Core.Bulk.Bounds.{IsReviewable, build_bulk_control_plan-IsReviewable}

program : Unit {0}
unfolding running build_bulk_control_plan plan_rows plan_row Market-discrete
program = tt

abbrev items : List BulkControlItem
items =
    record {
      master_sku = codes " Lamp-1 ";
      action = set_price;
      markets = naver ∷ coupang ∷ naver ∷ [];
      value = some 12000;
    }
    ∷ record {
      master_sku = codes "Lamp-2";
      action = stop_sales;
      markets = naver ∷ [];
      value = some 7;
    }
    ∷ []

abbrev trimmed : List BulkControlItem
trimmed =
    record {
      master_sku = codes "Lamp-1";
      action = set_price;
      markets = naver ∷ coupang ∷ naver ∷ [];
      value = some 12000;
    }
    ∷ record {
      master_sku = codes "Lamp-2";
      action = stop_sales;
      markets = naver ∷ [];
      value = some 7;
    }
    ∷ []

planned : build_bulk_control_plan (map lower_unit) items ≡ ok (plan_rows (map plan_row trimmed))
unfolding program
planned = refl

totals : (plan_rows (map plan_row trimmed)).total_writes ≡ 3
unfolding program
totals = refl

build_bulk_control_plan-IsReviewable_example : IsReviewable (plan_rows (map plan_row trimmed))
build_bulk_control_plan-IsReviewable_example =
    build_bulk_control_plan-IsReviewable (map lower_unit) items (plan_rows (map plan_row trimmed))
      planned
