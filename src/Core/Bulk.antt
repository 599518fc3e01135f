-- ===== src/Core/Bulk.antt =====
-- src/core/bulkControlPlan.ts: the plan of a bulk price, stock or sales request. It executes
-- nothing; each of its commands goes through an approval.
pub mod Bounds
mod Examples
use online_seller_control_hu.Common.{
  ℕ, ◌+◌, ◌≡◌, ◌≤◌, refl, Bool, true, false, ◌&&◌, ◌||◌, not, Option, none, some, List, [], ◌∷◌,
  ◌++◌, map, Eq, ◌==◌, Text, text_eq, codes, if◌then◌else◌, Result, ◌>>=◌, length-unique_from-le,
  ok, throw, filter, every, includes, is_empty, arith, All, length, sum_by, Bool-cases, unique_from,
  ◌↔◌, leb, ltb, IsUnique, Schema, Issue, parse, parse_iff, Accepts, text_between, if_present, trim,
  lower_unit, is_some, suc, nat_eq, ◌:+◌,
}
use online_seller_control_hu.Core.Types.{
  Market, market_eq, markets_all, WriteAction, set_out_of_stock, set_stock, set_price, stop_sales,
  resume_sales, takes_value, value_faults, ParsedCommand, is_command,
}
use mathlib.Core.List.{flat_map}

-- A `BulkControlItem`; its value is null where the request leaves it out.
pub record BulkControlItem : Type 0 where
  pub master_sku : Text
  pub action : WriteAction
  pub markets : List Market
  pub value : Option ℕ

abbrev pub action_name : WriteAction → Text
action_name set_out_of_stock = codes "SET_OUT_OF_STOCK"
action_name set_stock = codes "SET_STOCK"
action_name set_price = codes "SET_PRICE"
action_name stop_sales = codes "STOP_SALES"
action_name resume_sales = codes "RESUME_SALES"

-- `value.toLowerCase()` beyond ASCII is `lower`, which the runtime provides.
module _ (lower : Text → Text) where
  -- `bulkControlItemSchema` and `bulkControlSchema`.
  abbrev pub bulk_schema : Schema BulkControlItem
  bulk_schema = record {
    normalize = λ i. record i { master_sku = trim i.master_sku };
    fields = λ i.
        text_between 1 120 i.master_sku && leb 1 (length i.markets) && leb (length i.markets) 6;
    key = λ i. lower (trim i.master_sku) ++ (b'|' ∷ action_name i.action);
    duplicate = "duplicate SKU/action in bulk request";
    faults = λ i. value_faults i.action i.value;
  }

pub record BulkControlPlanRow : Type 0 where
  pub master_sku : Text
  pub command : ParsedCommand
  pub write_count : ℕ

pub record BulkControlPlan : Type 0 where
  pub rows : List BulkControlPlanRow
  pub total_products : ℕ
  pub total_writes : ℕ
  pub markets : List Market
  pub requires_confirmation : Bool

unfoldable pub plan_row : BulkControlItem → BulkControlPlanRow
plan_row i = record {
  master_sku = i.master_sku;
  command = record {
    action = i.action;
    product_query = i.master_sku;
    markets = unique_from [] i.markets;
    value = if takes_value i.action then i.value else none;
    rationale = some (codes "bulk control plan");
  };
  write_count = length (unique_from [] i.markets);
}

unfoldable pub plan_rows : List BulkControlPlanRow → BulkControlPlan
plan_rows rows = record {
  rows = rows;
  total_products = length rows;
  total_writes = sum_by (λ r. r.write_count) rows;
  markets = unique_from [] (flat_map (λ r. r.command.markets) rows);
  requires_confirmation = true;
}

unfoldable pub build_bulk_control_plan :
    (lower : Text → Text) → List BulkControlItem → Result (List Issue) BulkControlPlan
build_bulk_control_plan lower input =
    parse (bulk_schema lower) 1 500 input >>= λ items. ok (plan_rows (map plan_row items))
