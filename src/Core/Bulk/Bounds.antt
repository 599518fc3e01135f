-- ===== src/Core/Bulk/Bounds.antt =====
-- src/core/bulkControlPlan.ts: the commands of a plan are valid, and their number is bounded.
use online_seller_control_hu.Common.{
  ℕ, ◌*◌, ◌≡◌, ◌≤◌, refl, subst, true, false, Option, none, List, [], ◌∷◌, map, Text, text_eq,
  returned-first, ok_injective, if◌then◌else◌, ok, is_empty, arith, All, length, sum_by,
  unique_from, length-unique_from-le, IsUnique, unique_from-IsUnique, parse, parse_iff, length-map,
}
use online_seller_control_hu.Core.Types.{
  Market, market_eq, WriteAction, set_out_of_stock, set_stock, set_price, stop_sales, resume_sales,
  takes_value, value_faults, is_command,
}
use online_seller_control_hu.Core.Bulk.{
  BulkControlItem, BulkControlPlanRow, BulkControlPlan, bulk_schema, plan_row, plan_rows,
  build_bulk_control_plan,
}

-- A row asks for at most six writes, to distinct markets, by a valid command.
pub record IsSound (r : BulkControlPlanRow) : Type 0 where
  pub command : is_command r.command ≡ true
  pub distinct : IsUnique (λ m. m) r.command.markets
  pub counted : r.write_count ≡ length r.command.markets
  pub bounded : r.write_count ≤ 6

not_empty : (ms : List Market) → 1 ≤ length ms → is_empty (unique_from [] ms) ≡ false
unfolding unique_from
not_empty [] h = elim h [ ]
not_empty (m ∷ ms) h = refl

-- Leaving out a value that the action does not take leaves no fault.
faults_kept :
    (a : WriteAction) (v : Option ℕ)
    → value_faults a v ≡ []
    → is_empty (value_faults a (if takes_value a then v else none)) ≡ true
faults_kept set_out_of_stock v h = refl
faults_kept set_stock v h = rw h
faults_kept set_price v h = rw h
faults_kept stop_sales v h = refl
faults_kept resume_sales v h = refl

module _ (lower : Text → Text) where
  plan_row-IsSound :
      (i : BulkControlItem)
      → (bulk_schema lower).fields i ≡ true
      → (bulk_schema lower).faults i ≡ []
      → IsSound (plan_row i)
  unfolding plan_row is_command
  plan_row-IsSound i f h = record {
    command = ground (arith, not_empty i.markets, faults_kept i.action i.value h);
    distinct = unique_from-IsUnique [] i.markets;
    counted = refl;
    bounded = ground (arith, length-unique_from-le [] i.markets);
  }

  rows-IsSound :
      (is : List BulkControlItem)
      → All (λ i. (bulk_schema lower).fields i ≡ true) is
      → All (λ i. (bulk_schema lower).faults i ≡ []) is
      → All IsSound (map plan_row is)
  rows-IsSound [] f h = tt
  rows-IsSound (i ∷ is) f h = (plan_row-IsSound i f.0 h.0, rows-IsSound is f.1 h.1)

total-le :
    (rows : List BulkControlPlanRow)
    → All IsSound rows
    → sum_by (λ r. r.write_count) rows ≤ 6 * length rows
total-le [] h = omega arith
total-le (r ∷ rows) h = omega (arith, total-le rows h.1, h.0.bounded)

pub record IsReviewable (plan : BulkControlPlan) : Type 0 where
  pub sound : All IsSound plan.rows
  pub confirmation : plan.requires_confirmation ≡ true
  pub products : plan.total_products ≡ length plan.rows
  pub at_most_500 : plan.total_products ≤ 500
  pub writes : plan.total_writes ≡ sum_by (λ r. r.write_count) plan.rows
  pub six_each : plan.total_writes ≤ 6 * plan.total_products

-- A bulk plan needs a confirmation; each of its rows carries a command that the command schema
-- accepts, for distinct markets, with one write for each; the totals are those of the rows; and
-- there are at most 500 products, with at most 6 writes for each.
pub build_bulk_control_plan-IsReviewable :
    (lower : Text → Text) (input : List BulkControlItem) (plan : BulkControlPlan)
    → build_bulk_control_plan lower input ≡ ok plan
    → IsReviewable plan
unfolding build_bulk_control_plan plan_rows
build_bulk_control_plan-IsReviewable lower input plan h =
    let (items, e, parsed) = returned-first _ (parse (bulk_schema lower) 1 500 input) h in
    let (_, a) = (parse_iff (bulk_schema lower) 1 500 input items).0 parsed in
    let sound = rows-IsSound lower items a.fields a.faults in
    let count = length-map items plan_row in
    let size = a.at_most in
    let total = total-le (map plan_row items) sound in
    subst IsReviewable (ok_injective e) (record {
      sound = sound;
      confirmation = refl;
      products = refl;
      at_most_500 = omega arith;
      writes = refl;
      six_each = total;
    })
