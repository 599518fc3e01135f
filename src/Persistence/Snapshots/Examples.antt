-- ===== src/Persistence/Snapshots/Examples.antt =====
-- src/persistence/orderSnapshotStore.ts on the orders of two tenants.
use online_seller_control_hu.Common.{
  ℕ, ◌≡◌, refl, true, none, some, All, List, [], ◌∷◌, map, Text, text_eq, leb, sum_by, ok, throw,
  codes, running, arith, trim,
}
use online_seller_control_hu.Common.Sorting.{IsOrder}
use online_seller_control_hu.Core.Types.{naver, coupang, Market-discrete}
use online_seller_control_hu.Persistence.Files.{
  missing, Store, back_up, persist_rows, run_mutation, enqueue_mutation, refused,
}
use online_seller_control_hu.Persistence.Snapshots.{
  Runtime, OrderSnapshotInput, OrderSnapshotRow, OrderSnapshotMergeResult, upsert, upsert_all,
  count, kept, prune_per_tenant, merge_rows, merge, list_orders, invalid_order,
}
use online_seller_control_hu.Persistence.Snapshots.Limits.{IsPruned}
use online_seller_control_hu.Persistence.Snapshots.Kept.{IsMerged}
use online_seller_control_hu.Persistence.Snapshots.Calls.{
  MergeCall, IsClear, serve_merge, run_merges, merge-IsMerged,
}

program : Unit {0}
unfolding running Market-discrete back_up persist_rows run_mutation enqueue_mutation upsert
    upsert_all count kept prune_per_tenant merge_rows merge list_orders run_merges
program = tt

-- Texts that are compared by the sums of their units.
abbrev js : Runtime ℕ
js = record {
  is_finite = λ n. true;
  locale_le = λ a b. leb (sum_by (λ c. c) a) (sum_by (λ c. c) b);
}

js-IsOrder : IsOrder js.locale_le
js-IsOrder = record {
  total = λ a b h. ground (arith, h);
  trans = λ a b c h k. ground (arith, h, k);
}

abbrev order : Text → Text → OrderSnapshotInput ℕ
order line at = record {
  market = naver;
  order_id = codes "o1";
  order_line_id = line;
  shipment_id = none;
  listing_id = none;
  control_id = none;
  product_name = codes "lamp";
  option_name = none;
  quantity = some 1;
  price = none;
  status = codes "paid";
  ordered_at = some at;
  seller_sku = none;
}

abbrev call : Text → Text → List (OrderSnapshotInput ℕ) → MergeCall ℕ
call now tenant items = record {
  writes = record { backup = true; primary = true };
  now = now;
  tenant_id = tenant;
  items = items;
}

abbrev empty_store : Store (List (OrderSnapshotRow ℕ))
empty_store = record { rows = []; disk = record { primary = missing; backup = missing } }

empty-IsPruned : IsPruned {N = ℕ} []
empty-IsPruned = record { unique = tt; clean = tt; at_most = λ t. omega arith }

abbrev earlier : List (MergeCall ℕ)
earlier =
    call (codes "1") (codes " t1 ") (order (codes "a") (codes "5") ∷ [])
    ∷ call (codes "2") (codes "t2") (order (codes "a") (codes "6") ∷ [])
    ∷ call (codes "2") (codes "  ") (order (codes "a") (codes "6") ∷ [])
    ∷ []

-- A line that was seen, and a new one that is later.
abbrev last_call : MergeCall ℕ
last_call =
    call (codes "3") (codes "t1")
      (order (codes "a") (codes "7") ∷ order (codes "b") (codes "8") ∷ [])

abbrev answer : OrderSnapshotMergeResult
answer = record { inserted = 1; updated = 1; total = 2 }

answered : (serve_merge js last_call (run_merges js earlier empty_store)).0 ≡ ok answer
unfolding program
answered = refl

abbrev after : List (OrderSnapshotRow ℕ)
after = (serve_merge js last_call (run_merges js earlier empty_store)).1.rows

-- The later line comes first; the other keeps when it was seen first.
listed :
    map {B = Text × (Text × Text)}
      (λ r. (r.order.order_line_id, (r.first_seen_at, r.last_seen_at)))
      (list_orders js (codes "t1") (some naver) none after)
    ≡ (codes "b", (codes "3", codes "3")) ∷ (codes "a", (codes "1", codes "3")) ∷ []
unfolding program
listed = refl

listed_one :
    map (λ r. r.order.order_line_id) (list_orders js (codes "t1") none (some 0) after)
    ≡ codes "b" ∷ []
unfolding program
listed_one = refl

elsewhere : list_orders js (codes "t1") (some coupang) none after ≡ []
unfolding program
elsewhere = refl

nameless_order :
    (serve_merge js (call (codes "3") (codes "t1") (order [] (codes "7") ∷ [])) empty_store).0
    ≡ throw (refused invalid_order)
unfolding program
nameless_order = refl

earlier-IsClear : All IsClear earlier
unfolding program
earlier-IsClear = omega arith

last_call-IsClear : IsClear last_call
unfolding program
last_call-IsClear = omega arith

merge-IsMerged_example :
    IsPruned after
    × IsMerged js
        (trim (codes "t1"))
        (codes "3")
        last_call.items
        (run_merges js earlier empty_store).rows
        answer
        after
merge-IsMerged_example =
    merge-IsMerged js js-IsOrder earlier empty_store last_call answer earlier-IsClear
      last_call-IsClear empty-IsPruned answered
