-- ===== src/Orders/Shipments/Examples.antt =====
-- src/orders/shipmentBatch.ts and shipmentExecutionPlan.ts on three shipments for two marketplaces.
use online_seller_control_hu.Common.{
  true, Bool, All, ◌≡◌, refl, [], some, none, throw, false, ◌∷◌, ◌+◌, ℕ, codes, ok, running, Text,
  List,
}
use online_seller_control_hu.Core.Types.{naver, coupang, Market, Market-discrete}
use online_seller_control_hu.Orders.Shipments.{
  RetryKey, ShipmentInput, ShipmentApiBatch, Hashes, refine_from, validate_shipment_batch,
  group_shipment_batch_by_market, slices, number_batches, chunk_groups,
  chunk_shipment_batch_by_market,
}
use online_seller_control_hu.Orders.Shipments.Chunks.{
  chunk_shipment_batch_by_market-IsComplete, of_market, items_of, IsCall,
}
use online_seller_control_hu.Orders.Shipments.Pending.{
  retry_key_eq, retry_key_discrete, after_key, resume_shipment_api_batches, collect_completed,
  pending_batches_for, Remains, pending_batches_for-Remains, repeated_completed_key,
}
use online_seller_control_hu.Orders.Shipments.Confirmed.{
  ExecutionRequest, ShipmentExecutionPlan, summarize_markets, total_items, confirmation_key_for,
  preview_of, build_shipment_execution_preview, plan_pending, build_shipment_execution_plan,
  build_shipment_execution_plan-previewed, not_confirmed, other_plan_confirmed,
}

program : Unit {0}
unfolding running Market-discrete refine_from validate_shipment_batch group_shipment_batch_by_market
    slices number_batches chunk_groups chunk_shipment_batch_by_market after_key
    resume_shipment_api_batches collect_completed pending_batches_for retry_key_discrete
    summarize_markets total_items confirmation_key_for preview_of build_shipment_execution_preview
    plan_pending build_shipment_execution_plan
program = tt

abbrev shipment : Market → Text → Text → ShipmentInput
shipment m line number = record {
  market = m;
  order_line_id = line;
  carrier_code = codes "CJ";
  tracking_number = number;
}

abbrev three_shipments : List ShipmentInput
three_shipments =
    shipment naver (codes "a") (codes "1001")
    ∷ shipment coupang (codes "b") (codes "1002")
    ∷ shipment naver (codes "c") (codes "1003")
    ∷ []

abbrev no_hash : Hashes
no_hash = record { chunk = λ items. [] }

abbrev call : Market → List ShipmentInput → ℕ → ℕ → ShipmentApiBatch
call m items index count = record {
  market = m;
  items = items;
  batch_index = index;
  batch_count = count;
  retry_key = record { market = m; number = index + 1; batch_count = count; fingerprint = [] };
}

abbrev three_calls : List ShipmentApiBatch
three_calls =
    call naver (shipment naver (codes "a") (codes "1001") ∷ []) 0 2
    ∷ call naver (shipment naver (codes "c") (codes "1003") ∷ []) 1 2
    ∷ call coupang (shipment coupang (codes "b") (codes "1002") ∷ []) 0 1
    ∷ []

planned : chunk_shipment_batch_by_market no_hash three_shipments 1 ≡ ok three_calls
unfolding program
planned = refl

chunk_shipment_batch_by_market-IsComplete_example :
    (rows : List ShipmentInput) × (validate_shipment_batch three_shipments ≡ ok rows)
    × (of_market naver (items_of three_calls) ≡ of_market naver rows)
    × All (IsCall 1) three_calls
chunk_shipment_batch_by_market-IsComplete_example =
    chunk_shipment_batch_by_market-IsComplete no_hash three_shipments 1 three_calls naver planned

abbrev first_call : ShipmentApiBatch
first_call = call naver (shipment naver (codes "a") (codes "1001") ∷ []) 0 2

abbrev second_call : ShipmentApiBatch
second_call = call naver (shipment naver (codes "c") (codes "1003") ∷ []) 1 2

abbrev third_call : ShipmentApiBatch
third_call = call coupang (shipment coupang (codes "b") (codes "1002") ∷ []) 0 1

resumed :
    pending_batches_for three_calls (some first_call.retry_key) []
    ≡ ok (second_call ∷ third_call ∷ [])
unfolding program
resumed = refl

out_of_order :
    pending_batches_for three_calls none (third_call.retry_key ∷ first_call.retry_key ∷ [])
    ≡ ok (second_call ∷ [])
unfolding program
out_of_order = refl

named_twice :
    pending_batches_for three_calls none (first_call.retry_key ∷ first_call.retry_key ∷ [])
    ≡ throw repeated_completed_key
unfolding program
named_twice = refl

pending_batches_for-Remains_example :
    Remains three_calls (some first_call.retry_key) [] (second_call ∷ third_call ∷ [])
pending_batches_for-Remains_example =
    pending_batches_for-Remains three_calls (some first_call.retry_key) []
      (second_call ∷ third_call ∷ []) resumed

abbrev plan_hash : List RetryKey → Text
plan_hash keys = codes "h"

abbrev request : Bool → Text → ExecutionRequest
request confirmed key = record {
  shipments = three_shipments;
  confirmed = confirmed;
  confirmed_plan_key = some key;
  max_items_per_call = some 1;
  last_successful_retry_key = some first_call.retry_key;
  completed_retry_keys = [];
}

abbrev confirmed_plan : ShipmentExecutionPlan
confirmed_plan = record {
  preview = record {
    confirmation_key = codes "shipment:h";
    total_items = 3;
    total_api_calls = 3;
    markets =
        (naver, record { items = 2; api_calls = 2 })
        ∷ (coupang, record { items = 1; api_calls = 1 })
        ∷ [];
  };
  pending_api_calls = 2;
  batches = second_call ∷ third_call ∷ [];
}

plan_made :
    build_shipment_execution_plan no_hash plan_hash (request true (codes "shipment:h"))
    ≡ ok confirmed_plan
unfolding program
plan_made = refl

plan_of_other_preview :
    build_shipment_execution_plan no_hash plan_hash (request true (codes "shipment:g"))
    ≡ throw other_plan_confirmed
unfolding program
plan_of_other_preview = refl

plan_unconfirmed :
    build_shipment_execution_plan no_hash plan_hash (request false (codes "shipment:h"))
    ≡ throw not_confirmed
unfolding program
plan_unconfirmed = refl

build_shipment_execution_plan-previewed_example :
    (true ≡ true)
    × (build_shipment_execution_preview no_hash plan_hash three_shipments (some 1)
        ≡ ok confirmed_plan.preview)
    × (some (codes "shipment:h") ≡ some confirmed_plan.preview.confirmation_key)
    × (all : List ShipmentApiBatch) × (chunk_shipment_batch_by_market no_hash three_shipments 1
        ≡ ok all)
    × (pending_batches_for all (some first_call.retry_key) [] ≡ ok confirmed_plan.batches)
build_shipment_execution_plan-previewed_example =
    build_shipment_execution_plan-previewed no_hash plan_hash (request true (codes "shipment:h"))
      confirmed_plan plan_made
