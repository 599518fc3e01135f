-- ===== src/Operations/Retries/Examples.antt =====
-- src/operations/retryQueue.ts on a queue of two failures: a read that is due, and a write whose
-- outcome is unknown. Their identifiers contain colons.
use mathlib.Core.List.{Perm}
use online_seller_control_hu.Common.{
  ℕ, ◌≡◌, refl, none, some, true, false, [], ◌∷◌, List, ok, codes, running, All, map, text_eq,
  Stamp,
}
use online_seller_control_hu.Common.Sorting.{IsSorted}
use online_seller_control_hu.Core.Types.{naver, coupang, Market-discrete}
use online_seller_control_hu.Operations.Retries.{
  OperationRetryEntry, OperationRetryPlanItem, RetryQueueSummary, order_fetch, shipment_write,
  transient, ambiguous_write, is_write, is_manual_failure, disposition_for, plan_item, precedes,
  plan_operation_retries, summarize_items, summarize_operation_retry_queue, retry_queue_schema,
}
use online_seller_control_hu.Operations.Retries.Plan.{
  IsSafe, IsQueue, plan_operation_retries-IsSafe,
}
use online_seller_control_hu.Operations.Retries.Summary.{
  Agrees, summarize_operation_retry_queue_total,
}

program : Unit {0}
unfolding running Market-discrete is_write is_manual_failure disposition_for plan_item precedes
    plan_operation_retries summarize_items summarize_operation_retry_queue
program = tt

abbrev at : ℕ → Stamp
at n = record { text = codes "date"; at = n }

abbrev read : OperationRetryEntry
read = record {
  operation_id = codes "coupang:1";
  market = coupang;
  kind = order_fetch;
  failure_class = transient;
  attempts = 1;
  max_attempts = 3;
  failed_at = at 50;
  next_retry_at = some (at 90);
  message = none;
}

abbrev write : OperationRetryEntry
write = record {
  operation_id = codes "1";
  market = naver;
  kind = shipment_write;
  failure_class = ambiguous_write;
  attempts = 1;
  max_attempts = 3;
  failed_at = at 40;
  next_retry_at = none;
  message = some (codes "timeout");
}

abbrev queue : List OperationRetryEntry
queue = read ∷ write ∷ []

abbrev items : List OperationRetryPlanItem
items = plan_item 100 write ∷ plan_item 100 read ∷ []

planned : plan_operation_retries queue 100 ≡ ok items
unfolding program
planned = refl

read_is_automatic : (plan_item 100 read).automatic_retry_allowed ≡ true
unfolding program
read_is_automatic = refl

write_is_not : (plan_item 100 write).automatic_retry_allowed ≡ false
unfolding program
write_is_not = refl

plan_operation_retries-IsSafe_example :
    All (IsSafe 100) items
    × IsSorted precedes items
    × Perm items (map (plan_item 100) (map retry_queue_schema.normalize queue))
    × IsQueue (map retry_queue_schema.normalize queue)
plan_operation_retries-IsSafe_example = plan_operation_retries-IsSafe queue 100 items planned

abbrev summary : RetryQueueSummary
summary = summarize_items items

summarized : summarize_operation_retry_queue queue 100 ≡ ok summary
unfolding program
summarized = refl

summarize_operation_retry_queue_total_example :
    (s : RetryQueueSummary) × (summarize_operation_retry_queue queue 100 ≡ ok s) × Agrees queue s
summarize_operation_retry_queue_total_example =
    let (_, _, _, is_queue) = plan_operation_retries-IsSafe queue 100 items planned in
    summarize_operation_retry_queue_total queue 100 is_queue
