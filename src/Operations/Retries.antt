-- ===== src/Operations/Retries.antt =====
-- src/operations/retryQueue.ts: what to do about each failed marketplace operation.
pub mod Plan
pub mod Summary
mod Examples
use online_seller_control_hu.Common.{
  ℕ, ◌≡◌, Bool, true, false, ◌&&◌, ◌||◌, not, Option, none, some, List, map, ◌==◌, nat_eq, Text,
  text_eq, if◌then◌else◌, leb, ltb, trim, count_if, length, Result, ok, ◌>>=◌, Stamp, Schema, Issue,
  parse, text_between, if_present, fault_if, ◌:+◌, filter,
}
use online_seller_control_hu.Common.Sorting.{sort}
use online_seller_control_hu.Core.Types.{Market, market_key, market_eq}

-- `OPERATION_KINDS`
pub data OperationKind : Type 0 where
  order_fetch settlement_fetch product_write order_status_write shipment_write claim_write :
      OperationKind

-- `FAILURE_CLASSES`
pub data FailureClass : Type 0 where
  rate_limited transient auth validation ambiguous_write policy_blocked : FailureClass

pub data RetryDisposition : Type 0 where
  retry_ready retry_wait manual_review exhausted : RetryDisposition

pub record OperationRetryEntry : Type 0 where
  pub operation_id : Text
  pub market : Market
  pub kind : OperationKind
  pub failure_class : FailureClass
  pub attempts : ℕ
  pub max_attempts : ℕ
  pub failed_at : Stamp
  pub next_retry_at : Option Stamp
  pub message : Option Text

pub record OperationRetryPlanItem : Type 0 where
  pub entry : OperationRetryEntry
  pub disposition : RetryDisposition
  pub requires_confirmation : Bool
  pub automatic_retry_allowed : Bool

abbrev pub trim_option : Option Text → Option Text
trim_option none = none
trim_option (some s) = some (trim s)

-- `retryEntrySchema` and `retryQueueSchema`.
abbrev pub retry_queue_schema : Schema OperationRetryEntry
retry_queue_schema = record {
  normalize = λ e. record e { operation_id = trim e.operation_id; message = trim_option e.message };
  fields = λ e.
      text_between 1 160 e.operation_id
      && leb e.attempts 100
      && (leb 1 e.max_attempts && leb e.max_attempts 20)
      && if_present (text_between 1 500) e.message;
  key = λ e. market_key e.market e.operation_id;
  duplicate = "duplicate marketplace operation failure";
  faults = λ e. fault_if (ltb e.max_attempts e.attempts) "attempts cannot exceed maxAttempts";
}

unfoldable pub is_write : OperationKind → Bool
is_write product_write = true
is_write order_status_write = true
is_write shipment_write = true
is_write claim_write = true
is_write _ = false

unfoldable pub is_manual_failure : FailureClass → Bool
is_manual_failure auth = true
is_manual_failure validation = true
is_manual_failure ambiguous_write = true
is_manual_failure policy_blocked = true
is_manual_failure _ = false

-- `entry.nextRetryAt && Date.parse(entry.nextRetryAt) > nowMs`
abbrev pub is_later : ℕ → Option Stamp → Bool
is_later now none = false
is_later now (some t) = ltb now t.at

unfoldable pub disposition_for : OperationRetryEntry → ℕ → RetryDisposition
disposition_for e now =
    if is_manual_failure e.failure_class
    then manual_review
    else if leb e.max_attempts e.attempts
    then exhausted
    else if is_later now e.next_retry_at
    then retry_wait
    else retry_ready

abbrev pub is_disposition : RetryDisposition → RetryDisposition → Bool
is_disposition retry_ready retry_ready = true
is_disposition retry_wait retry_wait = true
is_disposition manual_review manual_review = true
is_disposition exhausted exhausted = true
is_disposition _ _ = false

unfoldable pub plan_item : ℕ → OperationRetryEntry → OperationRetryPlanItem
plan_item now e =
    let disposition = disposition_for e now in
    let write = is_write e.kind in
    record {
      entry = e;
      disposition = disposition;
      requires_confirmation = write || is_disposition disposition manual_review;
      automatic_retry_allowed = not write && is_disposition disposition retry_ready;
    }

abbrev pub rank : RetryDisposition → ℕ
rank manual_review = 3
rank retry_ready = 2
rank retry_wait = 1
rank exhausted = 0

-- The comparison is not positive: a higher rank, or the same one and no earlier failure.
unfoldable pub precedes : OperationRetryPlanItem → OperationRetryPlanItem → Bool
precedes a b =
    if rank a.disposition == rank b.disposition
    then leb b.entry.failed_at.at a.entry.failed_at.at
    else ltb (rank b.disposition) (rank a.disposition)

unfoldable pub plan_operation_retries :
    List OperationRetryEntry → ℕ → Result (List Issue) (List OperationRetryPlanItem)
plan_operation_retries input now = parse retry_queue_schema 0 5000 input >>= λ entries.
    ok (sort precedes (map (plan_item now) entries))

pub record RetryQueueSummary : Type 0 where
  pub total : ℕ
  pub retry_ready : ℕ
  pub retry_waiting : ℕ
  pub manual_review : ℕ
  pub exhausted : ℕ
  pub automatic_retry_allowed : ℕ
  pub confirmation_required : ℕ
  pub by_market : Market → ℕ

abbrev pub with_disposition : RetryDisposition → List OperationRetryPlanItem → ℕ
with_disposition d items = count_if (λ i. is_disposition i.disposition d) items

-- A market without an item has no entry in the source's object; here it counts zero.
unfoldable pub summarize_items : List OperationRetryPlanItem → RetryQueueSummary
summarize_items items = record {
  total = length items;
  retry_ready = with_disposition RetryDisposition.retry_ready items;
  retry_waiting = with_disposition RetryDisposition.retry_wait items;
  manual_review = with_disposition RetryDisposition.manual_review items;
  exhausted = with_disposition RetryDisposition.exhausted items;
  automatic_retry_allowed = count_if (λ i. i.automatic_retry_allowed) items;
  confirmation_required = count_if (λ i. i.requires_confirmation) items;
  by_market = λ m. count_if (λ i. i.entry.market == m) items;
}

unfoldable pub summarize_operation_retry_queue :
    List OperationRetryEntry → ℕ → Result (List Issue) RetryQueueSummary
summarize_operation_retry_queue input now =
    plan_operation_retries input now >>= λ items. ok (summarize_items items)
