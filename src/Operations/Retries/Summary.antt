-- ===== src/Operations/Retries/Summary.antt =====
-- src/operations/retryQueue.ts: the counts of the summary.
use online_seller_control_hu.Common.{
  ℕ, ◌+◌, ◌≡◌, refl, List, [], ◌∷◌, arith, length, count_if, ok, returned-first, ok_injective, map,
  subst, All, ◌≤◌,
}
use online_seller_control_hu.Core.Types.{
  naver, coupang, gmarket, lotteon, toss, kakao, market_eq, count_market_total,
}
use online_seller_control_hu.Operations.Retries.Plan.{
  IsSafe, IsQueue, plan_operation_retries-IsSafe, plan_operation_retries_total,
  length-plan_operation_retries,
}
use online_seller_control_hu.Operations.Retries.{
  retry_queue_schema, OperationRetryEntry, OperationRetryPlanItem, RetryQueueSummary, retry_ready,
  retry_wait, manual_review, exhausted, with_disposition, summarize_items,
  summarize_operation_retry_queue, plan_operation_retries,
}

partition :
    (items : List OperationRetryPlanItem)
    → with_disposition retry_ready items
        + with_disposition retry_wait items
        + with_disposition manual_review items
        + with_disposition exhausted items
      ≡ length items
partition [] = refl
partition (i ∷ items) = ground (arith, partition items)

confirmed :
    (now : ℕ) (items : List OperationRetryPlanItem)
    → All (IsSafe now) items
    → count_if (λ i. i.automatic_retry_allowed) items
        + count_if (λ i. i.requires_confirmation) items
      ≤ length items
confirmed now [] h = omega arith
confirmed now (i ∷ items) h = ground (arith, h.0.exclusive, confirmed now items h.1)

abbrev pub Agrees : List OperationRetryEntry → RetryQueueSummary → Type 0
Agrees input s =
    (s.retry_ready + s.retry_waiting + s.manual_review + s.exhausted ≡ s.total)
    × (s.by_market naver
          + s.by_market coupang
          + s.by_market gmarket
          + s.by_market lotteon
          + s.by_market toss
          + s.by_market kakao
        ≡ s.total)
    × (s.automatic_retry_allowed + s.confirmation_required ≤ s.total)
    × (s.total ≡ length input)

summarize_operation_retry_queue-Agrees :
    (input : List OperationRetryEntry) (now : ℕ) (s : RetryQueueSummary)
    → summarize_operation_retry_queue input now ≡ ok s
    → Agrees input s
unfolding summarize_operation_retry_queue summarize_items
summarize_operation_retry_queue-Agrees input now s h =
    let (items, e, planned) = returned-first _ (plan_operation_retries input now) h in
    let (safe, _, _, _) = plan_operation_retries-IsSafe input now items planned in
    subst (Agrees input) (ok_injective e) (
      partition items,
      count_market_total (λ i. i.entry.market) items,
      confirmed now items safe,
      length-plan_operation_retries input now items planned,
    )

-- Every queue whose trimmed entries have valid fields, no more attempts than allowed, and no two of
-- them the same operation of a market, is planned and has a summary: identifiers that contain a
-- colon are not confused with one another. The parts of the summary agree with its total: each
-- operation has one disposition and one market, and no operation is retried automatically and
-- also waits for a confirmation.
pub summarize_operation_retry_queue_total :
    (input : List OperationRetryEntry) (now : ℕ)
    → IsQueue (map retry_queue_schema.normalize input)
    → (s : RetryQueueSummary) × (summarize_operation_retry_queue input now ≡ ok s) × Agrees input s
unfolding summarize_operation_retry_queue
summarize_operation_retry_queue_total input now q =
    let (items, planned) = plan_operation_retries_total input now q in
    let made : summarize_operation_retry_queue input now ≡ ok (summarize_items items) =
      rw planned refl in
    (summarize_items items, made, summarize_operation_retry_queue-Agrees input now _ made)
