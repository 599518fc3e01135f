-- ===== src/Operations/Retries/Plan.antt =====
-- src/operations/retryQueue.ts: which retries the plan allows, and in which order it puts them.
use mathlib.Core.List.{Perm}
use online_seller_control_hu.Common.{
  ℕ, ◌≡◌, ◌≤◌, ◌<◌, ◌↔◌, ◌⊎◌, refl, subst, true, false, List, [], ◌∷◌, map, Text, text_eq, arith,
  All, length, length-map, ap, IsUnique-finer, pair_eq, ok, returned-first, ok_injective, parse,
  parse_iff, Accepts, IsUnique,
}
use online_seller_control_hu.Common.Sorting.{
  sort, length-sort, sort-perm, sort-IsSorted, IsSorted, IsOrder, All-sort,
}
use online_seller_control_hu.Core.Types.{Market, market_eq, market_key_injective}
use online_seller_control_hu.Operations.Retries.{
  FailureClass, ambiguous_write, rate_limited, transient, manual_review, OperationRetryEntry,
  OperationRetryPlanItem, retry_queue_schema, is_write, is_manual_failure, is_later,
  disposition_for, plan_item, precedes, plan_operation_retries,
}

-- An entry that may be tried again now, told from its fields.
abbrev pub IsReadReady : ℕ → OperationRetryEntry → Type 0
IsReadReady now e =
    (is_write e.kind ≡ false)
    × ((e.failure_class ≡ rate_limited) ⊎ (e.failure_class ≡ transient))
    × (e.attempts < e.max_attempts)
    × (is_later now e.next_retry_at ≡ false)

-- What the plan promises of one item.
pub record IsSafe (now : ℕ) (i : OperationRetryPlanItem) : Type 0 where
  -- A retry runs by itself exactly for a read that failed for a passing reason, has attempts left
  -- and is due.
  pub automatic : (i.automatic_retry_allowed ≡ true) ↔ IsReadReady now i.entry
  pub exclusive : i.automatic_retry_allowed ≡ true → i.requires_confirmation ≡ false
  pub writes : is_write i.entry.kind ≡ true → i.requires_confirmation ≡ true
  pub ambiguous :
      i.entry.failure_class ≡ ambiguous_write
      → (i.disposition ≡ manual_review) × (i.requires_confirmation ≡ true)

manual_cases :
    (c : FailureClass) → (is_manual_failure c ≡ false) ↔ ((c ≡ rate_limited) ⊎ (c ≡ transient))
unfolding is_manual_failure
manual_cases c = ground arith

ambiguous_manual : (c : FailureClass) → c ≡ ambiguous_write → is_manual_failure c ≡ true
unfolding is_manual_failure
ambiguous_manual c h = rw h

plan_item-IsSafe : (now : ℕ) (e : OperationRetryEntry) → IsSafe now (plan_item now e)
unfolding plan_item disposition_for
plan_item-IsSafe now e = record {
  automatic = (
    λ h. ground (arith, manual_cases e.failure_class),
    λ h. ground (arith, manual_cases e.failure_class),
  );
  exclusive = λ h. ground arith;
  writes = λ h. ground arith;
  ambiguous = λ h.
      let manual : is_manual_failure e.failure_class ≡ true = ambiguous_manual e.failure_class h in
      (ground arith, ground arith);
}

items-IsSafe : (now : ℕ) (es : List OperationRetryEntry) → All (IsSafe now) (map (plan_item now) es)
items-IsSafe now [] = tt
items-IsSafe now (e ∷ es) = (plan_item-IsSafe now e, items-IsSafe now es)

precedes-IsOrder : IsOrder precedes
unfolding precedes
precedes-IsOrder = record { total = λ a b h. ground arith; trans = λ a b c h k. ground arith }

abbrev pub operation_of : OperationRetryEntry → Market × Text
operation_of e = (e.market, e.operation_id)

-- The rows that `retryQueueSchema` accepts, told by the marketplace and the operation.
pub record IsQueue (entries : List OperationRetryEntry) : Type 0 where
  pub at_most : length entries ≤ 5000
  pub fields : All (λ e. retry_queue_schema.fields e ≡ true) entries
  pub unique : IsUnique operation_of entries
  pub attempts : All (λ e. e.attempts ≤ e.max_attempts) entries

attempts-le :
    (es : List OperationRetryEntry)
    → All (λ e. retry_queue_schema.faults e ≡ []) es
    → All (λ e. e.attempts ≤ e.max_attempts) es
attempts-le [] h = tt
attempts-le (e ∷ es) h = (ground arith, attempts-le es h.1)

accepted-IsQueue :
    (es : List OperationRetryEntry) → Accepts retry_queue_schema 0 5000 es → IsQueue es
accepted-IsQueue es a = record {
  at_most = a.at_most;
  fields = a.fields;
  unique = IsUnique-finer retry_queue_schema.key operation_of (λ x y h. cc) es a.unique;
  attempts = attempts-le es a.faults;
}

-- A plan of retries has one item for each of the trimmed entries, of which no two are about the
-- same operation of a market, in the order of the disposition's rank and then of the failure's
-- time. An item allows an automatic retry exactly for a read that failed for a passing reason, is
-- due and has attempts left; a write always needs a confirmation; and an ambiguous write is left
-- to manual review, with a confirmation.
pub plan_operation_retries-IsSafe :
    (input : List OperationRetryEntry) (now : ℕ) (items : List OperationRetryPlanItem)
    → plan_operation_retries input now ≡ ok items
    → All (IsSafe now) items
      × IsSorted precedes items
      × Perm items (map (plan_item now) (map retry_queue_schema.normalize input))
      × IsQueue (map retry_queue_schema.normalize input)
unfolding plan_operation_retries
plan_operation_retries-IsSafe input now items h =
    let (entries, e, parsed) = returned-first _ (parse retry_queue_schema 0 5000 input) h in
    let (normal, a) = (parse_iff retry_queue_schema 0 5000 input entries).0 parsed in
    let planned = map (plan_item now) entries in
    let result : sort precedes planned ≡ items = ok_injective e in
    (
      subst (All (IsSafe now)) result
          (All-sort (IsSafe now) precedes planned (items-IsSafe now entries)),
      subst (IsSorted precedes) result (sort-IsSorted precedes-IsOrder planned),
      rw (← normal) (subst (λ is. Perm is planned) result (sort-perm precedes planned)),
      rw (← normal) (accepted-IsQueue entries a),
    )

pub length-plan_operation_retries :
    (input : List OperationRetryEntry) (now : ℕ) (items : List OperationRetryPlanItem)
    → plan_operation_retries input now ≡ ok items
    → length items ≡ length input
unfolding plan_operation_retries
length-plan_operation_retries input now items h =
    let (entries, e, parsed) = returned-first _ (parse retry_queue_schema 0 5000 input) h in
    let (normal, _) = (parse_iff retry_queue_schema 0 5000 input entries).0 parsed in
    let planned = map (plan_item now) entries in
    let result : sort precedes planned ≡ items = ok_injective e in
    omega (
      arith,
      ap length result,
      length-sort precedes planned,
      length-map entries (plan_item now),
      ap length normal,
      length-map input retry_queue_schema.normalize,
    )

no_fault :
    (es : List OperationRetryEntry)
    → All (λ e. e.attempts ≤ e.max_attempts) es
    → All (λ e. retry_queue_schema.faults e ≡ []) es
no_fault [] h = tt
no_fault (e ∷ es) h = (ground (arith, h.0), no_fault es h.1)

-- A plan is made for every queue whose trimmed entries have valid fields, no more attempts than
-- allowed, and no two of them the same operation of a market: identifiers that contain a colon are
-- not confused with one another.
pub plan_operation_retries_total :
    (input : List OperationRetryEntry) (now : ℕ)
    → IsQueue (map retry_queue_schema.normalize input)
    → (items : List OperationRetryPlanItem) × (plan_operation_retries input now ≡ ok items)
unfolding plan_operation_retries
plan_operation_retries_total input now q =
    let entries = map retry_queue_schema.normalize input in
    let accepted : Accepts retry_queue_schema 0 5000 entries = record {
      at_least = omega arith;
      at_most = q.at_most;
      fields = q.fields;
      unique =
          IsUnique-finer operation_of retry_queue_schema.key
            (λ x y h. let (m, i) = market_key_injective _ _ _ _ h in cc) entries q.unique;
      faults = no_fault entries q.attempts;
    } in
    (
      sort precedes (map (plan_item now) entries),
      rw ((parse_iff retry_queue_schema 0 5000 input entries).1 (refl, accepted)) refl,
    )
