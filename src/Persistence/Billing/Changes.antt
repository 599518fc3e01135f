-- ===== src/Persistence/Billing/Changes.antt =====
-- src/persistence/billingStore.ts: what a payment and its cancellation change.
use online_seller_control_hu.Common.{
  ℕ, ◌+◌, ◌*◌, Bool, true, false, ◌&&◌, not, Option, none, some, ◌==◌, nat_eq, Text, text_eq,
  if◌then◌else◌, Result, throw, is_empty, ltb, take,
}
use online_seller_control_hu.Common.Dicts.{Dict, get, set, delete}
use online_seller_control_hu.Persistence.Files.{Mutation}
use online_seller_control_hu.Persistence.Billing.{
  other_payment, amount_differs, entitlement_damaged, order_not_found, order_canceled, BillingData,
  BillingDate, BillingError, BillingOrder, EntitlementRow, OrderStatus, PaymentInput, canceled,
  changed, done, invalid_time, live_until, payment_key_differs, unchanged,
}

-- The entitlement that a payment extends, with its expiry: one that has not expired.
abbrev pub active_row : ℕ → Option EntitlementRow → Option (EntitlementRow × ℕ)
active_row now none = none
active_row now (some item) = elim (live_until now item.pro_until) [
  | some expires ↦ some (item, expires)
  | none ↦ none
]

abbrev pub day_ms : ℕ
day_ms = 86400000

-- The latest instant of a `Date`.
abbrev pub last_instant : ℕ
last_instant = 8640000000000000

abbrev pub base_of : ℕ → Option (EntitlementRow × ℕ) → ℕ
base_of now none = now
base_of now (some (_, expires)) = expires

abbrev pub previous_until : Option (EntitlementRow × ℕ) → Option BillingDate
previous_until none = none
previous_until (some (row, _)) = some row.pro_until

abbrev pub previous_order : Option (EntitlementRow × ℕ) → Option Text
previous_order none = none
previous_order (some (row, _)) = some row.last_order_id

abbrev pub done_order : ℕ → PaymentInput → Option (EntitlementRow × ℕ) → BillingOrder → BillingOrder
done_order now input current order = record order {
  status = done;
  payment_key = some input.payment_key;
  failure_reason = none;
  previous_pro_until = previous_until current;
  previous_order_id = previous_order current;
  updated_at = some now;
}

abbrev pub paid_until : ℕ → Option (EntitlementRow × ℕ) → BillingOrder → ℕ
paid_until now current order = base_of now current + order.pro_days * day_ms

abbrev pub Completed : Type 0
Completed = Result BillingError (Mutation BillingData (BillingOrder × BillingDate))

unfoldable pub complete_new :
    ℕ → PaymentInput → BillingData → BillingOrder → Option (EntitlementRow × ℕ) → Completed
complete_new now input d order current =
    let pro_until = paid_until now current order in
    let order' = done_order now input current order in
    if ltb last_instant pro_until
    then throw invalid_time
    else changed
        (record {
          orders = set input.order_id order' d.orders;
          entitlements =
              set order.tenant_id
                (record {
                  pro_until = some pro_until;
                  last_order_id = order.order_id;
                  updated_at = some now;
                })
                d.entitlements;
        })
        (order', some pro_until)

abbrev pub complete_again : BillingData → BillingOrder → Option EntitlementRow → Completed
complete_again d order none = throw entitlement_damaged
complete_again d order (some existing) = unchanged d (order, existing.pro_until)

abbrev pub is_key : Text → Option Text → Bool
is_key key none = false
is_key key (some k) = k == key

unfoldable pub complete_status :
    ℕ → PaymentInput → BillingData → BillingOrder → OrderStatus → Completed
complete_status now input d order canceled = throw order_canceled
complete_status now input d order done =
    if is_key input.payment_key order.payment_key
    then complete_again d order (get order.tenant_id d.entitlements)
    else throw other_payment
complete_status now input d order _ =
    complete_new now input d order (active_row now (get order.tenant_id d.entitlements))

unfoldable pub complete_found : ℕ → PaymentInput → BillingData → Option BillingOrder → Completed
complete_found now input d none = throw order_not_found
complete_found now input d (some order) =
    if order.amount == input.amount
    then complete_status now input d order order.status
    else throw amount_differs

abbrev pub canceled_order : ℕ → Text → Text → BillingOrder → BillingOrder
canceled_order now payment_key reason order = record order {
  status = canceled;
  payment_key = some payment_key;
  canceled_at = some (some now);
  cancel_reason = some (take 200 reason);
  updated_at = some now;
}

-- The entitlement of before a payment that is taken back: one that has not expired.
unfoldable pub previous_row : ℕ → Option BillingDate → Option Text → Option EntitlementRow
previous_row now (some until) (some id) = elim (live_until now until) [
  | some _ ↦
      if is_empty id
      then none
      else some (record { pro_until = until; last_order_id = id; updated_at = some now })
  | none ↦ none
]
previous_row now none id = none
previous_row now (some until) none = none

abbrev pub put_back :
    Text → Option EntitlementRow → Dict Text EntitlementRow → Dict Text EntitlementRow
put_back tenant_id none rows = delete tenant_id rows
put_back tenant_id (some row) rows = set tenant_id row rows

-- The entitlements after a payment is taken back, and whether access was revoked. A payment that
-- is not the tenant's last one ends the tenant's access.
unfoldable pub revoke :
    ℕ
    → Text
    → BillingOrder
    → Option EntitlementRow
    → Dict Text EntitlementRow
    → Dict Text EntitlementRow × Bool
revoke now id order none rows = (rows, false)
revoke now id order (some row) rows =
    if row.last_order_id == id
    then (
      put_back order.tenant_id (previous_row now order.previous_pro_until order.previous_order_id)
          rows,
      true,
    )
    else (delete order.tenant_id rows, true)

unfoldable pub cancel_now :
    ℕ
    → Text
    → Text
    → Text
    → BillingData
    → BillingOrder
    → Result BillingError (Mutation BillingData Bool)
cancel_now now id payment_key reason d order =
    let (rows, revoked) = revoke now id order (get order.tenant_id d.entitlements) d.entitlements in
    changed
      (record {
        orders = set id (canceled_order now payment_key reason order) d.orders;
        entitlements = rows;
      })
      revoked

-- A recorded payment key that is not empty has to be the given one.
abbrev pub is_other_key : Text → Option Text → Bool
is_other_key key none = false
is_other_key key (some k) = not (is_empty k) && not (k == key)

abbrev pub is_canceled : OrderStatus → Bool
is_canceled canceled = true
is_canceled _ = false

unfoldable pub cancel_found :
    ℕ
    → Text
    → Text
    → Text
    → BillingData
    → Option BillingOrder
    → Result BillingError (Mutation BillingData Bool)
cancel_found now id payment_key reason d none = throw order_not_found
cancel_found now id payment_key reason d (some order) =
    if is_other_key payment_key order.payment_key
    then throw payment_key_differs
    else if is_canceled order.status
    then unchanged d false
    else cancel_now now id payment_key reason d order
