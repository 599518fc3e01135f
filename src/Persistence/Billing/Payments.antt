-- ===== src/Persistence/Billing/Payments.antt =====
-- src/persistence/billingStore.ts: what a payment buys, and a payment that is reported again.
use online_seller_control_hu.Common.{
  ℕ, ◌+◌, ◌*◌, ◌≡◌, refl, inl, inr, false, Option, none, some, Text, text_eq, arith, ◌==◌,
  Bool-cases, if◌then◌else◌, ==_refl, eq_of_==, ok, ltb, nat_eq,
}
use online_seller_control_hu.Common.Dicts.{get, get-set}
use online_seller_control_hu.Persistence.Billing.{
  BillingOrder, BillingEntitlement, EntitlementRow, BillingStore, BillingCall, BillingDate,
  PaymentInput, is_settled, entitlement, entitlement_row,
}
use online_seller_control_hu.Persistence.Billing.Changes.{
  complete_found, complete_status, done_order, active_row, day_ms, paid_until,
}
use online_seller_control_hu.Persistence.Billing.Calls.{complete_order, apply}
use online_seller_control_hu.Persistence.Billing.Refunds.{complete_order_billing}

-- The instant that a date tells, where it tells one.
abbrev pub instant_or : ℕ → Option BillingDate → ℕ
instant_or t (some (some u)) = u
instant_or t _ = t

-- Until when a tenant has access that buys so many days.
abbrev pub extended : ℕ → BillingEntitlement → ℕ → ℕ
extended now e days = (if e.active then instant_or now e.pro_until else now) + days * day_ms

paid_until-extended :
    (now : ℕ) (order : BillingOrder) (found : Option EntitlementRow)
    → paid_until now (active_row now found) order
      ≡ extended now (entitlement_row now found) order.pro_days
paid_until-extended now order none = refl
paid_until-extended now order (some row) = ground arith

module _ (call : BillingCall) (input : PaymentInput) (s : BillingStore) (order : BillingOrder)
    (answer : BillingOrder × BillingDate) (found : get input.order_id s.billing.orders ≡ some order)
    (unpaid : is_settled order.status ≡ false)
    (taken : (complete_order call input s).0 ≡ ok answer) where
  abbrev after : BillingStore
  after = (complete_order call input s).1

  complete_order_extends :
      (u : Text) (later : ℕ)
      → entitlement u later after.billing ≡ (
          if order.tenant_id == u
          then (let until = extended call.now (entitlement u call.now s.billing) order.pro_days in
              record { pro_until = some (some until); active = ltb later until })
          else entitlement u later s.billing)
  unfolding entitlement
  complete_order_extends u later =
      let (rows, _, _) = complete_order_billing call input s order answer found unpaid taken in
      let current = active_row call.now (get order.tenant_id s.billing.entitlements) in
      let row : EntitlementRow = record {
        pro_until = some (paid_until call.now current order);
        last_order_id = order.order_id;
        updated_at = some call.now;
      } in
      rw (rows, get-set order.tenant_id u row s.billing.entitlements)
        (elim (Bool-cases (order.tenant_id == u)) [
          | inl same ↦
              rw
                (
                  same,
                  ← eq_of_== order.tenant_id u same,
                  ← paid_until-extended call.now order (get order.tenant_id s.billing.entitlements),
                )
                (ground arith)
          | inr other ↦ rw other refl
        ])

  complete_order_again :
      (call' : BillingCall) → complete_order call' input after ≡ (ok answer, after)
  unfolding complete_order complete_found complete_status apply
  complete_order_again call' =
      let (rows, answered, amount) =
        complete_order_billing call input s order answer found unpaid taken in
      let current = active_row call.now (get order.tenant_id s.billing.entitlements) in
      let done = done_order call.now input current order in
      let row : EntitlementRow = record {
        pro_until = some (paid_until call.now current order);
        last_order_id = order.order_id;
        updated_at = some call.now;
      } in
      let stored : get input.order_id after.billing.orders ≡ some done =
        rw
          (
            rows,
            get-set input.order_id input.order_id done s.billing.orders,
            ==_refl input.order_id,
          )
          refl in
      let bought : get order.tenant_id after.billing.entitlements ≡ some row =
        rw
          (
            rows,
            get-set order.tenant_id order.tenant_id row s.billing.entitlements,
            ==_refl order.tenant_id,
          )
          refl in
      rw (stored, amount, ==_refl input.payment_key, bought, answered) refl

  -- A payment that is taken extends the access of the order's tenant, from the end of the access that
  -- it still has or from now, by the days of the order. No other tenant's entitlement changes.
  -- When it is reported again it is answered as before, and nothing changes.
  pub complete_order_extends_once :
      (u : Text) (later : ℕ) (call' : BillingCall)
      → (entitlement u later after.billing ≡ (
          if order.tenant_id == u
          then (let until = extended call.now (entitlement u call.now s.billing) order.pro_days in
              record { pro_until = some (some until); active = ltb later until })
          else entitlement u later s.billing))
        × (complete_order call' input after ≡ (ok answer, after))
  complete_order_extends_once u later call' =
      (complete_order_extends u later, complete_order_again call')
