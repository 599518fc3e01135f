-- ===== src/Persistence/Billing/Calls.antt =====
-- src/persistence/billingStore.ts: the methods of the class that change it, and the chain of writes.
use online_seller_control_hu.Common.{
  Bool, true, false, not, nat_eq, Text, text_eq, if◌then◌else◌, Result, ok, throw,
}
use online_seller_control_hu.Persistence.Files.{Mutation, persist_rows}
use online_seller_control_hu.Persistence.Billing.{
  BillingCall, BillingData, BillingDate, BillingError, BillingOrder, BillingStore, OrderInput,
  PaymentInput, Reply, create_found, fail_found, get_order, write_failed,
}
use online_seller_control_hu.Persistence.Billing.Changes.{cancel_found, complete_found}

-- One link of `writeChain`, with the data at that time: a rejected promise stays rejected, and
-- nothing is written after it.
unfoldable pub persist : BillingCall → BillingStore → Bool × BillingStore
persist call s =
    if s.broken
    then (false, s)
    else if not call.temporary
    then (false, record s { broken = true })
    else (let (written, disk') =
          persist_rows (record { backup = call.backup; primary = call.renamed }) s.billing s.disk in
        (written, record s { disk = disk'; broken = not written }))

module _ {A : Type 0} where
  abbrev answer : A → Bool × BillingStore → Reply A
  answer a (true, s) = (ok a, s)
  answer a (false, s) = (throw write_failed, s)

  -- The data in memory is changed before it is written.
  unfoldable pub apply :
      BillingCall → Result BillingError (Mutation BillingData A) → BillingStore → Reply A
  apply call (throw e) s = (throw e, s)
  apply call (ok m) s =
      if m.persist
      then answer m.result (persist call (record s { billing = m.rows }))
      else (ok m.result, s)

unfoldable pub create_order : BillingCall → OrderInput → BillingStore → Reply BillingOrder
create_order call input s =
    apply call (create_found call.now input s.billing (get_order input.order_id s.billing)) s

unfoldable pub fail_order : BillingCall → Text → Text → BillingStore → Reply (Unit {0})
fail_order call id reason s =
    apply call (fail_found call.now id reason s.billing (get_order id s.billing)) s

unfoldable pub complete_order :
    BillingCall → PaymentInput → BillingStore → Reply (BillingOrder × BillingDate)
complete_order call input s =
    apply call (complete_found call.now input s.billing (get_order input.order_id s.billing)) s

unfoldable pub cancel_order :
    BillingCall → Text → (payment_key reason : Text) → BillingStore → Reply Bool
cancel_order call id payment_key reason s =
    apply call (cancel_found call.now id payment_key reason s.billing (get_order id s.billing)) s
