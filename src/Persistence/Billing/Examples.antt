-- ===== src/Persistence/Billing/Examples.antt =====
-- src/persistence/billingStore.ts: two payments of one tenant, the second of which is taken back.
use online_seller_control_hu.Common.{
  ℕ, ◌≡◌, refl, none, some, true, false, [], ◌∷◌, List, ok, throw, codes, running, arith, Text,
  text_eq, is_empty,
}
use online_seller_control_hu.Common.Dicts.{get}
use online_seller_control_hu.Persistence.Files.{missing, back_up, persist_rows}
use online_seller_control_hu.Persistence.Billing.{
  BillingStore, BillingCall, BillingOrder, BillingDate, EntitlementRow, OrderInput, PaymentInput,
  empty_billing_data, create_found, fail_found, entitlement, done, write_failed, get_order,
  new_order,
}
use online_seller_control_hu.Persistence.Billing.Changes.{
  complete_found, complete_status, complete_new, cancel_found, cancel_now, revoke, previous_row,
}
use online_seller_control_hu.Persistence.Billing.Calls.{
  create_order, fail_order, complete_order, cancel_order, persist, apply,
}
use online_seller_control_hu.Persistence.Billing.Access.{
  BillingRequest, create_request, complete_request, serve, serve_all, access_is_paid,
}
use online_seller_control_hu.Persistence.Billing.Refunds.{IsSameAccess, complete_then_cancel}
use online_seller_control_hu.Persistence.Billing.Payments.{complete_order_extends_once}
use online_seller_control_hu.Persistence.Billing.Broken.{failed_write_stops_all}

program : Unit {0}
unfolding running back_up persist_rows create_order create_found fail_order fail_found
    complete_order complete_found complete_status complete_new cancel_order cancel_found cancel_now
    revoke previous_row persist apply entitlement serve serve_all
program = tt

abbrev call : ℕ → BillingCall
call now = record { now = now; temporary = true; backup = true; renamed = true }

abbrev full_disk : ℕ → BillingCall
full_disk now = record { now = now; temporary = false; backup = true; renamed = true }

abbrev order : Text → OrderInput
order id = record {
  order_id = id;
  tenant_id = codes "t";
  user_id = codes "u";
  amount = 9900;
  pro_days = 30;
}

abbrev payment : Text → PaymentInput
payment id = record { order_id = id; payment_key = codes "p"; amount = 9900 }

abbrev empty : BillingStore
empty = record {
  billing = empty_billing_data;
  disk = record { primary = missing; backup = missing };
  broken = false;
}

abbrev first : List (BillingCall × BillingRequest)
first =
    (call 1000, create_request (order (codes "o1")))
    ∷ (call 2000, complete_request (payment (codes "o1")))
    ∷ (call 3000, create_request (order (codes "o2")))
    ∷ []

abbrev ordered : BillingStore
ordered = serve_all first empty

abbrev waiting : BillingOrder
waiting = new_order 3000 (order (codes "o2"))

found : get (codes "o2") ordered.billing.orders ≡ some waiting
unfolding program
found = refl

abbrev first_row : EntitlementRow
first_row = record {
  pro_until = some 2592002000;
  last_order_id = codes "o1";
  updated_at = some 2000;
}

entitled : get (codes "t") ordered.billing.entitlements ≡ some first_row
unfolding program
entitled = refl

abbrev paid : BillingOrder
paid = record waiting {
  status = done;
  payment_key = some (codes "p");
  previous_pro_until = some (some 2592002000);
  previous_order_id = some (codes "o1");
  updated_at = some 4000;
}

abbrev answer : BillingOrder × BillingDate
answer = (paid, some 5184002000)

taken : (complete_order (call 4000) (payment (codes "o2")) ordered).0 ≡ ok answer
unfolding program
taken = refl

named :
    (row : EntitlementRow)
    → get (codes "t") ordered.billing.entitlements ≡ some row
    → is_empty row.last_order_id ≡ false
named row e = ground (arith, entitled)

access_is_paid_example :
    (o : BillingOrder) × (get (codes "o1") (serve_all first empty).billing.orders ≡ some o)
    × (o.status ≡ done)
    × (o.tenant_id ≡ codes "t")
access_is_paid_example = access_is_paid first empty (codes "t") first_row refl entitled

abbrev completed : BillingStore
completed = (complete_order (call 4000) (payment (codes "o2")) ordered).1

complete_then_cancel_example :
    IsSameAccess
      (entitlement
        (codes "t")
        6000
        (cancel_order (call 5000) (codes "o2") (codes "p") (codes "refund") completed).1.billing)
      (entitlement (codes "t") 6000 ordered.billing)
complete_then_cancel_example =
    complete_then_cancel (call 4000) (call 5000) 6000 (payment (codes "o2")) (codes "refund")
      ordered waiting answer (codes "t") found refl refl named (omega arith) (omega arith) taken

complete_order_extends_once_example :
    (entitlement (codes "t") 6000 completed.billing
      ≡ record { pro_until = some (some 5184002000); active = true })
    × (complete_order (call 5000) (payment (codes "o2")) completed ≡ (ok answer, completed))
unfolding program
complete_order_extends_once_example =
    complete_order_extends_once (call 4000) (payment (codes "o2")) ordered waiting answer found refl
      taken (codes "t") 6000 (call 5000)

failed_write : (create_order (full_disk 1000) (order (codes "o1")) empty).0 ≡ throw write_failed
unfolding program
failed_write = refl

abbrev stuck : BillingStore
stuck = serve_all [] (create_order (full_disk 1000) (order (codes "o1")) empty).1

no_order : get (codes "o2") stuck.billing.orders ≡ none
unfolding program
no_order = refl

failed_write_stops_all_example :
    (stuck.disk ≡ (create_order (full_disk 1000) (order (codes "o1")) empty).1.disk)
    × ((create_order (call 2000) (order (codes "o2")) stuck).0 ≡ throw write_failed)
    × (get_order (codes "o2") (create_order (call 2000) (order (codes "o2")) stuck).1.billing
        ≡ some (new_order 2000 (order (codes "o2"))))
failed_write_stops_all_example =
    failed_write_stops_all (full_disk 1000) (call 2000) (order (codes "o1")) (order (codes "o2"))
      empty [] failed_write no_order
