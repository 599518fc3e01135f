-- ===== src/Persistence/Billing/Broken.antt =====
-- src/persistence/billingStore.ts: `persist` hangs each write on `writeChain` and keeps the outcome,
-- so that one failed write rejects every later one.
use online_seller_control_hu.Common.{
  ◌≡◌, refl, true, false, Option, none, some, List, [], ◌∷◌, text_eq, arith, ==_refl, ◌∙◌, Result,
  ok, throw,
}
use online_seller_control_hu.Common.Dicts.{get, get-set}
use online_seller_control_hu.Persistence.Files.{Mutation}
use online_seller_control_hu.Persistence.Billing.{
  BillingData, BillingStore, BillingCall, BillingError, BillingOrder, OrderInput, write_failed,
  create_found, get_order, new_order,
}
use online_seller_control_hu.Persistence.Billing.Calls.{
  create_order, fail_order, complete_order, cancel_order, apply, persist,
}
use online_seller_control_hu.Persistence.Billing.Access.{
  BillingRequest, serve, serve_all, create_request, fail_request, complete_request, cancel_request,
}

persist-broken :
    (call : BillingCall) (s : BillingStore)
    → (persist call s).0 ≡ false
    → (persist call s).1.broken ≡ true
unfolding persist
persist-broken call s h = ground arith

module _ {A : Type 0} where
  apply_broken :
      (call : BillingCall) (r : Result BillingError (Mutation BillingData A)) (s : BillingStore)
      → s.broken ≡ true
      → ((apply call r s).1.broken ≡ true) × ((apply call r s).1.disk ≡ s.disk)
  unfolding apply persist
  apply_broken call (throw e) s h = (h, refl)
  apply_broken call (ok m) s h = ground arith

serve-broken :
    (call : BillingCall) (request : BillingRequest) (s : BillingStore)
    → s.broken ≡ true
    → ((serve call request s).broken ≡ true) × ((serve call request s).disk ≡ s.disk)
unfolding serve create_order fail_order complete_order cancel_order
serve-broken call (create_request input) s h = apply_broken call _ s h
serve-broken call (fail_request id reason) s h = apply_broken call _ s h
serve-broken call (complete_request input) s h = apply_broken call _ s h
serve-broken call (cancel_request id payment_key reason) s h = apply_broken call _ s h

serve_all-broken :
    (requests : List (BillingCall × BillingRequest)) (s : BillingStore)
    → s.broken ≡ true
    → ((serve_all requests s).broken ≡ true) × ((serve_all requests s).disk ≡ s.disk)
unfolding serve_all
serve_all-broken [] s h = (h, refl)
serve_all-broken ((call, request) ∷ requests) s h =
    let (broken, disk) = serve-broken call request s h in
    let (broken', disk') = serve_all-broken requests (serve call request s) broken in
    (broken', disk' ∙ disk)

create_found_applied :
    (call : BillingCall) (input : OrderInput) (s : BillingStore) (found : Option BillingOrder)
    → (apply call (create_found call.now input s.billing found) s).0 ≡ throw write_failed
    → (apply call (create_found call.now input s.billing found) s).1.broken ≡ true
unfolding create_found apply persist
create_found_applied call input s none h = ground arith
create_found_applied call input s (some o) h = ground arith

create_order_breaks :
    (call : BillingCall) (input : OrderInput) (s : BillingStore)
    → (create_order call input s).0 ≡ throw write_failed
    → (create_order call input s).1.broken ≡ true
unfolding create_order
create_order_breaks call input s h =
    create_found_applied call input s (get input.order_id s.billing.orders) h

create_broken :
    (call : BillingCall) (input : OrderInput) (s : BillingStore)
    → s.broken ≡ true
    → get input.order_id s.billing.orders ≡ none
    → (create_order call input s).0 ≡ throw write_failed
      × (get_order input.order_id (create_order call input s).1.billing
          ≡ some (new_order call.now input))
unfolding create_order create_found apply persist
create_broken call input s h new =
    rw (new, h)
      (
        refl,
        rw
            (
              get-set input.order_id input.order_id (new_order call.now input) s.billing.orders,
              ==_refl input.order_id,
            )
            refl,
      )

-- After one order could not be written, the file never changes again, whatever is requested and
-- whichever writes could succeed; a later new order throws too, although it is in memory then.
pub failed_write_stops_all :
    (call call' : BillingCall) (input input' : OrderInput) (s : BillingStore)
    (requests : List (BillingCall × BillingRequest))
    → (create_order call input s).0 ≡ throw write_failed
    → get input'.order_id (serve_all requests (create_order call input s).1).billing.orders ≡ none
    → let s' = serve_all requests (create_order call input s).1 in
      (s'.disk ≡ (create_order call input s).1.disk)
      × ((create_order call' input' s').0 ≡ throw write_failed)
      × (get_order input'.order_id (create_order call' input' s').1.billing
          ≡ some (new_order call'.now input'))
failed_write_stops_all call call' input input' s requests h new =
    let (broken, disk) =
      serve_all-broken requests (create_order call input s).1
        (create_order_breaks call input s h) in
    let (throws, kept) =
      create_broken call' input' (serve_all requests (create_order call input s).1) broken new in
    (disk, throws, kept)
