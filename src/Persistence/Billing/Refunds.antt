-- ===== src/Persistence/Billing/Refunds.antt =====
-- src/persistence/billingStore.ts: a payment that is taken back, and one that is reported again.
use online_seller_control_hu.Common.{
  ℕ, ◌≤◌, ◌≡◌, refl, sym, ◌∙◌, ap, subst, inl, inr, true, false, Bool, Option, none, some, Text,
  text_eq, arith, ◌==◌, Bool-cases, if◌then◌else◌, ==_refl, eq_of_==, Result, ok, throw, is_empty,
  nat_eq,
}
use online_seller_control_hu.Common.Dicts.{get, set, get-set}
use online_seller_control_hu.Persistence.Files.{Mutation}
use online_seller_control_hu.Persistence.Billing.{
  BillingOrder, BillingData, BillingEntitlement, EntitlementRow, BillingStore, BillingCall,
  BillingError, BillingDate, PaymentInput, done, is_settled, entitlement, entitlement_row,
}
use online_seller_control_hu.Persistence.Billing.Changes.{
  complete_found, complete_status, complete_new, cancel_found, cancel_now, is_canceled,
  is_other_key, revoke, previous_row, canceled_order, done_order, active_row, previous_until,
  previous_order, paid_until,
}
use online_seller_control_hu.Persistence.Billing.Calls.{
  complete_order, cancel_order, apply, persist,
}
use online_seller_control_hu.Persistence.Billing.Access.{put_back-get}

-- The same access, and the same expiry where there is access.
abbrev pub IsSameAccess : BillingEntitlement → BillingEntitlement → Type 0
IsSameAccess a b = (a.active ≡ b.active) × (b.active ≡ true → a.pro_until ≡ b.pro_until)

restored :
    (t1 t2 t3 : ℕ) (found : Option EntitlementRow)
    → ((row : EntitlementRow) → found ≡ some row → is_empty row.last_order_id ≡ false)
    → t1 ≤ t2
    → t2 ≤ t3
    → IsSameAccess
        (entitlement_row t3 (
          previous_row t2
            (previous_until (active_row t1 found))
            (previous_order (active_row t1 found))))
        (entitlement_row t3 found)
unfolding previous_row
restored t1 t2 t3 none named h k = (refl, λ e. cc)
restored t1 t2 t3 (some row) named h k = let n = named row refl in (ground arith, λ e. ground arith)

module _ {A : Type 0} where
  -- A call that is answered has changed memory as its mutation says.
  apply-ok :
      (call : BillingCall) (r : Result BillingError (Mutation BillingData A)) (s : BillingStore)
      (a : A)
      → (apply call r s).0 ≡ ok a
      → (m : Mutation BillingData A) × (r ≡ ok m) × (m.result ≡ a)
  unfolding apply
  apply-ok call (throw e) s a h = cc
  apply-ok call (ok m) s a h = (m, refl, ground arith)

  apply_billing :
      (call : BillingCall) (m : Mutation BillingData A) (s : BillingStore)
      → (apply call (ok m) s).1.billing ≡ (if m.persist then m.rows else s.billing)
  unfolding apply persist
  apply_billing call m s = ground arith

-- What a payment that is taken leaves in memory.
abbrev pub completed_data : ℕ → PaymentInput → BillingData → BillingOrder → BillingData
completed_data now input d order =
    let current = active_row now (get order.tenant_id d.entitlements) in
    record {
      orders = set input.order_id (done_order now input current order) d.orders;
      entitlements =
          set order.tenant_id
            (record {
              pro_until = some (paid_until now current order);
              last_order_id = order.order_id;
              updated_at = some now;
            })
            d.entitlements;
    }

pub complete_found-taken :
    (now : ℕ) (input : PaymentInput) (d : BillingData) (order : BillingOrder)
    (m : Mutation BillingData (BillingOrder × BillingDate))
    → is_settled order.status ≡ false
    → complete_found now input d (some order) ≡ ok m
    → (m.rows ≡ completed_data now input d order)
      × (m.persist ≡ true)
      × (let current = active_row now (get order.tenant_id d.entitlements) in
          m.result ≡ (done_order now input current order, some (paid_until now current order)))
      × ((order.amount == input.amount) ≡ true)
unfolding complete_found complete_status complete_new
complete_found-taken now input d order m h e = ground arith

pub complete_order_billing :
    (call : BillingCall) (input : PaymentInput) (s : BillingStore) (order : BillingOrder)
    (answer : BillingOrder × BillingDate)
    → get input.order_id s.billing.orders ≡ some order
    → is_settled order.status ≡ false
    → (complete_order call input s).0 ≡ ok answer
    → ((complete_order call input s).1.billing ≡ completed_data call.now input s.billing order)
      × (let current = active_row call.now (get order.tenant_id s.billing.entitlements) in
          answer
          ≡ (done_order call.now input current order, some (paid_until call.now current order)))
      × ((order.amount == input.amount) ≡ true)
unfolding complete_order
complete_order_billing call input s order answer found unpaid h =
    let (m, e, result) =
      apply-ok call (complete_found call.now input s.billing (get input.order_id s.billing.orders))
        s answer h in
    let here : complete_found call.now input s.billing (some order) ≡ ok m =
      subst (λ f. complete_found call.now input s.billing f ≡ ok m) found e in
    let (rows, persists, until, amount) =
      complete_found-taken call.now input s.billing order m unpaid here in
    (rw (e, apply_billing call m s, persists) rows, sym result ∙ until, amount)

cancel_found-done :
    (now : ℕ) (id payment_key reason : Text) (d : BillingData) (order : BillingOrder)
    → order.status ≡ done
    → order.payment_key ≡ some payment_key
    → cancel_found now id payment_key reason d (some order)
      ≡ cancel_now now id payment_key reason d order
unfolding cancel_found
cancel_found-done now id payment_key reason d order paid key =
    let same_key : is_other_key payment_key order.payment_key ≡ false = ground (arith, key) in
    let open_order : is_canceled order.status ≡ false = rw paid refl in
    rw (same_key, open_order) refl

-- The entitlements after the payment of a done order is taken back.
cancel_order_entitlements :
    (call : BillingCall) (id payment_key reason : Text) (s : BillingStore) (order : BillingOrder)
    → get id s.billing.orders ≡ some order
    → order.status ≡ done
    → order.payment_key ≡ some payment_key
    → (cancel_order call id payment_key reason s).1.billing.entitlements
      ≡ (revoke call.now id order
          (get order.tenant_id s.billing.entitlements)
          s.billing.entitlements).0
unfolding cancel_order cancel_now
cancel_order_entitlements call id payment_key reason s order found paid key =
    let m : Mutation BillingData Bool =
      let (rows, revoked) =
        revoke call.now id order (get order.tenant_id s.billing.entitlements)
          s.billing.entitlements in
      record {
        rows = record {
          orders = set id (canceled_order call.now payment_key reason order) s.billing.orders;
          entitlements = rows;
        };
        result = revoked;
        persist = true;
      } in
    rw (found, cancel_found-done call.now id payment_key reason s.billing order paid key)
      (ap BillingData.entitlements (apply_billing call m s))

-- The entitlement rows after an order is paid and then canceled.
revoke-taken :
    (t1 t2 : ℕ) (input : PaymentInput) (d : BillingData) (o : BillingOrder) (u : Text)
    → o.order_id ≡ input.order_id
    → let d' = completed_data t1 input d o in
      let current = active_row t1 (get o.tenant_id d.entitlements) in
      let o' = done_order t1 input current o in
      get u (revoke t2 input.order_id o' (get o.tenant_id d'.entitlements) d'.entitlements).0 ≡ (
        if o.tenant_id == u
        then previous_row t2 (previous_until current) (previous_order current)
        else get u d.entitlements)
unfolding revoke
revoke-taken t1 t2 input d o u key =
    let current = active_row t1 (get o.tenant_id d.entitlements) in
    let row : EntitlementRow = record {
      pro_until = some (paid_until t1 current o);
      last_order_id = o.order_id;
      updated_at = some t1;
    } in
    let here : get o.tenant_id (set o.tenant_id row d.entitlements) ≡ some row =
      rw (get-set o.tenant_id o.tenant_id row d.entitlements, ==_refl o.tenant_id) refl in
    let mine : (o.order_id == input.order_id) ≡ true = rw (key, ==_refl input.order_id) refl in
    rw (here, mine)
      (ground (
        arith,
        put_back-get o.tenant_id u
            (previous_row t2 (previous_until current) (previous_order current))
            (set o.tenant_id row d.entitlements),
        get-set o.tenant_id u row d.entitlements,
      ))

-- A payment that is taken and then canceled leaves every tenant with the access that it would have
-- without them, and with the same expiry, whichever write of the cancellation fails; the identifiers
-- of paid orders are not empty.
pub complete_then_cancel :
    (call call' : BillingCall) (later : ℕ) (input : PaymentInput) (reason : Text) (s : BillingStore)
    (order : BillingOrder) (answer : BillingOrder × BillingDate) (u : Text)
    → get input.order_id s.billing.orders ≡ some order
    → order.order_id ≡ input.order_id
    → is_settled order.status ≡ false
    → ((row : EntitlementRow)
        → get order.tenant_id s.billing.entitlements ≡ some row
        → is_empty row.last_order_id ≡ false)
    → call.now ≤ call'.now
    → call'.now ≤ later
    → (complete_order call input s).0 ≡ ok answer
    → IsSameAccess
        (entitlement u later
          (cancel_order call' input.order_id input.payment_key reason
            (complete_order call input s).1).1.billing)
        (entitlement u later s.billing)
unfolding entitlement
complete_then_cancel call call' later input reason s o answer u found key unpaid named h k e =
    let current = active_row call.now (get o.tenant_id s.billing.entitlements) in
    let o' = done_order call.now input current o in
    let s' = (complete_order call input s).1 in
    let (taken, _, _) = complete_order_billing call input s o answer found unpaid e in
    let found' : get input.order_id s'.billing.orders ≡ some o' =
      rw (taken, get-set input.order_id input.order_id o' s.billing.orders, ==_refl input.order_id)
        refl in
    let rows =
      cancel_order_entitlements call' input.order_id input.payment_key reason s' o' found' refl
        refl in
    let access =
      restored call.now call'.now later (get o.tenant_id s.billing.entitlements) named h k in
    rw (rows, taken, revoke-taken call.now call'.now input s.billing o u key)
      (elim (Bool-cases (o.tenant_id == u)) [
        | inl same ↦ rw (same, ← eq_of_== o.tenant_id u same) access
        | inr other ↦ rw other (refl, λ _. refl)
      ])
