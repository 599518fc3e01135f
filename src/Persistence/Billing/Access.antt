-- ===== src/Persistence/Billing/Access.antt =====
-- src/persistence/billingStore.ts: access is never granted without a payment that still stands.
use online_seller_control_hu.Common.{
  ℕ, ◌≡◌, ◌≢◌, ◌⊎◌, refl, sym, ◌∙◌, ap, subst, inl, inr, false, Bool, Option, none, some, List, [],
  ◌∷◌, Text, text_eq, includes, arith, ◌==◌, Bool-cases, if◌then◌else◌, ne_of_==, eq_of_==, Result,
  ok, throw, ok_injective,
}
use online_seller_control_hu.Common.Dicts.{Dict, get, set, get-set, get-delete}
use online_seller_control_hu.Persistence.Files.{Mutation}
use online_seller_control_hu.Persistence.Billing.{
  BillingOrder, BillingData, EntitlementRow, BillingStore, BillingCall, BillingError, BillingDate,
  OrderInput, PaymentInput, done, empty_billing_data,
}
use online_seller_control_hu.Persistence.Billing.Changes.{
  cancel_found, cancel_now, revoke, previous_row, put_back, canceled_order,
}
use online_seller_control_hu.Persistence.Billing.Calls.{
  create_order, fail_order, complete_order, cancel_order, apply, persist,
}
use online_seller_control_hu.Persistence.Billing.Chain.{
  IsPaid, IsProven, IsChain, head, set-IsChain, other_tenant_outside,
}
use online_seller_control_hu.Persistence.Billing.Paid.{
  keyed-set, create_found-IsPaid, fail_found-IsPaid, complete_found-IsPaid,
}

previous_row-named :
    (now : ℕ) (until : Option BillingDate) (id : Option Text) (row : EntitlementRow)
    → previous_row now until id ≡ some row
    → id ≡ some row.last_order_id
unfolding previous_row
previous_row-named now (some until) (some id) row e = ground arith
previous_row-named now none id row e = cc
previous_row-named now (some until) none row e = cc

pub put_back-get :
    (t u : Text) (row : Option EntitlementRow) (rows : Dict Text EntitlementRow)
    → get u (put_back t row rows) ≡ (if t == u then row else get u rows)
put_back-get t u none rows = get-delete t u rows
put_back-get t u (some row) rows = get-set t u row rows

-- The row of a tenant after a revocation is untouched, or the one that is put back.
revoke-get :
    (now : ℕ) (id : Text) (o : BillingOrder) (last : EntitlementRow)
    (rows : Dict Text EntitlementRow) (t : Text) (row : EntitlementRow)
    → get t (revoke now id o (some last) rows).0 ≡ some row
    → ((o.tenant_id ≢ t) × (get t rows ≡ some row))
      ⊎ ((o.tenant_id ≡ t)
          × (last.last_order_id ≡ id)
          × (previous_row now o.previous_pro_until o.previous_order_id ≡ some row))
unfolding revoke
revoke-get now id o last rows t row h = ground (
  arith,
  put_back-get o.tenant_id t (previous_row now o.previous_pro_until o.previous_order_id) rows,
  get-delete o.tenant_id t rows,
)

-- What is left of a chain whose last order is taken back.
rest-IsProven :
    (orders : Dict Text BillingOrder) (t : Text) (rest : List Text) (row : EntitlementRow)
    → head rest ≡ some row.last_order_id
    → IsChain orders t rest
    → IsProven orders t row
rest-IsProven orders t [] row h c = cc
rest-IsProven orders t (i ∷ rest) row h c =
    (rest, let same : i ≡ row.last_order_id = cc in subst (λ k. IsChain orders t (k ∷ rest)) same c)

module _ (now : ℕ) (id payment_key reason : Text) (d : BillingData) (p : IsPaid d)
    (o : BillingOrder) (g : get id d.orders ≡ some o) where
  abbrev orders' : Dict Text BillingOrder
  orders' = set id (canceled_order now payment_key reason o) d.orders

  -- The entitlements of other tenants do not rest on this order.
  other-IsProven :
      (t : Text) (row : EntitlementRow)
      → o.tenant_id ≢ t
      → get t d.entitlements ≡ some row
      → IsProven orders' t row
  other-IsProven t row ne f =
      let (rest, chain) = p.proven t row f in
      (
        rest,
        set-IsChain d.orders id (canceled_order now payment_key reason o) t
            (row.last_order_id ∷ rest)
            (other_tenant_outside d.orders id t (row.last_order_id ∷ rest) o g ne chain) chain,
      )

  -- The entitlement that is put back rests on the orders before this one.
  put_back-IsProven :
      (row previous : EntitlementRow)
      → get o.tenant_id d.entitlements ≡ some row
      → row.last_order_id ≡ id
      → previous_row now o.previous_pro_until o.previous_order_id ≡ some previous
      → IsProven orders' o.tenant_id previous
  put_back-IsProven row previous f last e =
      let (rest, chain) = p.proven o.tenant_id row f in
      let same : o ≡ chain.0.order =
        let found : some o ≡ some chain.0.order =
          sym g ∙ ap (λ k. get k d.orders) (sym last) ∙ chain.0.found in
        cc in
      let named : chain.0.order.previous_order_id ≡ some previous.last_order_id =
        subst (λ x. x.previous_order_id ≡ some previous.last_order_id) same
          (previous_row-named now o.previous_pro_until o.previous_order_id previous e) in
      rest-IsProven orders' o.tenant_id rest previous
        (chain.0.previous previous.last_order_id named)
        (set-IsChain d.orders id (canceled_order now payment_key reason o) o.tenant_id rest
          (subst (λ k. includes k rest ≡ false) last chain.0.once) chain.1)

  revoke-IsProven :
      (t : Text) (row : EntitlementRow) (found : Option EntitlementRow)
      → get o.tenant_id d.entitlements ≡ found
      → get t (revoke now id o found d.entitlements).0 ≡ some row
      → IsProven orders' t row
  unfolding revoke
  revoke-IsProven t row none h f = elim (Bool-cases (o.tenant_id == t)) [
    | inl same ↦ ground (arith, eq_of_== o.tenant_id t same, h, f)
    | inr other ↦ other-IsProven t row (ne_of_== o.tenant_id t other) f
  ]
  revoke-IsProven t row (some last) h f = elim (revoke-get now id o last d.entitlements t row f) [
    | inl (ne, old) ↦ other-IsProven t row ne old
    | inr (same, mine, back) ↦
        subst (λ x. IsProven orders' x row) same (put_back-IsProven last row h mine back)
  ]

  cancel_now-IsPaid :
      (m : Mutation BillingData Bool)
      → cancel_now now id payment_key reason d o ≡ ok m
      → IsPaid m.rows
  unfolding cancel_now
  cancel_now-IsPaid m e =
      let taken : IsPaid (record {
        orders = orders';
        entitlements = (revoke now id o (get o.tenant_id d.entitlements) d.entitlements).0;
      }) =
        record {
          keyed = keyed-set d p id (canceled_order now payment_key reason o) (p.keyed id o g);
          proven = λ t row f. revoke-IsProven t row (get o.tenant_id d.entitlements) refl f;
        } in
      subst IsPaid (ap Mutation.rows (ok_injective e)) taken

cancel_found-IsPaid :
    (now : ℕ) (id payment_key reason : Text) (d : BillingData) (found : Option BillingOrder)
    (m : Mutation BillingData Bool)
    → get id d.orders ≡ found
    → cancel_found now id payment_key reason d found ≡ ok m
    → IsPaid d
    → IsPaid m.rows
unfolding cancel_found
cancel_found-IsPaid now id payment_key reason d none m g e p = cc
cancel_found-IsPaid now id payment_key reason d (some o) m g e p = elim (cases) [
  | inl same ↦ subst IsPaid same p
  | inr new ↦ cancel_now-IsPaid now id payment_key reason d p o g m new
]
  where
    cases : (d ≡ m.rows) ⊎ (cancel_now now id payment_key reason d o ≡ ok m)
    cases = ground arith

-- The calls of the payment routes.
pub data BillingRequest : Type 0 where
  create_request : OrderInput → BillingRequest
  fail_request : (id reason : Text) → BillingRequest
  complete_request : PaymentInput → BillingRequest
  cancel_request : (id payment_key reason : Text) → BillingRequest

unfoldable pub serve : BillingCall → BillingRequest → BillingStore → BillingStore
serve call (create_request input) s = (create_order call input s).1
serve call (fail_request id reason) s = (fail_order call id reason s).1
serve call (complete_request input) s = (complete_order call input s).1
serve call (cancel_request id payment_key reason) s = (cancel_order call id payment_key reason s).1

unfoldable pub serve_all : List (BillingCall × BillingRequest) → BillingStore → BillingStore
serve_all [] s = s
serve_all ((call, request) ∷ requests) s = serve_all requests (serve call request s)

module _ {A : Type 0} where
  -- A call changes memory as its mutation says, whether the write succeeds or fails.
  pub apply-IsPaid :
      (call : BillingCall) (r : Result BillingError (Mutation BillingData A)) (s : BillingStore)
      → ((m : Mutation BillingData A) → r ≡ ok m → IsPaid s.billing → IsPaid m.rows)
      → IsPaid s.billing
      → IsPaid (apply call r s).1.billing
  unfolding apply persist
  apply-IsPaid call (throw e) s keeps p = p
  apply-IsPaid call (ok m) s keeps p = ground (arith, keeps m refl p)

serve-IsPaid :
    (call : BillingCall) (request : BillingRequest) (s : BillingStore)
    → IsPaid s.billing
    → IsPaid (serve call request s).billing
unfolding serve create_order fail_order complete_order cancel_order
serve-IsPaid call (create_request input) s p =
    apply-IsPaid call _ s (λ m e q. create_found-IsPaid call.now input s.billing _ m refl e q) p
serve-IsPaid call (fail_request id reason) s p =
    apply-IsPaid call _ s (λ m e q. fail_found-IsPaid call.now id reason s.billing _ m refl e q) p
serve-IsPaid call (complete_request input) s p =
    apply-IsPaid call _ s (λ m e q. complete_found-IsPaid call.now input s.billing _ m refl e q) p
serve-IsPaid call (cancel_request id payment_key reason) s p =
    apply-IsPaid call _ s
      (λ m e q. cancel_found-IsPaid call.now id payment_key reason s.billing _ m refl e q) p

pub serve_all-IsPaid :
    (requests : List (BillingCall × BillingRequest)) (s : BillingStore)
    → IsPaid s.billing
    → IsPaid (serve_all requests s).billing
unfolding serve_all
serve_all-IsPaid [] s p = p
serve_all-IsPaid ((call, request) ∷ requests) s p =
    serve_all-IsPaid requests (serve call request s) (serve-IsPaid call request s p)

empty-IsPaid : IsPaid empty_billing_data
unfolding get
empty-IsPaid = record { keyed = λ id o g. cc; proven = λ t row g. cc }

-- Whatever was ordered, paid, failed and canceled since a store was empty, and whichever writes
-- failed: a tenant that has an entitlement has it from an order of its own that was paid and is
-- not canceled.
pub access_is_paid :
    (requests : List (BillingCall × BillingRequest)) (s : BillingStore) (t : Text)
    (row : EntitlementRow)
    → s.billing ≡ empty_billing_data
    → get t (serve_all requests s).billing.entitlements ≡ some row
    → (order : BillingOrder) × (get row.last_order_id (serve_all requests s).billing.orders
        ≡ some order)
      × (order.status ≡ done)
      × (order.tenant_id ≡ t)
access_is_paid requests s t row start found =
    let p = serve_all-IsPaid requests s (rw start empty-IsPaid) in
    let (rest, chain) = p.proven t row found in
    (chain.0.order, chain.0.found, chain.0.paid, chain.0.owned)
