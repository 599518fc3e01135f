-- ===== src/Persistence/Billing/Paid.antt =====
-- src/persistence/billingStore.ts: new, failed and completed orders keep every entitlement backed by
-- paid orders.
use online_seller_control_hu.Common.{
  ℕ, ◌≡◌, ◌≢◌, refl, sym, ◌∙◌, ap, subst, inl, inr, false, Option, none, some, List, [], ◌∷◌, Text,
  text_eq, arith, ◌==◌, Bool-cases, ==_refl, eq_of_==, ok, ok_injective,
}
use online_seller_control_hu.Common.Dicts.{get, set, get-set}
use online_seller_control_hu.Persistence.Files.{Mutation}
use online_seller_control_hu.Persistence.Billing.{
  BillingOrder, BillingData, EntitlementRow, OrderInput, PaymentInput, OrderStatus, BillingDate,
  done, created, failed, canceled, create_found, fail_found, failed_order, new_order, put_order,
  is_settled,
}
use online_seller_control_hu.Persistence.Billing.Changes.{
  complete_found, complete_status, complete_new, active_row, done_order, previous_order, paid_until,
}
use online_seller_control_hu.Persistence.Billing.Chain.{
  IsPaid, IsProven, IsChain, head, set-IsChain, unpaid_outside,
}

-- An order that is not paid may change, as long as it keeps its identifier.
module _ (d : BillingData) (p : IsPaid d) (id : Text) (order : BillingOrder)
    (key : order.order_id ≡ id) where
  pub keyed-set :
      (i : Text) (o : BillingOrder) → get i (set id order d.orders) ≡ some o → o.order_id ≡ i
  keyed-set i o g = elim (Bool-cases (id == i)) [
    | inl e ↦
        let same : order ≡ o = ground (arith, get-set id i order d.orders) in
        sym (ap BillingOrder.order_id same) ∙ key ∙ eq_of_== id i e
    | inr e ↦ p.keyed i o (ground (arith, get-set id i order d.orders))
  ]

  put_unpaid-IsPaid :
      ((o : BillingOrder) → get id d.orders ≡ some o → o.status ≢ done)
      → IsPaid (put_order id order d)
  put_unpaid-IsPaid unpaid = record {
    keyed = keyed-set;
    proven = λ t row g.
        let (rest, chain) = p.proven t row g in
        (
          rest,
          set-IsChain d.orders id order t (row.last_order_id ∷ rest)
              (unpaid_outside d.orders id t (row.last_order_id ∷ rest) unpaid chain) chain,
        );
  }

pub create_found-IsPaid :
    (now : ℕ) (input : OrderInput) (d : BillingData) (found : Option BillingOrder)
    (m : Mutation BillingData BillingOrder)
    → get input.order_id d.orders ≡ found
    → create_found now input d found ≡ ok m
    → IsPaid d
    → IsPaid m.rows
unfolding create_found
create_found-IsPaid now input d (some o) m g e p = cc
create_found-IsPaid now input d none m g e p =
    subst IsPaid (ap Mutation.rows (ok_injective e)) (
      put_unpaid-IsPaid d p input.order_id (new_order now input) refl (λ o h. ground (arith, g, h)))

unsettled : (s : OrderStatus) → is_settled s ≡ false → s ≢ done
unsettled done h e = cc
unsettled canceled h e = cc
unsettled created h e = cc
unsettled failed h e = cc

pub fail_found-IsPaid :
    (now : ℕ) (id reason : Text) (d : BillingData) (found : Option BillingOrder)
    (m : Mutation BillingData (Unit {0}))
    → get id d.orders ≡ found
    → fail_found now id reason d found ≡ ok m
    → IsPaid d
    → IsPaid m.rows
unfolding fail_found
fail_found-IsPaid now id reason d none m g e p = subst IsPaid (ap Mutation.rows (ok_injective e)) p
fail_found-IsPaid now id reason d (some o) m g e p = elim (Bool-cases (is_settled o.status)) [
  | inl s ↦ subst IsPaid (ground arith) p
  | inr s ↦ subst IsPaid (ground arith) (
      put_unpaid-IsPaid d p id (failed_order now reason o) (p.keyed id o g)
        (λ q h. let same : o ≡ q = cc in subst (λ x. x.status ≢ done) same (unsettled o.status s)))
]

-- The chain of an entitlement that a payment extends, behind the new order.
module _ (now : ℕ) (input : PaymentInput) (d : BillingData) (p : IsPaid d) (o : BillingOrder)
    (g : get input.order_id d.orders ≡ some o) (unpaid : o.status ≢ done) where
  unpaid_found : (q : BillingOrder) → get input.order_id d.orders ≡ some q → q.status ≢ done
  unpaid_found q h = let same : o ≡ q = cc in subst (λ x. x.status ≢ done) same unpaid

  previous-IsChain :
      (current : Option (EntitlementRow × ℕ))
      → ((row : EntitlementRow) (t : ℕ)
          → current ≡ some (row, t)
          → get o.tenant_id d.entitlements ≡ some row)
      → (rest : List Text) × IsChain d.orders o.tenant_id rest
        × ((i : Text) → previous_order current ≡ some i → head rest ≡ some i)
  previous-IsChain none h = ([], tt, λ i e. cc)
  previous-IsChain (some (row, t)) h =
      let (rest, chain) = p.proven o.tenant_id row (h row t refl) in
      (row.last_order_id ∷ rest, chain, λ i e. e)

  done-IsProven :
      (current : Option (EntitlementRow × ℕ)) (row : EntitlementRow)
      → ((r : EntitlementRow) (t : ℕ)
          → current ≡ some (r, t)
          → get o.tenant_id d.entitlements ≡ some r)
      → row.last_order_id ≡ input.order_id
      → IsProven (set input.order_id (done_order now input current o) d.orders) o.tenant_id row
  done-IsProven current row h last =
      let (rest, chain, previous) = previous-IsChain current h in
      let outside = unpaid_outside d.orders input.order_id o.tenant_id rest unpaid_found chain in
      (
        rest,
        (
          record {
            order = done_order now input current o;
            found =
                rw
                  (
                    last,
                    get-set input.order_id input.order_id (done_order now input current o) d.orders,
                    ==_refl input.order_id,
                  )
                  refl;
            paid = refl;
            owned = refl;
            previous = previous;
            once = rw last outside;
          },
          set-IsChain d.orders input.order_id (done_order now input current o) o.tenant_id rest
              outside chain,
        ),
      )

  extended-IsPaid :
      (current : Option (EntitlementRow × ℕ)) (row : EntitlementRow)
      → ((r : EntitlementRow) (t : ℕ)
          → current ≡ some (r, t)
          → get o.tenant_id d.entitlements ≡ some r)
      → row.last_order_id ≡ input.order_id
      → IsPaid (record {
        orders = set input.order_id (done_order now input current o) d.orders;
        entitlements = set o.tenant_id row d.entitlements;
      })
  extended-IsPaid current row h last = record {
    keyed =
        keyed-set d p input.order_id (done_order now input current o) (p.keyed input.order_id o g);
    proven = λ t r f. elim (Bool-cases (o.tenant_id == t)) [
      | inl same ↦
          let row_same : row ≡ r = ground (arith, get-set o.tenant_id t row d.entitlements) in
          subst (λ x. IsProven (set input.order_id (done_order now input current o) d.orders) t x)
            row_same
            (subst
              (λ x. IsProven (set input.order_id (done_order now input current o) d.orders) x row)
              (eq_of_== o.tenant_id t same) (done-IsProven current row h last))
      | inr other ↦
          let (rest, chain) =
            p.proven t r (ground (arith, get-set o.tenant_id t row d.entitlements)) in
          (
            rest,
            set-IsChain d.orders input.order_id (done_order now input current o) t
                (r.last_order_id ∷ rest)
                (unpaid_outside d.orders input.order_id t (r.last_order_id ∷ rest) unpaid_found
                  chain)
                chain,
          )
    ];
  }

  complete_new-IsPaid :
      (current : Option (EntitlementRow × ℕ))
      (m : Mutation BillingData (BillingOrder × BillingDate))
      → ((row : EntitlementRow) (t : ℕ)
          → current ≡ some (row, t)
          → get o.tenant_id d.entitlements ≡ some row)
      → complete_new now input d o current ≡ ok m
      → IsPaid m.rows
  unfolding complete_new
  complete_new-IsPaid current m h e =
      let row : EntitlementRow = record {
        pro_until = some (paid_until now current o);
        last_order_id = o.order_id;
        updated_at = some now;
      } in
      subst IsPaid (ground arith) (extended-IsPaid current row h (p.keyed input.order_id o g))

active_row-found :
    (now : ℕ) (found : Option EntitlementRow) (row : EntitlementRow) (t : ℕ)
    → active_row now found ≡ some (row, t)
    → found ≡ some row
active_row-found now none row t e = cc
active_row-found now (some r) row t e = ground arith

pub complete_found-IsPaid :
    (now : ℕ) (input : PaymentInput) (d : BillingData) (found : Option BillingOrder)
    (m : Mutation BillingData (BillingOrder × BillingDate))
    → get input.order_id d.orders ≡ found
    → complete_found now input d found ≡ ok m
    → IsPaid d
    → IsPaid m.rows
unfolding complete_found complete_status
complete_found-IsPaid now input d none m g e p = cc
complete_found-IsPaid now input d (some o) m g e p = go o.status refl (ground arith)
  where
    new :
        o.status ≢ done
        → complete_new now input d o (active_row now (get o.tenant_id d.entitlements)) ≡ ok m
        → IsPaid m.rows
    new unpaid f =
        complete_new-IsPaid now input d p o g unpaid _ m
          (active_row-found now (get o.tenant_id d.entitlements)) f

    go :
        (status : OrderStatus)
        → o.status ≡ status
        → complete_status now input d o status ≡ ok m
        → IsPaid m.rows
    go canceled s f = cc
    go done s f = subst IsPaid (ground arith) p
    go created s f = new (λ k. ground (arith, k, s)) f
    go failed s f = new (λ k. ground (arith, k, s)) f
