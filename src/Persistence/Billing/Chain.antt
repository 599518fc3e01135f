-- ===== src/Persistence/Billing/Chain.antt =====
-- src/persistence/billingStore.ts: the orders that stand behind an entitlement. The last paid order of
-- a tenant names the one before it, and so on.
use online_seller_control_hu.Common.{
  ◌≡◌, ◌≢◌, refl, sym, ◌∙◌, ap, inl, inr, false, Option, none, some, List, [], ◌∷◌, Text, text_eq,
  includes, arith, ◌==◌, Bool-cases, eq_of_==,
}
use online_seller_control_hu.Common.Dicts.{Dict, get, set, get-set}
use online_seller_control_hu.Persistence.Billing.{BillingOrder, BillingData, EntitlementRow, done}

abbrev pub head : List Text → Option Text
head [] = none
head (id ∷ _) = some id

-- The identifier of a paid order of the tenant, which names the next of the chain if any.
pub record IsLink (orders : Dict Text BillingOrder) (tenant_id id : Text) (rest : List Text)
    : Type 0 where
  pub order : BillingOrder
  pub found : get id orders ≡ some order
  pub paid : order.status ≡ done
  pub owned : order.tenant_id ≡ tenant_id
  pub previous : (p : Text) → order.previous_order_id ≡ some p → head rest ≡ some p
  pub once : includes id rest ≡ false

abbrev pub IsChain : Dict Text BillingOrder → Text → List Text → Type 0
IsChain orders tenant_id [] = Unit
IsChain orders tenant_id (id ∷ rest) =
    IsLink orders tenant_id id rest × IsChain orders tenant_id rest

module _ (orders : Dict Text BillingOrder) (id : Text) where
  IsLink-set :
      (order : BillingOrder) (tenant_id i : Text) (rest : List Text)
      → (i == id) ≡ false
      → IsLink orders tenant_id i rest
      → IsLink (set id order orders) tenant_id i rest
  IsLink-set order tenant_id i rest ne l = record {
    order = l.order;
    found = ground (arith, get-set id i order orders, l.found);
    paid = l.paid;
    owned = l.owned;
    previous = l.previous;
    once = l.once;
  }

  -- A chain does not see a change of an order outside of it.
  pub set-IsChain :
      (order : BillingOrder) (tenant_id : Text) (ids : List Text)
      → includes id ids ≡ false
      → IsChain orders tenant_id ids
      → IsChain (set id order orders) tenant_id ids
  set-IsChain order tenant_id [] h c = tt
  set-IsChain order tenant_id (i ∷ ids) h c = (
    IsLink-set order tenant_id i ids (ground arith) c.0,
    set-IsChain order tenant_id ids (ground arith) c.1,
  )

  -- An order that is not paid, or that is another tenant's, is outside.
  pub unpaid_outside :
      (tenant_id : Text) (ids : List Text)
      → ((o : BillingOrder) → get id orders ≡ some o → o.status ≢ done)
      → IsChain orders tenant_id ids
      → includes id ids ≡ false
  unpaid_outside tenant_id [] h c = refl
  unpaid_outside tenant_id (i ∷ ids) h c = elim (Bool-cases (id == i)) [
    | inl e ↦ absurd (h c.0.order (ap (λ k. get k orders) (eq_of_== id i e) ∙ c.0.found) c.0.paid)
    | inr e ↦ ground (arith, unpaid_outside tenant_id ids h c.1)
  ]

  pub other_tenant_outside :
      (tenant_id : Text) (ids : List Text) (order : BillingOrder)
      → get id orders ≡ some order
      → order.tenant_id ≢ tenant_id
      → IsChain orders tenant_id ids
      → includes id ids ≡ false
  other_tenant_outside tenant_id [] order g ne c = refl
  other_tenant_outside tenant_id (i ∷ ids) order g ne c = elim (Bool-cases (id == i)) [
    | inl e ↦
        let same : some order ≡ some c.0.order =
          sym g ∙ ap (λ k. get k orders) (eq_of_== id i e) ∙ c.0.found in
        let order_same : order ≡ c.0.order = cc in
        absurd (ne (ap BillingOrder.tenant_id order_same ∙ c.0.owned))
    | inr e ↦ ground (arith, other_tenant_outside tenant_id ids order g ne c.1)
  ]

-- An entitlement whose orders are all paid and the tenant's.
abbrev pub IsProven : Dict Text BillingOrder → Text → EntitlementRow → Type 0
IsProven orders tenant_id row =
    (rest : List Text) × IsChain orders tenant_id (row.last_order_id ∷ rest)

pub record IsPaid (d : BillingData) : Type 0 where
  pub keyed : (id : Text) (o : BillingOrder) → get id d.orders ≡ some o → o.order_id ≡ id
  pub proven :
      (t : Text) (row : EntitlementRow) → get t d.entitlements ≡ some row → IsProven d.orders t row
