-- ===== src/Settlement/Reconciliation/Statuses.antt =====
-- src/settlement/settlementReconciliation.ts: what the status of a row says.
use online_seller_control_hu.Common.{
  ◌+◌, ◌≡◌, refl, sym, ap, subst, ◌∙◌, inl, inr, Bool, true, false, not, Option, none, some, List,
  [], ◌∷◌, ◌==◌, Text, text_eq, length, includes, All, arith, Bool-cases,
}
use online_seller_control_hu.Common.Dicts.{Dict, get, keys}
use online_seller_control_hu.Settlement.Amounts.{Amounts}
use online_seller_control_hu.Settlement.Rows.{
  matched, missing, mismatch, unexpected, status_eq, Status-discrete, ExpectedSettlement,
  ActualAggregate, SettlementReconciliationRow,
}
use online_seller_control_hu.Settlement.Reconciliation.{
  order_key, expected_row, expected_rows, unexpected_rows, with_status,
}
use online_seller_control_hu.Settlement.Reconciliation.Aggregates.{IsKeyed}
use online_seller_control_hu.Settlement.Reconciliation.Keys.{row_key}

module _ {A : Type 0} (m : Amounts A) where
  -- Whether a row's order was expected, and whether it has payouts, as its status says.
  abbrev pub StatusFits :
      (expected_keys paid_keys : List Text) → SettlementReconciliationRow A → Type 0
  StatusFits wanted paid r =
      ((r.status == unexpected) ≡ not (includes (row_key m r) wanted))
      × ((r.status == missing) ≡ not (includes (row_key m r) paid))

  abbrev has_payouts : Option (ActualAggregate A) → Bool
  has_payouts none = false
  has_payouts (some a) = true

  get-keys :
      (k : Text) (d : Dict Text (ActualAggregate A)) → includes k (keys d) ≡ has_payouts (get k d)
  unfolding get
  get-keys k [] = refl
  get-keys k ((j, a) ∷ d) = ground (arith, get-keys k d)

  expected_row-status :
      (tolerance : A) (e : ExpectedSettlement A) (o : Option (ActualAggregate A))
      → let r = expected_row m tolerance e o in
        ((r.status == unexpected) ≡ false)
        × ((r.status == missing) ≡ not (has_payouts o))
        × (row_key m r ≡ order_key m e)
  unfolding expected_row Status-discrete
  expected_row-status tolerance e none = (refl, refl, refl)
  expected_row-status tolerance e (some a) = (ground arith, ground arith, refl)

  module _ (d : Dict Text (ActualAggregate A)) (wanted paid : List Text)
      (known : (k : Text) → includes k paid ≡ includes k (keys d)) where
    pub expected_rows-StatusFits :
        (tolerance : A) (es : List (ExpectedSettlement A))
        → All (λ e. includes (order_key m e) wanted ≡ true) es
        → All (StatusFits wanted paid) (expected_rows m tolerance d es)
    unfolding expected_rows
    expected_rows-StatusFits tolerance [] h = tt
    expected_rows-StatusFits tolerance (e ∷ es) h =
        let (other, gone, key) = expected_row-status tolerance e (get (order_key m e) d) in
        let here = known (order_key m e) ∙ get-keys (order_key m e) d in
        (
          (
            other ∙ ap not (sym (ap (λ k. includes k wanted) key ∙ h.0)),
            gone ∙ ap not (sym (ap (λ k. includes k paid) key ∙ here)),
          ),
          expected_rows-StatusFits tolerance es h.1,
        )

    pub unexpected_rows-StatusFits :
        (by_order : Dict Text (ActualAggregate A))
        → All IsKeyed by_order
        → All (λ e. includes e.0 paid ≡ true) by_order
        → All (StatusFits wanted paid) (unexpected_rows m wanted by_order)
    unfolding unexpected_rows Status-discrete
    unexpected_rows-StatusFits [] h k = tt
    unexpected_rows-StatusFits ((j, a) ∷ by_order) h k =
        let rest = unexpected_rows-StatusFits by_order h.1 k.1 in
        elim (Bool-cases (includes j wanted)) [
          | inl e ↦ rw e rest
          | inr e ↦ rw e (
            (
              ap not (sym (subst (λ x. includes x wanted ≡ false) h.0 e)),
              ap not (sym (subst (λ x. includes x paid ≡ true) h.0 k.0)),
            ),
            rest,
          )
        ]

  -- Each row has one status.
  pub statuses_total :
      (rows : List (SettlementReconciliationRow A))
      → with_status m matched rows
          + with_status m missing rows
          + with_status m mismatch rows
          + with_status m unexpected rows
        ≡ length rows
  unfolding Status-discrete
  statuses_total [] = refl
  statuses_total (r ∷ rows) = ground (arith, statuses_total rows)
