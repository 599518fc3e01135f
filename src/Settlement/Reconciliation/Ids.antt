-- ===== src/Settlement/Reconciliation/Ids.antt =====
-- src/settlement/settlementReconciliation.ts: how many settlements the rows hold.
use online_seller_control_hu.Common.{
  ℕ, ◌+◌, ◌≡◌, refl, sym, subst, inl, inr, false, Option, none, some, List, [], ◌∷◌, ◌++◌, map,
  ◌==◌, eq_of_==, Text, text_eq, if◌then◌else◌, length, sum_by, includes, IsUnique, arith,
  Bool-cases, map-id,
}
use online_seller_control_hu.Common.Dicts.{Dict, get, HasUniqueKeys, get-none}
use online_seller_control_hu.Common.Sorting.{length-sort}
use online_seller_control_hu.Settlement.Amounts.{Amounts, text_le}
use online_seller_control_hu.Settlement.Rows.{
  status_eq, ExpectedSettlement, ActualAggregate, SettlementReconciliationRow,
}
use online_seller_control_hu.Settlement.Reconciliation.{
  order_key, expected_row, expected_rows, unexpected_rows,
}
use online_seller_control_hu.Settlement.Reconciliation.Aggregates.{ids_in, ids_of}
use online_seller_control_hu.Settlement.Reconciliation.Keys.{ids_in_rows}

module _ {A : Type 0} (m : Amounts A) where
  -- Each order has the number of settlements that its payouts hold.
  pub ids_wanted : Dict Text (ActualAggregate A) → List Text → ℕ
  ids_wanted d ks = sum_by (λ k. ids_in (get k d)) ks

  ids_wanted-cons :
      (j : Text) (a : ActualAggregate A) (d : Dict Text (ActualAggregate A)) (ks : List Text)
      → get j d ≡ none
      → IsUnique (λ k. k) ks
      → ids_wanted ((j, a) ∷ d) ks
        ≡ (if includes j ks then length a.settlement_ids else 0) + ids_wanted d ks
  unfolding ids_wanted get
  ids_wanted-cons j a d [] h u = refl
  ids_wanted-cons j a d (k ∷ ks) h u =
      let rest = ids_wanted-cons j a d ks h u.1 in
      elim (Bool-cases (j == k)) [
        | inr e ↦ ground (arith, e, rest)
        | inl e ↦
            let same = eq_of_== j k e in
            let gone : includes j ks ≡ false =
              subst (λ x. includes x ks ≡ false) (sym same)
                (subst (λ xs. includes k xs ≡ false) (map-id ks) u.0) in
            let none_here : get k d ≡ none = subst (λ x. get x d ≡ none) same h in
            ground (arith, e, rest, gone, none_here)
      ]

  -- Each settlement is in the row of an expected order or in a row that is not expected.
  ids_split :
      (d : Dict Text (ActualAggregate A)) (ks : List Text)
      → HasUniqueKeys d
      → IsUnique (λ k. k) ks
      → ids_wanted d ks + ids_in_rows m (unexpected_rows m ks d) ≡ ids_of d
  unfolding ids_wanted unexpected_rows get
  ids_split [] ks u v = no_ids ks
    where
      no_ids : (ks : List Text) → ids_wanted [] ks + 0 ≡ 0
      no_ids [] = refl
      no_ids (k ∷ ks) = omega (arith, no_ids ks)
  ids_split ((j, a) ∷ d) ks u v =
      let rest = ids_split d ks u.1 v in
      let first = ids_wanted-cons j a d ks (get-none j d u.0) v in
      let sorted = length-sort text_le a.settlement_ids in
      elim (Bool-cases (includes j ks)) [
        | inl e ↦ rw e (omega (arith, rest, rw e at first))
        | inr e ↦ rw e (omega (arith, rest, rw e at first, sorted))
      ]

  ids_expected :
      (tolerance : A) (d : Dict Text (ActualAggregate A)) (es : List (ExpectedSettlement A))
      → ids_in_rows m (expected_rows m tolerance d es) ≡ ids_wanted d (map (order_key m) es)
  unfolding expected_rows ids_wanted expected_row
  ids_expected tolerance d [] = refl
  ids_expected tolerance d (e ∷ es) =
      omega (arith, ids_expected tolerance d es, one (get (order_key m e) d))
    where
      one :
          (o : Option (ActualAggregate A))
          → length (expected_row m tolerance e o).settlement_ids ≡ ids_in o
      one none = refl
      one (some a) = length-sort text_le a.settlement_ids

  ids-append :
      (xs ys : List (SettlementReconciliationRow A))
      → ids_in_rows m (xs ++ ys) ≡ ids_in_rows m xs + ids_in_rows m ys
  ids-append [] ys = omega arith
  ids-append (x ∷ xs) ys = omega (arith, ids-append xs ys)

  pub ids_of_rows :
      (tolerance : A) (d : Dict Text (ActualAggregate A)) (es : List (ExpectedSettlement A))
      → HasUniqueKeys d
      → IsUnique (λ k. k) (map (order_key m) es)
      → ids_in_rows m (expected_rows m tolerance d es ++ unexpected_rows m (map (order_key m) es) d)
        ≡ ids_of d
  ids_of_rows tolerance d es u v =
      let ks = map (order_key m) es in
      omega (
        arith,
        ids-append (expected_rows m tolerance d es) (unexpected_rows m ks d),
        ids_expected tolerance d es,
        ids_split d ks u v,
      )
