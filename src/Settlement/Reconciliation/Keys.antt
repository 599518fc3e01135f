-- ===== src/Settlement/Reconciliation/Keys.antt =====
-- src/settlement/settlementReconciliation.ts: the orders of the rows.
use online_seller_control_hu.Common.{
  ℕ, ◌≡◌, refl, sym, ap, subst, inl, inr, true, false, ◌&&◌, ◌||◌, not, Option, none, some, List,
  [], ◌∷◌, ◌++◌, map, ◌==◌, eq_of_==, ==_refl, Text, text_eq, length, sum_by, includes, IsUnique,
  All, arith, Bool-cases,
}
use online_seller_control_hu.Common.Dicts.{Dict, get, keys, HasUniqueKeys}
use online_seller_control_hu.Core.Types.{market_key}
use online_seller_control_hu.Settlement.Amounts.{Amounts}
use online_seller_control_hu.Settlement.Rows.{
  status_eq, ExpectedSettlement, ActualAggregate, SettlementReconciliationRow,
}
use online_seller_control_hu.Settlement.Reconciliation.{
  order_key, expected_row, expected_rows, unexpected_rows,
}
use online_seller_control_hu.Settlement.Reconciliation.Aggregates.{IsKeyed}

module _ {A : Type 0} (m : Amounts A) where
  abbrev pub row_key : SettlementReconciliationRow A → Text
  row_key r = market_key r.market r.order_id

  -- How many settlements the rows hold.
  abbrev pub ids_in_rows : List (SettlementReconciliationRow A) → ℕ
  ids_in_rows rows = sum_by (λ r. length r.settlement_ids) rows

  expected_row-key :
      (tolerance : A) (e : ExpectedSettlement A) (o : Option (ActualAggregate A))
      → row_key (expected_row m tolerance e o) ≡ order_key m e
  unfolding expected_row
  expected_row-key tolerance e none = refl
  expected_row-key tolerance e (some a) = refl

  pub expected_rows-keys :
      (tolerance : A) (d : Dict Text (ActualAggregate A)) (es : List (ExpectedSettlement A))
      → map row_key (expected_rows m tolerance d es) ≡ map (order_key m) es
  unfolding expected_rows
  expected_rows-keys tolerance d [] = refl
  expected_rows-keys tolerance d (e ∷ es) =
      rw (expected_row-key tolerance e (get (order_key m e) d), expected_rows-keys tolerance d es)
        refl

  pub unexpected_rows-keys :
      (k : Text) (ks : List Text) (d : Dict Text (ActualAggregate A))
      → All IsKeyed d
      → includes k (map row_key (unexpected_rows m ks d))
        ≡ (not (includes k ks) && includes k (keys d))
  unfolding unexpected_rows
  unexpected_rows-keys k ks [] h = ground arith
  unexpected_rows-keys k ks ((j, a) ∷ d) h =
      let rest = unexpected_rows-keys k ks d h.1 in
      elim (Bool-cases (includes j ks)) [
        | inl e ↦ elim (Bool-cases (k == j)) [
          | inl f ↦ ground (arith, e, rest, f, ap (λ (x : Text). includes x ks) (eq_of_== k j f))
          | inr f ↦ ground (arith, e, rest, f)
        ]
        | inr e ↦ elim (Bool-cases (k == j)) [
          | inl f ↦
              ground (arith, e, rest, f, h.0, ap (λ (x : Text). includes x ks) (eq_of_== k j f))
          | inr f ↦ ground (arith, e, rest, f, h.0)
        ]
      ]

  unexpected_rows-IsUnique :
      (ks : List Text) (d : Dict Text (ActualAggregate A))
      → All IsKeyed d
      → HasUniqueKeys d
      → IsUnique row_key (unexpected_rows m ks d)
  unfolding unexpected_rows
  unexpected_rows-IsUnique ks [] h u = tt
  unexpected_rows-IsUnique ks ((j, a) ∷ d) h u = elim (Bool-cases (includes j ks)) [
    | inl e ↦ rw e (unexpected_rows-IsUnique ks d h.1 u.1)
    | inr e ↦
        let fresh : includes (market_key a.market a.order_id) (map row_key (unexpected_rows m ks d))
            ≡ false =
          subst (λ k. includes k (map row_key (unexpected_rows m ks d)) ≡ false) h.0
            (ground (arith, unexpected_rows-keys j ks d h.1, u.0)) in
        rw e (fresh, unexpected_rows-IsUnique ks d h.1 u.1)
  ]

  pub includes-append :
      (k : Text) (xs ys : List (SettlementReconciliationRow A))
      → includes k (map row_key (xs ++ ys))
        ≡ (includes k (map row_key xs) || includes k (map row_key ys))
  includes-append k [] ys = refl
  includes-append k (x ∷ xs) ys = ground (arith, includes-append k xs ys)

  -- Rows whose keys are all among `ks`, before rows whose keys are not.
  IsUnique-append :
      (ks : List Text) (xs ys : List (SettlementReconciliationRow A))
      → IsUnique row_key xs
      → IsUnique row_key ys
      → All (λ r. includes (row_key r) ks ≡ true) xs
      → ((k : Text) → includes k ks ≡ true → includes k (map row_key ys) ≡ false)
      → IsUnique row_key (xs ++ ys)
  IsUnique-append ks [] ys u v h apart = v
  IsUnique-append ks (x ∷ xs) ys u v h apart = (
    ground (arith, includes-append (row_key x) xs ys, u.0, apart (row_key x) h.0),
    IsUnique-append ks xs ys u.1 v h.1 apart,
  )

  IsUnique-of_keys :
      (rs : List (SettlementReconciliationRow A)) (es : List (ExpectedSettlement A))
      → map row_key rs ≡ map (order_key m) es
      → IsUnique (order_key m) es
      → IsUnique row_key rs
  IsUnique-of_keys [] es e u = tt
  IsUnique-of_keys (r ∷ rs) [] e u = cc
  IsUnique-of_keys (r ∷ rs) (x ∷ es) e u =
      let head : row_key r ≡ order_key m x = cc in
      let tail : map row_key rs ≡ map (order_key m) es = cc in
      (
        subst (λ ks. includes (row_key r) ks ≡ false) (sym tail)
            (subst (λ k. includes k (map (order_key m) es) ≡ false) (sym head) u.0),
        IsUnique-of_keys rs es tail u.1,
      )

  all-included :
      (ks : List Text) (rs : List (SettlementReconciliationRow A))
      → ((k : Text) → includes k (map row_key rs) ≡ true → includes k ks ≡ true)
      → All (λ r. includes (row_key r) ks ≡ true) rs
  all-included ks [] h = tt
  all-included ks (r ∷ rs) h = (
    h (row_key r) (ground (arith, ==_refl (row_key r))),
    all-included ks rs (λ k i. h k (ground (arith, i))),
  )

  -- The rows before they are sorted.
  module _ (tolerance : A) (d : Dict Text (ActualAggregate A)) (es : List (ExpectedSettlement A))
      (keyed : All IsKeyed d) where
    abbrev pub ks : List Text
    ks = map (order_key m) es

    pub rows-keys :
        (k : Text)
        → includes k (map row_key (expected_rows m tolerance d es ++ unexpected_rows m ks d))
          ≡ (includes k ks || includes k (keys d))
    rows-keys k = ground (
      arith,
      includes-append k (expected_rows m tolerance d es) (unexpected_rows m ks d),
      ap (includes k) (expected_rows-keys tolerance d es),
      unexpected_rows-keys k ks d keyed,
    )

    pub rows-IsUnique :
        HasUniqueKeys d
        → IsUnique (order_key m) es
        → IsUnique row_key (expected_rows m tolerance d es ++ unexpected_rows m ks d)
    rows-IsUnique u v =
        IsUnique-append ks (expected_rows m tolerance d es) (unexpected_rows m ks d)
          (IsUnique-of_keys (expected_rows m tolerance d es) es (expected_rows-keys tolerance d es)
            v)
          (unexpected_rows-IsUnique ks d keyed u)
          (all-included ks (expected_rows m tolerance d es)
            (λ k i. subst (λ js. includes k js ≡ true) (expected_rows-keys tolerance d es) i))
          (λ k i. ground (arith, unexpected_rows-keys k ks d keyed, i))
