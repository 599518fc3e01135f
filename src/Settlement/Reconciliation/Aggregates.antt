-- ===== src/Settlement/Reconciliation/Aggregates.antt =====
-- src/settlement/settlementReconciliation.ts: the payouts of each order hold every settlement once.
use online_seller_control_hu.Common.{
  ℕ, ◌+◌, ◌≡◌, refl, sym, ap, ◌∙◌, inl, inr, ◌||◌, Option, none, some, List, [], ◌∷◌, map, ◌==◌,
  eq_of_==, Text, text_eq, length, length-append, sum_by, includes, All, arith, Bool-cases, or_else,
}
use online_seller_control_hu.Common.Dicts.{
  Dict, get, set, keys, HasUniqueKeys, keys-set, set-HasUniqueKeys, All-set,
}
use online_seller_control_hu.Core.Types.{market_key}
use online_seller_control_hu.Settlement.Amounts.{Amounts}
use online_seller_control_hu.Settlement.Rows.{ActualSettlement, ActualAggregate}
use online_seller_control_hu.Settlement.Reconciliation.{aggregate_from, with_actual, no_aggregate}

module _ {A : Type 0} where
  abbrev pub ids_in : Option (ActualAggregate A) → ℕ
  ids_in none = 0
  ids_in (some a) = length a.settlement_ids

  -- How many settlements the payouts of all orders hold.
  abbrev pub ids_of : Dict Text (ActualAggregate A) → ℕ
  ids_of by_order = sum_by (λ e. length e.1.settlement_ids) by_order

  ids_of-set :
      (key : Text) (a : ActualAggregate A) (d : Dict Text (ActualAggregate A))
      → ids_of (set key a d) + ids_in (get key d) ≡ ids_of d + length a.settlement_ids
  unfolding set get
  ids_of-set key a [] = omega arith
  ids_of-set key a ((j, b) ∷ d) = ground (arith, ids_of-set key a d)

  -- The payouts stand under the key of their order.
  abbrev pub IsKeyed : Text × ActualAggregate A → Type 0
  IsKeyed e = e.0 ≡ market_key e.1.market e.1.order_id

module _ {A : Type 0} (m : Amounts A) where
  abbrev next : ActualSettlement A → Dict Text (ActualAggregate A) → ActualAggregate A
  next r d = with_actual m r (or_else (get (market_key r.market r.order_id) d) (no_aggregate m r))

  next-ids :
      (r : ActualSettlement A) (o : Option (ActualAggregate A))
      → length (with_actual m r (or_else o (no_aggregate m r))).settlement_ids ≡ ids_in o + 1
  next-ids r none = refl
  next-ids r (some a) = length-append a.settlement_ids (r.settlement_id ∷ [])

  pub ids_of-aggregate_from :
      (d : Dict Text (ActualAggregate A)) (rs : List (ActualSettlement A))
      → ids_of (aggregate_from m d rs) ≡ ids_of d + length rs
  unfolding aggregate_from
  ids_of-aggregate_from d [] = omega arith
  ids_of-aggregate_from d (r ∷ rs) =
      let key = market_key r.market r.order_id in
      omega (
        arith,
        ids_of-aggregate_from (set key (next r d) d) rs,
        ids_of-set key (next r d) d,
        next-ids r (get key d),
      )

  pub aggregate_from-HasUniqueKeys :
      (d : Dict Text (ActualAggregate A)) (rs : List (ActualSettlement A))
      → HasUniqueKeys d
      → HasUniqueKeys (aggregate_from m d rs)
  unfolding aggregate_from
  aggregate_from-HasUniqueKeys d [] u = u
  aggregate_from-HasUniqueKeys d (r ∷ rs) u =
      let key = market_key r.market r.order_id in
      aggregate_from-HasUniqueKeys (set key (next r d) d) rs (set-HasUniqueKeys key (next r d) d u)

  pub keys-aggregate_from :
      (k : Text) (d : Dict Text (ActualAggregate A)) (rs : List (ActualSettlement A))
      → includes k (keys (aggregate_from m d rs))
        ≡ (includes k (keys d) || includes k (map (λ r. market_key r.market r.order_id) rs))
  unfolding aggregate_from
  keys-aggregate_from k d [] = ground arith
  keys-aggregate_from k d (r ∷ rs) =
      let key = market_key r.market r.order_id in
      keys-aggregate_from k (set key (next r d) d) rs ∙ ground (arith, keys-set key k (next r d) d)

  next-key :
      (r : ActualSettlement A) (o : Option (ActualAggregate A))
      → ((a : ActualAggregate A)
          → o ≡ some a
          → market_key r.market r.order_id ≡ market_key a.market a.order_id)
      → let a = with_actual m r (or_else o (no_aggregate m r)) in
        market_key r.market r.order_id ≡ market_key a.market a.order_id
  next-key r none h = refl
  next-key r (some a) h = h a refl

  get-IsKeyed :
      (key : Text) (a : ActualAggregate A) (d : Dict Text (ActualAggregate A))
      → All IsKeyed d
      → get key d ≡ some a
      → key ≡ market_key a.market a.order_id
  unfolding get
  get-IsKeyed key a [] h g = cc
  get-IsKeyed key a ((j, b) ∷ d) h g = elim (Bool-cases (j == key)) [
    | inr e ↦ get-IsKeyed key a d h.1 (rw e at g)
    | inl e ↦
        let same : some b ≡ some a = rw e at g in
        sym (eq_of_== j key e)
        ∙ h.0
        ∙ ap
            (λ (o : Option (ActualAggregate A)). elim o [
              | some c ↦ market_key c.market c.order_id
              | none ↦ []
            ])
            same
  ]

  pub aggregate_from-IsKeyed :
      (d : Dict Text (ActualAggregate A)) (rs : List (ActualSettlement A))
      → All IsKeyed d
      → All IsKeyed (aggregate_from m d rs)
  unfolding aggregate_from
  aggregate_from-IsKeyed d [] h = h
  aggregate_from-IsKeyed d (r ∷ rs) h =
      let key = market_key r.market r.order_id in
      aggregate_from-IsKeyed (set key (next r d) d) rs (
        All-set IsKeyed key (next r d) d (next-key r (get key d) (λ a e. get-IsKeyed key a d h e))
          h)
