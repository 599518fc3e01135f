-- ===== src/Orders/Shipments/Chunks.antt =====
-- src/orders/shipmentBatch.ts: the calls carry each shipment once.
use mathlib.Core.List.{append-nil, append_assoc}
use online_seller_control_hu.Common.{
  All-append, All-take, All-drop, filter-append, ℕ, ◌+◌, ◌-◌, ◌≤◌, ◌≡◌, refl, sym, ◌∙◌, subst, inl,
  inr, zero, suc, false, ◌||◌, none, List, [], ◌∷◌, ◌++◌, ◌==◌, eq_of_==, text_eq, ok, length, drop,
  take-drop, length-drop, length-take-le, filter, ltb, arith, Bool-cases, All, returned-first,
  ok_injective, includes, ◌/◌,
}
use online_seller_control_hu.Common.Dicts.{Dict, get, get-none, keys}
use online_seller_control_hu.Common.Groups.{
  group_of, IsGrouped, filter-group, group_by-IsGrouped, group_of-group_by,
}
use online_seller_control_hu.Core.Types.{Market, market_eq}
use online_seller_control_hu.Orders.Shipments.{
  ShipmentInput, ShipmentApiBatch, Hashes, validate_shipment_batch, grouped,
  group_shipment_batch_by_market, slices, number_batches, batches_of, chunk_groups,
  chunk_shipment_batch_by_market,
}

abbrev pub items_of : List ShipmentApiBatch → List ShipmentInput
items_of [] = []
items_of (b ∷ bs) = b.items ++ items_of bs

abbrev pub of_market : Market → List ShipmentInput → List ShipmentInput
of_market m ss = filter (λ s. s.market == m) ss

-- The calls of one market carry its shipments in order.
items_of-slices :
    (h : Hashes) (m : Market) (count index rounds n : ℕ) (items : List ShipmentInput)
    → 1 ≤ n
    → length items ≤ rounds
    → items_of (number_batches h m count index (slices rounds n items)) ≡ items
unfolding slices number_batches
items_of-slices h m count index zero n [] one k = refl
items_of-slices h m count index zero n (s ∷ ss) one k = absurd (omega (arith, k))
items_of-slices h m count index (suc rounds) n [] one k = refl
items_of-slices h m count index (suc rounds) n (s ∷ ss) one k =
    rw
      (items_of-slices h m count (suc index) rounds n (drop n (s ∷ ss)) one
        (omega (arith, one, k, length-drop n (s ∷ ss))))
      (take-drop n (s ∷ ss))

-- A call for one marketplace: all its shipments are for that, of which it has one at least and no
-- more than are allowed. Its retry key repeats what the call says of itself.
pub record IsCall (n : ℕ) (b : ShipmentApiBatch) : Type 0 where
  pub at_least : 1 ≤ length b.items
  pub at_most : length b.items ≤ n
  pub market : All (λ s. s.market ≡ b.market) b.items
  pub retry_market : b.retry_key.market ≡ b.market
  pub retry_number : b.retry_key.number ≡ b.batch_index + 1
  pub retry_count : b.retry_key.batch_count ≡ b.batch_count

slices-IsCall :
    (h : Hashes) (m : Market) (count index rounds n : ℕ) (items : List ShipmentInput)
    → 1 ≤ n
    → All (λ s. s.market ≡ m) items
    → All (IsCall n) (number_batches h m count index (slices rounds n items))
unfolding slices number_batches
slices-IsCall h m count index zero n items one own = tt
slices-IsCall h m count index (suc rounds) n [] one own = tt
slices-IsCall h m count index (suc rounds) zero (s ∷ ss) one own = absurd (omega (arith, one))
slices-IsCall h m count index (suc rounds) (suc n) (s ∷ ss) one own = (
  record {
    at_least = omega arith;
    at_most = omega (arith, length-take-le n ss);
    market = (own.0, All-take (λ x. x.market ≡ m) n ss own.1);
    retry_market = refl;
    retry_number = refl;
    retry_count = refl;
  },
  slices-IsCall h m count (suc index) rounds (suc n) (drop n ss) one
      (All-drop (λ x. x.market ≡ m) n ss own.1),
)

items_of-append : (bs cs : List ShipmentApiBatch) → items_of (bs ++ cs) ≡ items_of bs ++ items_of cs
items_of-append [] cs = refl
items_of-append (b ∷ bs) cs =
    rw (items_of-append bs cs) (sym (append_assoc b.items (items_of bs) (items_of cs)))

-- The calls for all groups carry, of a market, the shipments of its group.
chunk_groups-of_market :
    (h : Hashes) (n : ℕ) (m : Market) (groups : Dict Market (List ShipmentInput))
    → 1 ≤ n
    → IsGrouped (λ s. s.market) groups
    → of_market m (items_of (chunk_groups h n groups)) ≡ group_of m groups
unfolding chunk_groups get
chunk_groups-of_market h n m [] one g = refl
chunk_groups-of_market h n m ((j, items) ∷ groups) one g =
    let rest =
      chunk_groups-of_market h n m groups one (record { unique = g.unique.1; own = g.own.1 }) in
    let here =
      items_of-slices h j ((length items + (n - 1)) / n) 0 (length items) n items one
        (omega arith) in
    rw
      (
        items_of-append (batches_of h n j items) (chunk_groups h n groups),
        here,
        filter-append (λ s. s.market == m) items (items_of (chunk_groups h n groups)),
        rest,
      )
      (elim (Bool-cases (j == m)) [
        | inl e ↦
            let same = eq_of_== j m e in
            let gone : get m groups ≡ none =
              get-none m groups (subst (λ k. includes k (keys groups) ≡ false) same g.unique.0) in
            rw (filter-group (λ s. s.market) j m items g.own.0, e, gone) (append-nil items)
        | inr e ↦ rw (filter-group (λ s. s.market) j m items g.own.0, e) refl
      ])

chunk_groups-IsCall :
    (h : Hashes) (n : ℕ) (groups : Dict Market (List ShipmentInput))
    → 1 ≤ n
    → IsGrouped (λ s. s.market) groups
    → All (IsCall n) (chunk_groups h n groups)
unfolding chunk_groups
chunk_groups-IsCall h n [] one g = tt
chunk_groups-IsCall h n ((m, items) ∷ groups) one g =
    All-append (IsCall n) (batches_of h n m items) (chunk_groups h n groups)
      (slices-IsCall h m _ 0 (length items) n items one g.own.0)
      (chunk_groups-IsCall h n groups one (record { own = g.own.1; unique = g.unique.1 }))

-- Where calls are planned, the shipments are valid; for each market the calls carry its shipments, each
-- once and in the given order. Each call is for one market, which is that of all its shipments; it
-- has at least one shipment and at most the number that is allowed for a call; and its retry key
-- names its market, its number from one on, and the count of calls that it carries.
pub chunk_shipment_batch_by_market-IsComplete :
    (h : Hashes) (input : List ShipmentInput) (n : ℕ) (batches : List ShipmentApiBatch) (m : Market)
    → chunk_shipment_batch_by_market h input n ≡ ok batches
    → (rows : List ShipmentInput) × (validate_shipment_batch input ≡ ok rows)
      × (of_market m (items_of batches) ≡ of_market m rows)
      × All (IsCall n) batches
unfolding chunk_shipment_batch_by_market group_shipment_batch_by_market get
chunk_shipment_batch_by_market-IsComplete h input n batches m e =
    elim (Bool-cases (ltb n 1 || ltb 500 n)) [
      | inl bad ↦ absurd (ground (arith, rw bad at e))
      | inr good ↦
          let one : 1 ≤ n = ground (arith, good) in
          let (groups, made, collected) =
            returned-first _ (group_shipment_batch_by_market input) (rw good at e) in
          let (rows, gathered, valid) =
            returned-first _ (validate_shipment_batch input) collected in
          let g : grouped rows ≡ groups = ok_injective gathered in
          let b : chunk_groups h n groups ≡ batches = ok_injective made in
          let whole =
            group_by-IsGrouped (λ s. s.market) [] rows (record { unique = tt; own = tt }) in
          (
            rows,
            valid,
            subst (λ bs. of_market m (items_of bs) ≡ of_market m rows) b
                (subst (λ gs. of_market m (items_of (chunk_groups h n gs)) ≡ of_market m rows) g
                  (chunk_groups-of_market h n m (grouped rows) one whole
                    ∙ group_of-group_by (λ s. s.market) m [] rows)),
            subst (All (IsCall n)) b (
                subst (λ gs. All (IsCall n) (chunk_groups h n gs)) g
                  (chunk_groups-IsCall h n (grouped rows) one whole)),
          )
    ]
