-- ===== src/Settlement/Reconciliation/Complete.antt =====
-- src/settlement/settlementReconciliation.ts: every order has one row, and every settlement is in one.
use Prim.Native.Nat.{Ordering}
use online_seller_control_hu.Common.{
  ◌+◌, ◌≡◌, refl, sym, ap, subst, ◌∙◌, inl, inr, Bool, true, false, ◌||◌, List, [], ◌∷◌, map,
  ==_refl, Text, text_eq, length, includes, IsUnique, All, All-append, arith, Bool-cases, Result,
  ok, throw, Issue, parse, parse_iff, map-id, returned-first, ok_injective,
}
use online_seller_control_hu.Common.Dicts.{Dict, keys, HasUniqueKeys}
use online_seller_control_hu.Common.Sorting.{
  sort, sum_by-sort, sort-IsUnique, includes-sort, All-sort,
}
use online_seller_control_hu.Core.Types.{market_key}
use online_seller_control_hu.Settlement.Amounts.{Amounts}
use online_seller_control_hu.Settlement.Rows.{
  status_eq, ExpectedSettlement, ActualSettlement, ActualAggregate, SettlementReconciliationRow,
  SettlementReconciliationReport, ReconciliationInput,
}
use online_seller_control_hu.Settlement.Reconciliation.{
  aggregate_from, order_key, expected_rows, unexpected_rows, pushed_rows, report_of, row_before,
  reconcile_settlements, parse_input, input_parsed, expected_schema,
}
use online_seller_control_hu.Settlement.Reconciliation.Aggregates.{
  IsKeyed, ids_of-aggregate_from, aggregate_from-HasUniqueKeys, keys-aggregate_from,
  aggregate_from-IsKeyed,
}
use online_seller_control_hu.Settlement.Reconciliation.Keys.{
  row_key, ids_in_rows, rows-keys, rows-IsUnique,
}
use online_seller_control_hu.Settlement.Reconciliation.Statuses.{
  StatusFits, expected_rows-StatusFits, unexpected_rows-StatusFits, statuses_total,
}
use online_seller_control_hu.Settlement.Reconciliation.Ids.{ids_of_rows}

module _ {A : Type 0} (m : Amounts A) where
  abbrev pub paid_key : ActualSettlement A → Text
  paid_key r = market_key r.market r.order_id

  -- What the rows say of the input, whatever their order.
  pub record IsComplete (input : ReconciliationInput A)
      (rows : List (SettlementReconciliationRow A)) : Type 0 where
    pub unique : IsUnique (row_key m) rows
    pub orders :
        (k : Text)
        → includes k (map (row_key m) rows) ≡ (
            includes k (map (order_key m) input.expected) || includes k (map paid_key input.actual))
    pub statuses :
        All (StatusFits m (map (order_key m) input.expected) (map paid_key input.actual)) rows
    pub settlements : ids_in_rows m rows ≡ length input.actual

  all-wanted :
      (ks : List Text) (es : List (ExpectedSettlement A))
      → ((k : Text) → includes k (map (order_key m) es) ≡ true → includes k ks ≡ true)
      → All (λ e. includes (order_key m e) ks ≡ true) es
  all-wanted ks [] h = tt
  all-wanted ks (e ∷ es) h = (
    h (order_key m e) (ground (arith, ==_refl (order_key m e))),
    all-wanted ks es (λ k i. h k (ground (arith, i))),
  )

  keys-IsUnique :
      (es : List (ExpectedSettlement A))
      → IsUnique (order_key m) es
      → IsUnique (λ k. k) (map (order_key m) es)
  keys-IsUnique [] u = tt
  keys-IsUnique (e ∷ es) u = (
    subst (λ ks. includes (order_key m e) ks ≡ false) (sym (map-id (map (order_key m) es))) u.0,
    keys-IsUnique es u.1,
  )

  all-paid :
      (paid : List Text) (d : Dict Text (ActualAggregate A))
      → ((k : Text) → includes k (keys d) ≡ true → includes k paid ≡ true)
      → All (λ e. includes e.0 paid ≡ true) d
  all-paid paid [] h = tt
  all-paid paid ((j, a) ∷ d) h =
      (h j (ground (arith, ==_refl j)), all-paid paid d (λ k i. h k (ground (arith, i))))

  -- The rows as they are pushed.
  pushed_rows-IsComplete :
      (input : ReconciliationInput A)
      → IsUnique (order_key m) input.expected
      → IsComplete input (pushed_rows m input)
  unfolding pushed_rows
  pushed_rows-IsComplete input u =
      let d = aggregate_from m [] input.actual in
      let ks = map (order_key m) input.expected in
      let paid = map paid_key input.actual in
      let keyed : All IsKeyed d = aggregate_from-IsKeyed m [] input.actual tt in
      let own : HasUniqueKeys d = aggregate_from-HasUniqueKeys m [] input.actual tt in
      let known : (k : Text) → includes k (keys d) ≡ includes k paid =
        λ k. keys-aggregate_from m k [] input.actual in
      record {
        unique = rows-IsUnique m input.tolerance d input.expected keyed own u;
        orders = λ k.
            rows-keys m input.tolerance d input.expected keyed k
            ∙ ap (λ b. includes k ks || b) (known k);
        statuses =
            All-append (StatusFits m ks paid) (expected_rows m input.tolerance d input.expected)
              (unexpected_rows m ks d)
              (expected_rows-StatusFits m d ks paid (λ k. sym (known k)) input.tolerance
                input.expected (all-wanted ks input.expected (λ k i. i)))
              (unexpected_rows-StatusFits m d ks paid (λ k. sym (known k)) d keyed
                (all-paid paid d (λ k i. sym (known k) ∙ i)));
        settlements =
            ids_of_rows m input.tolerance d input.expected own (keys-IsUnique input.expected u)
            ∙ ids_of-aggregate_from m [] input.actual
            ∙ omega arith;
      }

  sort-IsComplete :
      (le : SettlementReconciliationRow A → SettlementReconciliationRow A → Bool)
      (input : ReconciliationInput A) (rows : List (SettlementReconciliationRow A))
      → IsComplete input rows
      → IsComplete input (sort le rows)
  sort-IsComplete le input rows c = record {
    unique = sort-IsUnique (row_key m) le rows c.unique;
    orders = λ k. includes-sort (row_key m) le k rows ∙ c.orders k;
    statuses = All-sort _ le rows c.statuses;
    settlements = sum_by-sort (λ r. length r.settlement_ids) le rows ∙ c.settlements;
  }

  input_parsed-expected :
      (tolerance : A) (a : Result (List Issue) (List (ExpectedSettlement A)))
      (b : Result (List Issue) (List (ActualSettlement A))) (parsed : ReconciliationInput A)
      → input_parsed m tolerance a b ≡ ok parsed
      → a ≡ ok parsed.expected
  unfolding input_parsed
  input_parsed-expected tolerance (ok es) (ok paid) parsed h =
      elim (Bool-cases (m.is_tolerance tolerance)) [
        | inr e ↦ absurd (ground (arith, rw e at h))
        | inl e ↦ ap (λ (i : ReconciliationInput A). ok i.expected) (ok_injective (rw e at h))
      ]
  input_parsed-expected tolerance (ok es) (throw f) parsed h = cc
  input_parsed-expected tolerance (throw e) (ok paid) parsed h = cc
  input_parsed-expected tolerance (throw e) (throw f) parsed h = cc

  input_parsed-IsUnique :
      (input parsed : ReconciliationInput A)
      → parse_input m input ≡ ok parsed
      → IsUnique (order_key m) parsed.expected
  unfolding parse_input
  input_parsed-IsUnique input parsed h =
      let read =
        input_parsed-expected input.tolerance (parse (expected_schema m) 0 5000 input.expected) _
          parsed h in
      ((parse_iff (expected_schema m) 0 5000 input.expected parsed.expected).0 read).1.unique

  -- Where settlements are reconciled, the input is valid; each order that was expected or paid has one
  -- row, and no other order has one; a row is missing just if its order has no payout, and
  -- unexpected just if its order was not expected; the rows hold as many settlements as were
  -- paid; and the counts of the four states add up to the number of orders.
  pub reconcile_settlements-IsComplete :
      (locale_compare : Text → Text → Ordering) (input : ReconciliationInput A)
      (report : SettlementReconciliationReport A)
      → reconcile_settlements m locale_compare input ≡ ok report
      → (parsed : ReconciliationInput A) × (parse_input m input ≡ ok parsed)
        × IsComplete parsed report.rows
        × (report.summary.matched + report.summary.missing + report.summary.mismatch
              + report.summary.unexpected
            ≡ report.summary.total_orders)
        × (report.summary.total_orders ≡ length report.rows)
  unfolding reconcile_settlements report_of
  reconcile_settlements-IsComplete locale_compare input report h =
      let (parsed, made, valid) = returned-first _ (parse_input m input) h in
      let le = row_before m locale_compare in
      let rows = sort le (pushed_rows m parsed) in
      let made_is : report_of m rows ≡ report = ok_injective made in
      let complete =
        sort-IsComplete le parsed (pushed_rows m parsed)
          (pushed_rows-IsComplete parsed (input_parsed-IsUnique input parsed valid)) in
      (
        parsed,
        valid,
        subst (λ (r : SettlementReconciliationReport A). IsComplete parsed r.rows) made_is complete,
        subst
            (λ (r : SettlementReconciliationReport A).
              r.summary.matched + r.summary.missing + r.summary.mismatch + r.summary.unexpected
              ≡ r.summary.total_orders)
            made_is (statuses_total m rows),
        subst (λ (r : SettlementReconciliationReport A). r.summary.total_orders ≡ length r.rows)
            made_is refl,
      )
