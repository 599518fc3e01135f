-- ===== src/Persistence/Snapshots/Calls.antt =====
-- src/persistence/orderSnapshotStore.ts: what the calls of `merge` do, in any order.
use online_seller_control_hu.Common.{
  ◌≡◌, sym, ap, subst, inl, inr, List, [], ◌∷◌, Text, text_eq, HasNo, every, All, Bool-cases,
  Result, ok, ok_injective, trim, is_empty, arith,
}
use online_seller_control_hu.Common.Sorting.{IsOrder}
use online_seller_control_hu.Persistence.Files.{
  Writes, Mutation, Store, QueueError, enqueue_mutation,
}
use online_seller_control_hu.Persistence.Files.Sync.{enqueue_mutation_rows, enqueue_mutation_answer}
use online_seller_control_hu.Persistence.Snapshots.{
  Runtime, OrderSnapshotInput, OrderSnapshotRow, OrderSnapshotMergeResult, MergeError, is_valid,
  merge_rows, merge, count,
}
use online_seller_control_hu.Persistence.Snapshots.Limits.{IsPruned}
use online_seller_control_hu.Persistence.Snapshots.Kept.{
  IsMerged, nothing-IsMerged, merge_rows-IsMerged, merge_rows-IsPruned,
}

pub record MergeCall (N : Type 0) : Type 0 where
  pub writes : Writes
  pub now : Text
  pub tenant_id : Text
  pub items : List (OrderSnapshotInput N)

-- The tenant of the call has no zero unit in its name.
abbrev pub IsClear : {N : Type 0} → MergeCall N → Type 0
IsClear call = HasNo 0 (trim call.tenant_id)

module _ {N : Type 0} (js : Runtime N) where
  abbrev pub serve_merge :
      MergeCall N
      → Store (List (OrderSnapshotRow N))
      → Result (QueueError MergeError) OrderSnapshotMergeResult × Store (List (OrderSnapshotRow N))
  serve_merge call s = merge js call.writes call.now call.tenant_id call.items s

  unfoldable pub run_merges :
      List (MergeCall N) → Store (List (OrderSnapshotRow N)) → Store (List (OrderSnapshotRow N))
  run_merges [] s = s
  run_merges (call ∷ calls) s = run_merges calls (serve_merge call s).1

  abbrev queued :
      MergeCall N
      → Store (List (OrderSnapshotRow N))
      → Result (QueueError MergeError) OrderSnapshotMergeResult × Store (List (OrderSnapshotRow N))
  queued call s =
      enqueue_mutation call.writes
        (λ rows. ok (merge_rows js (trim call.tenant_id) call.now call.items rows)) s

  queued-IsPruned :
      (call : MergeCall N) (s : Store (List (OrderSnapshotRow N)))
      → IsClear call
      → IsPruned s.rows
      → IsPruned (queued call s).1.rows
  queued-IsPruned call s clear p =
      let t = trim call.tenant_id in
      let mutate : List (OrderSnapshotRow N)
          → Result MergeError (Mutation (List (OrderSnapshotRow N)) OrderSnapshotMergeResult) =
        λ rows. ok (merge_rows js t call.now call.items rows) in
      elim (enqueue_mutation_rows call.writes mutate s) [
        | inl old ↦ rw old p
        | inr (n, made, new) ↦ subst IsPruned (sym new) (
            subst (λ m. IsPruned m.rows) (ok_injective made)
              (merge_rows-IsPruned js t call.now clear call.items s.rows p))
      ]

  serve_merge-IsPruned :
      (call : MergeCall N) (s : Store (List (OrderSnapshotRow N)))
      → IsClear call
      → IsPruned s.rows
      → IsPruned (serve_merge call s).1.rows
  unfolding merge
  serve_merge-IsPruned call s clear p =
      let q = queued-IsPruned call s clear p in
      elim (Bool-cases (is_empty (trim call.tenant_id))) [
        | inl a ↦ rw a p
        | inr a ↦ elim (Bool-cases (every (is_valid js) call.items)) [
          | inr b ↦ rw (a, b) p
          | inl b ↦ elim (Bool-cases (is_empty call.items)) [
            | inl c ↦ rw (a, b, c) p
            | inr c ↦ rw (a, b, c) q
          ]
        ]
      ]

  run_merges-IsPruned :
      (calls : List (MergeCall N)) (s : Store (List (OrderSnapshotRow N)))
      → All IsClear calls
      → IsPruned s.rows
      → IsPruned (run_merges calls s).rows
  unfolding run_merges
  run_merges-IsPruned [] s clear p = p
  run_merges-IsPruned (call ∷ calls) s clear p =
      run_merges-IsPruned calls (serve_merge call s).1 clear.1
        (serve_merge-IsPruned call s clear.0 p)

  module _ (order : IsOrder js.locale_le) where
    queued-IsMerged :
        (call : MergeCall N) (s : Store (List (OrderSnapshotRow N)))
        (result : OrderSnapshotMergeResult)
        → IsClear call
        → IsPruned s.rows
        → (queued call s).0 ≡ ok result
        → IsMerged js (trim call.tenant_id) call.now call.items s.rows result (queued call s).1.rows
    unfolding merge_rows
    queued-IsMerged call s result clear p h =
        let t = trim call.tenant_id in
        let mutate : List (OrderSnapshotRow N)
            → Result MergeError (Mutation (List (OrderSnapshotRow N)) OrderSnapshotMergeResult) =
          λ rows. ok (merge_rows js t call.now call.items rows) in
        let (n, made, answer, written) = enqueue_mutation_answer call.writes mutate s h in
        let same = ok_injective made in
        let after = written (ap (λ m. m.persist) (sym same)) in
        let merged = merge_rows-IsMerged js order t call.now clear call.items s.rows p in
        subst (λ r. IsMerged js t call.now call.items s.rows r (queued call s).1.rows) answer
          (subst (λ rows. IsMerged js t call.now call.items s.rows n.result rows) (sym after)
            (subst (λ m. IsMerged js t call.now call.items s.rows m.result m.rows) same merged))

    serve_merge-IsMerged :
        (call : MergeCall N) (s : Store (List (OrderSnapshotRow N)))
        (result : OrderSnapshotMergeResult)
        → IsClear call
        → IsPruned s.rows
        → (serve_merge call s).0 ≡ ok result
        → IsMerged js
            (trim call.tenant_id)
            call.now
            call.items
            s.rows
            result
            (serve_merge call s).1.rows
    unfolding merge count
    serve_merge-IsMerged call s result clear p h =
        let t = trim call.tenant_id in
        elim (Bool-cases (is_empty t)) [
          | inl a ↦ absurd (ground (arith, rw a at h))
          | inr a ↦ elim (Bool-cases (every (is_valid js) call.items)) [
            | inr b ↦ absurd (ground (arith, rw (a, b) at h))
            | inl b ↦ elim (Bool-cases (is_empty call.items)) [
              | inr c ↦ rw (a, b, c) (queued-IsMerged call s result clear p (rw (a, b, c) at h))
              | inl c ↦
                  let answer = ok_injective (rw (a, b, c) at h) in
                  let nothing = nothing-IsMerged js t call.now call.items s.rows c in
                  rw (a, b, c)
                    (subst (λ r. IsMerged js t call.now call.items s.rows r s.rows) answer nothing)
            ]
          ]
        ]

    -- After any merges, of which some are refused and some cannot be written, no tenant has more
    -- rows than the limit, and no line two. A merge that is answered then finds each of its
    -- tenant's lines as the last order about it says, which keeps when the line was seen first,
    -- or as before; its counts are those of the orders, of the new rows and of the tenant's rows.
    -- Rows of the tenant are dropped only where the limit is reached, and none of them is later
    -- than any that is left. The other tenants keep their rows. This holds where the order of
    -- locales is total and transitive and no tenant's name has a zero unit.
    pub merge-IsMerged :
        (calls : List (MergeCall N)) (s : Store (List (OrderSnapshotRow N))) (call : MergeCall N)
        (result : OrderSnapshotMergeResult)
        → All IsClear calls
        → IsClear call
        → IsPruned s.rows
        → let s' = run_merges calls s in
          (serve_merge call s').0 ≡ ok result
          → IsPruned (serve_merge call s').1.rows
            × IsMerged js
                (trim call.tenant_id)
                call.now
                call.items
                s'.rows
                result
                (serve_merge call s').1.rows
    merge-IsMerged calls s call result clear own p h =
        let s' = run_merges calls s in
        let q = run_merges-IsPruned calls s clear p in
        (serve_merge-IsPruned call s' own q, serve_merge-IsMerged call s' result own q h)
