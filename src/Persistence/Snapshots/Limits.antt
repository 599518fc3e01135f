-- ===== src/Persistence/Snapshots/Limits.antt =====
-- src/persistence/orderSnapshotStore.ts: after it was pruned, a store has one row for a line, and no tenant
-- has more than the limit.

use online_seller_control_hu.Common.{
  ◌≤◌, ◌≡◌, refl, sym, subst, inl, inr, true, false, List, [], ◌∷◌, map, ◌==◌, ==_refl, eq_of_==,
  Text, text_eq, filter, length, length-take-le, take-IsUnique, All, All-filter, includes, IsUnique,
  filter-IsUnique, arith, Bool-cases,
}
use online_seller_control_hu.Common.Sorting.{sort-IsUnique}
use online_seller_control_hu.Persistence.Snapshots.{
  Runtime, OrderSnapshotRow, key_of, is_of, row_before, max_rows_per_tenant, prune_per_tenant,
}
use online_seller_control_hu.Persistence.Snapshots.Lines.{IsClean, row_key_injective}
use online_seller_control_hu.Persistence.Snapshots.Pruned.{All-kept_of, prune-filter}

-- What the store keeps of its rows: one for each line, and no more for a tenant than the limit. A
-- tenant's name has no zero unit, with which the keys are put together.
pub record IsPruned {N : Type 0} (rows : List (OrderSnapshotRow N)) : Type 0 where
  pub unique : IsUnique key_of rows
  pub clean : All IsClean rows
  pub at_most : (t : Text) → length (filter (is_of t) rows) ≤ 5000

module _ {N : Type 0} where
  -- What holds of each tenant's rows holds of all rows.
  All-parts :
      (P : OrderSnapshotRow N → Type 0) (rows : List (OrderSnapshotRow N))
      → ((t : Text) → All P (filter (is_of t) rows))
      → All P rows
  All-parts P [] h = tt
  All-parts P (r ∷ rows) h =
      let own = h r.tenant_id in
      ((rw (==_refl r.tenant_id) at own).0, All-parts P rows (λ t. later t))
    where
      later : (t : Text) → All P (filter (is_of t) rows)
      later t =
          let part = h t in
          elim (Bool-cases (is_of t r)) [ inl e ↦ (rw e at part).1 | inr e ↦ rw e at part ]

  absent_key :
      (r : OrderSnapshotRow N) (rows : List (OrderSnapshotRow N))
      → IsClean r
      → All IsClean rows
      → includes (key_of r) (map key_of (filter (is_of r.tenant_id) rows)) ≡ false
      → includes (key_of r) (map key_of rows) ≡ false
  absent_key r [] c h a = refl
  absent_key r (q ∷ rows) c h a = elim (Bool-cases (key_of r == key_of q)) [
    | inl e ↦
        let same =
          (row_key_injective r.tenant_id q.tenant_id _ _ _ _ c h.0
            (eq_of_== (key_of r) (key_of q) e)).0 in
        let here : is_of r.tenant_id q ≡ true = rw same (==_refl q.tenant_id) in
        absurd (ground (arith, rw (here, e) at a))
    | inr e ↦ elim (Bool-cases (is_of r.tenant_id q)) [
      | inl here ↦ rw e (absent_key r rows c h.1 (rw (here, e) at a))
      | inr away ↦ rw e (absent_key r rows c h.1 (rw away at a))
    ]
  ]

  IsUnique-parts :
      (rows : List (OrderSnapshotRow N))
      → All IsClean rows
      → ((t : Text) → IsUnique key_of (filter (is_of t) rows))
      → IsUnique key_of rows
  IsUnique-parts [] c h = tt
  IsUnique-parts (r ∷ rows) c h =
      let own = h r.tenant_id in
      (
        absent_key r rows c.0 c.1 ((rw (==_refl r.tenant_id) at own).0),
        IsUnique-parts rows c.1 (λ t. later t),
      )
    where
      later : (t : Text) → IsUnique key_of (filter (is_of t) rows)
      later t =
          let part = h t in
          elim (Bool-cases (is_of t r)) [ inl e ↦ (rw e at part).1 | inr e ↦ rw e at part ]

  module _ (js : Runtime N) where
    pub prune-IsPruned :
        (rows : List (OrderSnapshotRow N))
        → IsUnique key_of rows
        → All IsClean rows
        → IsPruned (prune_per_tenant js rows)
    prune-IsPruned rows u c =
        let part = λ (t : Text). prune-filter js t rows in
        let clean = All-parts IsClean (prune_per_tenant js rows) (λ t.
          subst (All IsClean) (sym (prune-filter js t rows)) (
            All-kept_of js max_rows_per_tenant IsClean (filter (is_of t) rows)
              (All-filter (is_of t) IsClean rows c))) in
        record {
          clean = clean;
          unique = IsUnique-parts (prune_per_tenant js rows) clean (λ t.
              subst (IsUnique key_of) (sym (prune-filter js t rows)) (
                take-IsUnique key_of max_rows_per_tenant _ (
                  sort-IsUnique key_of (row_before js) (filter (is_of t) rows)
                    (filter-IsUnique key_of (is_of t) rows u))));
          at_most = λ t.
              subst (λ xs. length xs ≤ max_rows_per_tenant) (sym (prune-filter js t rows))
                (length-take-le max_rows_per_tenant _);
        }
