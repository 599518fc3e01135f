-- ===== src/Persistence/Snapshots/Pruned.antt =====
-- src/persistence/orderSnapshotStore.ts: what `prunePerTenant` keeps of each tenant's rows.
use mathlib.Core.List.{append-nil}
use online_seller_control_hu.Common.{
  ℕ, ◌≡◌, refl, sym, ◌∙◌, ap, subst, inl, inr, false, List, [], ◌∷◌, ◌==◌, eq_of_==, Text, text_eq,
  filter, filter-append, take, take_whole, All, All-take, includes, arith, Bool-cases,
}
use online_seller_control_hu.Common.Dicts.{Dict, get, keys, get-none}
use online_seller_control_hu.Common.Sorting.{sort, All-sort}
use online_seller_control_hu.Common.Groups.{
  group_of, IsOf, IsGrouped, filter-group, group_by-IsGrouped, group_of-group_by,
}
use online_seller_control_hu.Persistence.Snapshots.{
  Runtime, OrderSnapshotRow, is_of, by_tenant, kept, row_before, max_rows_per_tenant,
  prune_per_tenant,
}

module _ {N : Type 0} where
  module _ (js : Runtime N) (limit : ℕ) where
    abbrev pub kept_of : List (OrderSnapshotRow N) → List (OrderSnapshotRow N)
    kept_of rows = take limit (sort (row_before js) rows)

    pub All-kept_of {κ} :
        (P : OrderSnapshotRow N → Type κ) (rows : List (OrderSnapshotRow N))
        → All P rows
        → All P (kept_of rows)
    All-kept_of P rows h =
        All-take P limit (sort (row_before js) rows) (All-sort P (row_before js) rows h)

    kept_of-nil : kept_of [] ≡ []
    unfolding sort
    kept_of-nil = take_whole limit [] (omega arith)

    kept-filter :
        (t : Text) (d : Dict Text (List (OrderSnapshotRow N)))
        → IsGrouped (λ r. r.tenant_id) d
        → filter (is_of t) (kept js limit d) ≡ kept_of (group_of t d)
    unfolding kept get
    kept-filter t [] g = sym kept_of-nil
    kept-filter t ((k, rows) ∷ d) g =
        let tenant : OrderSnapshotRow N → Text = λ r. r.tenant_id in
        let mine = All-kept_of (IsOf tenant k) rows g.own.0 in
        let here = filter-group tenant k t (kept_of rows) mine in
        let both = filter-append (is_of t) (kept_of rows) (kept js limit d) in
        let later = kept-filter t d (record { own = g.own.1; unique = g.unique.1 }) in
        elim (Bool-cases (k == t)) [
          | inl e ↦
              let none_left =
                get-none t d
                  (subst (λ j. includes j (keys d) ≡ false) (eq_of_== k t e) g.unique.0) in
              rw (both, later, here, e, none_left, kept_of-nil) (append-nil (kept_of rows))
          | inr e ↦ rw (both, later, here, e) refl
        ]

  -- Of each tenant's rows, those that the order puts first, up to the limit.
  pub prune-filter :
      (js : Runtime N) (t : Text) (rows : List (OrderSnapshotRow N))
      → filter (is_of t) (prune_per_tenant js rows)
        ≡ kept_of js max_rows_per_tenant (filter (is_of t) rows)
  unfolding prune_per_tenant get
  prune-filter js t rows =
      kept-filter js max_rows_per_tenant t (by_tenant rows)
        (group_by-IsGrouped (λ r. r.tenant_id) [] rows (record { own = tt; unique = tt }))
      ∙ ap (kept_of js max_rows_per_tenant) (group_of-group_by (λ r. r.tenant_id) t [] rows)
