-- ===== src/Persistence/Snapshots/Kept.antt =====
-- src/persistence/orderSnapshotStore.ts: what a merge leaves of the rows of its tenant and of the others.
use mathlib.Core.List.{Perm, append-nil}
use mathlib.Core.List.Perm
use online_seller_control_hu.Common.{
  subst, All-imp, Option, none, some, ℕ, ◌+◌, ◌≤◌, ◌≡◌, ◌≢◌, ◌⊎◌, refl, sym, ◌∙◌, ap, inl, true,
  List, [], ◌∷◌, ◌++◌, map, Text, text_eq, HasNo, filter, length, count_if, drop, take_whole,
  take-drop, cut_cases, All, All_by, arith, is_empty, length-map,
}
use online_seller_control_hu.Common.Dicts.{get, values}
use online_seller_control_hu.Common.Sorting.{
  sort, sort-perm, sort-IsSorted, length-sort, IsOrder, IsSorted-cut,
}
use online_seller_control_hu.Common.Indexes.{entry, values-entries}
use online_seller_control_hu.Core.Types.{Market}
use online_seller_control_hu.Persistence.Snapshots.{
  timestamp_or, order_timestamp, key_of, Runtime, OrderSnapshotInput, OrderSnapshotRow,
  OrderSnapshotMergeResult, Upserted, is_of, upsert_all, row_before, max_rows_per_tenant,
  merge_rows, row_key,
}
use online_seller_control_hu.Persistence.Snapshots.Lines.{
  find_line, keyed_entries, entries-IsKeyed, find_line-values, IsKeyed-rows, values-IsClean,
}
use online_seller_control_hu.Persistence.Snapshots.Upserts.{
  latest, upsert_all-IsKeyed, upsert_all-latest, upsert_all-count, upsert_all-others,
}
use online_seller_control_hu.Persistence.Snapshots.Pruned.{kept_of, prune-filter}
use online_seller_control_hu.Persistence.Snapshots.Limits.{IsPruned, prune-IsPruned}

-- The time of an order, or else when it was seen.
abbrev pub time_or : Option Text → Text → Text
time_or (some (u ∷ us)) seen = u ∷ us
time_or _ seen = seen

timestamp_or-time_or : (o : Option Text) (seen : Text) → timestamp_or o seen ≡ time_or o seen
timestamp_or-time_or none seen = refl
timestamp_or-time_or (some []) seen = refl
timestamp_or-time_or (some (u ∷ us)) seen = refl

module _ {N : Type 0} where
  -- The first row's order is not later than the second's, in the order of `localeCompare`.
  abbrev pub IsNotLater : Runtime N → OrderSnapshotRow N → OrderSnapshotRow N → Type 0
  IsNotLater js d k =
      js.locale_le (time_or d.order.ordered_at d.last_seen_at)
        (time_or k.order.ordered_at k.last_seen_at)
      ≡ true

  row_before-IsNotLater :
      (js : Runtime N) (k d : OrderSnapshotRow N) → row_before js k d ≡ true → IsNotLater js d k
  row_before-IsNotLater js k d h =
      let one = timestamp_or-time_or d.order.ordered_at d.last_seen_at in
      let other = timestamp_or-time_or k.order.ordered_at k.last_seen_at in
      subst (λ x. js.locale_le x (time_or k.order.ordered_at k.last_seen_at) ≡ true) one
        (subst (λ y. js.locale_le (order_timestamp d) y ≡ true) other h)

  -- What a merge of orders does to the rows. `merged` are the rows before any was dropped, and
  -- `dropped` are those of the tenant that were.
  pub record IsMerged (js : Runtime N) (t now : Text) (items : List (OrderSnapshotInput N))
      (before : List (OrderSnapshotRow N)) (result : OrderSnapshotMergeResult)
      (after : List (OrderSnapshotRow N)) : Type 0 where
    pub merged : List (OrderSnapshotRow N)
    pub dropped : List (OrderSnapshotRow N)
    pub found :
        (m : Market) (line : Text)
        → find_line t m line merged ≡ latest t now m line items (find_line t m line before)
    pub new_rows : length merged ≡ length before + result.inserted
    pub counted : result.inserted + result.updated ≡ length items
    pub own : Perm (filter (is_of t) after ++ dropped) (filter (is_of t) merged)
    pub newest : All (λ k. All (λ d. IsNotLater js d k) dropped) (filter (is_of t) after)
    pub full : (dropped ≡ []) ⊎ (length (filter (is_of t) after) ≡ 5000)
    pub others : (u : Text) → t ≢ u → Perm (filter (is_of u) after) (filter (is_of u) before)
    pub total : result.total ≡ length (filter (is_of t) after)

  -- The orders' times are ordered as the texts are.
  row_before-IsOrder : (js : Runtime N) → IsOrder js.locale_le → IsOrder (row_before js)
  row_before-IsOrder js o = record {
    total = λ a b h. o.total _ _ h;
    trans = λ a b c h k. o.trans _ _ _ k h;
  }

  -- Sorted rows of which the first are kept.
  module _ (js : Runtime N) (limit : ℕ) (rows : List (OrderSnapshotRow N)) where
    kept_of-perm : Perm (kept_of js limit rows ++ drop limit (sort (row_before js) rows)) rows
    kept_of-perm = rw (take-drop limit (sort (row_before js) rows)) (sort-perm (row_before js) rows)

    kept_of-newest :
        IsOrder js.locale_le
        → All
            (λ k. All (λ d. IsNotLater js d k) (drop limit (sort (row_before js) rows)))
            (kept_of js limit rows)
    kept_of-newest order =
        let sorted = sort (row_before js) rows in
        All-imp (λ k. All (λ d. row_before js k d ≡ true) (drop limit sorted))
          (λ k. All (λ d. IsNotLater js d k) (drop limit sorted)) (kept_of js limit rows)
          (λ k h.
            All-imp (λ d. row_before js k d ≡ true) (λ d. IsNotLater js d k) (drop limit sorted)
              (row_before-IsNotLater js k) h)
          (IsSorted-cut (row_before js) limit sorted
            (sort-IsSorted (row_before-IsOrder js order) rows))

    kept_of_all : length rows ≤ limit → Perm (kept_of js limit rows) rows
    kept_of_all h =
        let sorted = sort (row_before js) rows in
        let whole = take_whole limit sorted (omega (arith, length-sort (row_before js) rows, h)) in
        rw whole (sort-perm (row_before js) rows)

  -- Nothing to merge: the rows stay as they are.
  pub nothing-IsMerged :
      (js : Runtime N) (t now : Text) (items : List (OrderSnapshotInput N))
      (rows : List (OrderSnapshotRow N))
      → is_empty items ≡ true
      → IsMerged js t now items rows
          (record { inserted = 0; updated = 0; total = count_if (is_of t) rows })
          rows
  nothing-IsMerged js t now (item ∷ items) rows h = cc
  nothing-IsMerged js t now [] rows h = record {
    merged = rows;
    dropped = [];
    found = λ m line. refl;
    new_rows = omega arith;
    counted = refl;
    own = rw (append-nil (filter (is_of t) rows)) Perm.rfl;
    newest = All_by _ (filter (is_of t) rows) (λ r. tt);
    full = inl refl;
    others = λ u n. Perm.rfl;
    total = refl;
  }

  module _ (js : Runtime N) (t now : Text) (clean : HasNo 0 t)
      (items : List (OrderSnapshotInput N)) where
    pub merge_rows-IsPruned :
        (rows : List (OrderSnapshotRow N))
        → IsPruned rows
        → IsPruned (merge_rows js t now items rows).rows
    unfolding merge_rows
    merge_rows-IsPruned rows p =
        let start : Upserted N = record {
          next = map (entry key_of) rows;
          inserted = 0;
          updated = 0;
        } in
        let k =
          upsert_all-IsKeyed t now clean items start (entries-IsKeyed rows p.unique p.clean) in
        let d = (upsert_all t now items start).next in
        rw (keyed_entries rows p.unique)
          (prune-IsPruned js (values d) (IsKeyed-rows d k) (values-IsClean d k.entries))

  module _ (js : Runtime N) (order : IsOrder js.locale_le) (t now : Text) (clean : HasNo 0 t)
      (items : List (OrderSnapshotInput N)) where
    pub merge_rows-IsMerged :
        (rows : List (OrderSnapshotRow N))
        → IsPruned rows
        → let n = merge_rows js t now items rows in IsMerged js t now items rows n.result n.rows
    unfolding merge_rows
    merge_rows-IsMerged rows p =
        let start : Upserted N = record {
          next = map (entry key_of) rows;
          inserted = 0;
          updated = 0;
        } in
        let u = upsert_all t now items start in
        let merged = values u.next in
        let keyed_start = entries-IsKeyed rows p.unique p.clean in
        let k = upsert_all-IsKeyed t now clean items start keyed_start in
        let counts = upsert_all-count t now items start in
        let sorted = sort (row_before js) (filter (is_of t) merged) in
        let mine = prune-filter js t merged in
        rw (keyed_entries rows p.unique) (record {
          merged = merged;
          dropped = drop max_rows_per_tenant sorted;
          found = λ m line.
              find_line-values t m line u.next clean k.entries
              ∙ upsert_all-latest t now clean m line items start
              ∙ ap (latest t now m line items) (before m line);
          new_rows =
              omega (arith, counts.1, length-map u.next (λ e. e.1), length-map rows (entry key_of));
          counted = omega (arith, counts.0);
          own = rw mine (kept_of-perm js max_rows_per_tenant (filter (is_of t) merged));
          newest = rw mine (kept_of-newest js max_rows_per_tenant (filter (is_of t) merged) order);
          full = rw mine (cut_cases max_rows_per_tenant sorted);
          others = λ v n.
              let same =
                upsert_all-others t now clean v items start n keyed_start
                ∙ ap (filter (is_of v)) (values-entries key_of rows) in
              rw (prune-filter js v merged, same)
                (kept_of_all js max_rows_per_tenant (filter (is_of v) rows) (p.at_most v));
          total = refl;
        })
      where
        before :
            (m : Market) (line : Text)
            → get (row_key t m line) (map (entry key_of) rows) ≡ find_line t m line rows
        before m line =
            let keyed_start = entries-IsKeyed rows p.unique p.clean in
            sym (find_line-values t m line (map (entry key_of) rows) clean keyed_start.entries)
            ∙ ap (find_line t m line) (values-entries key_of rows)
