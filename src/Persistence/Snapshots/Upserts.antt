-- ===== src/Persistence/Snapshots/Upserts.antt =====
-- src/persistence/orderSnapshotStore.ts: what the orders of a merge do to the map of the rows.
use online_seller_control_hu.Common.{
  ◌+◌, ◌≡◌, ◌≢◌, refl, sym, ◌∙◌, ap, inl, inr, false, ◌&&◌, Option, none, some, List, [], ◌∷◌, ◌==◌,
  ==_refl, eq_of_==, Text, text_eq, HasNo, if◌then◌else◌, filter, length, All, arith, Bool-cases,
  is_some,
}
use online_seller_control_hu.Common.Dicts.{
  Dict, get, set, values, get-set, set-HasUniqueKeys, All-set, length-set,
}
use online_seller_control_hu.Core.Types.{Market, market_eq}
use online_seller_control_hu.Persistence.Snapshots.{
  OrderSnapshotInput, OrderSnapshotRow, Upserted, row_key, key_of, is_of, merged_row, upsert,
  upsert_all,
}
use online_seller_control_hu.Persistence.Snapshots.Lines.{
  IsEntry, IsKeyed, row_key_injective, is_line-key,
}

module _ {N : Type 0} where
  -- Since when a line is known: from now on, if it had no row.
  abbrev pub known_since : Text → Option (OrderSnapshotRow N) → Text
  known_since now none = now
  known_since now (some row) = row.first_seen_at

  -- The row of an order line after a merge: all that the last order about it says, seen now, with
  -- the instant at which the line was seen first.
  abbrev pub latest :
      Text
      → Text
      → Market
      → Text
      → List (OrderSnapshotInput N)
      → Option (OrderSnapshotRow N)
      → Option (OrderSnapshotRow N)
  latest t now m line [] row = row
  latest t now m line (item ∷ items) row = latest t now m line items (
      if item.market == m && item.order_line_id == line
      then some (record {
        order = item;
        tenant_id = t;
        first_seen_at = known_since now row;
        last_seen_at = now;
      })
      else row)

  module _ (t now : Text) where
    upsert-count :
        (item : OrderSnapshotInput N) (u : Upserted N)
        → let v = upsert t now item u in
          (v.inserted + v.updated ≡ u.inserted + u.updated + 1)
          × (length v.next + u.inserted ≡ length u.next + v.inserted)
    unfolding upsert
    upsert-count item u =
        let key = row_key t item.market item.order_line_id in
        let size = length-set key (merged_row t now item (get key u.next)) u.next in
        elim (Bool-cases (is_some (get key u.next))) [
          | inl e ↦ rw e (omega arith, omega (arith, rw e at size))
          | inr e ↦ rw e (omega arith, omega (arith, rw e at size))
        ]

    -- An order is inserted or updated, and an inserted one is a new row.
    pub upsert_all-count :
        (items : List (OrderSnapshotInput N)) (u : Upserted N)
        → let v = upsert_all t now items u in
          (v.inserted + v.updated ≡ u.inserted + u.updated + length items)
          × (length v.next + u.inserted ≡ length u.next + v.inserted)
    unfolding upsert_all
    upsert_all-count [] u = (omega arith, refl)
    upsert_all-count (item ∷ items) u =
        let step = upsert-count item u in
        let rest = upsert_all-count items (upsert t now item u) in
        (omega (arith, step.0, rest.0), omega (arith, step.1, rest.1))

    foreign : (u : Text) (r : OrderSnapshotRow N) → t ≢ u → r.tenant_id ≡ t → is_of u r ≡ false
    foreign u r n o = elim (Bool-cases (is_of u r)) [
      | inl y ↦ absurd (n (sym o ∙ eq_of_== r.tenant_id u y))
      | inr z ↦ z
    ]

  module _ (t now : Text) (clean : HasNo 0 t) where
    pub upsert_all-IsKeyed :
        (items : List (OrderSnapshotInput N)) (u : Upserted N)
        → IsKeyed u.next
        → IsKeyed (upsert_all t now items u).next
    unfolding upsert_all upsert
    upsert_all-IsKeyed [] u k = k
    upsert_all-IsKeyed (item ∷ items) u k =
        let key = row_key t item.market item.order_line_id in
        let row = merged_row t now item (get key u.next) in
        upsert_all-IsKeyed items (upsert t now item u) (record {
          entries = All-set IsEntry key row u.next (refl, clean) k.entries;
          unique = set-HasUniqueKeys key row u.next k.unique;
        })

    -- Whether an order is about a line, by the key.
    item_key :
        (m : Market) (line : Text) (item : OrderSnapshotInput N)
        → (row_key t item.market item.order_line_id == row_key t m line)
          ≡ (item.market == m && item.order_line_id == line)
    item_key m line item =
        let row = merged_row t now item none in
        sym (is_line-key t m line (key_of row) row clean (refl, clean)) ∙ rw (==_refl t) refl

    pub upsert_all-latest :
        (m : Market) (line : Text) (items : List (OrderSnapshotInput N)) (u : Upserted N)
        → get (row_key t m line) (upsert_all t now items u).next
          ≡ latest t now m line items (get (row_key t m line) u.next)
    unfolding upsert_all upsert
    upsert_all-latest m line [] u = refl
    upsert_all-latest m line (item ∷ items) u =
        let key = row_key t item.market item.order_line_id in
        let sought = row_key t m line in
        let row = merged_row t now item (get key u.next) in
        let later = upsert_all-latest m line items (upsert t now item u) in
        let about = item_key m line item in
        elim (Bool-cases (key == sought)) [
          | inl e ↦
              let found = ap (λ k. get k u.next) (eq_of_== key sought e) in
              rw (later, get-set key sought row u.next, e, sym about ∙ e, found) refl
          | inr e ↦ rw (later, get-set key sought row u.next, e, sym about ∙ e) refl
        ]

    -- The rows of the other tenants stay where they are.
    set-others :
        (u : Text) (k : Text) (r : OrderSnapshotRow N) (d : Dict Text (OrderSnapshotRow N))
        → t ≢ u
        → r.tenant_id ≡ t
        → IsEntry (k, r)
        → All IsEntry d
        → filter (is_of u) (values (set k r d)) ≡ filter (is_of u) (values d)
    unfolding set
    set-others u k r [] n o e h = rw (foreign t now u r n o) refl
    set-others u k r ((j, q) ∷ d) n o e h = elim (Bool-cases (j == k)) [
      | inl same ↦
          let keys_agree = h.0.0 ∙ eq_of_== j k same ∙ sym e.0 in
          let tenants =
            (row_key_injective q.tenant_id r.tenant_id _ _ _ _ h.0.1 e.1 keys_agree).0 in
          rw (same, foreign t now u r n o, foreign t now u q n (tenants ∙ o)) refl
      | inr apart ↦ rw (apart, set-others u k r d n o e h.1) refl
    ]

    pub upsert_all-others :
        (u : Text) (items : List (OrderSnapshotInput N)) (v : Upserted N)
        → t ≢ u
        → IsKeyed v.next
        → filter (is_of u) (values (upsert_all t now items v).next)
          ≡ filter (is_of u) (values v.next)
    unfolding upsert_all upsert
    upsert_all-others u [] v n k = refl
    upsert_all-others u (item ∷ items) v n k =
        let key = row_key t item.market item.order_line_id in
        let row = merged_row t now item (get key v.next) in
        upsert_all-others u items (upsert t now item v) n (upsert_all-IsKeyed (item ∷ []) v k)
        ∙ set-others u key row v.next n refl (refl, clean) k.entries
