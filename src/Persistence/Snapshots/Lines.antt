-- ===== src/Persistence/Snapshots/Lines.antt =====
-- src/persistence/orderSnapshotStore.ts: a row for a line, under the key of its three parts.
use online_seller_control_hu.Common.{
  ◌≡◌, refl, sym, ◌∙◌, inl, inr, Bool, true, ◌&&◌, Option, List, [], ◌∷◌, map, ◌==◌, ==_refl,
  eq_of_==, ne_of_==, Text, text_eq, HasNo, parts_injective, find, All, All-imp, IsUnique,
  IsFresh-nil, arith, Bool-cases,
}
use online_seller_control_hu.Common.Dicts.{Dict, get, values, HasUniqueKeys}
use online_seller_control_hu.Common.Indexes.{
  entry, IsOwn, index_by_new, entries-HasUniqueKeys, values-IsUnique,
}
use online_seller_control_hu.Core.Types.{
  Market, market_eq, market_name, market_name-HasNo, market_name_injective,
}
use online_seller_control_hu.Persistence.Snapshots.{OrderSnapshotRow, row_key, key_of, keyed}

-- The keys of tenants without a zero unit tell all three parts.
pub row_key_injective :
    (t u : Text) (m k : Market) (a b : Text)
    → HasNo 0 t
    → HasNo 0 u
    → row_key t m a ≡ row_key u k b
    → (t ≡ u) × (m ≡ k) × (a ≡ b)
row_key_injective t u m k a b ht hu e =
    let (tenants, rest) = parts_injective 0 t u _ _ ht hu e in
    let (names, lines) =
      parts_injective 0 (market_name m) (market_name k) a b (market_name-HasNo m).1
        (market_name-HasNo k).1 rest in
    (tenants, market_name_injective m k names, lines)

module _ {N : Type 0} where
  abbrev pub IsClean : OrderSnapshotRow N → Type 0
  IsClean r = HasNo 0 r.tenant_id

  abbrev pub is_line : Text → Market → Text → OrderSnapshotRow N → Bool
  is_line t m line r = r.tenant_id == t && r.order.market == m && r.order.order_line_id == line

  abbrev pub find_line :
      Text → Market → Text → List (OrderSnapshotRow N) → Option (OrderSnapshotRow N)
  find_line t m line rows = find (is_line t m line) rows

  abbrev pub IsEntry : Text × OrderSnapshotRow N → Type 0
  IsEntry e = (key_of e.1 ≡ e.0) × IsClean e.1

  -- Each row stands under its key, once.
  pub record IsKeyed (d : Dict Text (OrderSnapshotRow N)) : Type 0 where
    pub entries : All IsEntry d
    pub unique : HasUniqueKeys d

  pub keyed_entries :
      (rows : List (OrderSnapshotRow N))
      → IsUnique key_of rows
      → keyed rows ≡ map (entry key_of) rows
  keyed_entries rows u = index_by_new key_of rows [] u (IsFresh-nil key_of rows)

  entries-IsEntry :
      (rows : List (OrderSnapshotRow N)) → All IsClean rows → All IsEntry (map (entry key_of) rows)
  entries-IsEntry [] c = tt
  entries-IsEntry (r ∷ rows) c = ((refl, c.0), entries-IsEntry rows c.1)

  pub entries-IsKeyed :
      (rows : List (OrderSnapshotRow N))
      → IsUnique key_of rows
      → All IsClean rows
      → IsKeyed (map (entry key_of) rows)
  entries-IsKeyed rows u c = record {
    entries = entries-IsEntry rows c;
    unique = entries-HasUniqueKeys key_of rows u;
  }

  line_parts :
      (t : Text) (m : Market) (line : Text) (r : OrderSnapshotRow N)
      → is_line t m line r ≡ true
      → (r.tenant_id ≡ t) × (r.order.market ≡ m) × (r.order.order_line_id ≡ line)
  line_parts t m line r y = ground (
    arith,
    eq_of_== r.tenant_id t,
    eq_of_== r.order.market m,
    eq_of_== r.order.order_line_id line,
  )

  -- A line is found under its key.
  pub is_line-key :
      (t : Text) (m : Market) (line k : Text) (r : OrderSnapshotRow N)
      → HasNo 0 t
      → IsEntry (k, r)
      → is_line t m line r ≡ (k == row_key t m line)
  is_line-key t m line k r ht e = elim (Bool-cases (k == row_key t m line)) [
    | inl h ↦
        let (tenants, markets, lines) =
          row_key_injective r.tenant_id t r.order.market m r.order.order_line_id line e.1 ht
            (e.0 ∙ eq_of_== k (row_key t m line) h) in
        rw (h, tenants, markets, lines, ==_refl t, ==_refl m, ==_refl line) refl
    | inr h ↦ elim (Bool-cases (is_line t m line r)) [
      | inl y ↦
          let (tenants, markets, lines) = line_parts t m line r y in
          let same : key_of r ≡ row_key t m line = rw (tenants, markets, lines) refl in
          absurd (ne_of_== k (row_key t m line) h (sym e.0 ∙ same))
      | inr n ↦ rw (h, n) refl
    ]
  ]

  pub find_line-values :
      (t : Text) (m : Market) (line : Text) (d : Dict Text (OrderSnapshotRow N))
      → HasNo 0 t
      → All IsEntry d
      → find_line t m line (values d) ≡ get (row_key t m line) d
  unfolding get
  find_line-values t m line [] ht h = refl
  find_line-values t m line ((k, r) ∷ d) ht h =
      rw (is_line-key t m line k r ht h.0, find_line-values t m line d ht h.1) refl

  pub values-IsClean : (d : Dict Text (OrderSnapshotRow N)) → All IsEntry d → All IsClean (values d)
  values-IsClean [] h = tt
  values-IsClean ((k, r) ∷ d) h = (h.0.1, values-IsClean d h.1)

  pub IsKeyed-rows : (d : Dict Text (OrderSnapshotRow N)) → IsKeyed d → IsUnique key_of (values d)
  IsKeyed-rows d k =
      values-IsUnique key_of d (All-imp IsEntry (IsOwn key_of) d (λ e h. h.0) k.entries) k.unique
