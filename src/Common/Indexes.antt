-- ===== src/Common/Indexes.antt =====
-- Records that the source keeps in a map under a key of their own.
use mathlib.Core.Path.{◌≡◌, refl, sym}
use mathlib.Core.List.{List, [], ◌∷◌, ◌++◌, map, append-nil, append_assoc}
use online_seller_control_hu.Common.Tests.{Eq}
use online_seller_control_hu.Common.Lists.{All, IsUnique, IsFresh, IsFresh-cons}
use online_seller_control_hu.Common.Dicts.{
  Dict, set, keys, values, HasUniqueKeys, set_new, IsFresh-set,
}

module _ {ℓ} {K : Type 0} {V : Type ℓ} ⦃e : Eq K⦄ (key : V → K) where
  abbrev pub entry : V → K × V
  entry v = (key v, v)

  -- `for (const v of vs) d.set(key(v), v)`
  unfoldable pub index_by : List V → Dict K V → Dict K V
  index_by [] d = d
  index_by (v ∷ vs) d = index_by vs (set (key v) v d)

  abbrev pub IsOwn : K × V → Type 0
  IsOwn p = key p.1 ≡ p.0

  -- Records with different new keys come last, in their order.
  pub index_by_new :
      (vs : List V) (d : Dict K V)
      → IsUnique key vs
      → IsFresh (keys d) key vs
      → index_by vs d ≡ d ++ map entry vs
  unfolding index_by
  index_by_new [] d u f = sym (append-nil d)
  index_by_new (v ∷ vs) d u f =
      let k = key v in
      let later =
        index_by_new vs (set k v d) u.1
          (IsFresh-set k v d key vs (IsFresh-cons k (keys d) key vs f.1 u.0)) in
      rw later (rw (set_new k v d f.0) (append_assoc d (entry v ∷ []) (map entry vs)))

  pub values-entries : (vs : List V) → values (map entry vs) ≡ vs
  values-entries [] = refl
  values-entries (v ∷ vs) = rw (values-entries vs)

  keys-entries : (vs : List V) → keys (map entry vs) ≡ map key vs
  keys-entries [] = refl
  keys-entries (v ∷ vs) = rw (keys-entries vs)

  pub entries-HasUniqueKeys : (vs : List V) → IsUnique key vs → HasUniqueKeys (map entry vs)
  entries-HasUniqueKeys [] u = tt
  entries-HasUniqueKeys (v ∷ vs) u = (rw (keys-entries vs) u.0, entries-HasUniqueKeys vs u.1)

  keys-values : (d : Dict K V) → All IsOwn d → map key (values d) ≡ keys d
  keys-values [] h = refl
  keys-values ((k, v) ∷ d) h = rw (h.0, keys-values d h.1)

  pub values-IsUnique : (d : Dict K V) → All IsOwn d → HasUniqueKeys d → IsUnique key (values d)
  values-IsUnique [] h u = tt
  values-IsUnique ((k, v) ∷ d) h u = (rw (h.0, keys-values d h.1) u.0, values-IsUnique d h.1 u.1)
