-- ===== src/Common/Dicts.antt =====
-- JavaScript maps and record objects, as association lists in insertion order.
use Prim.Native.Nat.{◌+◌, ◌≤◌}
use mathlib.Core.Path.{◌≡◌, refl}
use mathlib.Core.Bool.{false, Bool, not, ◌&&◌, ◌||◌}
use mathlib.Core.Option.{Option, none, some}
use mathlib.Core.List.{List, [], ◌∷◌, ◌++◌, map}
use native.Mathlib.Omega.{arith}
use online_seller_control_hu.Common.Tests.{if◌then◌else◌, Eq, ◌==◌, is_some}
use online_seller_control_hu.Common.Lists.{length, All, includes, IsUnique, IsFresh}

abbrev pub Dict {ℓ} : Type 0 → Type ℓ → Type ℓ
Dict K V = List (K × V)

module _ {ℓ} {K : Type 0} {V : Type ℓ} ⦃e : Eq K⦄ where
  unfoldable pub get : K → Dict K V → Option V
  get k [] = none
  get k ((j, v) ∷ d) = if j == k then some v else get k d

  abbrev pub has : K → Dict K V → Bool
  has k d = is_some (get k d)

  -- An existing entry is replaced where it stands; a new one comes last.
  unfoldable pub set : K → V → Dict K V → Dict K V
  set k v [] = (k, v) ∷ []
  set k v ((j, w) ∷ d) = if j == k then (k, v) ∷ d else (j, w) ∷ set k v d

  unfoldable pub delete : K → Dict K V → Dict K V
  delete k [] = []
  delete k ((j, w) ∷ d) = if j == k then delete k d else (j, w) ∷ delete k d

  abbrev pub keys : Dict K V → List K
  keys d = map (λ e. e.0) d

  abbrev pub values : Dict K V → List V
  values d = map (λ e. e.1) d

  abbrev pub HasUniqueKeys : Dict K V → Type 0
  HasUniqueKeys d = IsUnique (λ e. e.0) d

  pub get-set :
      (k j : K) (v : V) (d : Dict K V) → get j (set k v d) ≡ (if k == j then some v else get j d)
  unfolding get set
  get-set k j v [] = refl
  get-set k j v ((i, w) ∷ d) = ground (arith, get-set k j v d)

  pub get-delete :
      (k j : K) (d : Dict K V) → get j (delete k d) ≡ (if k == j then none else get j d)
  unfolding get delete
  get-delete k j [] = ground arith
  get-delete k j ((i, w) ∷ d) = ground (arith, get-delete k j d)

  pub keys-set :
      (k j : K) (v : V) (d : Dict K V)
      → includes j (keys (set k v d)) ≡ ((j == k) || includes j (keys d))
  unfolding set
  keys-set k j v [] = refl
  keys-set k j v ((i, w) ∷ d) = ground (arith, keys-set k j v d)

  pub keys-delete :
      (k j : K) (d : Dict K V)
      → includes j (keys (delete k d)) ≡ (not (j == k) && includes j (keys d))
  unfolding delete
  keys-delete k j [] = ground arith
  keys-delete k j ((i, w) ∷ d) = ground (arith, keys-delete k j d)

  pub set-HasUniqueKeys :
      (k : K) (v : V) (d : Dict K V) → HasUniqueKeys d → HasUniqueKeys (set k v d)
  unfolding set
  set-HasUniqueKeys k v [] u = (refl, tt)
  set-HasUniqueKeys k v ((i, w) ∷ d) u =
      ground (arith, set-HasUniqueKeys k v d u.1, keys-set k i v d)

  pub delete-HasUniqueKeys : (k : K) (d : Dict K V) → HasUniqueKeys d → HasUniqueKeys (delete k d)
  unfolding delete
  delete-HasUniqueKeys k [] u = tt
  delete-HasUniqueKeys k ((i, w) ∷ d) u =
      ground (arith, delete-HasUniqueKeys k d u.1, keys-delete k i d)

  pub length-delete-le : (k : K) (d : Dict K V) → length (delete k d) ≤ length d
  unfolding delete
  length-delete-le k [] = omega arith
  length-delete-le k ((i, w) ∷ d) = ground (arith, length-delete-le k d)

  pub length-set-le : (k : K) (v : V) (d : Dict K V) → length (set k v d) ≤ length d + 1
  unfolding set
  length-set-le k v [] = omega arith
  length-set-le k v ((i, w) ∷ d) = ground (arith, length-set-le k v d)

  pub length-set :
      (k : K) (v : V) (d : Dict K V)
      → length (set k v d) ≡ (if is_some (get k d) then length d else length d + 1)
  unfolding get set
  length-set k v [] = omega arith
  length-set k v ((i, w) ∷ d) = ground (arith, length-set k v d)

  -- A property of all entries survives both updates.
  pub All-set {κ} :
      (P : K × V → Type κ) (k : K) (v : V) (d : Dict K V) → P (k, v) → All P d → All P (set k v d)
  unfolding set
  All-set P k v [] p h = (p, tt)
  All-set P k v ((i, w) ∷ d) p h = ground (arith, All-set P k v d p h.1)

  pub All-delete {κ} : (P : K × V → Type κ) (k : K) (d : Dict K V) → All P d → All P (delete k d)
  unfolding delete
  All-delete P k [] h = tt
  All-delete P k ((i, w) ∷ d) h = ground (arith, All-delete P k d h.1)

  pub All-get {κ} :
      (P : V → Type κ) (k : K) (v : V) (d : Dict K V) → All (λ e. P e.1) d → get k d ≡ some v → P v
  unfolding get
  All-get P k v [] h g = cc
  All-get P k v ((i, w) ∷ d) h g = ground (arith, All-get P k v d h.1)

  pub get-none : (k : K) (d : Dict K V) → includes k (keys d) ≡ false → get k d ≡ none
  unfolding get
  get-none k [] h = refl
  get-none k ((i, w) ∷ d) h = ground (arith, get-none k d)

  pub set_new :
      (k : K) (v : V) (d : Dict K V) → includes k (keys d) ≡ false → set k v d ≡ d ++ ((k, v) ∷ [])
  unfolding set
  set_new k v [] h = refl
  set_new k v ((j, w) ∷ d) h = ground (arith, set_new k v d)

  pub IsFresh-set {κ} :
      {B : Type κ} (k : K) (v : V) (d : Dict K V) (key : B → K) (xs : List B)
      → IsFresh (k ∷ keys d) key xs
      → IsFresh (keys (set k v d)) key xs
  IsFresh-set k v d key [] h = tt
  IsFresh-set k v d key (x ∷ xs) h =
      ground (arith, keys-set k (key x) v d, IsFresh-set k v d key xs h.1)
