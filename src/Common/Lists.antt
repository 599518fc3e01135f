-- ===== src/Common/Lists.antt =====
-- Lists as the source's arrays use them: length, filter, every, some, sum, find, includes.
use Prim.Native.Nat.{◌≤◌, ℕ, zero, suc, ◌+◌}
use mathlib.Core.Path.{◌≡◌, refl}
use mathlib.Core.Logic.{inl, inr}
use mathlib.Core.Bool.{not, Bool, true, false, ◌&&◌, ◌||◌}
use mathlib.Core.Option.{Option, none, some}
use mathlib.Core.List.{List, [], ◌∷◌, ◌++◌, map}
use native.Mathlib.Omega.{arith}
use online_seller_control_hu.Common.Tests.{if◌then◌else◌, Eq, ◌==◌, Bool-cases}

module _ {ℓ} {A : Type ℓ} where
  abbrev pub length : List A → ℕ
  length [] = 0
  length (x ∷ xs) = suc (length xs)

  abbrev pub is_empty : List A → Bool
  is_empty [] = true
  is_empty (_ ∷ _) = false

  abbrev pub filter : (A → Bool) → List A → List A
  filter p [] = []
  filter p (x ∷ xs) = if p x then x ∷ filter p xs else filter p xs

  abbrev pub every : (A → Bool) → List A → Bool
  every p [] = true
  every p (x ∷ xs) = p x && every p xs

  abbrev pub find : (A → Bool) → List A → Option A
  find p [] = none
  find p (x ∷ xs) = if p x then some x else find p xs

  abbrev pub sum_by : (A → ℕ) → List A → ℕ
  sum_by f [] = 0
  sum_by f (x ∷ xs) = f x + sum_by f xs

  abbrev pub count_if : (A → Bool) → List A → ℕ
  count_if p xs = length (filter p xs)

  abbrev pub take : ℕ → List A → List A
  take zero xs = []
  take (suc n) [] = []
  take (suc n) (x ∷ xs) = x ∷ take n xs

  abbrev pub drop : ℕ → List A → List A
  drop zero xs = xs
  drop (suc n) [] = []
  drop (suc n) (x ∷ xs) = drop n xs

  -- A predicate by recursion computes to tuples, which the tactics read and build.
  abbrev pub All {κ} : (A → Type κ) → List A → Type κ
  All P [] = Unit
  All P (x ∷ xs) = P x × All P xs

module _ {ℓ} {A : Type ℓ} where
  pub length-append : (xs ys : List A) → length (xs ++ ys) ≡ length xs + length ys
  length-append [] ys = omega arith
  length-append (x ∷ xs) ys = omega (arith, length-append xs ys)

module _ {ℓ} {A : Type ℓ} where
  pub count_if-cons :
      (p : A → Bool) (x : A) (xs : List A)
      → count_if p (x ∷ xs) ≡ (if p x then 1 else 0) + count_if p xs
  count_if-cons p x xs = ground arith

module _ {ℓ κ} {A : Type ℓ} {B : Type κ} where
  pub length-map : (xs : List A) (f : A → B) → length (map f xs) ≡ length xs
  length-map [] f = refl
  length-map (x ∷ xs) f = omega (arith, length-map xs f)

module _ {ℓ} {A : Type ℓ} ⦃e : Eq A⦄ where
  -- `xs.includes(a)`, and `set.has(a)` for a set kept as a list.
  abbrev pub includes : A → List A → Bool
  includes a [] = false
  includes a (x ∷ xs) = (a == x) || includes a xs

  -- No two members have the same key.
  abbrev pub IsUnique {κ} : {B : Type κ} → (B → A) → List B → Type ℓ
  IsUnique key [] = Unit
  IsUnique key (x ∷ xs) = (includes (key x) (map key xs) ≡ false) × IsUnique key xs

  -- None of the keys of `xs` is in `seen`.
  abbrev pub IsFresh {κ} : {B : Type κ} → List A → (B → A) → List B → Type ℓ
  IsFresh seen key [] = Unit
  IsFresh seen key (x ∷ xs) = (includes (key x) seen ≡ false) × IsFresh seen key xs

  -- `[...new Set(xs)]`: the first occurrence of each member, in order.
  unfoldable pub unique_from : List A → List A → List A
  unique_from seen [] = []
  unique_from seen (x ∷ xs) =
      let rest = unique_from (x ∷ seen) xs in if includes x seen then rest else x ∷ rest

module _ {ℓ κ} {A : Type ℓ} ⦃e : Eq A⦄ {B : Type κ} where
  -- Seeing `k` before a list leaves it fresh exactly when `k` is no key of the list.
  pub IsFresh-cons :
      (k : A) (seen : List A) (key : B → A) (xs : List B)
      → IsFresh seen key xs
      → includes k (map key xs) ≡ false
      → IsFresh (k ∷ seen) key xs
  IsFresh-cons k seen key [] f h = tt
  IsFresh-cons k seen key (x ∷ xs) f h = ground (arith, IsFresh-cons k seen key xs f.1)

  pub IsFresh-tail :
      (k : A) (seen : List A) (key : B → A) (xs : List B)
      → IsFresh (k ∷ seen) key xs
      → IsFresh seen key xs
  IsFresh-tail k seen key [] f = tt
  IsFresh-tail k seen key (x ∷ xs) f = ground (arith, IsFresh-tail k seen key xs f.1)

  pub IsFresh-head :
      (k : A) (seen : List A) (key : B → A) (xs : List B)
      → IsFresh (k ∷ seen) key xs
      → includes k (map key xs) ≡ false
  IsFresh-head k seen key [] f = refl
  IsFresh-head k seen key (x ∷ xs) f = ground (arith, IsFresh-head k seen key xs f.1)

  pub IsFresh-nil : (key : B → A) (xs : List B) → IsFresh [] key xs
  IsFresh-nil key [] = tt
  IsFresh-nil key (x ∷ xs) = (refl, IsFresh-nil key xs)

  pub includes-filter :
      (k : A) (key : B → A) (p : B → Bool) (xs : List B)
      → includes k (map key xs) ≡ false
      → includes k (map key (filter p xs)) ≡ false
  includes-filter k key p [] h = refl
  includes-filter k key p (x ∷ xs) h = ground (arith, includes-filter k key p xs)

  pub filter-IsUnique :
      (key : B → A) (p : B → Bool) (xs : List B) → IsUnique key xs → IsUnique key (filter p xs)
  filter-IsUnique key p [] u = tt
  filter-IsUnique key p (x ∷ xs) u =
      ground (arith, filter-IsUnique key p xs u.1, includes-filter (key x) key p xs u.0)

  pub IsUnique-cong :
      (f g : B → A) (xs : List B) → map f xs ≡ map g xs → IsUnique f xs → IsUnique g xs
  IsUnique-cong f g [] e u = tt
  IsUnique-cong f g (x ∷ xs) e u = ground (arith, IsUnique-cong f g xs)

  map-map_id : (f : B → A) (xs : List B) → map (λ k. k) (map f xs) ≡ map f xs
  map-map_id f [] = refl
  map-map_id f (x ∷ xs) = rw (map-map_id f xs)

  -- The members of a list without repetition come from members with different keys.
  pub IsUnique-of_map : (f : B → A) (xs : List B) → IsUnique (λ k. k) (map f xs) → IsUnique f xs
  IsUnique-of_map f [] u = tt
  IsUnique-of_map f (x ∷ xs) u = (rw (map-map_id f xs) at u.0, IsUnique-of_map f xs u.1)

module _ {ℓ} {A : Type ℓ} ⦃e : Eq A⦄ where
  pub includes-unique_from :
      (m : A) (seen xs : List A)
      → includes m (unique_from seen xs) ≡ (not (includes m seen) && includes m xs)
  unfolding unique_from
  includes-unique_from m seen [] = ground arith
  includes-unique_from m seen (x ∷ xs) = ground (arith, includes-unique_from m (x ∷ seen) xs)

  pub map-id : (xs : List A) → map (λ k. k) xs ≡ xs
  map-id [] = refl
  map-id (x ∷ xs) = rw (map-id xs)

  pub unique_from-IsUnique : (seen xs : List A) → IsUnique (λ k. k) (unique_from seen xs)
  unfolding unique_from
  unique_from-IsUnique seen [] = tt
  unique_from-IsUnique seen (x ∷ xs) = elim (Bool-cases (includes x seen)) [
    | inl old ↦ rw old (unique_from-IsUnique (x ∷ seen) xs)
    | inr new ↦ rw new (
      (ground (arith, includes-unique_from x (x ∷ seen) xs, map-id (unique_from (x ∷ seen) xs))),
      unique_from-IsUnique (x ∷ seen) xs,
    )
  ]

  pub length-unique_from-le : (seen xs : List A) → length (unique_from seen xs) ≤ length xs
  unfolding unique_from
  length-unique_from-le seen [] = omega arith
  length-unique_from-le seen (x ∷ xs) = ground (arith, length-unique_from-le (x ∷ seen) xs)

-- Keys that tell no more members apart than others do are unique where the others are.
module _ {ℓ κ μ} {A : Type ℓ} {B : Type κ} {C : Type μ} ⦃e : Eq A⦄ ⦃g : Eq C⦄ (key : B → A)
    (finer : B → C) (apart : (x y : B) → finer x ≡ finer y → key x ≡ key y) where
  includes-finer :
      (x : B) (xs : List B)
      → includes (key x) (map key xs) ≡ false
      → includes (finer x) (map finer xs) ≡ false
  includes-finer x [] h = refl
  includes-finer x (y ∷ xs) h = ground (arith, apart x y, includes-finer x xs)

  pub IsUnique-finer : (xs : List B) → IsUnique key xs → IsUnique finer xs
  IsUnique-finer [] u = tt
  IsUnique-finer (x ∷ xs) u = (includes-finer x xs u.0, IsUnique-finer xs u.1)
