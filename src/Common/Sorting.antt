-- ===== src/Common/Sorting.antt =====
-- `Array.prototype.sort`, which is stable: a member goes before the first one that its comparison
-- does not put in front of it.
use Prim.Native.Nat.{ℕ, zero, suc, ◌+◌}
use mathlib.Core.Path.{◌≡◌, refl}
use mathlib.Core.Logic.{inl, inr}
use mathlib.Core.Bool.{Bool, true, false, ◌||◌}
use mathlib.Core.List.{List, [], ◌∷◌, Perm, map}
use mathlib.Core.List.Perm
use native.Mathlib.Omega.{arith}
use online_seller_control_hu.Common.Tests.{if◌then◌else◌, Bool-cases, Eq, ◌==◌}
use online_seller_control_hu.Common.Lists.{
  length, sum_by, filter, All, includes, IsUnique, take, drop,
}
use online_seller_control_hu.Common.Prefixes.{All-drop}

module _ {ℓ} {A : Type ℓ} where
  -- `le a b` says that `compare(a, b) <= 0`.
  unfoldable pub insert : (A → A → Bool) → A → List A → List A
  insert le a [] = a ∷ []
  insert le a (x ∷ xs) = if le a x then a ∷ x ∷ xs else x ∷ insert le a xs

  unfoldable pub sort : (A → A → Bool) → List A → List A
  unfolding insert
  sort le [] = []
  sort le (x ∷ xs) = insert le x (sort le xs)

  -- Each member is in front of all later ones.
  abbrev pub IsSorted : (A → A → Bool) → List A → Type ℓ
  IsSorted le [] = Unit
  IsSorted le (x ∷ xs) = All (λ y. le x y ≡ true) xs × IsSorted le xs

  insert-perm : (le : A → A → Bool) (a : A) (xs : List A) → Perm (insert le a xs) (a ∷ xs)
  unfolding insert
  insert-perm le a [] = Perm.rfl
  insert-perm le a (x ∷ xs) =
      let later = Perm.trans (Perm.cons x (insert-perm le a xs)) (Perm.swap a x xs) in
      elim (Bool-cases (le a x)) [ inl p ↦ rw p Perm.rfl | inr p ↦ rw p later ]

  pub sort-perm : (le : A → A → Bool) (xs : List A) → Perm (sort le xs) xs
  unfolding sort
  sort-perm le [] = Perm.rfl
  sort-perm le (x ∷ xs) = Perm.trans (insert-perm le x (sort le xs)) (Perm.cons x (sort-perm le xs))

  pub All-insert {κ} :
      (P : A → Type κ) (le : A → A → Bool) (a : A) (xs : List A)
      → P a
      → All P xs
      → All P (insert le a xs)
  unfolding insert
  All-insert P le a [] p h = (p, tt)
  All-insert P le a (x ∷ xs) p h = ground (arith, All-insert P le a xs p h.1)

  pub All-sort {κ} :
      (P : A → Type κ) (le : A → A → Bool) (xs : List A) → All P xs → All P (sort le xs)
  unfolding sort
  All-sort P le [] h = tt
  All-sort P le (x ∷ xs) h = All-insert P le x (sort le xs) h.0 (All-sort P le xs h.1)

  All-of_insert {κ} :
      (P : A → Type κ) (le : A → A → Bool) (a : A) (xs : List A)
      → All P (insert le a xs)
      → P a × All P xs
  unfolding insert
  All-of_insert P le a [] h = h
  All-of_insert P le a (x ∷ xs) h = elim (Bool-cases (le a x)) [
    | inl e ↦ rw e at h
    | inr e ↦
        let later : P x × All P (insert le a xs) = rw e at h in
        let rest = All-of_insert P le a xs later.1 in (rest.0, (later.0, rest.1))
  ]

  -- What holds of all members of the sorted list holds of the list.
  pub All-of_sort {κ} :
      (P : A → Type κ) (le : A → A → Bool) (xs : List A) → All P (sort le xs) → All P xs
  unfolding sort
  All-of_sort P le [] h = tt
  All-of_sort P le (x ∷ xs) h =
      let both = All-of_insert P le x (sort le xs) h in (both.0, All-of_sort P le xs both.1)

  pub length-insert :
      (le : A → A → Bool) (a : A) (xs : List A) → length (insert le a xs) ≡ suc (length xs)
  unfolding insert
  length-insert le a [] = refl
  length-insert le a (x ∷ xs) = ground (arith, length-insert le a xs)

  pub length-sort : (le : A → A → Bool) (xs : List A) → length (sort le xs) ≡ length xs
  unfolding sort
  length-sort le [] = refl
  length-sort le (x ∷ xs) = omega (arith, length-insert le x (sort le xs), length-sort le xs)

  sum_by-insert :
      (f : A → ℕ) (le : A → A → Bool) (a : A) (xs : List A)
      → sum_by f (insert le a xs) ≡ f a + sum_by f xs
  unfolding insert
  sum_by-insert f le a [] = refl
  sum_by-insert f le a (x ∷ xs) = ground (arith, sum_by-insert f le a xs)

  pub sum_by-sort :
      (f : A → ℕ) (le : A → A → Bool) (xs : List A) → sum_by f (sort le xs) ≡ sum_by f xs
  unfolding sort
  sum_by-sort f le [] = refl
  sum_by-sort f le (x ∷ xs) = omega (arith, sum_by-insert f le x (sort le xs), sum_by-sort f le xs)

  -- What is cut off a sorted list is behind all that is kept.
  pub IsSorted-cut :
      (le : A → A → Bool) (n : ℕ) (xs : List A)
      → IsSorted le xs
      → All (λ k. All (λ d. le k d ≡ true) (drop n xs)) (take n xs)
  IsSorted-cut le zero xs s = tt
  IsSorted-cut le (suc n) [] s = tt
  IsSorted-cut le (suc n) (x ∷ xs) s =
      (All-drop (λ y. le x y ≡ true) n xs s.0, IsSorted-cut le n xs s.1)

  -- What a comparison has to satisfy for the result to be ordered.
  pub record IsOrder (le : A → A → Bool) : Type ℓ where
    pub total : (a b : A) → le a b ≡ false → le b a ≡ true
    pub trans : (a b c : A) → le a b ≡ true → le b c ≡ true → le a c ≡ true

  All-le :
      {le : A → A → Bool}
      → IsOrder le
      → (a x : A) (xs : List A) → le a x ≡ true
      → All (λ y. le x y ≡ true) xs
      → All (λ y. le a y ≡ true) xs
  All-le o a x [] p h = tt
  All-le o a x (y ∷ xs) p h = (o.trans a x y p h.0, All-le o a x xs p h.1)

  insert-IsSorted :
      {le : A → A → Bool} (o : IsOrder le) (a : A) (xs : List A)
      → IsSorted le xs
      → IsSorted le (insert le a xs)
  unfolding insert
  insert-IsSorted o a [] h = (tt, tt)
  insert-IsSorted {le} o a (x ∷ xs) h = elim (Bool-cases (le a x)) [
    | inl p ↦ rw p ((p, All-le o a x xs p h.0), h)
    | inr p ↦
        rw p
          (All-insert (λ y. le x y ≡ true) le a xs (o.total a x p) h.0, insert-IsSorted o a xs h.1)
  ]

  pub sort-IsSorted : {le : A → A → Bool} → IsOrder le → (xs : List A) → IsSorted le (sort le xs)
  unfolding sort
  sort-IsSorted o [] = tt
  sort-IsSorted {le} o (x ∷ xs) = insert-IsSorted o x (sort le xs) (sort-IsSorted o xs)

  -- Stability: members that the order does not tell apart keep their places.
  insert-filter :
      (le : A → A → Bool) (p : A → Bool) (a : A) (xs : List A)
      → ((x : A) → p a ≡ true → p x ≡ true → le a x ≡ true)
      → filter p (insert le a xs) ≡ (if p a then a ∷ filter p xs else filter p xs)
  unfolding insert
  insert-filter le p a [] h = refl
  insert-filter le p a (x ∷ xs) h = ground (arith, h x, insert-filter le p a xs h)

  pub sort-filter :
      (le : A → A → Bool) (p : A → Bool) (xs : List A)
      → ((a b : A) → p a ≡ true → p b ≡ true → le a b ≡ true)
      → filter p (sort le xs) ≡ filter p xs
  unfolding sort
  sort-filter le p [] h = refl
  sort-filter le p (x ∷ xs) h =
      ground (arith, insert-filter le p x (sort le xs) (h x), sort-filter le p xs h)

-- Sorting does not change which keys there are.
module _ {ℓ κ} {A : Type ℓ} {K : Type κ} ⦃e : Eq K⦄ (key : A → K) (le : A → A → Bool) where
  includes-insert :
      (k : K) (a : A) (xs : List A)
      → includes k (map key (insert le a xs)) ≡ ((k == key a) || includes k (map key xs))
  unfolding insert
  includes-insert k a [] = refl
  includes-insert k a (x ∷ xs) = ground (arith, includes-insert k a xs)

  pub includes-sort :
      (k : K) (xs : List A) → includes k (map key (sort le xs)) ≡ includes k (map key xs)
  unfolding sort
  includes-sort k [] = refl
  includes-sort k (x ∷ xs) = ground (arith, includes-insert k x (sort le xs), includes-sort k xs)

  insert-IsUnique :
      (a : A) (xs : List A)
      → includes (key a) (map key xs) ≡ false
      → IsUnique key xs
      → IsUnique key (insert le a xs)
  unfolding insert
  insert-IsUnique a [] h u = (refl, tt)
  insert-IsUnique a (x ∷ xs) h u =
      ground (arith, insert-IsUnique a xs, includes-insert (key x) a xs, u.1, u.0)

  pub sort-IsUnique : (xs : List A) → IsUnique key xs → IsUnique key (sort le xs)
  unfolding sort
  sort-IsUnique [] u = tt
  sort-IsUnique (x ∷ xs) u =
      insert-IsUnique x (sort le xs) (rw (includes-sort (key x) xs) u.0) (sort-IsUnique xs u.1)
