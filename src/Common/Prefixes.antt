-- ===== src/Common/Prefixes.antt =====
-- `slice(0, n)`: what the first members of a list keep of it.
use Prim.Native.Nat.{ℕ, zero, suc, ◌≤◌, ◌-◌}
use mathlib.Core.Path.{◌≡◌, refl}
use mathlib.Core.Logic.{◌⊎◌, inl, inr}
use mathlib.Core.Bool.{false}
use mathlib.Core.List.{List, [], ◌∷◌, ◌++◌, map}
use native.Mathlib.Omega.{arith}
use online_seller_control_hu.Common.Tests.{Eq}
use online_seller_control_hu.Common.Lists.{length, take, drop, All, includes, IsUnique}

module _ {ℓ} {A : Type ℓ} where
  pub All-take {κ} : (P : A → Type κ) (n : ℕ) (xs : List A) → All P xs → All P (take n xs)
  All-take P zero xs h = tt
  All-take P (suc n) [] h = tt
  All-take P (suc n) (x ∷ xs) h = (h.0, All-take P n xs h.1)

  pub length-take : (n : ℕ) (xs : List A) → n ≤ length xs → length (take n xs) ≡ n
  length-take zero xs h = refl
  length-take (suc n) [] h = omega (arith, h)
  length-take (suc n) (x ∷ xs) h = omega (arith, length-take n xs (omega (arith, h)))

  pub length-take-le : (n : ℕ) (xs : List A) → length (take n xs) ≤ n
  length-take-le zero xs = omega arith
  length-take-le (suc n) [] = omega arith
  length-take-le (suc n) (x ∷ xs) = omega (arith, length-take-le n xs)

  -- A list that is not longer is kept whole.
  pub take_whole : (n : ℕ) (xs : List A) → length xs ≤ n → take n xs ≡ xs
  take_whole zero [] h = refl
  take_whole zero (x ∷ xs) h = absurd (omega (arith, h))
  take_whole (suc n) [] h = refl
  take_whole (suc n) (x ∷ xs) h = rw (take_whole n xs (omega (arith, h)))

  pub take-drop : (n : ℕ) (xs : List A) → take n xs ++ drop n xs ≡ xs
  take-drop zero xs = refl
  take-drop (suc n) [] = refl
  take-drop (suc n) (x ∷ xs) = rw (take-drop n xs)

  pub length-drop : (n : ℕ) (xs : List A) → length (drop n xs) ≡ length xs - n
  length-drop zero xs = omega arith
  length-drop (suc n) [] = omega arith
  length-drop (suc n) (x ∷ xs) = omega (arith, length-drop n xs)

  -- Nothing is cut off, or as much is kept as may be.
  pub cut_cases : (n : ℕ) (xs : List A) → (drop n xs ≡ []) ⊎ (length (take n xs) ≡ n)
  cut_cases zero xs = inr refl
  cut_cases (suc n) [] = inl refl
  cut_cases (suc n) (x ∷ xs) = elim (cut_cases n xs) [
    | inl e ↦ inl e
    | inr e ↦ inr (omega (arith, e))
  ]

  pub All-drop {κ} : (P : A → Type κ) (n : ℕ) (xs : List A) → All P xs → All P (drop n xs)
  All-drop P zero xs h = h
  All-drop P (suc n) [] h = tt
  All-drop P (suc n) (x ∷ xs) h = All-drop P n xs h.1

module _ {ℓ κ} {A : Type ℓ} ⦃e : Eq A⦄ {B : Type κ} where
  includes-take :
      (k : A) (key : B → A) (n : ℕ) (xs : List B)
      → includes k (map key xs) ≡ false
      → includes k (map key (take n xs)) ≡ false
  includes-take k key zero xs h = refl
  includes-take k key (suc n) [] h = refl
  includes-take k key (suc n) (x ∷ xs) h = ground (arith, includes-take k key n xs)

  pub take-IsUnique :
      (key : B → A) (n : ℕ) (xs : List B) → IsUnique key xs → IsUnique key (take n xs)
  take-IsUnique key zero xs u = tt
  take-IsUnique key (suc n) [] u = tt
  take-IsUnique key (suc n) (x ∷ xs) u =
      (includes-take (key x) key n xs u.0, take-IsUnique key n xs u.1)
