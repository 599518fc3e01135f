-- ===== src/Common/Filters.antt =====
-- `filter` on parts of a list, and what it says of the whole.
use mathlib.Core.Path.{◌≡◌, refl}
use mathlib.Core.Bool.{Bool, true, false}
use mathlib.Core.List.{List, [], ◌∷◌, ◌++◌}
use native.Mathlib.Omega.{arith}
use online_seller_control_hu.Common.Lists.{filter, All}

module _ {ℓ} {A : Type ℓ} (p : A → Bool) where
  pub filter-append : (xs ys : List A) → filter p (xs ++ ys) ≡ filter p xs ++ filter p ys
  filter-append [] ys = refl
  filter-append (x ∷ xs) ys = ground (arith, filter-append xs ys)

  pub filter_whole : (xs : List A) → All (λ x. p x ≡ true) xs → filter p xs ≡ xs
  filter_whole [] h = refl
  filter_whole (x ∷ xs) h = ground (arith, filter_whole xs h.1)

  pub filter_nothing : (xs : List A) → All (λ x. p x ≡ false) xs → filter p xs ≡ []
  filter_nothing [] h = refl
  filter_nothing (x ∷ xs) h = ground (arith, filter_nothing xs h.1)

  pub All-filter {κ} : (P : A → Type κ) (xs : List A) → All P xs → All P (filter p xs)
  All-filter P [] h = tt
  All-filter P (x ∷ xs) h = ground (arith, All-filter P xs h.1)

module _ {ℓ κ} {A : Type ℓ} where
  pub All-append : (P : A → Type κ) (xs ys : List A) → All P xs → All P ys → All P (xs ++ ys)
  All-append P [] ys h k = k
  All-append P (x ∷ xs) ys h k = (h.0, All-append P xs ys h.1 k)

  pub All_by : (P : A → Type κ) (xs : List A) → ((x : A) → P x) → All P xs
  All_by P [] f = tt
  All_by P (x ∷ xs) f = (f x, All_by P xs f)

  pub All-imp {μ} :
      (P : A → Type κ) (Q : A → Type μ) (xs : List A) → ((x : A) → P x → Q x) → All P xs → All Q xs
  All-imp P Q [] f h = tt
  All-imp P Q (x ∷ xs) f h = (f x h.0, All-imp P Q xs f h.1)
