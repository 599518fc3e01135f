-- ===== src/Common/Groups.antt =====
-- Arrays that the source collects by a key, in a map of arrays.
use mathlib.Core.Path.{◌≡◌, refl, sym, ap, subst}
use mathlib.Core.Logic.{inl, inr}
use mathlib.Core.Bool.{true, false}
use mathlib.Core.List.{List, [], ◌∷◌, ◌++◌, append-nil, append_assoc}
use online_seller_control_hu.Common.Tests.{if◌then◌else◌, Eq, ◌==◌, eq_of_==, or_else, Bool-cases}
use online_seller_control_hu.Common.Lists.{filter, All}
use online_seller_control_hu.Common.Filters.{filter_whole, filter_nothing, All-append, All-imp}
use online_seller_control_hu.Common.Dicts.{
  Dict, get, set, get-set, HasUniqueKeys, set-HasUniqueKeys, All-set,
}

module _ {ℓ} {K : Type 0} {A : Type ℓ} ⦃e : Eq K⦄ where
  abbrev pub group_of : K → Dict K (List A) → List A
  group_of k d = or_else (get k d) []

module _ {ℓ} {K : Type 0} {A : Type ℓ} ⦃e : Eq K⦄ (key : A → K) where
  abbrev grouped_with : A → Dict K (List A) → Dict K (List A)
  grouped_with a d = set (key a) (group_of (key a) d ++ (a ∷ [])) d

  -- Each member joins the end of the group of its key; a new group comes last.
  unfoldable pub group_by : Dict K (List A) → List A → Dict K (List A)
  group_by d [] = d
  group_by d (a ∷ xs) = group_by (grouped_with a d) xs

  abbrev pub IsOf : K → A → Type 0
  IsOf k a = key a ≡ k

  -- Each group holds members of its key, and each key has one group.
  pub record IsGrouped (d : Dict K (List A)) : Type ℓ where
    pub own : All (λ g. All (IsOf g.0) g.1) d
    pub unique : HasUniqueKeys d

  -- The members of one key, among those of another one or the same.
  pub filter-group :
      (j k : K) (xs : List A)
      → All (IsOf j) xs
      → filter (λ a. key a == k) xs ≡ (if j == k then xs else [])
  filter-group j k xs h = elim (Bool-cases (j == k)) [
    | inl y ↦ rw y (
        filter_whole (λ a. key a == k) xs
          (All-imp (IsOf j) (λ a. (key a == k) ≡ true) xs (λ a o. rw (o, y)) h))
    | inr n ↦ rw n (
        filter_nothing (λ a. key a == k) xs
          (All-imp (IsOf j) (λ a. (key a == k) ≡ false) xs (λ a o. rw (o, n)) h))
  ]

  group_of-own :
      (k : K) (d : Dict K (List A)) → All (λ g. All (IsOf g.0) g.1) d → All (IsOf k) (group_of k d)
  unfolding get
  group_of-own k [] h = tt
  group_of-own k ((j, xs) ∷ d) h = elim (Bool-cases (j == k)) [
    | inl y ↦ rw y (subst (λ i. All (IsOf i) xs) (eq_of_== j k y) h.0)
    | inr n ↦ rw n (group_of-own k d h.1)
  ]

  pub group_by-IsGrouped :
      (d : Dict K (List A)) (xs : List A) → IsGrouped d → IsGrouped (group_by d xs)
  unfolding group_by
  group_by-IsGrouped d [] g = g
  group_by-IsGrouped d (a ∷ xs) g =
      let more = group_of (key a) d ++ (a ∷ []) in
      let own =
        All-append (IsOf (key a)) (group_of (key a) d) (a ∷ []) (group_of-own (key a) d g.own)
          (refl, tt) in
      group_by-IsGrouped (grouped_with a d) xs (record {
        own = All-set (λ h. All (IsOf h.0) h.1) (key a) more d own g.own;
        unique = set-HasUniqueKeys (key a) more d g.unique;
      })

  -- A group holds the members of its key in order, after those that it held before.
  pub group_of-group_by :
      (k : K) (d : Dict K (List A)) (xs : List A)
      → group_of k (group_by d xs) ≡ group_of k d ++ filter (λ a. key a == k) xs
  unfolding group_by
  group_of-group_by k d [] = sym (append-nil (group_of k d))
  group_of-group_by k d (a ∷ xs) =
      let more = group_of (key a) d ++ (a ∷ []) in
      let later = group_of-group_by k (grouped_with a d) xs in
      elim (Bool-cases (key a == k)) [
        | inl y ↦
            let same = ap (λ j. group_of j d) (eq_of_== (key a) k y) in
            rw (later, get-set (key a) k more d, y, same)
              (append_assoc (group_of k d) (a ∷ []) (filter (λ b. key b == k) xs))
        | inr n ↦ rw (later, get-set (key a) k more d, n) refl
      ]
