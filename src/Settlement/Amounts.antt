-- ===== src/Settlement/Amounts.antt =====
-- Amounts of money, as src/settlement rounds and compares them. The source keeps them as floating-point
-- numbers, whose arithmetic is a parameter here: nothing that is proved depends on it.
use online_seller_control_hu.Common.{
  Bool, ◌||◌, ◌&&◌, [], ◌∷◌, true, false, ltb, ◌==◌, nat_eq, Text,
}

pub record Amounts (A : Type 0) : Type 0 where
  pub zero_amount : A
  pub add : A → A → A
  pub sub : A → A → A
  pub negate : A → A
  pub abs : A → A
  pub le : A → A → Bool
  -- `Number.EPSILON`, the product with 100, the quotient by it, and `Math.round`.
  pub epsilon : A
  pub times_100 : A → A
  pub per_100 : A → A
  pub round : A → A
  -- What the schemas ask: a net amount between minus and plus a billion, a fee up to a billion, and a
  -- tolerance up to ten thousand, all of them finite.
  pub is_net_amount : A → Bool
  pub is_fee : A → Bool
  pub is_tolerance : A → Bool

module _ {A : Type 0} (m : Amounts A) where
  unfoldable pub money : A → A
  money value = m.per_100 (m.round (m.times_100 (m.add value m.epsilon)))

-- The order in which `sort` without a comparison puts texts: by code units.
unfoldable pub text_le : Text → Text → Bool
text_le [] b = true
text_le (x ∷ a) [] = false
text_le (x ∷ a) (y ∷ b) = ltb x y || (x == y && text_le a b)
