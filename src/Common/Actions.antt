-- ===== src/Common/Actions.antt =====
-- Asynchronous code that may throw, run in a world: what it changed stays changed after a throw.
use mathlib.Core.Path.{◌≡◌, refl}
use online_seller_control_hu.Common.Results.{Result, ok, throw}
use online_seller_control_hu.Common.Texts.{Text}

abbrev pub Action : Type 0 → Type 0 → Type 0
Action W A = W → Result Text A × W

module _ {W : Type 0} where
  abbrev pub pure : {A : Type 0} → A → Action W A
  pure a w = (ok a, w)

  abbrev pub raise : {A : Type 0} → Text → Action W A
  raise e w = (throw e, w)

  -- What follows an outcome.
  abbrev pub and_then : {A B : Type 0} → Result Text A → (A → Action W B) → Action W B
  and_then (ok a) f w = f a w
  and_then (throw e) f w = (throw e, w)

  infixl 5 ◌>>=◌
  abbrev pub ◌>>=◌ : {A B : Type 0} → Action W A → (A → Action W B) → Action W B
  ◌>>=◌ m f w = let (r, w') = m w in and_then r f w'

  and_then-ok :
      {A B : Type 0} (r : Result Text A) (f : A → Action W B) (w : W) {b : B}
      → (and_then r f w).0 ≡ ok b
      → (a : A) × (r ≡ ok a) × ((f a w).0 ≡ ok b)
  and_then-ok (ok a) f w h = (a, refl, h)
  and_then-ok (throw e) f w h = cc

  -- Inversion of a successful bind.
  pub >>=-ok :
      {A B : Type 0} (m : Action W A) (f : A → Action W B) (w : W) {b : B}
      → ((m >>= f) w).0 ≡ ok b
      → (a : A) × ((m w).0 ≡ ok a) × ((f a (m w).1).0 ≡ ok b)
  >>=-ok m f w h = and_then-ok (m w).0 f (m w).1 h
