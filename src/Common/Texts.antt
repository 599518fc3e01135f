-- ===== src/Common/Texts.antt =====
-- JavaScript strings, as their UTF-16 code units: length, equality, trim, lower case of ASCII
-- letters, the character classes of the source's patterns, and joining with a colon.
use Prim.Native.Nat.{ℕ, ◌+◌, ◌-◌}
use Prim.Native.Char.{code}
use Prim.Native.String.{String}
use mathlib.Core.Path.{◌≡◌, refl, ap₂}
use mathlib.Core.Logic.{◌≢◌}
use mathlib.Core.Bool.{Bool, ◌&&◌, ◌||◌}
use mathlib.Core.List.{List, [], ◌∷◌, ◌++◌, reverse}
use native.Mathlib.Decide.{ℕ_discrete}
use native.Mathlib.Omega.{arith}
use online_seller_control_hu.Common.Tests.{leb, if◌then◌else◌, Eq, nat_eq}
use online_seller_control_hu.Common.Lists.{includes}

abbrev pub Text : Type 0
Text = List ℕ

-- A literal of the source whose characters are ASCII.
abbrev pub codes : String → Text
codes String.[] = []
codes (String.◌∷◌ c s) = code c ∷ codes s

unfoldable pub text_discrete : (a b : Text) → Dec (a ≡ b)
text_discrete [] [] = yes refl
text_discrete [] (x ∷ b) = no (λ h. cc)
text_discrete (x ∷ a) [] = no (λ h. cc)
text_discrete (x ∷ a) (y ∷ b) =
    let rest = text_discrete a b in
    elim (ℕ_discrete x y) [
      | yes p ↦ elim rest [ yes q ↦ yes (ap₂ ◌∷◌ p q) | no n ↦ no (λ h. n (cc)) ]
      | no n ↦ no (λ h. n (cc))
    ]

instance abbrev pub text_eq : Eq Text
text_eq = record { dec_eq = text_discrete }

-- `String.prototype.toLowerCase` on ASCII letters.
abbrev pub lower_unit : ℕ → ℕ
lower_unit c = if leb b'A' c && leb c b'Z' then c + 32 else c

abbrev pub upper_unit : ℕ → ℕ
upper_unit c = if leb b'a' c && leb c b'z' then c - 32 else c

-- The code units that `trim` removes and `\s` matches.
abbrev pub is_space : ℕ → Bool
is_space c =
    (leb 9 c && leb c 13)
    || includes c (32 ∷ 160 ∷ 0x1680 ∷ 0x2028 ∷ 0x2029 ∷ 0x202f ∷ 0x205f ∷ 0x3000 ∷ 0xfeff ∷ [])
    || (leb 0x2000 c && leb c 0x200a)

pub trim_left : Text → Text
trim_left [] = []
trim_left (c ∷ s) = if is_space c then trim_left s else c ∷ s

unfoldable pub trim : Text → Text
unfolding trim_left
trim s = reverse (trim_left (reverse (trim_left s)))

abbrev pub is_letter : ℕ → Bool
is_letter c = (leb b'A' c && leb c b'Z') || (leb b'a' c && leb c b'z')

abbrev pub is_digit : ℕ → Bool
is_digit c = leb b'0' c && leb c b'9'

-- `a:b` in a template string.
infixr 66 ◌:+◌
abbrev pub ◌:+◌ : Text → Text → Text
a :+ b = a ++ (b':' ∷ b)

-- A text without a code unit.
abbrev pub HasNo : ℕ → Text → Type 0
HasNo u [] = Unit
HasNo u (c ∷ s) = (c ≢ u) × HasNo u s

-- A key whose first part does not have the separator can be read back.
pub parts_injective :
    (u : ℕ) (a b x y : Text)
    → HasNo u a
    → HasNo u b
    → ◌≡◌ {A = Text} (a ++ (u ∷ x)) (b ++ (u ∷ y))
    → (a ≡ b) × (x ≡ y)
parts_injective u [] [] x y ha hb e = (refl, cc)
parts_injective u [] (c ∷ b) x y ha hb e = absurd (hb.0 (cc))
parts_injective u (c ∷ a) [] x y ha hb e = absurd (ha.0 (cc))
parts_injective u (c ∷ a) (d ∷ b) x y ha hb e =
    ground (arith, parts_injective u a b x y ha.1 hb.1 (cc))
