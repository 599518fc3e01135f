-- ===== src/Common/Stamps.antt =====
-- Date texts of the source's records, with the instant that `Date.parse` reads from them, in
-- milliseconds since 1970.
use Prim.Native.Nat.{ℕ}
use online_seller_control_hu.Common.Texts.{Text}

pub record Stamp : Type 0 where
  pub text : Text
  pub at : ℕ
