-- ===== src/Core/Control/Snapshots.antt =====
-- src/core/controlService.ts: what `sameSnapshot` compares.
use online_seller_control_hu.Common.{
  ℕ, ◌≡◌, refl, ◌↔◌, true, false, Option, none, some, List, [], ◌∷◌, map, text_eq, nat_eq, every,
  arith, IsUnique, includes,
}
use online_seller_control_hu.Common.Dicts.{Dict, get, set, get-set}
use online_seller_control_hu.Core.Types.{Market, market_eq, MarketState, sale_status_eq}
use online_seller_control_hu.Core.Control.{
  same_number, same_state, by_market, agrees, same_snapshot,
}

same_number-eq : (a b : Option ℕ) → same_number a b ≡ true → a ≡ b
same_number-eq none none h = refl
same_number-eq (some a) (some b) h = ground arith
same_number-eq none (some b) h = cc
same_number-eq (some a) none h = cc

same_number_refl : (a : Option ℕ) → same_number a a ≡ true
same_number_refl none = refl
same_number_refl (some a) = ground arith

-- Two states of one market are the same exactly when they are equal.
same_state_iff : (a b : MarketState) → a.market ≡ b.market → (same_state a b ≡ true) ↔ (a ≡ b)
same_state_iff a b m = (
  λ h. ground (arith, same_number-eq a.price b.price, same_number-eq a.stock b.stock),
  λ e. rw e (ground (arith, same_number_refl b.price, same_number_refl b.stock)),
)

-- The look-up of a market in the states: the last one of that market.
get-by_market :
    (states : List MarketState) (d : Dict Market MarketState) (m : Market) (s : MarketState)
    → includes m (map (λ t. t.market) states) ≡ false
    → get m d ≡ some s
    → get m (by_market states d) ≡ some s
unfolding by_market
get-by_market [] d m s h g = g
get-by_market (t ∷ states) d m s h g =
    get-by_market states (set t.market t d) m s (ground arith)
      (ground (arith, get-set t.market m t d))

-- Over distinct markets each state of the list is found again.
agrees_all :
    (approved current : List MarketState) (d : Dict Market MarketState)
    → map (λ s. s.market) approved ≡ map (λ s. s.market) current
    → IsUnique (λ s. s.market) current
    → every (agrees (by_market current d)) approved ≡ true
    → approved ≡ current
unfolding by_market
agrees_all [] [] d e u h = refl
agrees_all [] (c ∷ current) d e u h = cc
agrees_all (a ∷ approved) [] d e u h = cc
agrees_all (a ∷ approved) (c ∷ current) d e u h =
    let found : get c.market (by_market current (set c.market c d)) ≡ some c =
      get-by_market current (set c.market c d) c.market c u.0
        (ground (arith, get-set c.market c.market c d)) in
    ground (arith, found, same_state_iff c a, agrees_all approved current (set c.market c d))

agrees_self :
    (current : List MarketState) (d : Dict Market MarketState)
    → IsUnique (λ s. s.market) current
    → every (agrees (by_market current d)) current ≡ true
unfolding by_market
agrees_self [] d u = refl
agrees_self (c ∷ current) d u =
    let found : get c.market (by_market current (set c.market c d)) ≡ some c =
      get-by_market current (set c.market c d) c.market c u.0
        (ground (arith, get-set c.market c.market c d)) in
    ground (arith, found, same_state_iff c c refl, agrees_self current (set c.market c d) u.1)

-- For states of the same distinct markets in the same order, `sameSnapshot` is equality.
pub same_snapshot_iff :
    (approved current : List MarketState)
    → map (λ s. s.market) approved ≡ map (λ s. s.market) current
    → IsUnique (λ s. s.market) current
    → (same_snapshot approved current ≡ true) ↔ (approved ≡ current)
unfolding same_snapshot
same_snapshot_iff approved current e u = (
  λ h. agrees_all approved current [] e u (ground arith),
  λ same. rw same (ground (arith, agrees_self current [] u)),
)
