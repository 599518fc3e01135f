-- ===== src/Core/Control/Execution.antt =====
-- src/core/controlService.ts: an approved command runs on the state that was approved, or not at
-- all, and each market's task is answered for.
use online_seller_control_hu.Common.{
  All, ap, false, ◌≡◌, ◌≢◌, refl, sym, inl, inr, Option, none, some, List, [], ◌∷◌, map, arith,
  IsUnique, IsUnique-of_map, Bool-cases, ok,
}
use online_seller_control_hu.Common.Actions.{pure, ◌>>=◌, >>=-ok}
use online_seller_control_hu.Common.Dicts.{get}
use online_seller_control_hu.Core.Types.{
  Market, market_eq, MarketState, CatalogProduct, ParsedCommand,
}
use online_seller_control_hu.Core.Control.{
  MarketAdapter, Adapters, same_snapshot, refused, snapshot, execute, execute_approved, read_state,
}
use online_seller_control_hu.Core.Control.Snapshots.{same_snapshot_iff}

module _ {W : Type 0} where
  -- Every adapter reports the state of the market under which it is registered.
  abbrev pub IsHonest : Adapters W → Type 0
  IsHonest adapters =
      (m : Market) (a : MarketAdapter W) (product : CatalogProduct) (w : W) (s : MarketState)
      → get m adapters ≡ some a
      → (a.get_state product w).0 ≡ ok s
      → s.market ≡ m

  read_state_market :
      (adapters : Adapters W) (m : Market) (product : CatalogProduct) (w : W) (s : MarketState)
      → IsHonest adapters
      → (found : Option (MarketAdapter W)) → get m adapters ≡ found
      → (read_state found m product w).0 ≡ ok s
      → s.market ≡ m
  unfolding read_state
  read_state_market adapters m product w s h none e r = cc
  read_state_market adapters m product w s h (some a) e r = h m a product w s e r

  -- A snapshot has one state for each market, in the command's order.
  pub snapshot_markets :
      (adapters : Adapters W) (product : CatalogProduct) (markets : List Market) (w : W)
      (states : List MarketState)
      → IsHonest adapters
      → (snapshot adapters product markets w).0 ≡ ok states
      → map (λ s. s.market) states ≡ markets
  unfolding snapshot
  snapshot_markets adapters product [] w states h e = ground arith
  snapshot_markets adapters product (m ∷ markets) w states h e =
      let read = read_state (get m adapters) m product in
      let rest = snapshot adapters product markets in
      let (s, first, e') = >>=-ok read (λ s. rest >>= λ ss. pure (s ∷ ss)) w e in
      let (ss, later, e'') = >>=-ok rest (λ ss. pure (s ∷ ss)) (read w).1 e' in
      let own = read_state_market adapters m product w s h (get m adapters) refl first in
      let tail = snapshot_markets adapters product markets (read w).1 ss h later in
      ground (arith, own, tail)

refused-fails :
    (markets : List Market)
    → (map (λ r. r.market) (refused markets) ≡ markets) × All (λ r. r.ok ≡ false) (refused markets)
refused-fails [] = (refl, tt)
refused-fails (m ∷ markets) =
    let rest = refused-fails markets in (ap (λ ms. m ∷ ms) rest.0, (refl, rest.1))

-- When the states of the command's distinct markets can be read, an approved command is executed
-- if they are the approved ones. If any of them differs, the answer has one result for each
-- market, in order, none of them a success, and no adapter's `execute` has run: the world is as the reading of the states left it.
pub execute_approved_guard :
    {W : Type 0} (adapters : Adapters W) (product : CatalogProduct) (command : ParsedCommand)
    (approved current : List MarketState) (w : W)
    → IsHonest adapters
    → IsUnique (λ m. m) command.markets
    → map (λ s. s.market) approved ≡ command.markets
    → (snapshot adapters product command.markets w).0 ≡ ok current
    → let w' = (snapshot adapters product command.markets w).1 in
      let outcome = execute_approved adapters product command approved w in
      ((current ≡ approved) → outcome ≡ execute adapters product command w')
      × ((current ≢ approved)
          → (outcome ≡ (ok (refused command.markets), w'))
            × (map (λ r. r.market) (refused command.markets) ≡ command.markets)
            × All (λ r. r.ok ≡ false) (refused command.markets))
unfolding execute_approved
execute_approved_guard adapters product command approved current w honest unique covers read =
    let own = snapshot_markets adapters product command.markets w current honest read in
    let distinct : IsUnique (λ s. s.market) current =
      IsUnique-of_map (λ s. s.market) current (rw (← own) at unique) in
    let compare = same_snapshot_iff approved current (ground arith) distinct in
    (
      λ same. ground (arith, compare.1 (sym same)),
      λ changed. elim (Bool-cases (same_snapshot approved current)) [
        | inl yes_same ↦ absurd (changed (sym (compare.0 yes_same)))
        | inr differ ↦
            let (one_each, none_ok) = refused-fails command.markets in
            (ground arith, one_each, none_ok)
      ],
    )
