-- ===== src/Markets/Registry/Examples.antt =====
-- src/markets/registry.ts with Coupang enabled.
use online_seller_control_hu.Common.{
  ◌≡◌, refl, ◌↔◌, ◌⊎◌, true, false, [], ◌∷◌, throw, running, includes,
}
use online_seller_control_hu.Core.Types.{naver, coupang, toss, market_eq, Market-discrete}
use online_seller_control_hu.Markets.Registry.{
  build_market_registry, live_adapter, writes_live, writes_live_iff, unsupported, no_live_market,
}

program : Unit {0}
unfolding running build_market_registry live_adapter Market-discrete
program = tt

naver_refused :
    build_market_registry false true (coupang ∷ naver ∷ []) ≡ throw (unsupported (naver ∷ []))
unfolding program
naver_refused = refl

none_enabled : build_market_registry false true [] ≡ throw no_live_market
unfolding program
none_enabled = refl

writes_live_iff_example :
    ((writes_live (live_adapter (coupang ∷ []) coupang) ≡ true)
      ↔ ((false ≡ false) × (includes coupang (coupang ∷ []) ≡ true)))
    × (writes_live (live_adapter (coupang ∷ []) coupang) ≡ true
        → ((coupang ≡ coupang) ⊎ (coupang ≡ toss)) × (true ≡ true))
unfolding program
writes_live_iff_example =
    writes_live_iff false true (coupang ∷ []) (live_adapter (coupang ∷ [])) coupang refl
