-- ===== src/Markets/Registry.antt =====
-- src/markets/registry.ts: which adapter each marketplace gets. An adapter is named by its class.
mod Examples
use online_seller_control_hu.Common.{
  ℕ, ◌≡◌, ◌≢◌, refl, ◌⊎◌, inl, inr, Bool, true, false, ◌&&◌, not, Option, none, some, List, [], ◌∷◌,
  map, Eq, ◌==◌, Text, codes, if◌then◌else◌, Result, ok, throw, filter, every, includes, is_empty,
  arith, All, Bool-cases, unique_from, includes-unique_from, ◌↔◌,
}
use online_seller_control_hu.Common.Dicts.{Dict, get, set}
use online_seller_control_hu.Core.Types.{
  Market, naver, coupang, gmarket, lotteon, toss, kakao, market_eq, Market-discrete, markets_all,
}

pub data AdapterClass : Type 0 where
  dry_run coupang_market toss_market : AdapterClass
  unavailable : (reason : Text) → AdapterClass

pub data RegistryError : Type 0 where
  no_credential_store no_live_market : RegistryError
  unsupported : List Market → RegistryError

abbrev pub live_write_adapter_markets : List Market
live_write_adapter_markets = coupang ∷ toss ∷ []

-- The adapter of a market in live mode.
unfoldable pub live_adapter : List Market → Market → AdapterClass
live_adapter live m =
    if not (includes m live)
    then unavailable (codes "live access is not enabled for this market")
    else if m == coupang
    then coupang_market
    else if m == toss
    then toss_market
    else unavailable (codes "real adapter has not passed integration testing yet")

abbrev pub Registry : Type 0
Registry = Market → AdapterClass

unfoldable pub build_market_registry :
    (dry_run : Bool) (credentials_ready : Bool) (live_markets : List Market)
    → Result RegistryError Registry
build_market_registry dry ready live_markets =
    let live = unique_from [] live_markets in
    let unsupported_markets = filter (λ m. not (includes m live_write_adapter_markets)) live in
    if dry
    then ok (λ m. dry_run)
    else if not ready
    then throw no_credential_store
    else if is_empty live
    then throw no_live_market
    else if not (is_empty unsupported_markets)
    then throw (unsupported unsupported_markets)
    else ok (live_adapter live)

abbrev pub writes_live : AdapterClass → Bool
writes_live coupang_market = true
writes_live toss_market = true
writes_live _ = false

filter-is_empty :
    (p : Market → Bool) (m : Market) (xs : List Market)
    → is_empty (filter p xs) ≡ true
    → includes m xs ≡ true
    → p m ≡ false
filter-is_empty p m [] h k = cc
filter-is_empty p m (x ∷ xs) h k = ground (arith, filter-is_empty p m xs)

-- A registry gives a marketplace an adapter that writes to the real market exactly when dry-run
-- mode is off and that market is among the enabled ones; and then it is Coupang or Toss, and the
-- credential store is ready.
pub writes_live_iff :
    (dry ready : Bool) (live : List Market) (registry : Registry) (m : Market)
    → build_market_registry dry ready live ≡ ok registry
    → ((writes_live (registry m) ≡ true) ↔ ((dry ≡ false) × (includes m live ≡ true)))
      × (writes_live (registry m) ≡ true → ((m ≡ coupang) ⊎ (m ≡ toss)) × (ready ≡ true))
unfolding build_market_registry live_adapter
writes_live_iff dry ready live registry m h =
    let supported = filter-is_empty (λ k. not (includes k live_write_adapter_markets)) m in
    ground (arith, includes-unique_from m [] live, supported (unique_from [] live))
