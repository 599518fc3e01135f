-- ===== src/Core/Control/Examples.antt =====
-- src/core/controlService.ts over two adapters that share a counter: a task that runs adds one.
use online_seller_control_hu.Common.{
  map, All, false, ℕ, ◌+◌, ◌≡◌, ◌≢◌, refl, true, none, some, List, [], ◌∷◌, codes, ok, running,
  subst, ◌↔◌,
}
use online_seller_control_hu.Core.Types.{
  Market, naver, coupang, market_eq, Market-discrete, CatalogProduct, ParsedCommand, MarketState,
  set_stock, on_sale, SaleStatus-discrete,
}
use online_seller_control_hu.Core.Control.{
  MarketAdapter, Adapters, snapshot, read_state, execute, execute_approved, execute_markets,
  execute_one, same_snapshot, by_market, refused, failure,
}
use online_seller_control_hu.Core.Control.Snapshots.{same_snapshot_iff}
use online_seller_control_hu.Core.Control.Execution.{IsHonest, execute_approved_guard}

program : Unit {0}
unfolding running snapshot read_state execute_approved execute_markets execute_one same_snapshot
    by_market Market-discrete SaleStatus-discrete
program = tt

abbrev state : Market → ℕ → MarketState
state m n = record {
  market = m;
  external_id = codes "x";
  price = some 900;
  stock = some n;
  sale_status = on_sale;
}

abbrev counting : Market → MarketAdapter ℕ
counting m = record {
  get_state = λ product w. (ok (state m w), w);
  execute = λ product command w. (ok (failure m (codes "ran")), w + 1);
}

abbrev adapters : Adapters ℕ
adapters = (naver, counting naver) ∷ (coupang, counting coupang) ∷ []

abbrev product : CatalogProduct
product = record {
  tenant_id = codes "demo";
  master_sku = codes "L1";
  name = codes "Lamp";
  aliases = [];
  markets = [];
}

abbrev command : ParsedCommand
command = record {
  action = set_stock;
  product_query = codes "L1";
  markets = naver ∷ coupang ∷ [];
  value = some 3;
  rationale = none;
}

abbrev approved : List MarketState
approved = state naver 0 ∷ state coupang 0 ∷ []

counting_state :
    (m : Market) (a : MarketAdapter ℕ) (p : CatalogProduct) (w : ℕ) (s : MarketState)
    → some (counting m) ≡ some a
    → (a.get_state p w).0 ≡ ok s
    → s.market ≡ m
counting_state m a p w s e =
    let same : counting m ≡ a = cc in
    subst (λ x. (x.get_state p w).0 ≡ ok s → s.market ≡ m) same (λ r. cc)

adapters-IsHonest : IsHonest adapters
unfolding program
adapters-IsHonest Market.naver a p w s e r = counting_state naver a p w s e r
adapters-IsHonest Market.coupang a p w s e r = counting_state coupang a p w s e r
adapters-IsHonest Market.gmarket a p w s e r = cc
adapters-IsHonest Market.lotteon a p w s e r = cc
adapters-IsHonest Market.toss a p w s e r = cc
adapters-IsHonest Market.kakao a p w s e r = cc

-- At counter 5 the stocks are no longer those that were approved.
stale : execute_approved adapters product command approved 5 ≡ (ok (refused command.markets), 5)
unfolding program
stale = refl

fresh : (execute_approved adapters product command approved 0).1 ≡ 2
unfolding program
fresh = refl

execute_approved_guard_example :
    let current = state naver 5 ∷ state coupang 5 ∷ [] in
    let w' = (snapshot adapters product command.markets 5).1 in
    let outcome = execute_approved adapters product command approved 5 in
    ((current ≡ approved) → outcome ≡ execute adapters product command w')
    × ((current ≢ approved)
        → (outcome ≡ (ok (refused command.markets), w'))
          × (map (λ r. r.market) (refused command.markets) ≡ command.markets)
          × All (λ r. r.ok ≡ false) (refused command.markets))
unfolding program
execute_approved_guard_example =
    execute_approved_guard adapters product command approved (state naver 5 ∷ state coupang 5 ∷ [])
      5 adapters-IsHonest (refl, (refl, tt)) refl refl

same_snapshot_iff_example : (same_snapshot approved approved ≡ true) ↔ (approved ≡ approved)
unfolding program
same_snapshot_iff_example = same_snapshot_iff approved approved refl (refl, (refl, tt))
