-- ===== src/Markets/DryRun/Examples.antt =====
-- src/markets/dryRunAdapter.ts on one product that is mapped on two marketplaces.
use online_seller_control_hu.Common.{
  ◌≡◌, ◌≢◌, true, refl, none, some, [], ◌∷◌, codes, ok, running, Text,
}
use online_seller_control_hu.Core.Types.{
  naver, coupang, market_eq, Market-discrete, CatalogProduct, ParsedCommand, MarketState,
  MarketExecutionResult, set_stock, out_of_stock,
}
use online_seller_control_hu.Markets.DryRun.{States, get_state, apply_action, execute, fresh_state}
use online_seller_control_hu.Markets.DryRun.Effects.{IsOutcome, execute_effect}

program : Unit {0}
unfolding running get_state apply_action execute Market-discrete
program = tt

abbrev lamp : Text → CatalogProduct
lamp sku = record {
  tenant_id = codes "demo";
  master_sku = sku;
  name = codes "Lamp";
  aliases = [];
  markets =
      (naver, record { external_id = some (codes "n1"); product_id = none })
      ∷ (coupang, record { external_id = some (codes "c1"); product_id = none })
      ∷ [];
}

abbrev sell_out : ParsedCommand
sell_out = record {
  action = set_stock;
  product_query = codes "L1";
  markets = naver ∷ coupang ∷ [];
  value = some 0;
  rationale = none;
}

abbrev nothing : States
nothing m = []

abbrev before : MarketState
before = fresh_state naver (codes "n1")

execute_effect_example :
    let w' = (execute naver (lamp (codes "L1")) sell_out nothing).1 in
    ((after : MarketState) × IsOutcome before set_stock (some 0) after
      × ((result : MarketExecutionResult) × ((execute naver (lamp (codes "L1")) sell_out nothing).0
            ≡ ok result)
          × (result.market ≡ naver)
          × (result.ok ≡ true)
          × (result.before ≡ some before)
          × (result.after ≡ some after))
      × ((get_state naver (lamp (codes "L1")) w').0 ≡ ok after))
    × (coupang ≢ naver
        → (get_state coupang (lamp (codes "L2")) w').0
          ≡ (get_state coupang (lamp (codes "L2")) nothing).0)
    × (codes "L2" ≢ codes "L1"
        → (get_state naver (lamp (codes "L2")) w').0
          ≡ (get_state naver (lamp (codes "L2")) nothing).0)
unfolding program
execute_effect_example =
    execute_effect naver coupang (lamp (codes "L1")) (lamp (codes "L2")) sell_out nothing before
      refl

stock_zero :
    apply_action set_stock (some 0) before
    ≡ record before { stock = some 0; sale_status = out_of_stock }
unfolding program
stock_zero = refl
