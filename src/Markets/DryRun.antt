-- ===== src/Markets/DryRun.antt =====
-- src/markets/dryRunAdapter.ts: an adapter that only remembers states. The world holds the map
-- of states of each marketplace's adapter.
pub mod Effects
mod Examples
use online_seller_control_hu.Common.{
  ℕ, ◌≡◌, Bool, true, false, ◌&&◌, Option, none, some, List, [], ◌∷◌, ◌++◌, map, Eq, ◌==◌, Text,
  codes, text_eq, nat_eq, if◌then◌else◌, Result, ok, throw, or_else, is_empty, ◌:+◌,
}
use online_seller_control_hu.Common.Actions.{Action, pure, raise, ◌>>=◌, and_then}
use online_seller_control_hu.Common.Dicts.{Dict, get, set}
use online_seller_control_hu.Core.Types.{
  Market, market_eq, market_name, markets_all, ParsedCommand, CatalogProduct, MarketState,
  MarketMapping, MarketExecutionResult, SaleStatus, on_sale, stopped, out_of_stock, unknown,
  WriteAction, set_out_of_stock, set_stock, set_price, stop_sales, resume_sales,
}
use online_seller_control_hu.Core.Control.{MarketAdapter, Adapters}

abbrev pub States : Type 0
States = Market → Dict Text MarketState

abbrev pub store_states : Market → Dict Text MarketState → States → States
store_states m d w k = if k == m then d else w k

-- `mapping?.externalId`, where an empty identifier counts as none.
abbrev pub mapped_id : Option MarketMapping → Option Text
mapped_id none = none
mapped_id (some mapping) = elim mapping.external_id [
  | none ↦ none
  | some id ↦ if is_empty id then none else some id
]

abbrev pub external_id_of : Market → CatalogProduct → Option Text
external_id_of m product = mapped_id (get m product.markets)

abbrev pub state_key : Market → CatalogProduct → Text
state_key m product = product.master_sku :+ market_name m

abbrev pub fresh_state : Market → Text → MarketState
fresh_state m id = record {
  market = m;
  external_id = id;
  price = none;
  stock = none;
  sale_status = unknown;
}

abbrev pub unmapped : Market → Text
unmapped m = market_name m ++ codes ": 제어용 상품/옵션 ID 매핑이 없습니다."

unfoldable pub get_state : Market → CatalogProduct → Action States MarketState
get_state m product w = elim (external_id_of m product) [
  | none ↦ (throw (unmapped m), w)
  | some id ↦ (ok (or_else (get (state_key m product) (w m)) (fresh_state m id)), w)
]

-- The status that goes with a new stock.
abbrev pub status_for : Option ℕ → SaleStatus
status_for none = on_sale
status_for (some stock) = if stock == 0 then out_of_stock else on_sale

-- The `switch` over the command's action.
unfoldable pub apply_action : WriteAction → Option ℕ → MarketState → MarketState
apply_action set_out_of_stock value s = record s { stock = some 0; sale_status = out_of_stock }
apply_action set_stock value s = record s { stock = value; sale_status = status_for value }
apply_action set_price value s = record s { price = value }
apply_action stop_sales value s = record s { sale_status = stopped }
apply_action resume_sales value s = record s { sale_status = on_sale }

abbrev pub done : Market → MarketState → MarketState → MarketExecutionResult
done m before after = record {
  market = m;
  ok = true;
  message = codes "DRY_RUN 성공";
  before = some before;
  after = some after;
}

unfoldable pub execute :
    Market → CatalogProduct → ParsedCommand → Action States MarketExecutionResult
execute m product command = do
  before ← get_state m product
  let after = apply_action command.action command.value before
  λ w. (ok (done m before after), store_states m (set (state_key m product) after (w m)) w)

abbrev pub adapter : Market → MarketAdapter States
adapter m = record { get_state = get_state m; execute = execute m }
