-- ===== src/Core/Control.antt =====
-- src/core/controlService.ts, over marketplace adapters that read and change a world `W`
-- (src/markets/adapter.ts). `execute` starts one task for each market; here the tasks run in the
-- order of the command's markets, each to its end.
pub mod Snapshots
pub mod Execution
mod Examples
use online_seller_control_hu.Common.{
  ℕ, ◌≡◌, Bool, true, false, ◌&&◌, Option, none, some, List, [], ◌∷◌, ◌++◌, map, Eq, ◌==◌, Text,
  codes, text_eq, nat_eq, if◌then◌else◌, every, length, Result, ok, throw,
}
use online_seller_control_hu.Common.Actions.{Action, pure, raise, ◌>>=◌, and_then}
use online_seller_control_hu.Common.Dicts.{Dict, get, set}
use online_seller_control_hu.Core.Types.{
  Market, market_eq, market_name, ParsedCommand, CatalogProduct, MarketState, MarketExecutionResult,
  SaleStatus, sale_status_eq,
}

pub record MarketAdapter (W : Type 0) : Type 0 where
  pub get_state : CatalogProduct → Action W MarketState
  pub execute : CatalogProduct → ParsedCommand → Action W MarketExecutionResult

abbrev pub Adapters : Type 0 → Type 0
Adapters W = Dict Market (MarketAdapter W)

abbrev pub failure : Market → Text → MarketExecutionResult
failure m message = record {
  market = m;
  ok = false;
  message = message;
  before = none;
  after = none;
}

abbrev pub stale_message : Text
stale_message = codes "승인 후 마켓 상태가 변경되어 실행하지 않았습니다. 최신 상태를 확인한 뒤 다시 승인하세요."

abbrev pub refused : List Market → List MarketExecutionResult
refused markets = map (λ m. failure m stale_message) markets

-- Equality of a field that may be null.
abbrev pub same_number : Option ℕ → Option ℕ → Bool
same_number none none = true
same_number (some a) (some b) = a == b
same_number none (some _) = false
same_number (some _) none = false

abbrev pub same_state : MarketState → MarketState → Bool
same_state latest state =
    latest.external_id == state.external_id
    && same_number latest.price state.price
    && same_number latest.stock state.stock
    && latest.sale_status == state.sale_status

-- `new Map(current.map((state) => [state.market, state]))`
unfoldable pub by_market : List MarketState → Dict Market MarketState → Dict Market MarketState
by_market [] d = d
by_market (state ∷ states) d = by_market states (set state.market state d)

abbrev pub agrees : Dict Market MarketState → MarketState → Bool
agrees d state = elim (get state.market d) [ none ↦ false | some latest ↦ same_state latest state ]

unfoldable pub same_snapshot : List MarketState → List MarketState → Bool
same_snapshot approved current =
    length approved == length current && every (agrees (by_market current [])) approved

-- `try { … } catch`: what an adapter throws becomes a result that is not ok.
abbrev pub caught : Market → Result Text MarketExecutionResult → MarketExecutionResult
caught m (ok result) = result
caught m (throw e) = failure m e

module _ {W : Type 0} where
  unfoldable pub read_state :
      Option (MarketAdapter W) → Market → CatalogProduct → Action W MarketState
  read_state none m product = raise (market_name m ++ codes ": adapter unavailable")
  read_state (some adapter) m product = adapter.get_state product

  unfoldable pub snapshot : Adapters W → CatalogProduct → List Market → Action W (List MarketState)
  snapshot adapters product [] = pure []
  snapshot adapters product (m ∷ markets) = do
    state ← read_state (get m adapters) m product
    states ← snapshot adapters product markets
    pure (state ∷ states)

  unfoldable pub execute_one :
      Option (MarketAdapter W)
      → Market
      → CatalogProduct
      → ParsedCommand
      → W
      → MarketExecutionResult × W
  execute_one none m product command w = (failure m (codes "adapter unavailable"), w)
  execute_one (some adapter) m product command w =
      let (result, w') = adapter.execute product command w in (caught m result, w')

  unfoldable pub execute_markets :
      Adapters W → CatalogProduct → ParsedCommand → List Market → W → List MarketExecutionResult × W
  execute_markets adapters product command [] w = ([], w)
  execute_markets adapters product command (m ∷ markets) w =
      let (result, w') = execute_one (get m adapters) m product command w in
      let (results, last) = execute_markets adapters product command markets w' in
      (result ∷ results, last)

  -- `execute` never throws.
  abbrev pub execute :
      Adapters W → CatalogProduct → ParsedCommand → Action W (List MarketExecutionResult)
  execute adapters product command w =
      let (results, w') = execute_markets adapters product command command.markets w in
      (ok results, w')

  unfoldable pub execute_approved :
      Adapters W
      → CatalogProduct
      → ParsedCommand
      → List MarketState
      → Action W (List MarketExecutionResult)
  execute_approved adapters product command approved = do
    current ← snapshot adapters product command.markets
    if same_snapshot approved current
        then execute adapters product command
        else pure (refused command.markets)
