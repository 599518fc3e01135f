-- ===== src/Markets/DryRun/Effects.antt =====
-- src/markets/dryRunAdapter.ts: what a command leaves behind.
use mathlib.Core.List.{append_cancel_right}
use native.Mathlib.Decide.{ℕ_discrete}
use online_seller_control_hu.Common.{
  ℕ, ◌==◌, false, zero, suc, Option, none, refl, ◌≡◌, ◌≢◌, true, some, text_eq, nat_eq, ok, is_some,
  sym, arith,
}
use online_seller_control_hu.Common.Dicts.{get, set, get-set}
use online_seller_control_hu.Core.Types.{
  Market, market_eq, ParsedCommand, CatalogProduct, MarketState, MarketExecutionResult, WriteAction,
  set_out_of_stock, set_stock, set_price, stop_sales, resume_sales, on_sale, stopped, out_of_stock,
}
use online_seller_control_hu.Markets.DryRun.{
  States, store_states, get_state, external_id_of, state_key, apply_action, execute, done,
}

-- What a command makes of the state of a product, told action by action. A stock of zero is sold
-- out; a stock that is null is taken as it is.
pub data IsOutcome (s : MarketState) : WriteAction → Option ℕ → MarketState → Type 0 where
  emptied :
      {value : Option ℕ}
      → IsOutcome s set_out_of_stock value (record s { stock = some 0; sale_status = out_of_stock })
  sold_out :
      IsOutcome s set_stock (some 0) (record s { stock = some 0; sale_status = out_of_stock })
  stocked :
      {n : ℕ}
      → IsOutcome s set_stock
          (some (suc n))
          (record s { stock = some (suc n); sale_status = on_sale })
  unstocked : IsOutcome s set_stock none (record s { stock = none; sale_status = on_sale })
  priced : {value : Option ℕ} → IsOutcome s set_price value (record s { price = value })
  stopped_sales :
      {value : Option ℕ} → IsOutcome s stop_sales value (record s { sale_status = stopped })
  resumed_sales :
      {value : Option ℕ} → IsOutcome s resume_sales value (record s { sale_status = on_sale })

apply_action-IsOutcome :
    (a : WriteAction) (value : Option ℕ) (s : MarketState)
    → IsOutcome s a value (apply_action a value s)
unfolding apply_action ℕ_discrete
apply_action-IsOutcome set_out_of_stock value s = emptied
apply_action-IsOutcome set_stock none s = unstocked
apply_action-IsOutcome set_stock (some zero) s = sold_out
apply_action-IsOutcome set_stock (some (suc n)) s =
    let positive : (suc n == 0) ≡ false = ground arith in rw positive stocked
apply_action-IsOutcome set_price value s = priced
apply_action-IsOutcome stop_sales value s = stopped_sales
apply_action-IsOutcome resume_sales value s = resumed_sales

-- What `execute` does, where the state before could be read.
execute_run :
    (m : Market) (product : CatalogProduct) (command : ParsedCommand) (w : States)
    (before : MarketState)
    → get_state m product w ≡ (ok before, w)
    → let after = apply_action command.action command.value before in
      execute m product command w
      ≡ (ok (done m before after), store_states m (set (state_key m product) after (w m)) w)
unfolding execute
execute_run m product command w before h = rw h refl

get_state-mapped :
    (m : Market) (product : CatalogProduct) (w : States) (s : MarketState)
    → get_state m product w ≡ (ok s, w)
    → is_some (external_id_of m product) ≡ true
unfolding get_state
get_state-mapped m product w s h = ground arith

-- A state that is stored is read back.
get_state-stored :
    (m : Market) (product : CatalogProduct) (w : States) (s : MarketState)
    → is_some (external_id_of m product) ≡ true
    → get (state_key m product) (w m) ≡ some s
    → (get_state m product w).0 ≡ ok s
unfolding get_state
get_state-stored m product w s h e = ground arith

-- What is read depends only on the entry of the product in its market.
get_state-cong :
    (m : Market) (product : CatalogProduct) (w w' : States)
    → get (state_key m product) (w m) ≡ get (state_key m product) (w' m)
    → (get_state m product w).0 ≡ (get_state m product w').0
unfolding get_state
get_state-cong m product w w' e = ground arith

-- Where the state of a product can be read, a command is answered with success, with this state and
-- the one after it. That is the effect of the action on the state before, and is what is read
-- from then on for this product on this market. Any other market keeps the states of all products,
-- and this market keeps those of the products with another master SKU.
pub execute_effect :
    (m k : Market) (product other : CatalogProduct) (command : ParsedCommand) (w : States)
    (before : MarketState)
    → get_state m product w ≡ (ok before, w)
    → let w' = (execute m product command w).1 in
      ((after : MarketState) × IsOutcome before command.action command.value after
        × ((result : MarketExecutionResult) × ((execute m product command w).0 ≡ ok result)
            × (result.market ≡ m)
            × (result.ok ≡ true)
            × (result.before ≡ some before)
            × (result.after ≡ some after))
        × ((get_state m product w').0 ≡ ok after))
      × (k ≢ m → (get_state k other w').0 ≡ (get_state k other w).0)
      × (other.master_sku ≢ product.master_sku → (get_state m other w').0 ≡ (get_state m other w).0)
execute_effect m k product other command w before h =
    let key = state_key m product in
    let after = apply_action command.action command.value before in
    let w' = store_states m (set key after (w m)) w in
    rw (execute_run m product command w before h) (
      (
        after,
        apply_action-IsOutcome command.action command.value before,
        (done m before after, refl, refl, refl, refl, refl),
        get_state-stored m product w' after (get_state-mapped m product w before h)
            (ground (arith, get-set key key after (w m))),
      ),
      λ ne. get_state-cong k other w' w (ground arith),
      λ ne.
          let differ : key ≢ state_key m other = λ e. ne (sym (append_cancel_right _ _ _ e)) in
          get_state-cong m other w' w
            (ground (arith, get-set key (state_key m other) after (w m), differ)),
    )
