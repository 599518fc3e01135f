-- ===== src/Core/Types.antt =====
-- src/core/types.ts, and the product record of src/catalog/catalog.ts that approvals carry.
use online_seller_control_hu.Common.{
  ◌+◌, length, count_if, count_if-cons, if◌then◌else◌, ◌==◌, refl, Bool, true, false, ◌&&◌, Option,
  List, [], ◌∷◌, ◌++◌, Eq, Text, codes, text_between, fault_if, if_present, leb, HasNo,
  parts_injective, ◌:+◌, ℕ, ◌≡◌, is_some, not, arith, is_empty,
}
use online_seller_control_hu.Common.Dicts.{Dict}
use Prim.Native.String.{String}

-- `MARKETS`
pub data Market : Type 0 where
  naver coupang gmarket lotteon toss kakao : Market

abbrev pub markets_all : List Market
markets_all = naver ∷ coupang ∷ gmarket ∷ lotteon ∷ toss ∷ kakao ∷ []

unfoldable pub Market-discrete : Discrete Market
Market-discrete = hlevel

instance abbrev pub market_eq : Eq Market
market_eq = record { dec_eq = Market-discrete }

abbrev pub market_name : Market → Text
market_name naver = codes "naver"
market_name coupang = codes "coupang"
market_name gmarket = codes "gmarket"
market_name lotteon = codes "lotteon"
market_name toss = codes "toss"
market_name kakao = codes "kakao"

-- A marketplace's name has no colon and no zero.
pub market_name-HasNo : (m : Market) → HasNo b':' (market_name m) × HasNo 0 (market_name m)
market_name-HasNo naver = omega arith
market_name-HasNo coupang = omega arith
market_name-HasNo gmarket = omega arith
market_name-HasNo lotteon = omega arith
market_name-HasNo toss = omega arith
market_name-HasNo kakao = omega arith

pub market_name_injective : (m k : Market) → market_name m ≡ market_name k → m ≡ k
market_name_injective m k e = ground arith

-- The keys `${market}:${id}` of the source.
abbrev pub market_key : Market → Text → Text
market_key m id = market_name m :+ id

-- Such a key tells both its parts.
pub market_key_injective :
    (m k : Market) (a b : Text) → market_key m a ≡ market_key k b → (m ≡ k) × (a ≡ b)
market_key_injective m k a b e =
    let (names, ids) =
      parts_injective b':' (market_name m) (market_name k) a b (market_name-HasNo m).0
        (market_name-HasNo k).0 e in
    (market_name_injective m k names, ids)

-- `WRITE_ACTIONS`
pub data WriteAction : Type 0 where
  set_out_of_stock set_stock set_price stop_sales resume_sales : WriteAction

pub record ParsedCommand : Type 0 where
  pub action : WriteAction
  pub product_query : Text
  pub markets : List Market
  pub value : Option ℕ
  pub rationale : Option Text

-- `command.action === "SET_PRICE" || command.action === "SET_STOCK"`
abbrev pub takes_value : WriteAction → Bool
takes_value set_stock = true
takes_value set_price = true
takes_value _ = false

abbrev pub is_set_price : WriteAction → Bool
is_set_price set_price = true
is_set_price _ = false

-- The two refinements that commands and bulk items share.
abbrev pub value_faults : WriteAction → Option ℕ → List String
value_faults action value =
    fault_if (takes_value action && not (is_some value)) "value is required"
    ++ fault_if (is_set_price action && not (if_present (leb 100) value)) "price looks invalid"

-- `commandSchema`, on a command whose query is trimmed.
unfoldable pub is_command : ParsedCommand → Bool
is_command c =
    text_between 1 200 c.product_query
    && not (is_empty c.markets)
    && if_present (text_between 0 300) c.rationale
    && is_empty (value_faults c.action c.value)

pub data SaleStatus : Type 0 where
  on_sale stopped out_of_stock unknown : SaleStatus

unfoldable pub SaleStatus-discrete : Discrete SaleStatus
SaleStatus-discrete = hlevel

instance abbrev pub sale_status_eq : Eq SaleStatus
sale_status_eq = record { dec_eq = SaleStatus-discrete }

pub record MarketState : Type 0 where
  pub market : Market
  pub external_id : Text
  pub price : Option ℕ
  pub stock : Option ℕ
  pub sale_status : SaleStatus

pub record MarketExecutionResult : Type 0 where
  pub market : Market
  pub ok : Bool
  pub message : Text
  pub before : Option MarketState
  pub after : Option MarketState

pub record MarketMapping : Type 0 where
  pub external_id : Option Text
  pub product_id : Option Text

-- `CatalogProduct`
pub record CatalogProduct : Type 0 where
  pub tenant_id : Text
  pub master_sku : Text
  pub name : Text
  pub aliases : List Text
  pub markets : Dict Market MarketMapping

-- The rows of one marketplace.
abbrev pub count_market : {A : Type 0} → (A → Market) → List A → Market → ℕ
count_market market_of xs m = count_if (λ x. market_of x == m) xs

one_market :
    (m : Market)
    → let one = λ (k : Market). if◌then◌else◌ {A = ℕ} (m == k) 1 0 in
      one naver + one coupang + one gmarket + one lotteon + one toss + one kakao ≡ 1
unfolding Market-discrete
one_market naver = refl
one_market coupang = refl
one_market gmarket = refl
one_market lotteon = refl
one_market toss = refl
one_market kakao = refl

-- Every row is counted for one marketplace.
pub count_market_total :
    {A : Type 0} (f : A → Market) (xs : List A)
    → count_market f xs naver
        + count_market f xs coupang
        + count_market f xs gmarket
        + count_market f xs lotteon
        + count_market f xs toss
        + count_market f xs kakao
      ≡ length xs
count_market_total f [] = refl
count_market_total f (x ∷ xs) =
    let at = λ (m : Market). count_if-cons (λ y. f y == m) x xs in
    omega (
      arith,
      at naver,
      at coupang,
      at gmarket,
      at lotteon,
      at toss,
      at kakao,
      one_market (f x),
      count_market_total f xs,
    )
