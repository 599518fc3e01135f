-- ===== src/Orders/Shipments.antt =====
-- src/orders/shipmentBatch.ts: shipments in bounded calls for each market. The hash of node:crypto
-- is a field of `Hashes`, and a call's number is a natural number, so the test for an integer
-- has no counterpart. A retry key is kept as the parts that its text joins: the market, which
-- has no colon, two numbers and a hash.
pub mod Chunks
pub mod Pending
pub mod Confirmed
mod Examples
use online_seller_control_hu.Common.{
  ℕ, ◌+◌, ◌-◌, ◌/◌, zero, suc, ◌≡◌, Bool, true, false, ◌&&◌, ◌||◌, not, Option, none, some, List,
  [], ◌∷◌, ◌++◌, map, ◌==◌, nat_eq, Text, text_eq, if◌then◌else◌, Result, ok, throw, ◌>>=◌, trim,
  length, take, drop, filter, every, includes, is_empty, Issue, custom, Schema, size_issues,
  field_issues, text_between, is_letter, is_digit, upper_unit, ◌:+◌, ltb, leb, Eq, sum_by,
}
use online_seller_control_hu.Common.Dicts.{Dict, get, set}
use online_seller_control_hu.Common.Groups.{group_by}
use online_seller_control_hu.Core.Types.{Market, market_key, market_eq, market_name}

pub record ShipmentInput : Type 0 where
  pub market : Market
  pub order_line_id : Text
  pub carrier_code : Text
  pub tracking_number : Text

pub record RetryKey : Type 0 where
  pub market : Market
  pub number : ℕ
  pub batch_count : ℕ
  pub fingerprint : Text

pub record ShipmentApiBatch : Type 0 where
  pub market : Market
  pub items : List ShipmentInput
  pub batch_index : ℕ
  pub batch_count : ℕ
  pub retry_key : RetryKey

pub record Hashes : Type 0 where
  pub chunk : List ShipmentInput → Text

pub data ShipmentError : Type 0 where
  invalid : List Issue → ShipmentError
  bad_call_size : ShipmentError

abbrev is_carrier_unit : ℕ → Bool
is_carrier_unit c = is_letter c || is_digit c || c == b'_' || c == b'-'

abbrev is_tracking_unit : ℕ → Bool
is_tracking_unit c = is_letter c || is_digit c || c == b'-'

-- The rows of `shipmentSchema`.
abbrev pub shipment_schema : Schema ShipmentInput
shipment_schema = record {
  normalize = λ s. record s {
    order_line_id = trim s.order_line_id;
    carrier_code = map upper_unit (trim s.carrier_code);
    tracking_number = trim s.tracking_number;
  };
  fields = λ s.
      text_between 1 120 s.order_line_id
      && (text_between 1 40 s.carrier_code && every is_carrier_unit s.carrier_code)
      && (text_between 4 80 s.tracking_number && every is_tracking_unit s.tracking_number);
  key = λ s. market_key s.market s.order_line_id;
  duplicate = "duplicate order line in shipment batch";
  faults = λ s. [];
}

abbrev pub tracking_key : ShipmentInput → Text
tracking_key s = market_key s.market (s.carrier_code :+ s.tracking_number)

abbrev pub is_other_line : Text → Option Text → Bool
is_other_line line none = false
is_other_line line (some previous) = not (is_empty previous) && not (previous == line)

-- The loop of `superRefine`, with the order lines and the tracking numbers so far.
unfoldable pub refine_from : List Text → Dict Text Text → ℕ → List ShipmentInput → List Issue
refine_from lines tracking i [] = []
refine_from lines tracking i (s ∷ ss) =
    let line = market_key s.market s.order_line_id in
    let clash = refine_from (line ∷ lines) tracking (suc i) ss in
    let rest =
      refine_from (line ∷ lines) (set (tracking_key s) s.order_line_id tracking) (suc i) ss in
    (if includes line lines then custom i "duplicate order line in shipment batch" ∷ [] else [])
    ++ (if is_other_line s.order_line_id (get (tracking_key s) tracking)
        then custom i "tracking number is assigned to multiple order lines" ∷ clash
        else rest)

abbrev settle : List Issue → List ShipmentInput → Result ShipmentError (List ShipmentInput)
settle [] rows = ok rows
settle (i ∷ is) rows = throw (invalid (i ∷ is))

unfoldable pub validate_shipment_batch :
    List ShipmentInput → Result ShipmentError (List ShipmentInput)
validate_shipment_batch input =
    let rows = map shipment_schema.normalize input in
    settle
      (size_issues 1 500 rows ++ (field_issues shipment_schema 0 rows ++ refine_from [] [] 0 rows))
      rows

-- The shipments of each market, in their order.
abbrev pub grouped : List ShipmentInput → Dict Market (List ShipmentInput)
grouped items = group_by (λ s. s.market) [] items

unfoldable pub group_shipment_batch_by_market :
    List ShipmentInput → Result ShipmentError (Dict Market (List ShipmentInput))
group_shipment_batch_by_market input = validate_shipment_batch input >>= λ items. ok (grouped items)

-- The slices of a list; as many rounds as it has members are enough, as each takes one at least.
unfoldable pub slices : ℕ → ℕ → List ShipmentInput → List (List ShipmentInput)
slices zero n items = []
slices (suc rounds) n items =
    let rest = slices rounds n (drop n items) in if is_empty items then [] else take n items ∷ rest

unfoldable pub number_batches :
    Hashes → Market → (batch_count index : ℕ) → List (List ShipmentInput) → List ShipmentApiBatch
number_batches h m batch_count index [] = []
number_batches h m batch_count index (items ∷ rest) =
    record {
      market = m;
      items = items;
      batch_index = index;
      batch_count = batch_count;
      retry_key = record {
        market = m;
        number = index + 1;
        batch_count = batch_count;
        fingerprint = h.chunk items;
      };
    }
    ∷ number_batches h m batch_count (suc index) rest

abbrev pub batches_of : Hashes → ℕ → Market → List ShipmentInput → List ShipmentApiBatch
batches_of h n m items =
    number_batches h m ((length items + (n - 1)) / n) 0 (slices (length items) n items)

unfoldable pub chunk_groups : Hashes → ℕ → Dict Market (List ShipmentInput) → List ShipmentApiBatch
chunk_groups h n [] = []
chunk_groups h n ((m, items) ∷ groups) = batches_of h n m items ++ chunk_groups h n groups

unfoldable pub chunk_shipment_batch_by_market :
    Hashes → List ShipmentInput → ℕ → Result ShipmentError (List ShipmentApiBatch)
chunk_shipment_batch_by_market h input n =
    if ltb n 1 || ltb 500 n
    then throw bad_call_size
    else group_shipment_batch_by_market input >>= λ groups. ok (chunk_groups h n groups)
