-- ===== src/Persistence/Snapshots.antt =====
-- src/persistence/orderSnapshotStore.ts: the orders that were seen last, for each tenant. The instant of
-- a call is an input. A limit is a natural number: a negative one counts as one, as zero does.
pub mod Lines
pub mod Upserts
pub mod Pruned
pub mod Limits
pub mod Kept
pub mod Calls
mod Examples
use online_seller_control_hu.Common.{
  ℕ, ◌+◌, ◌≡◌, min, max, Bool, true, false, ◌&&◌, ◌||◌, not, Option, none, some, List, [], ◌∷◌,
  ◌++◌, map, ◌==◌, Text, text_eq, if◌then◌else◌, Result, ok, throw, filter, every, is_empty, trim,
  length, take, count_if, text_between, if_present, or_else, is_some,
}
use online_seller_control_hu.Common.Dicts.{Dict, get, set, has, values}
use online_seller_control_hu.Common.Indexes.{index_by}
use online_seller_control_hu.Common.Sorting.{sort}
use online_seller_control_hu.Common.Groups.{group_by}
use online_seller_control_hu.Core.Types.{Market, market_eq, market_name}
use online_seller_control_hu.Persistence.Files.{
  Writes, Mutation, Store, QueueError, refused, enqueue_mutation,
}

-- What the source leaves to JavaScript: which numbers are finite, and whether
-- `a.localeCompare(b) <= 0`.
pub record Runtime (N : Type 0) : Type 0 where
  pub is_finite : N → Bool
  pub locale_le : Text → Text → Bool

pub record OrderSnapshotInput (N : Type 0) : Type 0 where
  pub market : Market
  pub order_id : Text
  pub order_line_id : Text
  pub shipment_id : Option Text
  pub listing_id : Option Text
  pub control_id : Option Text
  pub product_name : Text
  pub option_name : Option Text
  pub quantity : Option N
  pub price : Option N
  pub status : Text
  pub ordered_at : Option Text
  pub seller_sku : Option Text

pub record OrderSnapshotRow (N : Type 0) : Type 0 where
  pub order : OrderSnapshotInput N
  pub tenant_id : Text
  pub first_seen_at : Text
  pub last_seen_at : Text

pub record OrderSnapshotMergeResult : Type 0 where
  pub inserted : ℕ
  pub updated : ℕ
  pub total : ℕ

pub data MergeError : Type 0 where
  tenant_id_required invalid_order : MergeError

abbrev pub max_rows_per_tenant : ℕ
max_rows_per_tenant = 5000

-- The key of a row: its three parts with a zero unit between them.
abbrev pub row_key : Text → Market → Text → Text
row_key t m line = t ++ (0 ∷ market_name m ++ (0 ∷ line))

abbrev pub is_of : {N : Type 0} → Text → OrderSnapshotRow N → Bool
is_of t r = r.tenant_id == t

abbrev pub timestamp_or : Option Text → Text → Text
timestamp_or none seen = seen
timestamp_or (some ordered) seen = if is_empty ordered then seen else ordered

abbrev pub order_timestamp : {N : Type 0} → OrderSnapshotRow N → Text
order_timestamp r = timestamp_or r.order.ordered_at r.last_seen_at

-- The map of the rows, and how many were inserted and updated.
pub record Upserted (N : Type 0) : Type 0 where
  pub next : Dict Text (OrderSnapshotRow N)
  pub inserted : ℕ
  pub updated : ℕ

module _ {N : Type 0} where
  abbrev pub key_of : OrderSnapshotRow N → Text
  key_of r = row_key r.tenant_id r.order.market r.order.order_line_id

  -- `new Map(rows.map((row) => [rowKey(row), row]))`
  abbrev pub keyed : List (OrderSnapshotRow N) → Dict Text (OrderSnapshotRow N)
  keyed rows = index_by key_of rows []

  abbrev pub first_seen : Text → Option (OrderSnapshotRow N) → Text
  first_seen now none = now
  first_seen now (some r) = r.first_seen_at

  abbrev pub merged_row :
      Text → Text → OrderSnapshotInput N → Option (OrderSnapshotRow N) → OrderSnapshotRow N
  merged_row t now item existing = record {
    order = item;
    tenant_id = t;
    first_seen_at = first_seen now existing;
    last_seen_at = now;
  }

  unfoldable pub upsert : Text → Text → OrderSnapshotInput N → Upserted N → Upserted N
  upsert t now item u =
      let key = row_key t item.market item.order_line_id in
      let existing = get key u.next in
      record {
        next = set key (merged_row t now item existing) u.next;
        inserted = if is_some existing then u.inserted else u.inserted + 1;
        updated = if is_some existing then u.updated + 1 else u.updated;
      }

  unfoldable pub upsert_all : Text → Text → List (OrderSnapshotInput N) → Upserted N → Upserted N
  upsert_all t now [] u = u
  upsert_all t now (item ∷ items) u = upsert_all t now items (upsert t now item u)

  -- The rows by tenant, each tenant's in their order.
  abbrev pub by_tenant : List (OrderSnapshotRow N) → Dict Text (List (OrderSnapshotRow N))
  by_tenant rows = group_by (λ r. r.tenant_id) [] rows

  unfoldable pub count : Option Text → List (OrderSnapshotRow N) → ℕ
  count none rows = length rows
  count (some t) rows = if is_empty t then length rows else count_if (is_of t) rows

  module _ (js : Runtime N) where
    -- `orderInputSchema`, whose text fields have typed values here.
    abbrev pub is_valid : OrderSnapshotInput N → Bool
    is_valid o =
        text_between 1 200 o.order_id
        && text_between 1 300 o.order_line_id
        && if_present (text_between 0 200) o.shipment_id
        && if_present (text_between 0 200) o.listing_id
        && if_present (text_between 0 200) o.control_id
        && text_between 1 1000 o.product_name
        && if_present (text_between 0 1000) o.option_name
        && if_present js.is_finite o.quantity
        && if_present js.is_finite o.price
        && text_between 1 120 o.status
        && if_present (text_between 0 100) o.ordered_at
        && if_present (text_between 0 300) o.seller_sku

    -- Later orders come first.
    abbrev pub row_before : OrderSnapshotRow N → OrderSnapshotRow N → Bool
    row_before a b = js.locale_le (order_timestamp b) (order_timestamp a)

    unfoldable pub kept :
        (limit : ℕ) → Dict Text (List (OrderSnapshotRow N)) → List (OrderSnapshotRow N)
    kept limit [] = []
    kept limit ((_, rows) ∷ d) = take limit (sort row_before rows) ++ kept limit d

    unfoldable pub prune_per_tenant : List (OrderSnapshotRow N) → List (OrderSnapshotRow N)
    prune_per_tenant rows = kept max_rows_per_tenant (by_tenant rows)

    -- The mutation that `merge` hands to the queue.
    unfoldable pub merge_rows :
        Text
        → Text
        → List (OrderSnapshotInput N)
        → List (OrderSnapshotRow N)
        → Mutation (List (OrderSnapshotRow N)) OrderSnapshotMergeResult
    merge_rows t now items rows =
        let u = upsert_all t now items (record { next = keyed rows; inserted = 0; updated = 0 }) in
        let pruned = prune_per_tenant (values u.next) in
        record {
          rows = pruned;
          result = record {
            inserted = u.inserted;
            updated = u.updated;
            total = count_if (is_of t) pruned;
          };
          persist = true;
        }

    -- The tenant and the orders are checked before the call joins the queue.
    unfoldable pub merge :
        Writes
        → (now : Text) (tenant_id : Text) → List (OrderSnapshotInput N)
        → Store (List (OrderSnapshotRow N))
        → Result (QueueError MergeError) OrderSnapshotMergeResult
          × Store (List (OrderSnapshotRow N))
    merge w now tenant_id items s =
        let t = trim tenant_id in
        if is_empty t
        then (throw (refused tenant_id_required), s)
        else if not (every is_valid items)
        then (throw (refused invalid_order), s)
        else if is_empty items
        then (ok (record { inserted = 0; updated = 0; total = count (some t) s.rows }), s)
        else enqueue_mutation w (λ rows. ok (merge_rows t now items rows)) s

    abbrev pub is_listed : Text → Option Market → OrderSnapshotRow N → Bool
    is_listed t none r = is_of t r
    is_listed t (some m) r = is_of t r && r.order.market == m

    unfoldable pub list_orders :
        Text → Option Market → Option ℕ → List (OrderSnapshotRow N) → List (OrderSnapshotRow N)
    list_orders t market limit rows =
        take (max 1 (min (or_else limit 500) max_rows_per_tenant))
          (sort row_before (filter (is_listed t market) rows))
