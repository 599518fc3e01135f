-- ===== src/Persistence/Billing.antt =====
-- src/persistence/billingStore.ts: the orders for paid access and what each tenant is entitled to.
-- A date text is the instant that `Date.parse` reads from it, or none where it reads no date. A
-- call has one instant, where the source asks the clock more than once. Identifiers are not
-- names of `Object.prototype`.
pub mod Changes
pub mod Calls
pub mod Chain
pub mod Paid
pub mod Access
pub mod Refunds
pub mod Payments
pub mod Broken
mod Examples
use online_seller_control_hu.Common.{
  ℕ, ◌+◌, ◌*◌, ◌≡◌, Bool, true, false, ◌&&◌, ◌||◌, not, Option, none, some, List, [], ◌∷◌, ◌==◌,
  nat_eq, Text, text_eq, if◌then◌else◌, Result, ok, throw, is_empty, ltb, take,
}
use online_seller_control_hu.Common.Dicts.{Dict, get, set, delete}
use online_seller_control_hu.Persistence.Files.{Disk, Mutation, persist_rows, load, LoadError}

abbrev pub BillingDate : Type 0
BillingDate = Option ℕ

pub data OrderStatus : Type 0 where
  created done failed canceled : OrderStatus

pub record BillingOrder : Type 0 where
  pub order_id : Text
  pub tenant_id : Text
  pub user_id : Text
  pub amount : ℕ
  pub pro_days : ℕ
  pub status : OrderStatus
  pub created_at : BillingDate
  pub updated_at : BillingDate
  pub payment_key : Option Text
  pub failure_reason : Option Text
  pub previous_pro_until : Option BillingDate
  pub previous_order_id : Option Text
  pub canceled_at : Option BillingDate
  pub cancel_reason : Option Text

-- `entitlementSchema`
pub record EntitlementRow : Type 0 where
  pub pro_until : BillingDate
  pub last_order_id : Text
  pub updated_at : BillingDate

pub record BillingData : Type 0 where
  pub orders : Dict Text BillingOrder
  pub entitlements : Dict Text EntitlementRow

abbrev pub empty_billing_data : BillingData
empty_billing_data = record { orders = []; entitlements = [] }

-- `billing` is the field `data`; `broken` if the promise `writeChain` is rejected.
pub record BillingStore : Type 0 where
  pub billing : BillingData
  pub disk : Disk BillingData
  pub broken : Bool

pub record BillingEntitlement : Type 0 where
  pub pro_until : Option BillingDate
  pub active : Bool

pub data BillingError : Type 0 where
  order_exists order_not_found amount_differs order_canceled other_payment entitlement_damaged :
      BillingError
  invalid_time payment_key_differs write_failed : BillingError

-- The instant of a call, and which of its writes succeed: the temporary file, the backup, and the
-- renaming of the temporary file.
pub record BillingCall : Type 0 where
  pub now : ℕ
  pub temporary : Bool
  pub backup : Bool
  pub renamed : Bool

pub record OrderInput : Type 0 where
  pub order_id : Text
  pub tenant_id : Text
  pub user_id : Text
  pub amount : ℕ
  pub pro_days : ℕ

pub record PaymentInput : Type 0 where
  pub order_id : Text
  pub payment_key : Text
  pub amount : ℕ

abbrev pub Reply : Type 0 → Type 0
Reply A = Result BillingError A × BillingStore

abbrev pub open_billing :
    (written : Bool) → Disk BillingData → Result LoadError (BillingData × Disk BillingData)
open_billing = load empty_billing_data

abbrev pub get_order : Text → BillingData → Option BillingOrder
get_order id d = get id d.orders

-- The expiry of an entitlement that has not expired.
abbrev pub live_until : ℕ → BillingDate → Option ℕ
live_until now none = none
live_until now (some expires) = if ltb now expires then some expires else none

abbrev pub entitlement_row : ℕ → Option EntitlementRow → BillingEntitlement
entitlement_row now none = record { pro_until = none; active = false }
entitlement_row now (some item) = record {
  pro_until = some item.pro_until;
  active = elim (live_until now item.pro_until) [ some _ ↦ true | none ↦ false ];
}

unfoldable pub entitlement : Text → ℕ → BillingData → BillingEntitlement
entitlement tenant_id now d = entitlement_row now (get tenant_id d.entitlements)

abbrev pub put_order : Text → BillingOrder → BillingData → BillingData
put_order id order d = record d { orders = set id order d.orders }

abbrev pub changed : {T : Type 0} → BillingData → T → Result BillingError (Mutation BillingData T)
changed d result = ok (record { rows = d; result = result; persist = true })

abbrev pub unchanged : {T : Type 0} → BillingData → T → Result BillingError (Mutation BillingData T)
unchanged d result = ok (record { rows = d; result = result; persist = false })

abbrev pub new_order : ℕ → OrderInput → BillingOrder
new_order now input = record {
  order_id = input.order_id;
  tenant_id = input.tenant_id;
  user_id = input.user_id;
  amount = input.amount;
  pro_days = input.pro_days;
  status = created;
  created_at = some now;
  updated_at = some now;
  payment_key = none;
  failure_reason = none;
  previous_pro_until = none;
  previous_order_id = none;
  canceled_at = none;
  cancel_reason = none;
}

unfoldable pub create_found :
    ℕ
    → OrderInput
    → BillingData
    → Option BillingOrder
    → Result BillingError (Mutation BillingData BillingOrder)
create_found now input d (some _) = throw order_exists
create_found now input d none =
    changed (put_order input.order_id (new_order now input) d) (new_order now input)

abbrev pub failed_order : ℕ → Text → BillingOrder → BillingOrder
failed_order now reason order = record order {
  status = failed;
  failure_reason = some (take 500 reason);
  updated_at = some now;
}

abbrev pub is_settled : OrderStatus → Bool
is_settled done = true
is_settled canceled = true
is_settled _ = false

unfoldable pub fail_found :
    ℕ
    → Text
    → Text
    → BillingData
    → Option BillingOrder
    → Result BillingError (Mutation BillingData (Unit {0}))
fail_found now id reason d none = unchanged d tt
fail_found now id reason d (some order) =
    if is_settled order.status
    then unchanged d tt
    else changed (put_order id (failed_order now reason order) d) tt
