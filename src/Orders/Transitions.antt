-- ===== src/Orders/Transitions.antt =====
-- src/orders/statusTransitionPlan.ts: changes of the status of order lines, planned for review. The states are
-- those of src/orders/orderInbox.ts.
pub mod Ends
mod Examples
use online_seller_control_hu.Common.{
  ℕ, ◌≡◌, Bool, true, false, ◌&&◌, ◌||◌, not, Option, none, some, List, [], ◌∷◌, ◌++◌, map, ◌==◌,
  Text, text_eq, if◌then◌else◌, trim, count_if, length, Result, ok, throw, ◌>>=◌, Schema, Issue,
  parse, text_between, if_present, Eq, includes, arith,
}
use online_seller_control_hu.Core.Types.{Market, market_key, market_eq}

-- `ORDER_STATUSES`; `new` has an underscore here.
pub data OrderLineStatus : Type 0 where
  new_order confirmed preparing shipped delivered cancelled : OrderLineStatus

unfoldable pub OrderLineStatus-discrete : Discrete OrderLineStatus
OrderLineStatus-discrete = hlevel

instance abbrev pub order_line_status_eq : Eq OrderLineStatus
order_line_status_eq = record { dec_eq = OrderLineStatus-discrete }

pub record OrderStatusTransition : Type 0 where
  pub market : Market
  pub external_order_line_id : Text
  pub from_status : OrderLineStatus
  pub to_status : OrderLineStatus
  pub reason : Option Text

pub data TransitionRisk : Type 0 where
  normal high : TransitionRisk

pub record PlannedTransition : Type 0 where
  pub transition : OrderStatusTransition
  pub requires_confirmation : Bool
  pub risk : TransitionRisk

pub data TransitionError : Type 0 where
  invalid_input : List Issue → TransitionError
  no_op : (line_id : Text) → TransitionError
  not_allowed : (from_status to_status : OrderLineStatus) → TransitionError

unfoldable pub allowed : OrderLineStatus → List OrderLineStatus
allowed new_order = confirmed ∷ cancelled ∷ []
allowed confirmed = preparing ∷ cancelled ∷ []
allowed preparing = shipped ∷ cancelled ∷ []
allowed shipped = delivered ∷ []
allowed delivered = []
allowed cancelled = []

abbrev pub trim_reason : Option Text → Option Text
trim_reason none = none
trim_reason (some s) = some (trim s)

-- `transitionSchema` and `inputSchema`.
abbrev pub transition_schema : Schema OrderStatusTransition
transition_schema = record {
  normalize = λ t. record t {
    external_order_line_id = trim t.external_order_line_id;
    reason = trim_reason t.reason;
  };
  fields =
      λ t. text_between 1 120 t.external_order_line_id && if_present (text_between 1 300) t.reason;
  key = λ t. market_key t.market t.external_order_line_id;
  duplicate = "duplicate order transition";
  faults = λ t. [];
}

abbrev on_issues :
    Result (List Issue) (List OrderStatusTransition)
    → Result TransitionError (List OrderStatusTransition)
on_issues (ok ts) = ok ts
on_issues (throw issues) = throw (invalid_input issues)

unfoldable pub plan_transition : OrderStatusTransition → Result TransitionError PlannedTransition
plan_transition t =
    if t.from_status == t.to_status
    then throw (no_op t.external_order_line_id)
    else if not (includes t.to_status (allowed t.from_status))
    then throw (not_allowed t.from_status t.to_status)
    else ok (record {
      transition = t;
      requires_confirmation = true;
      risk = if t.to_status == cancelled then high else normal;
    })

-- The callback of `map` throws at the first row that is refused.
unfoldable pub plan_each :
    List OrderStatusTransition → Result TransitionError (List PlannedTransition)
plan_each [] = ok []
plan_each (t ∷ ts) =
    let rest = plan_each ts in plan_transition t >>= λ planned. rest >>= λ more. ok (planned ∷ more)

unfoldable pub plan_order_status_transitions :
    List OrderStatusTransition → Result TransitionError (List PlannedTransition)
plan_order_status_transitions input = on_issues (parse transition_schema 0 1000 input) >>= plan_each

pub record OrderStatusSummary : Type 0 where
  pub total : ℕ
  pub high_risk : ℕ
  pub by_market : Market → ℕ

abbrev pub is_high : TransitionRisk → Bool
is_high high = true
is_high normal = false

unfoldable pub summarize_order_status_plan :
    List OrderStatusTransition → Result TransitionError OrderStatusSummary
summarize_order_status_plan input = plan_order_status_transitions input >>= λ items. ok (record {
  total = length items;
  high_risk = count_if (λ i. is_high i.risk) items;
  by_market = λ m. count_if (λ i. i.transition.market == m) items;
})
