-- ===== src/Orders/Transitions/Examples.antt =====
-- src/orders/statusTransitionPlan.ts on an order that is delivered.
use online_seller_control_hu.Common.{
  ◌+◌, ◌≤◌, ◌≡◌, ◌⊎◌, refl, none, true, [], ◌∷◌, ok, throw, codes, running, text_eq,
}
use online_seller_control_hu.Core.Types.{naver, Market-discrete}
use online_seller_control_hu.Orders.Transitions.{
  OrderLineStatus, new_order, confirmed, preparing, shipped, cancelled, OrderLineStatus-discrete,
  OrderStatusTransition, PlannedTransition, normal, high, allowed, plan_transition, plan_each,
  plan_order_status_transitions, summarize_order_status_plan, no_op, not_allowed,
}
use online_seller_control_hu.Orders.Transitions.Ends.{
  History, unchanged, change, changes_left, History-ends,
}

program : Unit {0}
unfolding running Market-discrete OrderLineStatus-discrete allowed plan_transition plan_each
    plan_order_status_transitions summarize_order_status_plan
program = tt

abbrev transition : OrderLineStatus → OrderLineStatus → OrderStatusTransition
transition s u = record {
  market = naver;
  external_order_line_id = codes "line";
  from_status = s;
  to_status = u;
  reason = none;
}

abbrev planned : OrderLineStatus → OrderLineStatus → PlannedTransition
planned s u = record { transition = transition s u; requires_confirmation = true; risk = normal }

confirm_plan :
    plan_order_status_transitions (transition new_order confirmed ∷ [])
    ≡ ok (planned new_order confirmed ∷ [])
unfolding program
confirm_plan = refl

prepare_plan :
    plan_order_status_transitions (transition confirmed preparing ∷ [])
    ≡ ok (planned confirmed preparing ∷ [])
unfolding program
prepare_plan = refl

cancel_plan :
    plan_order_status_transitions (transition preparing cancelled ∷ [])
    ≡ ok (record (planned preparing cancelled) { risk = high } ∷ [])
unfolding program
cancel_plan = refl

no_return :
    plan_order_status_transitions (transition shipped preparing ∷ [])
    ≡ throw (not_allowed shipped preparing)
unfolding program
no_return = refl

same_state :
    plan_order_status_transitions (transition shipped shipped ∷ []) ≡ throw (no_op (codes "line"))
unfolding program
same_state = refl

abbrev prepared_order : History 2 new_order preparing
prepared_order =
    change (transition new_order confirmed ∷ []) [] (planned new_order confirmed) [] confirm_plan
      refl
      (change (transition confirmed preparing ∷ []) [] (planned confirmed preparing) [] prepare_plan
        refl (unchanged preparing))

History-ends_example :
    (2 + changes_left preparing ≤ changes_left new_order)
    × (changes_left new_order ≤ 4)
    × ((preparing ≡ cancelled) ⊎ (2 + changes_left preparing ≡ changes_left new_order))
History-ends_example = History-ends prepared_order
