-- ===== src/Orders/Transitions/Ends.antt =====
-- src/orders/statusTransitionPlan.ts: planned changes of an order line come to an end.
use online_seller_control_hu.Common.{
  ℕ, ◌+◌, ◌≤◌, ◌≡◌, refl, ap, subst, inl, inr, suc, true, List, [], ◌∷◌, ◌++◌, ◌==◌, ◌⊎◌, ok,
  returned-first, ok_injective, arith, Bool-cases, All, includes, text_eq,
}
use online_seller_control_hu.Core.Types.{market_eq}
use online_seller_control_hu.Orders.Transitions.{
  OrderLineStatus, new_order, confirmed, preparing, shipped, delivered, cancelled,
  order_line_status_eq, OrderStatusTransition, PlannedTransition, OrderLineStatus-discrete, allowed,
  plan_transition, plan_each, plan_order_status_transitions,
}

-- How many changes a line can still have.
abbrev pub changes_left : OrderLineStatus → ℕ
changes_left new_order = 4
changes_left confirmed = 3
changes_left preparing = 2
changes_left shipped = 1
changes_left delivered = 0
changes_left cancelled = 0

abbrev pub Advances : OrderLineStatus → OrderLineStatus → Type 0
Advances s u =
    (changes_left u + 1 ≤ changes_left s)
    × ((u ≡ cancelled) ⊎ (changes_left u + 1 ≡ changes_left s))

-- One planned change brings the line nearer to its end, and has to be confirmed.
pub record IsChange (p : PlannedTransition) : Type 0 where
  pub advances : Advances p.transition.from_status p.transition.to_status
  pub confirmation : p.requires_confirmation ≡ true

allowed-Advances : (s u : OrderLineStatus) → includes u (allowed s) ≡ true → Advances s u
unfolding allowed OrderLineStatus-discrete
allowed-Advances new_order confirmed h = (omega arith, inr refl)
allowed-Advances new_order cancelled h = (omega arith, inl refl)
allowed-Advances confirmed preparing h = (omega arith, inr refl)
allowed-Advances confirmed cancelled h = (omega arith, inl refl)
allowed-Advances preparing shipped h = (omega arith, inr refl)
allowed-Advances preparing cancelled h = (omega arith, inl refl)
allowed-Advances shipped delivered h = (omega arith, inr refl)
allowed-Advances _ _ h = cc

plan_transition-IsChange :
    (t : OrderStatusTransition) (p : PlannedTransition) → plan_transition t ≡ ok p → IsChange p
unfolding plan_transition
plan_transition-IsChange t p h = elim (Bool-cases (t.from_status == t.to_status)) [
  | inl e ↦ absurd (ground (arith, rw e at h))
  | inr e ↦ elim (Bool-cases (includes t.to_status (allowed t.from_status))) [
    | inr f ↦ absurd (ground (arith, rw (e, f) at h))
    | inl f ↦
        subst IsChange (ok_injective (rw (e, f) at h))
          (record { advances = allowed-Advances t.from_status t.to_status f; confirmation = refl })
  ]
]

plan_each-IsChange :
    (ts : List OrderStatusTransition) (ps : List PlannedTransition)
    → plan_each ts ≡ ok ps
    → All IsChange ps
unfolding plan_each
plan_each-IsChange [] ps h = subst (All IsChange) (ok_injective h) tt
plan_each-IsChange (t ∷ ts) ps h =
    let (p, rest, planned) = returned-first _ (plan_transition t) h in
    let (more, made, others) = returned-first _ (plan_each ts) rest in
    subst (All IsChange) (ok_injective made)
      (plan_transition-IsChange t p planned, plan_each-IsChange ts more others)

pub plan-IsChange :
    (input : List OrderStatusTransition) (ps : List PlannedTransition)
    → plan_order_status_transitions input ≡ ok ps
    → All IsChange ps
unfolding plan_order_status_transitions
plan-IsChange input ps h =
    let (rows, made, _) = returned-first plan_each _ h in plan_each-IsChange rows ps made

All-middle :
    (xs : List PlannedTransition) (p : PlannedTransition) (ys : List PlannedTransition)
    → All IsChange (xs ++ (p ∷ ys))
    → IsChange p
All-middle [] p ys h = h.0
All-middle (x ∷ xs) p ys h = All-middle xs p ys h.1

-- The changes of one order line, each taken from a plan and made where the line stands.
pub data History : ℕ → OrderLineStatus → OrderLineStatus → Type 0 where
  unchanged : (s : OrderLineStatus) → History 0 s s
  change :
      {n : ℕ} {s u : OrderLineStatus} (input : List OrderStatusTransition)
      (before : List PlannedTransition) (p : PlannedTransition) (after : List PlannedTransition)
      → plan_order_status_transitions input ≡ ok (before ++ (p ∷ after))
      → p.transition.from_status ≡ s
      → History n p.transition.to_status u
      → History (suc n) s u

History-bound :
    {n : ℕ} {s u : OrderLineStatus} → History n s u → n + changes_left u ≤ changes_left s
History-bound (unchanged s) = omega arith
History-bound (change input before p after planned here later) =
    let c = All-middle before p after (plan-IsChange input _ planned) in
    let from_is = ap changes_left here in omega (arith, c.advances.0, from_is, History-bound later)

History-cancelled : {n : ℕ} {s u : OrderLineStatus} → History n s u → s ≡ cancelled → u ≡ cancelled
History-cancelled (unchanged s) e = e
History-cancelled (change input before p after planned here later) e =
    let c = All-middle before p after (plan-IsChange input _ planned) in
    let from_is = ap changes_left here in
    let none_left = ap changes_left e in absurd (omega (arith, c.advances.0, from_is, none_left))

at_most_four : (s : OrderLineStatus) → changes_left s ≤ 4
at_most_four new_order = omega arith
at_most_four confirmed = omega arith
at_most_four preparing = omega arith
at_most_four shipped = omega arith
at_most_four delivered = omega arith
at_most_four cancelled = omega arith

History-path :
    {n : ℕ} {s u : OrderLineStatus}
    → History n s u
    → (u ≡ cancelled) ⊎ (n + changes_left u ≡ changes_left s)
History-path (unchanged s) = inr (omega arith)
History-path (change input before p after planned here later) =
    let c = All-middle before p after (plan-IsChange input _ planned) in
    let from_is = ap changes_left here in
    elim c.advances.1 [
      | inl gone ↦ inl (History-cancelled later gone)
      | inr next ↦ elim (History-path later) [
        | inl gone ↦ inl gone
        | inr path ↦ inr (omega (arith, next, from_is, path))
      ]
    ]

-- An order line has at most as many planned changes as its state has left: four if it is new, three
-- if it is confirmed, two if it is prepared, one if it is shipped, and none if it is delivered or
-- cancelled. Unless it ends as cancelled it went through every state on the way.
pub History-ends :
    {n : ℕ} {s u : OrderLineStatus}
    → History n s u
    → (n + changes_left u ≤ changes_left s)
      × (changes_left s ≤ 4)
      × ((u ≡ cancelled) ⊎ (n + changes_left u ≡ changes_left s))
History-ends {s} h = (History-bound h, at_most_four s, History-path h)
