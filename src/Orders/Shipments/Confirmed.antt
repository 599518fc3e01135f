-- ===== src/Orders/Shipments/Confirmed.antt =====
-- src/orders/shipmentExecutionPlan.ts: the preview of a plan, and the plan that has to carry the key
-- of its preview. The hash of node:crypto is the parameter `plan_hash`, on the keys of the calls.
use online_seller_control_hu.Common.{
  ℕ, ◌+◌, ◌≡◌, ◌∙◌, ap, inl, inr, Bool, true, false, ◌&&◌, not, Option, none, some, List, [], ◌∷◌,
  ◌++◌, ◌==◌, eq_of_==, Text, text_eq, if◌then◌else◌, Result, ok, throw, ◌>>=◌, arith, Bool-cases,
  returned-first, ok_injective, codes, length, or_else, is_empty,
}
use online_seller_control_hu.Common.Dicts.{Dict, get, set}
use online_seller_control_hu.Core.Types.{Market, market_eq}
use online_seller_control_hu.Orders.Shipments.{
  RetryKey, ShipmentInput, ShipmentApiBatch, Hashes, ShipmentError, chunk_shipment_batch_by_market,
}
use online_seller_control_hu.Orders.Shipments.Pending.{ResumeError, keys_of, pending_batches_for}

pub record MarketSummary : Type 0 where
  pub items : ℕ
  pub api_calls : ℕ

pub record ShipmentExecutionPreview : Type 0 where
  pub confirmation_key : Text
  pub total_items : ℕ
  pub total_api_calls : ℕ
  pub markets : Dict Market MarketSummary

pub record ShipmentExecutionPlan : Type 0 where
  pub preview : ShipmentExecutionPreview
  pub pending_api_calls : ℕ
  pub batches : List ShipmentApiBatch

pub record ExecutionRequest : Type 0 where
  pub shipments : List ShipmentInput
  pub confirmed : Bool
  pub confirmed_plan_key : Option Text
  pub max_items_per_call : Option ℕ
  pub last_successful_retry_key : Option RetryKey
  pub completed_retry_keys : List RetryKey

pub data ExecutionError : Type 0 where
  bad_batch : ShipmentError → ExecutionError
  bad_resume : ResumeError → ExecutionError
  not_confirmed other_plan_confirmed : ExecutionError

abbrev pub on_error : {E F A : Type 0} → (E → F) → Result E A → Result F A
on_error f (throw e) = throw (f e)
on_error f (ok a) = ok a

on_error-ok : {E F A : Type 0} (f : E → F) (r : Result E A) (a : A) → on_error f r ≡ ok a → r ≡ ok a
on_error-ok f (throw e) a h = absurd (cc)
on_error-ok f (ok b) a h = ap ok (ok_injective h)

unfoldable pub summarize_markets :
    Dict Market MarketSummary → List ShipmentApiBatch → Dict Market MarketSummary
summarize_markets summary [] = summary
summarize_markets summary (b ∷ bs) =
    let current = or_else (get b.market summary) (record { items = 0; api_calls = 0 }) in
    summarize_markets
      (set b.market
        (record { items = current.items + length b.items; api_calls = current.api_calls + 1 })
        summary)
      bs

unfoldable pub total_items : List ShipmentApiBatch → ℕ
total_items [] = 0
total_items (b ∷ bs) = length b.items + total_items bs

module _ (h : Hashes) (plan_hash : List RetryKey → Text) where
  unfoldable pub confirmation_key_for : List ShipmentApiBatch → Text
  confirmation_key_for batches = codes "shipment:" ++ plan_hash (keys_of batches)

  unfoldable pub preview_of : List ShipmentApiBatch → ShipmentExecutionPreview
  preview_of batches = record {
    confirmation_key = confirmation_key_for batches;
    total_items = total_items batches;
    total_api_calls = length batches;
    markets = summarize_markets [] batches;
  }

  unfoldable pub build_shipment_execution_preview :
      List ShipmentInput → Option ℕ → Result ExecutionError ShipmentExecutionPreview
  build_shipment_execution_preview shipments n =
      on_error bad_batch (chunk_shipment_batch_by_market h shipments (or_else n 50)) >>= λ batches.
      ok (preview_of batches)

  abbrev pub is_confirmed : Option Text → Text → Bool
  is_confirmed none key = false
  is_confirmed (some k) key = not (is_empty k) && k == key

  unfoldable pub plan_pending :
      ExecutionRequest → List ShipmentApiBatch → Result ExecutionError ShipmentExecutionPlan
  plan_pending r all =
      if not (is_confirmed r.confirmed_plan_key (confirmation_key_for all))
      then throw other_plan_confirmed
      else on_error bad_resume
          (pending_batches_for all r.last_successful_retry_key r.completed_retry_keys)
        >>= λ batches. ok (record {
          preview = preview_of all;
          pending_api_calls = length batches;
          batches = batches;
        })

  unfoldable pub build_shipment_execution_plan :
      ExecutionRequest → Result ExecutionError ShipmentExecutionPlan
  build_shipment_execution_plan r =
      if not r.confirmed
      then throw not_confirmed
      else on_error bad_batch
          (chunk_shipment_batch_by_market h r.shipments (or_else r.max_items_per_call 50))
        >>= plan_pending r

  is_confirmed-key : (o : Option Text) (key : Text) → is_confirmed o key ≡ true → o ≡ some key
  is_confirmed-key none key e = absurd (cc)
  is_confirmed-key (some k) key e = ap some (eq_of_== k key (ground (arith, e)))

  -- A plan is made only for a request that is confirmed with the key of the preview which the same
  -- shipments and the same number for a call have. The plan repeats this preview, and has the calls
  -- of it that are left.
  pub build_shipment_execution_plan-previewed :
      (r : ExecutionRequest) (plan : ShipmentExecutionPlan)
      → build_shipment_execution_plan r ≡ ok plan
      → (r.confirmed ≡ true)
        × (build_shipment_execution_preview r.shipments r.max_items_per_call ≡ ok plan.preview)
        × (r.confirmed_plan_key ≡ some plan.preview.confirmation_key)
        × (all : List ShipmentApiBatch) × (chunk_shipment_batch_by_market h r.shipments
              (or_else r.max_items_per_call 50)
            ≡ ok all)
        × (pending_batches_for all r.last_successful_retry_key r.completed_retry_keys
            ≡ ok plan.batches)
  unfolding build_shipment_execution_plan build_shipment_execution_preview plan_pending preview_of
  build_shipment_execution_plan-previewed r plan e =
      let chunks = chunk_shipment_batch_by_market h r.shipments (or_else r.max_items_per_call 50) in
      elim (Bool-cases r.confirmed) [
        | inr no_one ↦ absurd (ground (arith, rw no_one at e))
        | inl yes_one ↦
            let (all, planned, chunked) =
              returned-first (plan_pending r) (on_error bad_batch chunks) (rw yes_one at e) in
            elim (Bool-cases (is_confirmed r.confirmed_plan_key (confirmation_key_for all))) [
              | inr other ↦ absurd (ground (arith, rw other at planned))
              | inl same ↦
                  let (left, made, kept) =
                    returned-first _
                      (on_error bad_resume (
                        pending_batches_for all r.last_successful_retry_key r.completed_retry_keys))
                      (rw same at planned) in
                  let is_plan = ok_injective made in
                  (
                    yes_one,
                    rw chunked (ap (λ p. ok p.preview) is_plan),
                    is_confirmed-key r.confirmed_plan_key _ same
                        ∙ ap (λ p. some p.preview.confirmation_key) is_plan,
                    all,
                    on_error-ok bad_batch chunks all chunked,
                    on_error-ok bad_resume _ left kept ∙ ap (λ p. ok p.batches) is_plan,
                  )
            ]
      ]
