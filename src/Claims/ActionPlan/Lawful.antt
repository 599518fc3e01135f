-- ===== src/Claims/ActionPlan/Lawful.antt =====
-- src/claims/claimActionPlan.ts: which actions a plan holds.
use online_seller_control_hu.Common.{
  not, ap, ◌∙◌, ◌==◌, ◌+◌, ◌≡◌, ◌≢◌, ◌≤◌, ◌↔◌, refl, subst, sym, true, false, ◌&&◌, Option, none,
  some, List, [], ◌∷◌, map, Text, text_eq, arith, All, length, length-map, IsUnique-finer, pair_eq,
  ok, returned-first, ok_injective, parse, parse_iff, Accepts, Schema, IsUnique, count_if,
}
use online_seller_control_hu.Core.Types.{
  Market, naver, coupang, gmarket, lotteon, toss, kakao, market_eq, market_key_injective,
  count_market_total,
}
use online_seller_control_hu.Claims.ActionPlan.{
  ClaimType, ClaimStatus, ClaimAction, ClaimActionRequest, ClaimActionPlanItem, ClaimActionSummary,
  return, exchange, requested, processing, approve, reject, request_collection, mark_collected,
  ship_replacement, complete, is_action, has_action, allowed_actions, claim_action_requests_schema,
  plan_claim_item, plan_claim_actions, summarize_claims, summarize_claim_action_plan, is_absent,
}
use online_seller_control_hu.Claims.ActionPlan.Items.{
  IsItem, requests_of, items-IsItem, requests_of-items, items_of_requests,
}
use online_seller_control_hu.Claims.ActionPlan.Counts.{
  is_collection, count_risks, count_markets, confirmed_all,
}

-- When an action makes sense for a claim, told action by action.
pub data IsLawful : ClaimType → ClaimStatus → ClaimAction → Type 0 where
  approve_request : {t : ClaimType} → IsLawful t requested approve
  reject_request : {t : ClaimType} → IsLawful t requested reject
  reject_later : {t : ClaimType} → IsLawful t processing reject
  collect_return : IsLawful return requested request_collection
  collect_exchange : IsLawful exchange requested request_collection
  collected_return : IsLawful return processing mark_collected
  collected_exchange : IsLawful exchange processing mark_collected
  replace_exchange : IsLawful exchange processing ship_replacement
  complete_later : {t : ClaimType} → IsLawful t processing complete

allowed-IsLawful :
    (t : ClaimType) (s : ClaimStatus) (a : ClaimAction)
    → has_action a (allowed_actions t s) ≡ true
    → IsLawful t s a
unfolding allowed_actions is_action
allowed-IsLawful t requested approve h = approve_request
allowed-IsLawful t requested reject h = reject_request
allowed-IsLawful t processing reject h = reject_later
allowed-IsLawful return requested request_collection h = collect_return
allowed-IsLawful exchange requested request_collection h = collect_exchange
allowed-IsLawful return processing mark_collected h = collected_return
allowed-IsLawful exchange processing mark_collected h = collected_exchange
allowed-IsLawful exchange processing ship_replacement h = replace_exchange
allowed-IsLawful t processing complete h = complete_later
allowed-IsLawful t s a h = ground arith

allowed_of_lawful :
    (t : ClaimType) (s : ClaimStatus) (a : ClaimAction)
    → IsLawful t s a
    → has_action a (allowed_actions t s) ≡ true
unfolding allowed_actions is_action
allowed_of_lawful t _ _ approve_request = ground arith
allowed_of_lawful t _ _ reject_request = ground arith
allowed_of_lawful t _ _ reject_later = ground arith
allowed_of_lawful _ _ _ collect_return = refl
allowed_of_lawful _ _ _ collect_exchange = refl
allowed_of_lawful _ _ _ collected_return = refl
allowed_of_lawful _ _ _ collected_exchange = refl
allowed_of_lawful _ _ _ replace_exchange = refl
allowed_of_lawful t _ _ complete_later = ground arith

abbrev pub claim_of : ClaimActionRequest → Market × Text
claim_of r = (r.market, r.external_claim_id)

-- The rows of a plan, told by the claim, the action and the note.
pub record IsClaimPlan (rs : List ClaimActionRequest) : Type 0 where
  pub at_most : length rs ≤ 500
  pub fields : All (λ r. claim_action_requests_schema.fields r ≡ true) rs
  pub unique : IsUnique claim_of rs
  pub lawful : All (λ r. IsLawful r.type r.status r.action) rs
  pub reasons : All (λ r. r.action ≡ reject → r.note ≢ none) rs

rows-IsLawful :
    (rs : List ClaimActionRequest)
    → All (λ r. claim_action_requests_schema.faults r ≡ []) rs
    → All (λ r. IsLawful r.type r.status r.action) rs
rows-IsLawful [] h = tt
rows-IsLawful (r ∷ rs) h =
    (allowed-IsLawful r.type r.status r.action (ground (arith, h.0)), rows-IsLawful rs h.1)

rows-reasons :
    (rs : List ClaimActionRequest)
    → All (λ r. claim_action_requests_schema.faults r ≡ []) rs
    → All (λ r. r.action ≡ reject → r.note ≢ none) rs
unfolding is_action
rows-reasons [] h = tt
rows-reasons (r ∷ rs) h =
    ((λ e n. let f = rw (e, n) at h.0 in ground (arith, f)), rows-reasons rs h.1)

reason_given :
    (a : ClaimAction) (note : Option Text)
    → (a ≡ reject → note ≢ none)
    → (is_action a reject && is_absent note) ≡ false
unfolding is_action
reason_given reject none h = absurd (h refl refl)
reason_given reject (some _) h = refl
reason_given approve _ h = refl
reason_given request_collection _ h = refl
reason_given mark_collected _ h = refl
reason_given ship_replacement _ h = refl
reason_given complete _ h = refl

no_fault :
    (rs : List ClaimActionRequest)
    → All (λ r. IsLawful r.type r.status r.action) rs
    → All (λ r. r.action ≡ reject → r.note ≢ none) rs
    → All (λ r. claim_action_requests_schema.faults r ≡ []) rs
no_fault [] l n = tt
no_fault (r ∷ rs) l n = (
  rw (allowed_of_lawful r.type r.status r.action l.0, reason_given r.action r.note n.0) refl,
  no_fault rs l.1 n.1,
)

-- A plan is made exactly for at most 500 claims with valid fields, no two of them the same claim of
-- a market, each with an action that its type and state call for and a note for a rejection. It has
-- one item for each trimmed request, in order; each item has to be confirmed, and has a medium risk
-- if goods are to be collected or were, and a high one otherwise.
pub plan_claim_actions_iff :
    (input : List ClaimActionRequest) (items : List ClaimActionPlanItem)
    → (plan_claim_actions input ≡ ok items) ↔ (
        (requests_of items ≡ map claim_action_requests_schema.normalize input)
        × All IsItem items
        × IsClaimPlan (map claim_action_requests_schema.normalize input))
unfolding plan_claim_actions
plan_claim_actions_iff input items = (forth, back)
  where
    schema : Schema ClaimActionRequest
    schema = claim_action_requests_schema

    forth :
        plan_claim_actions input ≡ ok items
        → (requests_of items ≡ map schema.normalize input)
          × All IsItem items
          × IsClaimPlan (map schema.normalize input)
    forth h =
        let (rows, e, parsed) = returned-first _ (parse schema 0 500 input) h in
        let (normal, a) = (parse_iff schema 0 500 input rows).0 parsed in
        let plan : IsClaimPlan rows = record {
          at_most = a.at_most;
          fields = a.fields;
          unique = IsUnique-finer schema.key claim_of (λ x y k. cc) rows a.unique;
          lawful = rows-IsLawful rows a.faults;
          reasons = rows-reasons rows a.faults;
        } in
        let made = ok_injective e in
        rw (← normal) (
          subst (λ is. requests_of is ≡ rows) made (requests_of-items rows),
          subst (All IsItem) made (items-IsItem rows),
          plan,
        )

    back :
        (requests_of items ≡ map schema.normalize input)
          × All IsItem items
          × IsClaimPlan (map schema.normalize input)
        → plan_claim_actions input ≡ ok items
    back (e, each, p) =
        let rows = map schema.normalize input in
        let accepted : Accepts schema 0 500 rows = record {
          at_least = omega arith;
          at_most = p.at_most;
          fields = p.fields;
          unique =
              IsUnique-finer claim_of schema.key
                (λ x y h. let (m, i) = market_key_injective _ _ _ _ h in cc) rows p.unique;
          faults = no_fault rows p.lawful p.reasons;
        } in
        let made : map plan_claim_item rows ≡ items =
          sym (items_of_requests items each ∙ ap (map plan_claim_item) e) in
        rw ((parse_iff schema 0 500 input rows).1 (refl, accepted), made) refl

-- How the numbers of a summary count the requests and the items that were planned for them.
pub record IsTally (input : List ClaimActionRequest) (items : List ClaimActionPlanItem)
    (s : ClaimActionSummary) : Type 0 where
  pub total : s.total ≡ length input
  pub high_risk : s.high_risk ≡ count_if (λ r. not (is_collection r.action)) input
  pub medium_risk : s.medium_risk ≡ count_if (λ r. is_collection r.action) input
  pub confirmed : s.confirmation_required ≡ count_if (λ i. i.requires_confirmation) items
  pub all_confirmed : s.confirmation_required ≡ s.total
  pub by_market : (m : Market) → s.by_market m ≡ count_if (λ r. r.market == m) input
  pub markets :
      s.by_market naver
        + s.by_market coupang
        + s.by_market gmarket
        + s.by_market lotteon
        + s.by_market toss
        + s.by_market kakao
      ≡ s.total

-- A summary is that of a plan: it counts all requests; as medium risks those in which goods are to
-- be collected or were, and as high risks the others; as requests to confirm the items that have to
-- be confirmed, which are all; and for each market the requests about it, which add up to the total.
pub summarize_claim_action_plan_total :
    (input : List ClaimActionRequest) (s : ClaimActionSummary)
    → summarize_claim_action_plan input ≡ ok s
    → (items : List ClaimActionPlanItem) × (plan_claim_actions input ≡ ok items)
      × IsTally input items s
unfolding summarize_claim_action_plan summarize_claims
summarize_claim_action_plan_total input s h =
    let (items, e, planned) = returned-first _ (plan_claim_actions input) h in
    let (same, each, _) = (plan_claim_actions_iff input items).0 planned in
    let size : length items ≡ length input = omega (
      arith,
      length-map items (λ i. i.request),
      ap length same,
      length-map input claim_action_requests_schema.normalize,
    ) in
    let risks = count_risks input items same each in
    let summary : summarize_claims items ≡ s = ok_injective e in
    (
      items,
      planned,
      subst (IsTally input items) summary (record {
        total = size;
        high_risk = risks.1;
        medium_risk = omega (arith, risks.0);
        confirmed = sym (confirmed_all items each);
        all_confirmed = refl;
        by_market = λ m. count_markets m input items same;
        markets = count_market_total (λ i. i.request.market) items;
      }),
    )
