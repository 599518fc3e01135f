-- ===== src/Core/Approvals/Lifetime.antt =====
-- src/core/approvalStore.ts: an approval is handed out once, over any later run of requests.
use online_seller_control_hu.Common.{
  ◌≡◌, ◌≢◌, refl, true, false, Option, none, some, List, [], ◌∷◌, ok, arith, Text, text_eq,
}
use online_seller_control_hu.Common.Dicts.{Dict, get, delete, get-set, get-delete}
use online_seller_control_hu.Core.ApprovalRows.{ApprovalActor, PendingApproval, actor_kind_eq}
use online_seller_control_hu.Core.Approvals.{
  ApprovalStore, Call, Request, create_request, consume_request, cancel_request, persist, update,
  create, consume, consume_found, cancel, cancel_found, remove_persisted_first, serve, serve_all,
  new_approval,
}

module _ {A : Type 0} where
  -- An update either stores the new map or keeps the old one.
  update_pending :
      (id : Text) (call : Call) (next : Dict Text PendingApproval) (answer : A) (s : ApprovalStore)
      → get id next ≡ none
      → get id s.pending ≡ none
      → get id (update call next answer s).1.pending ≡ none
  unfolding update persist
  update_pending id call next answer s h k = ground arith

get-delete_self : (id : Text) (d : Dict Text PendingApproval) → get id (delete id d) ≡ none
get-delete_self id d = ground (arith, get-delete id id d)

get-delete-none :
    (id j : Text) (d : Dict Text PendingApproval) → get id d ≡ none → get id (delete j d) ≡ none
get-delete-none id j d h = ground (arith, get-delete j id d)

handed_none : Option PendingApproval
handed_none = none

-- Only `create` brings an identifier in, and only the one it was given.
abbrev pub Avoids : Text → Call → Request → Type 0
Avoids id call (create_request _) = call.uuid ≢ id
Avoids id call (consume_request _ _) = Unit
Avoids id call (cancel_request _ _) = Unit

abbrev pub AllAvoid : Text → List (Call × Request) → Type 0
AllAvoid id [] = Unit
AllAvoid id ((call, r) ∷ rs) = Avoids id call r × AllAvoid id rs

module _ (id : Text) where
  consume_found-none :
      (call : Call) (j : Text) (actor : ApprovalActor) (found : Option PendingApproval)
      (s : ApprovalStore)
      → get id s.pending ≡ none
      → get id (consume_found call j actor found s).1.pending ≡ none
  unfolding consume_found remove_persisted_first handed_none
  consume_found-none call j actor none s h = h
  consume_found-none call j actor (some a) s h =
      let gone = get-delete-none id j s.pending h in
      ground (
        arith,
        update_pending id call (delete j s.pending) handed_none s gone h,
        update_pending id call (delete j s.pending) (some a) s gone h,
      )

  cancel_found-none :
      (call : Call) (j : Text) (actor : ApprovalActor) (found : Option PendingApproval)
      (s : ApprovalStore)
      → get id s.pending ≡ none
      → get id (cancel_found call j actor found s).1.pending ≡ none
  unfolding cancel_found remove_persisted_first
  cancel_found-none call j actor none s h = h
  cancel_found-none call j actor (some a) s h =
      let gone = get-delete-none id j s.pending h in
      ground (
        arith,
        update_pending id call (delete j s.pending) false s gone h,
        update_pending id call (delete j s.pending) true s gone h,
      )

  serve-none :
      (call : Call) (r : Request) (s : ApprovalStore)
      → Avoids id call r
      → get id s.pending ≡ none
      → get id (serve call r s).pending ≡ none
  unfolding serve create consume cancel
  serve-none call (create_request input) s other h =
      update_pending id call _ _ s
        (ground (arith, get-set call.uuid id (new_approval call input s) s.pending)) h
  serve-none call (consume_request j actor) s _ h =
      consume_found-none call j actor (get j s.pending) s h
  serve-none call (cancel_request j actor) s _ h =
      cancel_found-none call j actor (get j s.pending) s h

  serve_all-none :
      (rs : List (Call × Request)) (s : ApprovalStore)
      → AllAvoid id rs
      → get id s.pending ≡ none
      → get id (serve_all rs s).pending ≡ none
  unfolding serve_all
  serve_all-none [] s h k = k
  serve_all-none ((call, r) ∷ rs) s h k =
      serve_all-none rs (serve call r s) h.1 (serve-none call r s h.0 k)

  consume_found_removes :
      (call : Call) (actor : ApprovalActor) (found : Option PendingApproval) (s : ApprovalStore)
      {a : PendingApproval}
      → (consume_found call id actor found s).0 ≡ ok (some a)
      → get id (consume_found call id actor found s).1.pending ≡ none
  unfolding consume_found remove_persisted_first update persist
  consume_found_removes call actor none s h = cc
  consume_found_removes call actor (some b) s h = ground (arith, get-delete_self id s.pending)

-- Once `consume` has handed out the approval of an identifier, no later `consume` hands it out
-- again and no later `cancel` finds it, whoever asks and whatever was asked in between, as long as
-- no new approval is given the same identifier.
pub consume_once :
    (call : Call) (id : Text) (actor : ApprovalActor) (s : ApprovalStore) (a : PendingApproval)
    (rs : List (Call × Request)) (call' : Call) (actor' : ApprovalActor)
    → (consume call id actor s).0 ≡ ok (some a)
    → AllAvoid id rs
    → let later = serve_all rs (consume call id actor s).1 in
      ((consume call' id actor' later).0 ≡ ok none) × ((cancel call' id actor' later).0 ≡ ok false)
unfolding consume cancel consume_found cancel_found
consume_once call id actor s a rs call' actor' h avoid =
    let taken = (consume_found call id actor (get id s.pending) s).1 in
    let gone =
      serve_all-none id rs taken avoid
        (consume_found_removes id call actor (get id s.pending) s h) in
    (rw (gone, consume_found) refl, rw (gone, cancel_found) refl)
