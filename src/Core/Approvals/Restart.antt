-- ===== src/Core/Approvals/Restart.antt =====
-- src/core/approvalStore.ts: what a restart finds after requests.
use online_seller_control_hu.Common.{
  All, sym, subst, trim, leb, ◌+◌, ℕ, ◌≡◌, ◌<◌, refl, ◌∙◌, inl, inr, Bool, true, List, [], ◌∷◌,
  Text, text_eq, ok, arith,
}
use online_seller_control_hu.Common.Dicts.{Dict, get, set, delete, All-set, All-delete}
use online_seller_control_hu.Core.ApprovalRows.{is_row, is_request, PendingApproval}
use online_seller_control_hu.Core.Approvals.{
  ApprovalInput, ApprovalStore, Call, Request, create_request, consume_request, cancel_request,
  persist, update, create, consume, cancel, remove_persisted_first, serve, serve_all, new_approval,
  absent, open_store,
}
use online_seller_control_hu.Core.Approvals.Durable.{
  IsDurable, consume_found-keeps, cancel_found-keeps, IsStored, update_cases, serve-IsDurable,
  restart_restores, if_live,
}

-- The options that a store was opened with.
abbrev options_of : ApprovalStore → ℕ × Bool
options_of s = (s.ttl_ms, s.persistent)

update-options :
    {A : Type 0} (call : Call) (next : Dict Text PendingApproval) (answer : A) (s : ApprovalStore)
    → options_of (update call next answer s).1 ≡ options_of s
unfolding update persist
update-options call next answer s = ground arith

remove-options :
    (call : Call) (id : Text) (s : ApprovalStore) (A : Type 0) (answer : A)
    → options_of (remove_persisted_first call id answer s).1 ≡ options_of s
unfolding remove_persisted_first
remove-options call id s A answer = update-options call (delete id s.pending) answer s

serve-options :
    (call : Call) (r : Request) (s : ApprovalStore) → options_of (serve call r s) ≡ options_of s
unfolding serve create consume cancel
serve-options call (create_request input) s =
    let a = new_approval call input s in update-options call (set a.id a s.pending) a s
serve-options call (consume_request id actor) s =
    consume_found-keeps (λ s'. options_of s' ≡ options_of s) call id actor s refl
      (remove-options call id s) (get id s.pending)
serve-options call (cancel_request id actor) s =
    cancel_found-keeps (λ s'. options_of s' ≡ options_of s) call id actor s refl
      (remove-options call id s) (get id s.pending)

-- A request whose approval the schema of the file accepts, where it creates one.
abbrev pub IsAccepted : (is_uuid : Text → Bool) → Call × Request → Type 0
IsAccepted is_uuid (call, create_request input) =
    (is_uuid call.uuid ≡ true)
    × (is_request input.actor input.command input.product ≡ true)
    × (trim input.command.product_query ≡ input.command.product_query)
IsAccepted is_uuid (call, consume_request id actor) = Unit
IsAccepted is_uuid (call, cancel_request id actor) = Unit

module _ (is_uuid : Text → Bool) where
  abbrev IsStoredEntry : Text × PendingApproval → Type 0
  IsStoredEntry e = IsStored is_uuid e.1

  update-All :
      {A : Type 0} (call : Call) (next : Dict Text PendingApproval) (answer : A) (s : ApprovalStore)
      → All IsStoredEntry s.pending
      → All IsStoredEntry next
      → All IsStoredEntry (update call next answer s).1.pending
  update-All call next answer s old new = elim (update_cases call next answer s) [
    | inl same ↦ subst (λ r. All IsStoredEntry r.pending) (sym same) old
    | inr (inl (on, e)) ↦ subst (λ r. All IsStoredEntry r.pending) (sym e) new
    | inr (inr (off, e)) ↦ subst (λ r. All IsStoredEntry r.pending) (sym e) new
  ]

  remove-All :
      (call : Call) (id : Text) (s : ApprovalStore)
      → All IsStoredEntry s.pending
      → (A : Type 0) (answer : A)
      → All IsStoredEntry (remove_persisted_first call id answer s).1.pending
  unfolding remove_persisted_first
  remove-All call id s old A answer =
      update-All call (delete id s.pending) answer s old (All-delete IsStoredEntry id s.pending old)

  -- The approval that an accepted request makes, where the store keeps approvals for a time.
  new_approval-IsStored :
      (call : Call) (input : ApprovalInput) (s : ApprovalStore)
      → IsAccepted is_uuid (call, create_request input)
      → 0 < s.ttl_ms
      → IsStored is_uuid (new_approval call input s)
  unfolding is_row
  new_approval-IsStored call input s (fresh, accepted, trimmed) ttl =
      let future : leb 1 (call.now + s.ttl_ms) ≡ true = ground (arith, ttl) in
      record { accepted = rw (fresh, future, accepted) refl; trimmed = trimmed }

  serve-All :
      (call : Call) (r : Request) (s : ApprovalStore)
      → IsAccepted is_uuid (call, r)
      → 0 < s.ttl_ms
      → All IsStoredEntry s.pending
      → All IsStoredEntry (serve call r s).pending
  unfolding serve create consume cancel
  serve-All call (create_request input) s accepted ttl old =
      let a = new_approval call input s in
      update-All call (set a.id a s.pending) a s old (
        All-set IsStoredEntry a.id a s.pending (new_approval-IsStored call input s accepted ttl)
          old)
  serve-All call (consume_request id actor) s accepted ttl old =
      consume_found-keeps (λ s'. All IsStoredEntry s'.pending) call id actor s old
        (remove-All call id s old) (get id s.pending)
  serve-All call (cancel_request id actor) s accepted ttl old =
      cancel_found-keeps (λ s'. All IsStoredEntry s'.pending) call id actor s old
        (remove-All call id s old) (get id s.pending)

-- What requests keep of a store.
record IsKept (is_uuid : Text → Bool) (s s' : ApprovalStore) : Type 0 where
  durable : IsDurable s'
  stored : All (λ e. IsStored is_uuid e.1) s'.pending
  options : options_of s' ≡ options_of s

serve_all-IsKept :
    (is_uuid : Text → Bool) (requests : List (Call × Request)) (s : ApprovalStore)
    → All (IsAccepted is_uuid) requests
    → 0 < s.ttl_ms
    → All (λ e. IsStored is_uuid e.1) s.pending
    → IsDurable s
    → IsKept is_uuid s (serve_all requests s)
unfolding serve_all
serve_all-IsKept is_uuid [] s accepted ttl old d = record {
  durable = d;
  stored = old;
  options = refl;
}
serve_all-IsKept is_uuid ((call, r) ∷ requests) s (first, others) ttl old d =
    let same = serve-options call r s in
    let ttl' : 0 < (serve call r s).ttl_ms = ground (arith, same, ttl) in
    let rest =
      serve_all-IsKept is_uuid requests (serve call r s) others ttl'
        (serve-All is_uuid call r s first ttl old) (serve-IsDurable call r s d) in
    record { durable = rest.durable; stored = rest.stored; options = rest.options ∙ same }

-- A store without a file starts empty.
restart_empty :
    (is_uuid : Text → Bool) (call : Call) (s : ApprovalStore) (id : Text)
    → s.file ≡ absent
    → s.pending ≡ []
    → 0 < s.ttl_ms
    → (r : ApprovalStore) × (open_store is_uuid call s.ttl_ms true s.file ≡ ok r)
      × (get id r.pending ≡ if_live call.now (get id s.pending))
unfolding open_store get
restart_empty is_uuid call s id none_saved nothing ttl =
    let empty : ApprovalStore = record {
      ttl_ms = s.ttl_ms;
      persistent = true;
      pending = [];
      file = absent;
    } in
    (empty, rw none_saved (ground (arith, ttl)), rw nothing refl)

-- Where the schema of the file accepts, as they are, the approvals that are pending and those that
-- the requests create: after the requests to a store with a file, whichever of their writes failed,
-- the file is in step with memory, and a restart brings back exactly the pending approvals that
-- have not expired, under their identifiers, where its own write succeeds.
pub restart_after_requests :
    (is_uuid : Text → Bool) (requests : List (Call × Request)) (call : Call) (s : ApprovalStore)
    (id : Text)
    → All (IsAccepted is_uuid) requests
    → All (λ e. IsStored is_uuid e.1) s.pending
    → IsDurable s
    → s.persistent ≡ true
    → 0 < s.ttl_ms
    → call.written ≡ true
    → let s' = serve_all requests s in
      IsDurable s'
      × ((r : ApprovalStore) × (open_store is_uuid call s'.ttl_ms true s'.file ≡ ok r)
          × (get id r.pending ≡ if_live call.now (get id s'.pending)))
restart_after_requests is_uuid requests call s id accepted old d on ttl w =
    let s' = serve_all requests s in
    let kept = serve_all-IsKept is_uuid requests s accepted ttl old d in
    let same = kept.options in
    let on' : s'.persistent ≡ true = ground (arith, same, on) in
    let ttl' : 0 < s'.ttl_ms = ground (arith, same, ttl) in
    (
      kept.durable,
      elim (kept.durable.saved on') [
        | inl saved ↦ restart_restores is_uuid call s' id kept.stored kept.durable on' saved ttl' w
        | inr (none_saved, nothing) ↦ restart_empty is_uuid call s' id none_saved nothing ttl'
      ],
    )
