-- ===== src/Core/Approvals/Atomic.antt =====
-- src/core/approvalStore.ts: what a call answers, and that a failed write changes nothing.
use online_seller_control_hu.Common.{
  ◌≡◌, ◌≤◌, ◌↔◌, true, false, ◌⊎◌, inl, refl, Option, none, some, ok, throw, arith, Text, text_eq,
}
use online_seller_control_hu.Common.Dicts.{Dict, get, values}
use online_seller_control_hu.Core.ApprovalRows.{ApprovalActor, PendingApproval, actor_kind_eq}
use online_seller_control_hu.Core.Approvals.{
  ApprovalStore, ApprovalInput, Call, Reply, persist, update, create, consume, consume_found,
  cancel, cancel_found, remove_persisted_first, write_failed, holds,
}

module _ {A : Type 0} where
  -- An answer comes with the store as it was, or with a file that holds what is then pending, or
  -- there is no path and so no file is touched. What throws is the write, which failed, and it comes
  -- with the store as it was.
  abbrev pub IsAtomic : Call → ApprovalStore → Reply A → Type 0
  IsAtomic call s (ok _, s') =
      (s' ≡ s)
      ⊎ (s'.file ≡ holds (values s'.pending))
      ⊎ ((s.persistent ≡ false) × (s'.file ≡ s.file))
  IsAtomic call s (throw e, s') =
      (e ≡ write_failed) × (s.persistent ≡ true) × (call.written ≡ false) × (s' ≡ s)

  pub update-IsAtomic :
      (call : Call) (next : Dict Text PendingApproval) (answer : A) (s : ApprovalStore)
      → IsAtomic call s (update call next answer s)
  unfolding update persist
  update-IsAtomic call next answer s = ground arith

  -- Where the write succeeds, or there is no file, an update answers as asked.
  pub update_answer :
      (call : Call) (next : Dict Text PendingApproval) (answer : A) (s : ApprovalStore)
      → call.written ≡ true
      → ((update call next answer s).0 ≡ ok answer) × ((update call next answer s).1.pending ≡ next)
  unfolding update persist
  update_answer call next answer s h = ground arith

  pub update_answer_only :
      (call : Call) (next : Dict Text PendingApproval) (answer : A) (s : ApprovalStore) {a : A}
      → (update call next answer s).0 ≡ ok a
      → (a ≡ answer) × ((update call next answer s).1.pending ≡ next)
  unfolding update persist
  update_answer_only call next answer s h = ground arith

consume_found-IsAtomic :
    (call : Call) (id : Text) (actor : ApprovalActor) (found : Option PendingApproval)
    (s : ApprovalStore)
    → IsAtomic call s (consume_found call id actor found s)
unfolding consume_found remove_persisted_first update persist
consume_found-IsAtomic call id actor none s = inl refl
consume_found-IsAtomic call id actor (some a) s = ground arith

cancel_found-IsAtomic :
    (call : Call) (id : Text) (actor : ApprovalActor) (found : Option PendingApproval)
    (s : ApprovalStore)
    → IsAtomic call s (cancel_found call id actor found s)
unfolding cancel_found remove_persisted_first update persist
cancel_found-IsAtomic call id actor none s = inl refl
cancel_found-IsAtomic call id actor (some a) s = ground arith

-- For `create`, `consume` and `cancel` alike: a call that throws has failed to write the file, and
-- leaves the pending approvals and the file as they were. A call that is answered leaves the store
-- as it was, or a file that holds just what is then pending; without a path it leaves the file.
pub calls-IsAtomic :
    (call : Call) (input : ApprovalInput) (id : Text) (actor : ApprovalActor) (s : ApprovalStore)
    → IsAtomic call s (create call input s)
      × IsAtomic call s (consume call id actor s)
      × IsAtomic call s (cancel call id actor s)
unfolding create consume cancel
calls-IsAtomic call input id actor s = (
  update-IsAtomic call _ _ s,
  consume_found-IsAtomic call id actor (get id s.pending) s,
  cancel_found-IsAtomic call id actor (get id s.pending) s,
)

consume_found_iff :
    (call : Call) (id : Text) (actor : ApprovalActor) (found : Option PendingApproval)
    (s : ApprovalStore) (a : PendingApproval)
    → call.written ≡ true
    → ((consume_found call id actor found s).0 ≡ ok (some a))
      ↔ ((found ≡ some a) × (call.now ≤ a.expires_at) × (a.actor ≡ actor))
unfolding consume_found remove_persisted_first update persist
consume_found_iff call id actor none s a w = (λ h. cc, λ h. cc (h.0))
consume_found_iff call id actor (some b) s a w = (λ h. ground arith, λ h. ground arith)

-- Where its write succeeds, `consume` hands out an approval exactly when it is pending under that
-- identifier, has not expired, and belongs to the same actor.
pub consume_iff :
    (call : Call) (id : Text) (actor : ApprovalActor) (s : ApprovalStore) (a : PendingApproval)
    → call.written ≡ true
    → ((consume call id actor s).0 ≡ ok (some a))
      ↔ ((get id s.pending ≡ some a) × (call.now ≤ a.expires_at) × (a.actor ≡ actor))
unfolding consume
consume_iff call id actor s a w = consume_found_iff call id actor (get id s.pending) s a w
