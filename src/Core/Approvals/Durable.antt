-- ===== src/Core/Approvals/Durable.antt =====
-- src/core/approvalStore.ts: the file always holds what is pending, so that a restart brings back
-- the approvals that have not expired.
use online_seller_control_hu.Common.{
  ap, Bool, every, trim, subst, IsFresh-nil, filter-IsUnique, ℕ, ◌≡◌, ◌<◌, refl, sym, ◌⊎◌, inl, inr,
  true, false, Option, none, some, List, [], ◌∷◌, map, ok, arith, Text, text_eq, ◌==◌, All, filter,
  length, Bool-cases, if◌then◌else◌, ltb, nat_eq,
}
use online_seller_control_hu.Common.Dicts.{
  Dict, get, set, delete, values, HasUniqueKeys, set-HasUniqueKeys, delete-HasUniqueKeys,
  All-delete, All-set, get-none,
}
use online_seller_control_hu.Common.Indexes.{index_by_new, values-IsUnique}
use online_seller_control_hu.Core.ApprovalRows.{
  is_row, parsed_row, ApprovalActor, PendingApproval, actor_kind_eq,
}
use online_seller_control_hu.Core.Approvals.{
  ApprovalStore, Call, Request, create_request, consume_request, cancel_request, persist, update,
  create, consume, consume_found, cancel, cancel_found, remove_persisted_first, serve, new_approval,
  holds, absent, restore, is_live, load_parsed, load_rows, open_store, same_actor,
}

abbrev pub entry : PendingApproval → Text × PendingApproval
entry a = (a.id, a)

abbrev pub IsOwnEntry : Text × PendingApproval → Type 0
IsOwnEntry e = e.1.id ≡ e.0

-- Each approval stands under its own identifier, no identifier twice; with a path, the file holds
-- just what is pending, or there is no file and nothing is pending.
pub record IsDurable (s : ApprovalStore) : Type 0 where
  pub own : All IsOwnEntry s.pending
  pub unique : HasUniqueKeys s.pending
  pub saved :
      s.persistent ≡ true
      → (s.file ≡ holds (values s.pending)) ⊎ ((s.file ≡ absent) × (s.pending ≡ []))

module _ {A : Type 0} where
  -- An update keeps the store, or publishes the map that it has written.
  pub update_cases :
      (call : Call) (next : Dict Text PendingApproval) (answer : A) (s : ApprovalStore)
      → ((update call next answer s).1 ≡ s)
        ⊎ ((s.persistent ≡ true)
            × ((update call next answer s).1
                ≡ record s { pending = next; file = holds (values next) }))
        ⊎ ((s.persistent ≡ false) × ((update call next answer s).1 ≡ record s { pending = next }))
  unfolding update persist
  update_cases call next answer s = ground arith

  update-IsDurable :
      (call : Call) (next : Dict Text PendingApproval) (answer : A) (s : ApprovalStore)
      → IsDurable s
      → All IsOwnEntry next
      → HasUniqueKeys next
      → IsDurable (update call next answer s).1
  update-IsDurable call next answer s d own unique = elim (update_cases call next answer s) [
    | inl same ↦ subst IsDurable (sym same) d
    | inr (inl (on, e)) ↦
        subst IsDurable (sym e) (record { own = own; unique = unique; saved = λ h. inl refl })
    | inr (inr (off, e)) ↦
        subst IsDurable (sym e) (record { own = own; unique = unique; saved = λ h. cc })
  ]

-- What a removal keeps of the store, `consume` and `cancel` keep.
module _ (P : ApprovalStore → Type 0) (call : Call) (id : Text) (actor : ApprovalActor)
    (s : ApprovalStore) (kept : P s)
    (removed : (A : Type 0) (answer : A) → P (remove_persisted_first call id answer s).1) where
  pub consume_found-keeps :
      (found : Option PendingApproval) → P (consume_found call id actor found s).1
  unfolding consume_found
  consume_found-keeps none = kept
  consume_found-keeps (some a) = elim (Bool-cases (ltb a.expires_at call.now)) [
    | inl late ↦ rw late (removed _ none)
    | inr live ↦ elim (Bool-cases (same_actor a.actor actor)) [
      | inl own ↦ rw (live, own) (removed _ (some a))
      | inr other ↦ rw (live, other) kept
    ]
  ]

  pub cancel_found-keeps :
      (found : Option PendingApproval) → P (cancel_found call id actor found s).1
  unfolding cancel_found
  cancel_found-keeps none = kept
  cancel_found-keeps (some a) = elim (Bool-cases (ltb a.expires_at call.now)) [
    | inl late ↦ rw late (removed _ false)
    | inr live ↦ elim (Bool-cases (same_actor a.actor actor)) [
      | inl own ↦ rw (live, own) (removed _ true)
      | inr other ↦ rw (live, other) kept
    ]
  ]

remove-IsDurable :
    (call : Call) (id : Text) (s : ApprovalStore)
    → IsDurable s
    → (A : Type 0) (answer : A) → IsDurable (remove_persisted_first call id answer s).1
unfolding remove_persisted_first
remove-IsDurable call id s d A answer =
    update-IsDurable call (delete id s.pending) answer s d
      (All-delete IsOwnEntry id s.pending d.own) (delete-HasUniqueKeys id s.pending d.unique)

-- Every request keeps the file in step with memory, whether its write succeeds or fails.
pub serve-IsDurable :
    (call : Call) (r : Request) (s : ApprovalStore) → IsDurable s → IsDurable (serve call r s)
unfolding serve create consume cancel
serve-IsDurable call (create_request input) s d =
    let a = new_approval call input s in
    update-IsDurable call (set a.id a s.pending) a s d
      (All-set IsOwnEntry a.id a s.pending refl d.own) (set-HasUniqueKeys a.id a s.pending d.unique)
serve-IsDurable call (consume_request id actor) s d =
    consume_found-keeps IsDurable call id actor s d (remove-IsDurable call id s d)
      (get id s.pending)
serve-IsDurable call (cancel_request id actor) s d =
    cancel_found-keeps IsDurable call id actor s d (remove-IsDurable call id s d) (get id s.pending)

-- What is left of an approval at a restart.
abbrev pub if_live : ℕ → Option PendingApproval → Option PendingApproval
if_live now none = none
if_live now (some a) = if ltb now a.expires_at then some a else none

get_live :
    (now : ℕ) (id : Text) (d : Dict Text PendingApproval)
    → All IsOwnEntry d
    → HasUniqueKeys d
    → get id (map entry (filter (is_live now) (values d))) ≡ if_live now (get id d)
unfolding get
get_live now id [] own u = refl
get_live now id ((j, a) ∷ d) own u =
    ground (arith, own.0, get_live now id d own.1 u.1, get-none j d u.0)

-- The store that `load_rows` leaves behind, where its write succeeds.
loaded : Call → List PendingApproval → ApprovalStore → ApprovalStore
loaded call rows s =
    let live = filter (is_live call.now) rows in
    record s {
      pending = restore live s.pending;
      file = if length live == length rows then s.file else holds live;
    }

load_parsed-loaded :
    (call : Call) (rows : List PendingApproval) (s : ApprovalStore)
    → s.persistent ≡ true
    → call.written ≡ true
    → load_parsed call rows s ≡ ok (loaded call rows s)
unfolding load_parsed persist loaded
load_parsed-loaded call rows s on w = ground arith

-- An approval that the schema of the file accepts and returns as it is.
pub record IsStored (is_uuid : Text → Bool) (a : PendingApproval) : Type 0 where
  pub accepted : is_row is_uuid a ≡ true
  pub trimmed : trim a.command.product_query ≡ a.command.product_query

-- What a map of such approvals has in its file is read back as it is.
rows-parsed :
    (is_uuid : Text → Bool) (d : Dict Text PendingApproval)
    → All (λ e. IsStored is_uuid e.1) d
    → (every (is_row is_uuid) (values d) ≡ true) × (map parsed_row (values d) ≡ values d)
rows-parsed is_uuid [] h = (refl, refl)
rows-parsed is_uuid ((k, a) ∷ d) h =
    let rest = rows-parsed is_uuid d h.1 in
    let same : parsed_row a ≡ a =
      ap (λ q. record a { command = record a.command { product_query = q } }) h.0.trimmed in
    (rw h.0.accepted rest.0, rw (same, rest.1) refl)

load_rows-loaded :
    (is_uuid : Text → Bool) (call : Call) (d : Dict Text PendingApproval) (s : ApprovalStore)
    → All (λ e. IsStored is_uuid e.1) d
    → s.persistent ≡ true
    → call.written ≡ true
    → load_rows is_uuid call (values d) s ≡ ok (loaded call (values d) s)
unfolding load_rows
load_rows-loaded is_uuid call d s h on w =
    let (accepted, same) = rows-parsed is_uuid d h in
    rw (accepted, same) (load_parsed-loaded call (values d) s on w)

-- A restart after the file was written brings back exactly the pending approvals that have not
-- expired, under their identifiers, where the schema of the file accepts what is pending.
pub restart_restores :
    (is_uuid : Text → Bool) (call : Call) (s : ApprovalStore) (id : Text)
    → All (λ e. IsStored is_uuid e.1) s.pending
    → IsDurable s
    → s.persistent ≡ true
    → s.file ≡ holds (values s.pending)
    → 0 < s.ttl_ms
    → call.written ≡ true
    → (s' : ApprovalStore) × (open_store is_uuid call s.ttl_ms true s.file ≡ ok s')
      × (get id s'.pending ≡ if_live call.now (get id s.pending))
unfolding open_store loaded
restart_restores is_uuid call s id stored d on saved ttl w =
    let empty : ApprovalStore = record {
      ttl_ms = s.ttl_ms;
      persistent = true;
      pending = [];
      file = s.file;
    } in
    let rows = values s.pending in
    let unique =
      filter-IsUnique (λ a. a.id) (is_live call.now) rows
        (values-IsUnique (λ a. a.id) s.pending d.own d.unique) in
    let live = filter (is_live call.now) rows in
    let restored = index_by_new (λ a. a.id) live [] unique (IsFresh-nil (λ a. a.id) live) in
    (
      loaded call rows empty,
      rw saved (
          ground (
            arith,
            ttl,
            load_rows-loaded is_uuid call s.pending (record empty { file = holds rows }) stored refl
                w,
          )),
      rw restored (get_live call.now id s.pending d.own d.unique),
    )
