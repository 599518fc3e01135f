-- ===== src/Persistence/Ledger/Exclusive.antt =====
-- src/persistence/registrationLedger.ts: one registration is in flight for a key at a time, and a
-- completed one is answered from the ledger.
use online_seller_control_hu.Common.{
  ◌≡◌, ◌≢◌, refl, ap, sym, subst, ◌∙◌, inl, inr, true, ◌&&◌, Option, none, some, List, [], ◌∷◌,
  ◌==◌, Text, text_eq, if◌then◌else◌, ok, ok_injective, arith, All,
}
use online_seller_control_hu.Core.Types.{market_eq}
use online_seller_control_hu.Persistence.Files.{Writes, Mutation, enqueue_mutation, run_mutation}
use online_seller_control_hu.Persistence.Files.Sync.{enqueue_mutation_answer}
use online_seller_control_hu.Persistence.Registrations.{
  RecordRow, ClaimKey, ClaimInput, RegistrationClaim, find_row, pending, completed,
  CachedRegistrationResult, claimed, cached, conflict,
}
use online_seller_control_hu.Persistence.Ledger.{
  key_of, pending_row, add_row, claim_again, claim_existing, claim_rows, update_row, finished,
  finish_rows, claim, finish, RegistrationLedger, in_progress, other_request, changed, unchanged,
}
use online_seller_control_hu.Persistence.Ledger.Rows.{
  find_row-added, find_row-update, find_row-key_of, is_row_self, is_row-key_of,
}
use online_seller_control_hu.Persistence.Ledger.Settled.{
  LedgerRequest, claim_request, finish_request, reconcile_request, serve_all, serve_all-kept,
  AllLeave,
}

-- A request does not report the end of the registration of a key.
abbrev pub HasNoFinish : ClaimKey → Writes × Text × LedgerRequest → Type 0
HasNoFinish k (w, now, claim_request input) = Unit
HasNoFinish k (w, now, finish_request j result) = j ≢ k
HasNoFinish k (w, now, reconcile_request resolve) = Unit

-- Nor does it find the product of the key in the stored mappings.
abbrev pub HasNoMapping : ClaimKey → Writes × Text × LedgerRequest → Type 0
HasNoMapping k (w, now, claim_request input) = Unit
HasNoMapping k (w, now, finish_request j result) = Unit
HasNoMapping k (w, now, reconcile_request resolve) =
    (master_sku created_at updated_at : Text) → resolve k master_sku created_at updated_at ≡ none

pending-AllLeave :
    (row : RecordRow) (requests : List (Writes × Text × LedgerRequest))
    → All (HasNoFinish (key_of row)) requests
    → All (HasNoMapping (key_of row)) requests
    → AllLeave row requests
pending-AllLeave row [] f m = tt
pending-AllLeave row ((w, now, claim_request input) ∷ rs) f m =
    (tt, pending-AllLeave row rs f.1 m.1)
pending-AllLeave row ((w, now, finish_request k result) ∷ rs) f m =
    (f.0, pending-AllLeave row rs f.1 m.1)
pending-AllLeave row ((w, now, reconcile_request resolve) ∷ rs) f m =
    ((λ _. m.0 row.master_sku row.created_at row.updated_at), pending-AllLeave row rs f.1 m.1)

completed-AllLeave :
    (row : RecordRow) (requests : List (Writes × Text × LedgerRequest))
    → row.status ≡ completed
    → All (HasNoFinish (key_of row)) requests
    → AllLeave row requests
completed-AllLeave row [] e f = tt
completed-AllLeave row ((w, now, claim_request input) ∷ rs) e f =
    (tt, completed-AllLeave row rs e f.1)
completed-AllLeave row ((w, now, finish_request k result) ∷ rs) e f =
    (f.0, completed-AllLeave row rs e f.1)
completed-AllLeave row ((w, now, reconcile_request resolve) ∷ rs) e f =
    ((λ p. ground (arith, p, e)), completed-AllLeave row rs e f.1)

-- The answer to a claim that finds a row: `same` if the request is the row's own.
abbrev pub answer_for : RecordRow → RegistrationClaim → ClaimInput → RegistrationClaim
answer_for row same later =
    if row.payload_hash == later.payload_hash && row.master_sku == later.master_sku
    then same
    else conflict other_request

claim_existing-pending :
    (later : ClaimInput) (now : Text) (rows : List RecordRow) (row : RecordRow)
    → row.status ≡ pending
    → claim_existing later now rows (some row)
      ≡ unchanged rows (answer_for row (conflict in_progress) later)
unfolding claim_existing claim_again
claim_existing-pending later now rows row e = ground (arith, e)

claim_existing-completed :
    (later : ClaimInput) (now : Text) (rows : List RecordRow) (row : RecordRow)
    (result : CachedRegistrationResult)
    → row.status ≡ completed
    → row.result ≡ some result
    → claim_existing later now rows (some row)
      ≡ unchanged rows (answer_for row (cached result) later)
unfolding claim_existing claim_again
claim_existing-completed later now rows row result e f = ground (arith, e, f)

-- A claim that leaves the rows answers without a write.
claim-unchanged :
    (w : Writes) (input : ClaimInput) (now : Text) (s : RegistrationLedger) (row : RecordRow)
    (answer : RegistrationClaim)
    → find_row input.key s.rows ≡ some row
    → claim_existing input now s.rows (some row) ≡ unchanged s.rows answer
    → (claim w input now s).0 ≡ ok answer
unfolding claim enqueue_mutation claim_rows run_mutation
claim-unchanged w input now s row answer h e = rw (h, e) refl

claim_existing-claimed :
    (input : ClaimInput) (now : Text) (rows : List RecordRow) (found : Option RecordRow)
    (hash : Text)
    → (claim_existing input now rows found).result ≡ claimed hash
    → (created : Text) × (claim_existing input now rows found ≡ add_row input created now rows)
unfolding claim_existing claim_again
claim_existing-claimed input now rows none hash h = (now, refl)
claim_existing-claimed input now rows (some r) hash h = (r.created_at, ground arith)

add_row-persists :
    (input : ClaimInput) (created now : Text) (rows : List RecordRow)
    → ((add_row input created now rows).persist ≡ true)
      × (find_row input.key (add_row input created now rows).rows
          ≡ some (pending_row input created now))
unfolding add_row
add_row-persists input created now rows = (
  refl,
  find_row-added input.key (pending_row input created now) rows
      (is_row_self (pending_row input created now)),
)

-- A claim that is granted leaves the row of its request in flight.
claim-pending :
    (w : Writes) (input : ClaimInput) (now : Text) (s : RegistrationLedger) (hash : Text)
    → (claim w input now s).0 ≡ ok (claimed hash)
    → (created : Text) × (find_row input.key (claim w input now s).1.rows
        ≡ some (pending_row input created now))
unfolding claim claim_rows
claim-pending w input now s hash h =
    let (n, e, answer, kept) =
      enqueue_mutation_answer w (λ rows. ok (claim_rows input now rows)) s h in
    let result : (claim_rows input now s.rows).result ≡ claimed hash =
      ap Mutation.result (ok_injective e) ∙ answer in
    let (created, added) =
      claim_existing-claimed input now s.rows (find_row input.key s.rows) hash result in
    let (persists, found) = add_row-persists input created now s.rows in
    let same : add_row input created now s.rows ≡ n = sym added ∙ ok_injective e in
    (
      created,
      rw (kept (subst (λ m. m.persist ≡ true) same persists)) (
          subst (λ m. find_row input.key m.rows ≡ some (pending_row input created now)) same found),
    )

-- Once a claim of a key is granted, every later claim of that key is refused, whatever was requested
-- in between and whichever writes failed, until its end is reported or a stored mapping is found
-- for it: the same request is told that it is in progress, another payload or product that the
-- key is taken.
pub claim_exclusive :
    (w w' : Writes) (input later : ClaimInput) (now now' : Text) (s : RegistrationLedger)
    (requests : List (Writes × Text × LedgerRequest)) (hash : Text)
    → (claim w input now s).0 ≡ ok (claimed hash)
    → All (HasNoFinish input.key) requests
    → All (HasNoMapping input.key) requests
    → later.key ≡ input.key
    → (claim w' later now' (serve_all requests (claim w input now s).1)).0
      ≡ ok (
          conflict (
            if input.payload_hash == later.payload_hash && input.master_sku == later.master_sku
            then in_progress
            else other_request))
claim_exclusive w w' input later now now' s requests hash h f m same =
    let (created, found) = claim-pending w input now s hash h in
    let row = pending_row input created now in
    let s' = serve_all requests (claim w input now s).1 in
    let kept : find_row input.key s'.rows ≡ some row =
      serve_all-kept row requests (claim w input now s).1 (inl refl)
        (pending-AllLeave row requests f m) found in
    claim-unchanged w' later now' s' row _ (rw same kept)
      (claim_existing-pending later now' s'.rows row refl ∙ ground arith)

finish-completed :
    (w : Writes) (k : ClaimKey) (result : CachedRegistrationResult) (now : Text)
    (s : RegistrationLedger) (row : RecordRow)
    → find_row k s.rows ≡ some row
    → (finish w k result now s).0 ≡ ok tt
    → find_row k (finish w k result now s).1.rows ≡ some (finished result now row)
unfolding finish finish_rows
finish-completed w k result now s row found h =
    let (n, e, answer, kept) = enqueue_mutation_answer w (finish_rows k result now) s h in
    let m = changed (update_row k (finished result now) s.rows) tt in
    let same : m ≡ n = ground arith in
    rw (kept (subst (λ m. m.persist ≡ true) same refl)) (
      subst (λ m. find_row k m.rows ≡ some (finished result now row)) same
        (find_row-update k (finished result now) (λ r. refl) s.rows row found))

-- Once a registration is reported as done, the ledger answers every later claim of its key: the same
-- request with the reported result, another payload or product with a conflict. This holds
-- whatever was requested in between and whichever writes failed, until a report for the key again.
pub finish_cached :
    (w w' : Writes) (k : ClaimKey) (result : CachedRegistrationResult) (later : ClaimInput)
    (now now' : Text) (s : RegistrationLedger) (row : RecordRow)
    (requests : List (Writes × Text × LedgerRequest))
    → find_row k s.rows ≡ some row
    → result.ok ≡ true
    → (finish w k result now s).0 ≡ ok tt
    → All (HasNoFinish k) requests
    → later.key ≡ k
    → (claim w' later now' (serve_all requests (finish w k result now s).1)).0
      ≡ ok (answer_for row (cached result) later)
finish_cached w w' k result later now now' s row requests found good h f same =
    let done = finished result now row in
    let is_done : done.status ≡ completed = rw good refl in
    let key : key_of done ≡ k = is_row-key_of k row (find_row-key_of k s.rows row found) in
    let s' = serve_all requests (finish w k result now s).1 in
    let kept : find_row (key_of done) s'.rows ≡ some done =
      serve_all-kept done requests (finish w k result now s).1 (inr (is_done, (result, refl)))
        (completed-AllLeave done requests is_done (rw key f))
        (rw key (finish-completed w k result now s row found h)) in
    claim-unchanged w' later now' s' done _
      (subst (λ j. find_row j s'.rows ≡ some done) (key ∙ sym same) kept)
      (claim_existing-completed later now' s'.rows done result is_done refl)
