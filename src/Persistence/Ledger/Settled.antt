-- ===== src/Persistence/Ledger/Settled.antt =====
-- src/persistence/registrationLedger.ts: a settled row, in flight or completed, stays as it is under the
-- requests that do not end its registration.
use online_seller_control_hu.Common.{
  ◌≡◌, ◌≢◌, refl, ap, sym, subst, ◌∙◌, ◌⊎◌, inl, inr, Option, none, some, List, [], ◌∷◌, Text,
  text_eq, ok, ok_injective, arith, Bool-cases, pair_eq,
}
use online_seller_control_hu.Core.Types.{market_eq}
use online_seller_control_hu.Persistence.Files.{Writes, Mutation}
use online_seller_control_hu.Persistence.Files.Sync.{enqueue_mutation_rows}
use online_seller_control_hu.Persistence.Registrations.{
  RecordRow, ClaimKey, ClaimInput, is_row, find_row, pending, completed, CachedRegistrationResult,
}
use online_seller_control_hu.Persistence.Ledger.{
  key_of, pending_row, add_row, claim_again, claim_existing, claim_rows, finished, finish_rows,
  recover_row, reconcile_rows, Resolver, claim, finish, reconcile_mapped, RegistrationLedger,
}
use online_seller_control_hu.Persistence.Ledger.Rows.{
  find_row-added_other, find_row-update_other, find_row-recover, is_row_self, is_row-key_of,
}

pub data LedgerRequest : Type 0 where
  claim_request : ClaimInput → LedgerRequest
  finish_request : ClaimKey → CachedRegistrationResult → LedgerRequest
  reconcile_request : Resolver → LedgerRequest

-- The ledger after a request at an instant, with the writes that succeed.
unfoldable pub serve : Writes → Text → LedgerRequest → RegistrationLedger → RegistrationLedger
serve w now (claim_request input) s = (claim w input now s).1
serve w now (finish_request k result) s = (finish w k result now s).1
serve w now (reconcile_request resolve) s = (reconcile_mapped w resolve now s).1

unfoldable pub serve_all :
    List (Writes × Text × LedgerRequest) → RegistrationLedger → RegistrationLedger
serve_all [] s = s
serve_all ((w, now, request) ∷ requests) s = serve_all requests (serve w now request s)

-- A row on which a claim of its key does nothing: in flight, or completed with a result.
abbrev pub IsSettled : RecordRow → Type 0
IsSettled row =
    (row.status ≡ pending)
    ⊎ ((row.status ≡ completed) × ((r : CachedRegistrationResult) × (row.result ≡ some r)))

-- Requests that are not the end of this row's registration: no `finish` of its key, and no mapping
-- found for it while it is in flight.
abbrev pub Leaves : RecordRow → LedgerRequest → Type 0
Leaves row (claim_request input) = Unit
Leaves row (finish_request k result) = k ≢ key_of row
Leaves row (reconcile_request resolve) =
    row.status ≡ pending → resolve (key_of row) row.master_sku row.created_at row.updated_at ≡ none

abbrev pub AllLeave : RecordRow → List (Writes × Text × LedgerRequest) → Type 0
AllLeave row [] = Unit
AllLeave row ((w, now, request) ∷ requests) = Leaves row request × AllLeave row requests

-- What a claim leaves of another key's row.
add_row-other :
    (j : ClaimKey) (input : ClaimInput) (created now : Text) (rows : List RecordRow)
    → j ≢ input.key
    → find_row j (add_row input created now rows).rows ≡ find_row j rows
unfolding add_row
add_row-other j input created now rows ne =
    find_row-added_other j input.key (pending_row input created now) rows ne
      (is_row_self (pending_row input created now))

claim_existing-other :
    (j : ClaimKey) (input : ClaimInput) (now : Text) (rows : List RecordRow)
    (found : Option RecordRow)
    → j ≢ input.key
    → find_row j (claim_existing input now rows found).rows ≡ find_row j rows
unfolding claim_existing claim_again
claim_existing-other j input now rows none ne = add_row-other j input now now rows ne
claim_existing-other j input now rows (some r) ne =
    ground (arith, add_row-other j input r.created_at now rows ne)

key_cases : (k : ClaimKey) (row : RecordRow) → (key_of row ≡ k) ⊎ (key_of row ≢ k)
key_cases k row = elim (Bool-cases (is_row k row)) [
  | inl e ↦ inl (is_row-key_of k row e)
  | inr e ↦ inr (λ same. ground (arith, is_row_self row, ap (λ j. is_row j row) same))
]

module _ (row : RecordRow) where
  claim_existing-settled :
      IsSettled row
      → (input : ClaimInput) (now : Text) (rows : List RecordRow)
      → (claim_existing input now rows (some row)).rows ≡ rows
  unfolding claim_existing claim_again
  claim_existing-settled settled input now rows = ground (arith, settled)

  recover_row-settled :
      IsSettled row
      → (resolve : Resolver) (now : Text) → Leaves row (reconcile_request resolve)
      → recover_row resolve now row ≡ row
  unfolding recover_row
  recover_row-settled (inl e) resolve now h = rw (e, h e) refl
  recover_row-settled (inr (e, _)) resolve now h = rw e refl

  unfoldable Kept : List RecordRow → Type 0
  Kept rows = find_row (key_of row) rows ≡ some row

  claim_rows-Kept :
      IsSettled row
      → (input : ClaimInput) (now : Text) (rows : List RecordRow) → Kept rows
      → Kept (claim_rows input now rows).rows
  unfolding Kept claim_rows
  claim_rows-Kept settled input now rows h = elim (key_cases input.key row) [
    | inl same ↦
        let found : find_row input.key rows ≡ some row =
          subst (λ k. find_row k rows ≡ some row) same h in
        rw (found, claim_existing-settled settled input now rows) h
    | inr other ↦
        claim_existing-other (key_of row) input now rows (find_row input.key rows) other ∙ h
  ]

  finish_rows-Kept :
      (k : ClaimKey) (result : CachedRegistrationResult) (now : Text) (rows : List RecordRow)
      (n : Mutation (List RecordRow) (Unit {0}))
      → k ≢ key_of row
      → finish_rows k result now rows ≡ ok n
      → Kept rows
      → Kept n.rows
  unfolding Kept finish_rows
  finish_rows-Kept k result now rows n ne e h = ground (
    arith,
    find_row-update_other k (finished result now) (λ r. refl) (key_of row) rows
        (λ same. ne (sym same)),
  )

  reconcile_rows-Kept :
      IsSettled row
      → (resolve : Resolver) (now : Text) (rows : List RecordRow)
      → Leaves row (reconcile_request resolve)
      → Kept rows
      → Kept (reconcile_rows resolve now rows).rows
  unfolding Kept reconcile_rows
  reconcile_rows-Kept settled resolve now rows leaves h =
      find_row-recover (key_of row) resolve now rows row h
      ∙ ap some (recover_row-settled settled resolve now leaves)

-- One request, and then a run of them.
serve-Kept :
    (row : RecordRow) (w : Writes) (now : Text) (request : LedgerRequest) (s : RegistrationLedger)
    → IsSettled row
    → Leaves row request
    → Kept row s.rows
    → Kept row (serve w now request s).rows
unfolding serve claim finish reconcile_mapped
serve-Kept row w now (claim_request input) s settled leaves h =
    elim (enqueue_mutation_rows w (λ rows. ok (claim_rows input now rows)) s) [
      | inl e ↦ subst (Kept row) (sym e) h
      | inr (n, e, new) ↦
          subst (Kept row) (ap Mutation.rows (ok_injective e) ∙ sym new)
            (claim_rows-Kept row settled input now s.rows h)
    ]
serve-Kept row w now (finish_request k result) s settled leaves h =
    elim (enqueue_mutation_rows w (finish_rows k result now) s) [
      | inl e ↦ subst (Kept row) (sym e) h
      | inr (n, e, new) ↦
          subst (Kept row) (sym new) (finish_rows-Kept row k result now s.rows n leaves e h)
    ]
serve-Kept row w now (reconcile_request resolve) s settled leaves h =
    elim (enqueue_mutation_rows w (λ rows. ok (reconcile_rows resolve now rows)) s) [
      | inl e ↦ subst (Kept row) (sym e) h
      | inr (n, e, new) ↦
          subst (Kept row) (ap Mutation.rows (ok_injective e) ∙ sym new)
            (reconcile_rows-Kept row settled resolve now s.rows leaves h)
    ]

pub serve_all-kept :
    (row : RecordRow) (requests : List (Writes × Text × LedgerRequest)) (s : RegistrationLedger)
    → IsSettled row
    → AllLeave row requests
    → find_row (key_of row) s.rows ≡ some row
    → find_row (key_of row) (serve_all requests s).rows ≡ some row
unfolding serve_all Kept
serve_all-kept row [] s settled leaves h = h
serve_all-kept row ((w, now, request) ∷ requests) s settled leaves h =
    serve_all-kept row requests (serve w now request s) settled leaves.1
      (serve-Kept row w now request s settled leaves.0 h)
