-- ===== src/Persistence/Ledger.antt =====
-- src/persistence/registrationLedger.ts: the ledger that keeps a retried product registration from
-- creating the product twice. The hash of a payload and the instant of a call are inputs.
pub mod Rows
pub mod Settled
pub mod Exclusive
mod Examples
use online_seller_control_hu.Common.{
  ℕ, ◌+◌, ◌≡◌, Bool, true, false, ◌&&◌, not, Option, none, some, List, [], ◌∷◌, ◌++◌, map, ◌==◌,
  Text, text_eq, codes, if◌then◌else◌, Result, ok, throw, filter, find, is_empty, trim, ltb, Eq,
  count_if, length,
}
use online_seller_control_hu.Core.Types.{Market, market_eq}
use online_seller_control_hu.Persistence.Files.{
  Writes, Mutation, Store, QueueError, enqueue_mutation,
}
use online_seller_control_hu.Persistence.Registrations.{
  CachedRegistrationResult, ClaimInput, ClaimKey, LedgerError, RecordRow, RegistrationClaim,
  RegistrationStatus, cached, claim_not_found, claimed, completed, conflict, failed, find_row,
  is_row, pending,
}

abbrev pub unchanged : {T : Type 0} → List RecordRow → T → Mutation (List RecordRow) T
unchanged rows result = record { rows = rows; result = result; persist = false }

abbrev pub changed : {T : Type 0} → List RecordRow → T → Mutation (List RecordRow) T
changed rows result = record { rows = rows; result = result; persist = true }

abbrev pub other_request : Text
other_request = codes "같은 중복방지 키로 다른 상품 또는 다른 요청을 보낼 수 없습니다."

abbrev pub in_progress : Text
in_progress = codes "동일한 상품 등록 요청이 이미 처리 중이거나 결과 확인이 필요합니다."

abbrev pub pending_row : ClaimInput → Text → Text → RecordRow
pending_row input created now = record {
  tenant_id = input.key.tenant_id;
  market = input.key.market;
  idempotency_key = input.key.idempotency_key;
  payload_hash = input.payload_hash;
  master_sku = input.master_sku;
  status = pending;
  result = none;
  created_at = created;
  updated_at = now;
}

-- Any old row of the key is dropped, and the new one comes last.
unfoldable pub add_row :
    ClaimInput → Text → Text → List RecordRow → Mutation (List RecordRow) RegistrationClaim
add_row input created now rows =
    changed (filter (λ r. not (is_row input.key r)) rows ++ (pending_row input created now ∷ []))
      (claimed input.payload_hash)

-- A row of the same request: what its status and its stored result say.
unfoldable pub claim_again :
    RegistrationStatus
    → Option CachedRegistrationResult
    → ClaimInput
    → RecordRow
    → Text
    → List RecordRow
    → Mutation (List RecordRow) RegistrationClaim
claim_again completed (some result) input existing now rows = unchanged rows (cached result)
claim_again pending _ input existing now rows = unchanged rows (conflict in_progress)
claim_again _ _ input existing now rows = add_row input existing.created_at now rows

unfoldable pub claim_existing :
    ClaimInput
    → Text
    → List RecordRow
    → Option RecordRow
    → Mutation (List RecordRow) RegistrationClaim
claim_existing input now rows none = add_row input now now rows
claim_existing input now rows (some existing) =
    if existing.payload_hash == input.payload_hash && existing.master_sku == input.master_sku
    then claim_again existing.status existing.result input existing now rows
    else unchanged rows (conflict other_request)

unfoldable pub claim_rows :
    ClaimInput → Text → List RecordRow → Mutation (List RecordRow) RegistrationClaim
claim_rows input now rows = claim_existing input now rows (find_row input.key rows)

-- `rows.map((row, itemIndex) => itemIndex === index ? … : row)` for the first row of the key.
unfoldable pub update_row : ClaimKey → (RecordRow → RecordRow) → List RecordRow → List RecordRow
update_row k f [] = []
update_row k f (row ∷ rows) = if is_row k row then f row ∷ rows else row ∷ update_row k f rows

abbrev pub finished : CachedRegistrationResult → Text → RecordRow → RecordRow
finished result now row = record row {
  status = if result.ok then completed else failed;
  result = some result;
  updated_at = now;
}

abbrev pub finish_found :
    ClaimKey
    → CachedRegistrationResult
    → Text
    → List RecordRow
    → Option RecordRow
    → Result LedgerError (Mutation (List RecordRow) (Unit {0}))
finish_found k result now rows none = throw claim_not_found
finish_found k result now rows (some _) = ok (changed (update_row k (finished result now) rows) tt)

unfoldable pub finish_rows :
    ClaimKey
    → CachedRegistrationResult
    → Text
    → List RecordRow
    → Result LedgerError (Mutation (List RecordRow) (Unit {0}))
finish_rows k result now rows = finish_found k result now rows (find_row k rows)

pub record RegistrationRecoveryMapping : Type 0 where
  pub external_id : Text
  pub control_external_id : Option Text

abbrev pub recovery_message : Text
recovery_message = codes "서버 재시작 후 저장된 상품 매핑에서 등록 결과를 복구했습니다."

abbrev pub non_empty : Text → Option Text
non_empty s = if is_empty s then none else some s

abbrev pub trimmed_id : Option Text → Option Text
trimmed_id none = none
trimmed_id (some id) = non_empty (trim id)

-- The candidate that the resolver sees is the row without its payload and result.
abbrev pub recover_with : Text → RecordRow → Option RegistrationRecoveryMapping → RecordRow
recover_with now row none = row
recover_with now row (some mapping) =
    if is_empty (trim mapping.external_id) then row else record row {
      status = completed;
      result = some (record {
        market = row.market;
        ok = true;
        message = recovery_message;
        external_id = some (trim mapping.external_id);
        control_external_id = trimmed_id mapping.control_external_id;
      });
      updated_at = now;
    }

abbrev pub recover_status :
    RegistrationStatus → Text → RecordRow → Option RegistrationRecoveryMapping → RecordRow
recover_status pending now row mapping = recover_with now row mapping
recover_status completed now row mapping = row
recover_status failed now row mapping = row

abbrev pub Resolver : Type 0
Resolver =
    (key : ClaimKey) (master_sku created_at updated_at : Text) → Option RegistrationRecoveryMapping

abbrev pub key_of : RecordRow → ClaimKey
key_of row = record {
  tenant_id = row.tenant_id;
  market = row.market;
  idempotency_key = row.idempotency_key;
}

unfoldable pub recover_row : Resolver → Text → RecordRow → RecordRow
recover_row resolve now row =
    recover_status row.status now row
      (resolve (key_of row) row.master_sku row.created_at row.updated_at)

abbrev pub is_pending : RecordRow → Bool
is_pending row = elim row.status [ pending ↦ true | _ ↦ false ]

-- A row was recovered if it was pending and is not any more.
unfoldable pub reconcile_rows : Resolver → Text → List RecordRow → Mutation (List RecordRow) ℕ
reconcile_rows resolve now rows =
    let recovered =
      count_if (λ r. is_pending r && not (is_pending (recover_row resolve now r))) rows in
    record {
      rows = map (recover_row resolve now) rows;
      result = recovered;
      persist = ltb 0 recovered;
    }

abbrev pub RegistrationLedger : Type 0
RegistrationLedger = Store (List RecordRow)

unfoldable pub claim :
    Writes
    → ClaimInput
    → Text
    → RegistrationLedger
    → Result (QueueError LedgerError) RegistrationClaim × RegistrationLedger
claim w input now = enqueue_mutation w (λ rows. ok (claim_rows input now rows))

unfoldable pub finish :
    Writes
    → ClaimKey
    → CachedRegistrationResult
    → Text
    → RegistrationLedger
    → Result (QueueError LedgerError) (Unit {0}) × RegistrationLedger
finish w k result now = enqueue_mutation w (finish_rows k result now)

unfoldable pub reconcile_mapped :
    Writes
    → Resolver
    → Text
    → RegistrationLedger
    → Result (QueueError LedgerError) ℕ × RegistrationLedger
reconcile_mapped w resolve now = enqueue_mutation w (λ rows. ok (reconcile_rows resolve now rows))
