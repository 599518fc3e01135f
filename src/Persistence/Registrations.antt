-- ===== src/Persistence/Registrations.antt =====
-- src/persistence/registrationLedger.ts: the rows of the ledger, and what it is asked and answers.
use online_seller_control_hu.Common.{Bool, ◌&&◌, Option, List, ◌==◌, Text, text_eq, find}
use online_seller_control_hu.Core.Types.{Market, market_eq}

pub record CachedRegistrationResult : Type 0 where
  pub market : Market
  pub ok : Bool
  pub message : Text
  pub external_id : Option Text
  pub control_external_id : Option Text

pub data RegistrationStatus : Type 0 where
  pending completed failed : RegistrationStatus

pub record RecordRow : Type 0 where
  pub tenant_id : Text
  pub market : Market
  pub idempotency_key : Text
  pub payload_hash : Text
  pub master_sku : Text
  pub status : RegistrationStatus
  pub result : Option CachedRegistrationResult
  pub created_at : Text
  pub updated_at : Text

pub data RegistrationClaim : Type 0 where
  claimed : (payload_hash : Text) → RegistrationClaim
  cached : CachedRegistrationResult → RegistrationClaim
  conflict : (reason : Text) → RegistrationClaim

-- By which a row is found.
pub record ClaimKey : Type 0 where
  pub tenant_id : Text
  pub market : Market
  pub idempotency_key : Text

pub record ClaimInput : Type 0 where
  pub key : ClaimKey
  pub master_sku : Text
  -- `hashPayload(input.payload)`
  pub payload_hash : Text

pub data LedgerError : Type 0 where
  claim_not_found : LedgerError

abbrev pub is_row : ClaimKey → RecordRow → Bool
is_row k row =
    row.tenant_id == k.tenant_id
    && row.market == k.market
    && row.idempotency_key == k.idempotency_key

abbrev pub find_row : ClaimKey → List RecordRow → Option RecordRow
find_row k rows = find (is_row k) rows
