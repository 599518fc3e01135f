-- ===== src/Persistence/LinkRecords.antt =====
-- src/persistence/marketLinkStore.ts: the records of the file and what is encrypted in them.
use online_seller_control_hu.Common.{
  ℕ, ◌≡◌, Bool, ◌&&◌, Option, some, List, ◌==◌, Text, text_eq, nat_eq, find,
}
use online_seller_control_hu.Core.Types.{Market, market_eq}

pub record LinkPayload : Type 0 where
  pub external_account_id : Text
  pub source : Text

pub record Sealed : Type 0 where
  pub iv : Text
  pub tag : Text
  pub ciphertext : Text

-- `encrypt` and `decrypt` under a key. To decrypt fails where the tag is not that of the text.
pub record Cipher : Type 0 where
  pub bytes_of_base64 : Text → List ℕ
  pub encrypt : (key : List ℕ) (iv : Text) → LinkPayload → Sealed
  pub decrypt : (key : List ℕ) → Sealed → Option LinkPayload

-- What node:crypto documents: a text that was encrypted is decrypted to itself.
abbrev pub IsFaithful : Cipher → Type 0
IsFaithful c =
    (key : List ℕ) (iv : Text) (p : LinkPayload) → c.decrypt key (c.encrypt key iv p) ≡ some p

pub record EncryptedRecord : Type 0 where
  pub tenant_id : Text
  pub market : Market
  pub sealed : Sealed
  pub updated_at : Text

pub record MarketplaceLink : Type 0 where
  pub market : Market
  pub external_account_id : Text
  pub source : Text
  pub updated_at : Text

pub record MarketplaceLinkStatus : Type 0 where
  pub market : Market
  pub linked : Bool
  pub updated_at : Option Text

pub data LinkError : Type 0 where
  bad_key not_ready bad_payload cannot_decrypt : LinkError
  already_linked relink_required : Market → LinkError

abbrev pub is_record : Text → Market → EncryptedRecord → Bool
is_record t m r = r.tenant_id == t && r.market == m

abbrev pub find_record : Text → Market → List EncryptedRecord → Option EncryptedRecord
find_record t m rows = find (is_record t m) rows
