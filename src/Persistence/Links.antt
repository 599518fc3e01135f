-- ===== src/Persistence/Links.antt =====
-- src/persistence/marketLinkStore.ts: which seller account of a marketplace belongs to which tenant. The
-- accounts are encrypted in the file. The cipher of node:crypto is a parameter, on payloads in
-- place of their JSON texts; the random iv and the instant of a call are inputs.
pub mod Rows
pub mod Owners
pub mod Exclusive
pub mod Calls
pub mod View
mod Examples
use online_seller_control_hu.Common.{
  ℕ, ◌≡◌, Bool, true, false, ◌&&◌, ◌||◌, not, Option, none, some, List, [], ◌∷◌, ◌++◌, map, ◌==◌,
  Text, text_eq, nat_eq, if◌then◌else◌, Result, ok, throw, ◌>>=◌, filter, find, is_empty, trim,
  length, text_between, is_some, Eq,
}
use online_seller_control_hu.Core.Types.{Market, market_eq, markets_all}
use online_seller_control_hu.Persistence.Files.{
  Disk, LoadError, load, Writes, Mutation, Store, QueueError, refused, enqueue_mutation,
}
use online_seller_control_hu.Persistence.LinkRecords.{
  Cipher, EncryptedRecord, IsFaithful, LinkError, LinkPayload, MarketplaceLink,
  MarketplaceLinkStatus, Sealed, already_linked, bad_key, bad_payload, cannot_decrypt, find_record,
  is_record, not_ready, relink_required,
}

-- `linkPayloadSchema.parse`
unfoldable pub parse_payload : LinkPayload → Result LinkError LinkPayload
parse_payload p =
    if text_between 1 1000 p.external_account_id && text_between 1 100 p.source
    then ok p
    else throw bad_payload

abbrev pub link_of : EncryptedRecord → LinkPayload → MarketplaceLink
link_of r p = record {
  market = r.market;
  external_account_id = p.external_account_id;
  source = p.source;
  updated_at = r.updated_at;
}

abbrev pub is_other_owner : Option Text → Text → Bool
is_other_owner none t = false
is_other_owner (some owner) t = not (is_empty owner) && not (owner == t)

abbrev pub is_other_account : Option MarketplaceLink → Text → Bool
is_other_account none account = false
is_other_account (some link) account = not (link.external_account_id == account)

unfoldable pub opened : Option LinkPayload → Result LinkError LinkPayload
opened none = throw cannot_decrypt
opened (some p) = parse_payload p

abbrev pub LinkStore : Type 0
LinkStore = Store (List EncryptedRecord)

unfoldable pub remove_rows :
    Text → Market → List EncryptedRecord → Mutation (List EncryptedRecord) Bool
remove_rows t m rows =
    let next_records = filter (λ r. not (is_record t m r)) rows in
    if length next_records == length rows
    then record { rows = rows; result = false; persist = false }
    else record { rows = next_records; result = true; persist = true }

abbrev refuse : {T : Type 0} → LinkError → LinkStore → Result (QueueError LinkError) T × LinkStore
refuse e s = (throw (refused e), s)

abbrev pub status_of : Market → Option EncryptedRecord → MarketplaceLinkStatus
status_of m none = record { market = m; linked = false; updated_at = none }
status_of m (some r) = record { market = m; linked = true; updated_at = some r.updated_at }

unfoldable pub statuses : Text → LinkStore → List MarketplaceLinkStatus
statuses t s = map (λ m. status_of m (find_record t m s.rows)) markets_all

unfoldable pub remove_link :
    Option (List ℕ)
    → Writes
    → Text
    → Market
    → LinkStore
    → Result (QueueError LinkError) Bool × LinkStore
remove_link none w t m s = refuse not_ready s
remove_link (some key) w t m s = enqueue_mutation w (λ rows. ok (remove_rows t m rows)) s

module _ (c : Cipher) where
  -- `parseKey`: no key, or one of 32 bytes.
  unfoldable pub parse_key : Option Text → Result LinkError (Option (List ℕ))
  parse_key none = ok none
  parse_key (some value) =
      if is_empty (trim value)
      then ok none
      else (let key = c.bytes_of_base64 (trim value) in
          if length key == 32 then ok (some key) else throw bad_key)

  module _ (key : List ℕ) where
    unfoldable pub read_payload : EncryptedRecord → Result LinkError LinkPayload
    unfolding opened
    read_payload r = opened (c.decrypt key r.sealed)

    unfoldable pub link_found : Option EncryptedRecord → Result LinkError (Option MarketplaceLink)
    link_found none = ok none
    link_found (some r) = read_payload r >>= λ p. ok (some (link_of r p))

    unfoldable pub get_from_records :
        List EncryptedRecord → Text → Market → Result LinkError (Option MarketplaceLink)
    get_from_records rows t m = link_found (find_record t m rows)

    unfoldable pub tenant_for_external_account_id_in :
        Market → Text → List EncryptedRecord → Result LinkError (Option Text)
    tenant_for_external_account_id_in m account [] = ok none
    tenant_for_external_account_id_in m account (r ∷ rows) =
        let rest = tenant_for_external_account_id_in m account rows in
        if not (r.market == m)
        then rest
        else read_payload r >>= λ p.
            if p.external_account_id == account then ok (some r.tenant_id) else rest

    abbrev pub new_record : Text → Market → LinkPayload → (iv now : Text) → EncryptedRecord
    new_record t m p iv now = record {
      tenant_id = t;
      market = m;
      sealed = c.encrypt key iv p;
      updated_at = now;
    }

    -- The mutation that `set` hands to the queue.
    unfoldable pub set_rows :
        Text
        → Market
        → LinkPayload
        → (iv now : Text) → List EncryptedRecord
        → Result LinkError (Mutation (List EncryptedRecord) (Unit {0}))
    set_rows t m p iv now rows =
        tenant_for_external_account_id_in m p.external_account_id rows >>= λ owner.
        if is_other_owner owner t
        then throw (already_linked m)
        else get_from_records rows t m >>= λ current.
            if is_other_account current p.external_account_id
            then throw (relink_required m)
            else ok (record {
              rows = filter (λ r. not (is_record t m r)) rows ++ (new_record t m p iv now ∷ []);
              result = tt;
              persist = true;
            })

  -- The payload is checked before the call joins the queue.
  unfoldable pub set_parsed :
      List ℕ
      → Writes
      → Text
      → Market
      → (iv now : Text) → Result LinkError LinkPayload
      → LinkStore
      → Result (QueueError LinkError) (Unit {0}) × LinkStore
  set_parsed key w t m iv now (throw e) s = refuse e s
  set_parsed key w t m iv now (ok p) s = enqueue_mutation w (set_rows key t m p iv now) s

  -- The methods of the class, on the key of its constructor.
  unfoldable pub set_link :
      Option (List ℕ)
      → Writes
      → Text
      → Market
      → LinkPayload
      → (iv now : Text) → LinkStore
      → Result (QueueError LinkError) (Unit {0}) × LinkStore
  set_link none w t m p iv now s = refuse not_ready s
  set_link (some key) w t m p iv now s = set_parsed key w t m iv now (parse_payload p) s

  unfoldable pub get_link :
      Option (List ℕ) → Text → Market → LinkStore → Result LinkError (Option MarketplaceLink)
  get_link none t m s = throw not_ready
  get_link (some key) t m s = get_from_records key s.rows t m

  unfoldable pub tenant_for_external_account_id :
      Option (List ℕ) → Market → Text → LinkStore → Result LinkError (Option Text)
  tenant_for_external_account_id none m account s = throw not_ready
  tenant_for_external_account_id (some key) m account s =
      tenant_for_external_account_id_in key m account s.rows

pub data CreateError : Type 0 where
  key_error : LinkError → CreateError
  load_error : LoadError → CreateError

-- `create`: the key of the environment, and the records of the file or of its backup.
unfoldable pub created_store :
    Option (List ℕ)
    → Result LoadError (List EncryptedRecord × Disk (List EncryptedRecord))
    → Result CreateError (Option (List ℕ) × LinkStore)
created_store key (throw e) = throw (load_error e)
created_store key (ok (rows, disk)) = ok (key, record { rows = rows; disk = disk })

abbrev create_with :
    Bool
    → Disk (List EncryptedRecord)
    → Result LinkError (Option (List ℕ))
    → Result CreateError (Option (List ℕ) × LinkStore)
create_with written disk (throw e) = throw (key_error e)
create_with written disk (ok key) = created_store key (load [] written disk)

unfoldable pub create_link_store :
    Cipher
    → Option Text
    → (written : Bool) → Disk (List EncryptedRecord)
    → Result CreateError (Option (List ℕ) × LinkStore)
create_link_store c value written disk = create_with written disk (parse_key c value)
