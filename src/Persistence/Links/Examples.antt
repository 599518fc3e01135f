-- ===== src/Persistence/Links/Examples.antt =====
-- src/persistence/marketLinkStore.ts on two tenants that want one seller account.
use online_seller_control_hu.Common.{
  ◌≡◌, refl, some, true, false, [], ◌∷◌, ok, throw, codes, running, List, Text, text_eq,
}
use online_seller_control_hu.Core.Types.{naver, Market-discrete}
use online_seller_control_hu.Persistence.Files.{
  missing, Writes, back_up, persist_rows, run_mutation, enqueue_mutation, refused,
}
use online_seller_control_hu.Persistence.LinkRecords.{
  LinkPayload, Cipher, IsFaithful, already_linked, bad_key,
}
use online_seller_control_hu.Persistence.Links.{
  LinkStore, parse_payload, opened, read_payload, link_found, get_from_records,
  tenant_for_external_account_id_in, set_rows, remove_rows, set_parsed, set_link, remove_link,
  get_link, tenant_for_external_account_id, parse_key, create_link_store, key_error, created_store,
}
use online_seller_control_hu.Persistence.Links.Calls.{LinkCall, set_call, remove_call, link_made}
use online_seller_control_hu.Persistence.Links.View.{
  serve_link, run_links, log_links, replay_links, view_of, run_links_refines,
}
use online_seller_control_hu.Persistence.Links.Exclusive.{account_has_one_tenant}

program : Unit {0}
unfolding running Market-discrete back_up persist_rows run_mutation enqueue_mutation parse_payload
    opened read_payload link_found get_from_records tenant_for_external_account_id_in set_rows
    remove_rows set_parsed set_link remove_link get_link created_store
    tenant_for_external_account_id parse_key serve_link run_links log_links replay_links
program = tt

-- A cipher that hides nothing.
abbrev open_cipher : Cipher
open_cipher = record {
  bytes_of_base64 = λ s. s;
  encrypt = λ key iv p. record { iv = iv; tag = p.source; ciphertext = p.external_account_id };
  decrypt = λ key s. some (record { external_account_id = s.ciphertext; source = s.tag });
}

open_cipher-IsFaithful : IsFaithful open_cipher
open_cipher-IsFaithful key iv p = refl

abbrev payload : Text → LinkPayload
payload account = record { external_account_id = account; source = codes "oauth" }

abbrev both : Writes
both = record { backup = true; primary = true }

abbrev empty_store : LinkStore
empty_store = record { rows = []; disk = record { primary = missing; backup = missing } }

abbrev link : Text → Text → LinkCall
link tenant account = set_call both tenant naver (payload account) (codes "iv") (codes "now")

abbrev unlink : Text → LinkCall
unlink tenant = remove_call both tenant naver

abbrev handed_over : List LinkCall
handed_over =
    link (codes "t1") (codes "shop")
    ∷ link (codes "t2") (codes "shop")
    ∷ link (codes "t1") (codes "shop2")
    ∷ unlink (codes "t1")
    ∷ link (codes "t2") (codes "shop")
    ∷ []

-- The second tenant and the other account are refused until the first tenant unlinks.
handed_over_log :
    log_links open_cipher (some []) handed_over empty_store
    ≡ (link (codes "t1") (codes "shop"), true)
      ∷ (link (codes "t2") (codes "shop"), false)
      ∷ (link (codes "t1") (codes "shop2"), false)
      ∷ (unlink (codes "t1"), true)
      ∷ (link (codes "t2") (codes "shop"), true)
      ∷ []
unfolding program
handed_over_log = refl

second_tenant_refused :
    (set_link open_cipher
      (some [])
      both
      (codes "t2")
      naver
      (payload (codes "shop"))
      (codes "iv")
      (codes "now")
      (run_links open_cipher (some []) (link (codes "t1") (codes "shop") ∷ []) empty_store)).0
    ≡ throw (refused (already_linked naver))
unfolding program
second_tenant_refused = refl

handed_over_owner :
    get_link open_cipher
      (some [])
      (codes "t2")
      naver
      (run_links open_cipher (some []) handed_over empty_store)
    ≡ ok (some (link_made naver (payload (codes "shop")) (codes "now")))
unfolding program
handed_over_owner = refl

run_links_refines_example :
    view_of open_cipher (some []) (run_links open_cipher (some []) handed_over empty_store)
    ≡ replay_links
        (log_links open_cipher (some []) handed_over empty_store)
        (view_of open_cipher (some []) empty_store)
run_links_refines_example =
    run_links_refines open_cipher open_cipher-IsFaithful (some []) handed_over empty_store

account_has_one_tenant_example : ◌≡◌ {A = Text} (codes "t2") (codes "t2")
account_has_one_tenant_example =
    account_has_one_tenant open_cipher [] open_cipher-IsFaithful handed_over empty_store
      (refl, (refl, (refl, (refl, (refl, tt))))) (record { unique = tt; tenants = tt }) (codes "t2")
      (codes "t2") naver (link_made naver (payload (codes "shop")) (codes "now"))
      (link_made naver (payload (codes "shop")) (codes "now")) handed_over_owner handed_over_owner
      refl

-- A store with a key that is not 32 bytes long does not start.
short_key :
    create_link_store open_cipher (some (codes " abc ")) true empty_store.disk
    ≡ throw (key_error bad_key)
unfolding program create_link_store
short_key = refl
