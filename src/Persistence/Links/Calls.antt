-- ===== src/Persistence/Links/Calls.antt =====
-- src/persistence/marketLinkStore.ts: the calls that change the links, and what they do to a table in the clear.
use online_seller_control_hu.Common.{
  Bool, true, false, Option, none, some, Text, text_eq, if◌then◌else◌, Result, ok, throw, nat_eq,
}
use online_seller_control_hu.Core.Types.{Market, market_eq}
use online_seller_control_hu.Persistence.Files.{Writes}
use online_seller_control_hu.Persistence.LinkRecords.{LinkPayload, LinkError, MarketplaceLink}
use online_seller_control_hu.Persistence.Links.Rows.{is_same}

pub data LinkCall : Type 0 where
  set_call : Writes → Text → Market → LinkPayload → (iv now : Text) → LinkCall
  remove_call : Writes → Text → Market → LinkCall

abbrev pub is_ok : {E A : Type 0} → Result E A → Bool
is_ok (ok a) = true
is_ok (throw e) = false

-- What a tenant sees of a marketplace.
abbrev pub View : Type 0
View = Text → Market → Result LinkError (Option MarketplaceLink)

abbrev pub link_made : Market → LinkPayload → Text → MarketplaceLink
link_made m p now = record {
  market = m;
  external_account_id = p.external_account_id;
  source = p.source;
  updated_at = now;
}

-- The call on a table in the clear, if it was answered and not refused.
abbrev pub replay_call : LinkCall → Bool → View → View
replay_call call false v = v
replay_call (set_call w t m p iv now) true v =
    λ t' m'. if is_same t m t' m' then ok (some (link_made m p now)) else v t' m'
replay_call (remove_call w t m) true v = λ t' m'. if is_same t m t' m' then ok none else v t' m'
