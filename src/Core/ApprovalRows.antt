-- ===== src/Core/ApprovalRows.antt =====
-- src/core/approvalStore.ts: an approval, and the schema that those of the file have to satisfy. Whether a
-- text is a UUID is a parameter, the check of the schema library.
use online_seller_control_hu.Common.{
  every, trim, text_between, if_present, ℕ, Bool, ◌&&◌, List, Eq, nat_eq, Text, text_eq, leb,
  length,
}
use online_seller_control_hu.Core.Types.{
  MarketMapping, is_command, ParsedCommand, CatalogProduct, MarketState,
}

pub data ActorKind : Type 0 where
  telegram web : ActorKind

unfoldable pub ActorKind-discrete : Discrete ActorKind
ActorKind-discrete = hlevel

instance abbrev pub actor_kind_eq : Eq ActorKind
actor_kind_eq = record { dec_eq = ActorKind-discrete }

pub record ApprovalActor : Type 0 where
  pub kind : ActorKind
  pub id : Text

pub record PendingApproval : Type 0 where
  pub id : Text
  pub created_at : ℕ
  pub expires_at : ℕ
  pub actor : ApprovalActor
  pub command : ParsedCommand
  pub product : CatalogProduct
  pub snapshot : List MarketState

abbrev pub is_mapping : MarketMapping → Bool
is_mapping m =
    if_present (text_between 1 300) m.external_id && if_present (text_between 1 300) m.product_id

abbrev pub is_product : CatalogProduct → Bool
is_product p =
    text_between 1 100 p.tenant_id
    && text_between 1 120 p.master_sku
    && text_between 1 300 p.name
    && every (text_between 1 300) p.aliases
    && leb (length p.aliases) 30
    && every (λ e. is_mapping e.1) p.markets

-- `commandSchema` trims the query before it checks it.
abbrev pub parsed_command : ParsedCommand → ParsedCommand
parsed_command c = record c { product_query = trim c.product_query }

-- The parts of an approval that its caller gives.
abbrev pub is_request : ApprovalActor → ParsedCommand → CatalogProduct → Bool
is_request actor command product =
    text_between 1 300 actor.id && is_command (parsed_command command) && is_product product

-- `pendingApprovalSchema`: the check of a row, and the row that it returns.
unfoldable pub is_row : (is_uuid : Text → Bool) → PendingApproval → Bool
is_row is_uuid a = is_uuid a.id && leb 1 a.expires_at && is_request a.actor a.command a.product

abbrev pub parsed_row : PendingApproval → PendingApproval
parsed_row a = record a { command = parsed_command a.command }
