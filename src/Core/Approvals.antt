-- ===== src/Core/Approvals.antt =====
-- src/core/approvalStore.ts: commands that wait for an approval, in memory and in a file.
-- The file's text is not modelled: a file is absent, holds approvals, or cannot be read as such.
-- The clock, the fresh identifier and the success of the file write are inputs of each call.
pub mod Atomic
pub mod Lifetime
pub mod Durable
pub mod Restart
mod Examples
use online_seller_control_hu.Common.{
  every, ℕ, ◌+◌, ◌≡◌, Bool, true, false, ◌&&◌, not, Option, none, some, List, [], ◌∷◌, map, Eq,
  ◌==◌, nat_eq, Text, text_eq, if◌then◌else◌, ltb, leb, length, Result, ok, throw, filter,
}
use online_seller_control_hu.Common.Dicts.{Dict, get, set, delete, values}
use online_seller_control_hu.Common.Indexes.{index_by}
use online_seller_control_hu.Core.Types.{ParsedCommand, CatalogProduct, MarketState}
use online_seller_control_hu.Core.ApprovalRows.{
  is_row, parsed_row, ActorKind, ActorKind-discrete, ApprovalActor, PendingApproval, actor_kind_eq,
  telegram, web,
}

-- The argument of `create`.
pub record ApprovalInput : Type 0 where
  pub actor : ApprovalActor
  pub command : ParsedCommand
  pub product : CatalogProduct
  pub snapshot : List MarketState

pub data ApprovalFile : Type 0 where
  absent damaged : ApprovalFile
  holds : List PendingApproval → ApprovalFile

pub data ApprovalError : Type 0 where
  bad_ttl invalid_file write_failed : ApprovalError

pub record ApprovalStore : Type 0 where
  pub ttl_ms : ℕ
  -- Whether there is a persistence path.
  pub persistent : Bool
  pub pending : Dict Text PendingApproval
  pub file : ApprovalFile

-- What the runtime supplies to one call.
pub record Call : Type 0 where
  pub now : ℕ
  pub uuid : Text
  pub written : Bool

abbrev pub same_actor : ApprovalActor → ApprovalActor → Bool
same_actor left right = (left.kind == right.kind) && (left.id == right.id)

-- A failed write leaves the old file where it is, and throws.
unfoldable pub persist :
    Call → List PendingApproval → ApprovalStore → Result ApprovalError ApprovalStore
persist call approvals s =
    if s.persistent
    then (if call.written then ok (record s { file = holds approvals }) else throw write_failed)
    else ok s

abbrev pub Reply : Type 0 → Type 0
Reply A = Result ApprovalError A × ApprovalStore

-- The file is written first, and then the map in memory is changed.
unfoldable pub update :
    {A : Type 0} → Call → Dict Text PendingApproval → A → ApprovalStore → Reply A
update call next answer s = elim (persist call (values next) s) [
  | ok s' ↦ (ok answer, record s' { pending = next })
  | throw e ↦ (throw e, s)
]

abbrev pub new_approval : Call → ApprovalInput → ApprovalStore → PendingApproval
new_approval call input s = record {
  id = call.uuid;
  created_at = call.now;
  expires_at = call.now + s.ttl_ms;
  actor = input.actor;
  command = input.command;
  product = input.product;
  snapshot = input.snapshot;
}

unfoldable pub create : Call → ApprovalInput → ApprovalStore → Reply PendingApproval
create call input s =
    let approval = new_approval call input s in
    update call (set call.uuid approval s.pending) approval s

-- `removePersistedFirst`, with the answer of the caller.
unfoldable pub remove_persisted_first : {A : Type 0} → Call → Text → A → ApprovalStore → Reply A
remove_persisted_first call id answer s = update call (delete id s.pending) answer s

-- The body of `consume` behind its look-up, and that of `cancel`.
unfoldable pub consume_found :
    Call
    → Text
    → ApprovalActor
    → Option PendingApproval
    → ApprovalStore
    → Reply (Option PendingApproval)
consume_found call id actor none s = (ok none, s)
consume_found call id actor (some approval) s =
    if ltb approval.expires_at call.now
    then remove_persisted_first call id none s
    else if same_actor approval.actor actor
    then remove_persisted_first call id (some approval) s
    else (ok none, s)

unfoldable pub consume :
    Call → Text → ApprovalActor → ApprovalStore → Reply (Option PendingApproval)
consume call id actor s = consume_found call id actor (get id s.pending) s

unfoldable pub cancel_found :
    Call → Text → ApprovalActor → Option PendingApproval → ApprovalStore → Reply Bool
cancel_found call id actor none s = (ok false, s)
cancel_found call id actor (some approval) s =
    if ltb approval.expires_at call.now
    then remove_persisted_first call id false s
    else if same_actor approval.actor actor
    then remove_persisted_first call id true s
    else (ok false, s)

unfoldable pub cancel : Call → Text → ApprovalActor → ApprovalStore → Reply Bool
cancel call id actor s = cancel_found call id actor (get id s.pending) s

-- `for (const approval of live) this.pending.set(approval.id, approval)`
abbrev pub restore : List PendingApproval → Dict Text PendingApproval → Dict Text PendingApproval
restore live pending = index_by (λ a. a.id) live pending

abbrev pub is_live : ℕ → PendingApproval → Bool
is_live now a = ltb now a.expires_at

-- The rows that are dropped as expired are dropped from the file too.
unfoldable pub load_parsed :
    Call → List PendingApproval → ApprovalStore → Result ApprovalError ApprovalStore
load_parsed call parsed s =
    let live = filter (is_live call.now) parsed in
    let kept = if length live == length parsed then ok s else persist call live s in
    elim kept [
      | ok s' ↦ ok (record s' { pending = restore live s'.pending })
      | throw e ↦ throw invalid_file
    ]

-- `persistedApprovalsSchema.parse` comes first.
unfoldable pub load_rows :
    (is_uuid : Text → Bool)
    → Call
    → List PendingApproval
    → ApprovalStore
    → Result ApprovalError ApprovalStore
load_rows is_uuid call rows s =
    if every (is_row is_uuid) rows
    then load_parsed call (map parsed_row rows) s
    else throw invalid_file

-- The constructor, with `loadPersisted`.
unfoldable pub open_store :
    (is_uuid : Text → Bool)
    → Call
    → (ttl_ms : ℕ) (persistent : Bool) → ApprovalFile
    → Result ApprovalError ApprovalStore
open_store is_uuid call ttl_ms persistent file =
    let s : ApprovalStore = record {
      ttl_ms = ttl_ms;
      persistent = persistent;
      pending = [];
      file = file;
    } in
    if ttl_ms == 0 then throw bad_ttl else elim file [
      | holds parsed ↦ if persistent then load_rows is_uuid call parsed s else ok s
      | damaged ↦ if persistent then throw invalid_file else ok s
      | absent ↦ ok s
    ]

-- The calls that the bot and the web server make.
pub data Request : Type 0 where
  create_request : ApprovalInput → Request
  consume_request cancel_request : (id : Text) (actor : ApprovalActor) → Request

-- The store after a request, whatever it answered.
unfoldable pub serve : Call → Request → ApprovalStore → ApprovalStore
serve call (create_request input) s = (create call input s).1
serve call (consume_request id actor) s = (consume call id actor s).1
serve call (cancel_request id actor) s = (cancel call id actor s).1

unfoldable pub serve_all : List (Call × Request) → ApprovalStore → ApprovalStore
serve_all [] s = s
serve_all ((call, request) ∷ requests) s = serve_all requests (serve call request s)
