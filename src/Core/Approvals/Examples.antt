-- ===== src/Core/Approvals/Examples.antt =====
-- src/core/approvalStore.ts on small inputs: one approval that two actors ask for.
use online_seller_control_hu.Common.{
  ℕ, ◌≡◌, ◌≢◌, ◌≤◌, ◌↔◌, refl, true, false, none, some, List, inl, inr, running, [], ◌∷◌, ok, throw,
  arith, codes, text_eq, Text, Bool, ◌||◌, ◌&&◌, leb, length, every, trim, All, ◌==◌, nat_eq,
}
use online_seller_control_hu.Common.Dicts.{get}
use online_seller_control_hu.Core.Types.{is_command, set_stock, naver}
use online_seller_control_hu.Core.ApprovalRows.{
  is_row, is_request, ApprovalActor, PendingApproval, telegram, web, ActorKind-discrete,
  actor_kind_eq,
}
use online_seller_control_hu.Core.Approvals.{
  load_parsed, invalid_file, ApprovalStore, ApprovalInput, Call, Request, create, consume,
  consume_found, cancel, cancel_found, remove_persisted_first, update, persist, load_rows, serve,
  serve_all, create_request, consume_request, new_approval, open_store, absent, write_failed,
}
use online_seller_control_hu.Core.Approvals.Atomic.{calls-IsAtomic, consume_iff, IsAtomic}
use online_seller_control_hu.Core.Approvals.Lifetime.{consume_once}
use online_seller_control_hu.Core.Approvals.Durable.{IsDurable, IsStored, if_live}
use online_seller_control_hu.Core.Approvals.Restart.{restart_after_requests}

program : Unit {0}
unfolding running create consume consume_found cancel cancel_found remove_persisted_first update
    persist serve serve_all open_store load_rows load_parsed is_row is_command ActorKind-discrete
program = tt

abbrev first_id : Text
first_id = codes "8f14e45f-ceea-467f-a0f0-4a3c1b0f2d11"

abbrev second_id : Text
second_id = codes "c9f0f895-fb98-4b91-8f9e-1d2c3b4a5f22"

-- The dash, a digit, or a small letter up to f.
abbrev is_uuid_char : ℕ → Bool
is_uuid_char c = (c == 45) || (leb 48 c && leb c 57) || (leb 97 c && leb c 102)

-- A check of identifiers that is as strict as the examples need.
abbrev is_uuid : Text → Bool
is_uuid text = (length text == 36) && every is_uuid_char text

abbrev operator : ApprovalActor
operator = record { kind = telegram; id = codes "42" }

abbrev stranger : ApprovalActor
stranger = record { kind = web; id = codes "42" }

abbrev input : ApprovalInput
input = record {
  actor = operator;
  command = record {
    action = set_stock;
    product_query = codes "SKU-1";
    markets = naver ∷ [];
    value = some 5;
    rationale = none;
  };
  product = record {
    tenant_id = codes "demo";
    master_sku = codes "SKU-1";
    name = codes "Lamp";
    aliases = [];
    markets = [];
  };
  snapshot = [];
}

abbrev at_time : ℕ → Call
at_time now = record { now = now; uuid = first_id; written = true }

abbrev empty : ApprovalStore
empty = record { ttl_ms = 100; persistent = true; pending = []; file = absent }

abbrev waiting : ApprovalStore
waiting = (create (at_time 1000) input empty).1

abbrev approval : PendingApproval
approval = new_approval (at_time 1000) input empty

empty-IsDurable : IsDurable empty
empty-IsDurable = record { own = tt; unique = tt; saved = λ h. inr (refl, refl) }

handed_out : (consume (at_time 1100) first_id operator waiting).0 ≡ ok (some approval)
unfolding program
handed_out = refl

expired : (consume (at_time 1101) first_id operator waiting).0 ≡ ok none
unfolding program
expired = refl

not_the_actor : (cancel (at_time 1100) first_id stranger waiting).0 ≡ ok false
unfolding program
not_the_actor = refl

-- While the disk is full, each of the three calls throws.
abbrev full_disk : Call
full_disk = record { now = 1001; uuid = second_id; written = false }

all_throw :
    ((create full_disk input waiting).0 ≡ throw write_failed)
    × ((consume full_disk first_id operator waiting).0 ≡ throw write_failed)
    × ((cancel full_disk first_id operator waiting).0 ≡ throw write_failed)
unfolding program
all_throw = (refl, refl, refl)

calls-IsAtomic_example :
    IsAtomic full_disk waiting (create full_disk input waiting)
    × IsAtomic full_disk waiting (consume full_disk first_id operator waiting)
    × IsAtomic full_disk waiting (cancel full_disk first_id operator waiting)
calls-IsAtomic_example = calls-IsAtomic full_disk input first_id operator waiting

consume_iff_example :
    ((consume (at_time 1100) first_id operator waiting).0 ≡ ok (some approval)) ↔ (
      (get first_id waiting.pending ≡ some approval)
      × (1100 ≤ approval.expires_at)
      × (approval.actor ≡ operator))
consume_iff_example = consume_iff (at_time 1100) first_id operator waiting approval refl

-- Between the two calls another user asks for the approval, and a new one is made.
abbrev requests : List (Call × Request)
requests =
    (at_time 1101, consume_request first_id stranger)
    ∷ (record { now = 1102; uuid = second_id; written = false }, create_request input)
    ∷ (record { now = 1103; uuid = second_id; written = true }, create_request input)
    ∷ []

other_id : second_id ≢ first_id
other_id e = ground arith

consume_once_example :
    let later = serve_all requests (consume (at_time 1100) first_id operator waiting).1 in
    ((consume (at_time 1104) first_id operator later).0 ≡ ok none)
    × ((cancel (at_time 1104) first_id operator later).0 ≡ ok false)
unfolding program
consume_once_example =
    consume_once (at_time 1100) first_id operator waiting approval requests (at_time 1104) operator
      refl (tt, (other_id, (other_id, tt)))

waiting-IsDurable : IsDurable waiting
unfolding program
waiting-IsDurable = record { own = (refl, tt); unique = (refl, tt); saved = λ h. inl refl }

waiting-IsStored : All (λ e. IsStored is_uuid e.1) waiting.pending
unfolding program
waiting-IsStored = (record { accepted = refl; trimmed = refl }, tt)

accepted :
    (is_uuid second_id ≡ true)
    × (is_request input.actor input.command input.product ≡ true)
    × (trim input.command.product_query ≡ input.command.product_query)
unfolding program
accepted = (refl, refl, refl)

-- `create` checks nothing: an approval of an actor without an identifier is written, and then the
-- file cannot be read.
abbrev nobody : ApprovalInput
nobody = record input { actor = record { kind = web; id = [] } }

not_read_back :
    let written = (create (at_time 1000) nobody empty).1 in
    ((create (at_time 1000) nobody empty).0 ≡ ok (new_approval (at_time 1000) nobody empty))
    × (open_store is_uuid (at_time 1050) 100 true written.file ≡ throw invalid_file)
unfolding program
not_read_back = (refl, refl)

restart_after_requests_example :
    let s' = serve_all requests waiting in
    IsDurable s'
    × ((r : ApprovalStore) × (open_store is_uuid (at_time 1150) 100 true s'.file ≡ ok r)
        × (get second_id r.pending ≡ if_live 1150 (get second_id s'.pending)))
unfolding program
restart_after_requests_example =
    restart_after_requests is_uuid requests (at_time 1150) waiting second_id
      (tt, (accepted, (accepted, tt))) waiting-IsStored waiting-IsDurable refl (omega arith) refl
