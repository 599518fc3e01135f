-- ===== src/Persistence/Ledger/Examples.antt =====
-- src/persistence/registrationLedger.ts: a product that is registered twice under one key.
use online_seller_control_hu.Common.{
  ◌≡◌, ◌≢◌, refl, none, some, true, false, [], ◌∷◌, ok, codes, running, List, arith, Text, text_eq,
}
use online_seller_control_hu.Core.Types.{naver, Market-discrete}
use online_seller_control_hu.Persistence.Files.{
  missing, Writes, back_up, persist_rows, run_mutation, enqueue_mutation,
}
use online_seller_control_hu.Persistence.Registrations.{
  ClaimKey, ClaimInput, CachedRegistrationResult, claimed, conflict, find_row,
}
use online_seller_control_hu.Persistence.Ledger.{
  RegistrationLedger, claim, claim_rows, claim_existing, claim_again, add_row, finish, finish_rows,
  update_row, reconcile_mapped, reconcile_rows, recover_row, in_progress, other_request,
  pending_row,
}
use online_seller_control_hu.Persistence.Ledger.Settled.{
  LedgerRequest, claim_request, finish_request, reconcile_request, serve, serve_all,
}
use online_seller_control_hu.Persistence.Ledger.Exclusive.{claim_exclusive, finish_cached}

program : Unit {0}
unfolding running Market-discrete back_up persist_rows run_mutation enqueue_mutation claim
    claim_rows claim_existing claim_again add_row finish finish_rows update_row reconcile_mapped
    reconcile_rows recover_row serve serve_all
program = tt

abbrev key : ClaimKey
key = record { tenant_id = codes "t1"; market = naver; idempotency_key = codes "k1" }

abbrev other : ClaimKey
other = record { tenant_id = codes "t1"; market = naver; idempotency_key = codes "k2" }

abbrev input : ClaimInput
input = record { key = key; master_sku = codes "SKU-1"; payload_hash = codes "h1" }

abbrev changed_input : ClaimInput
changed_input = record { key = key; master_sku = codes "SKU-1"; payload_hash = codes "h2" }

abbrev other_input : ClaimInput
other_input = record { key = other; master_sku = codes "SKU-2"; payload_hash = codes "h1" }

abbrev both : Writes
both = record { backup = true; primary = true }

abbrev neither : Writes
neither = record { backup = false; primary = false }

abbrev empty : RegistrationLedger
empty = record { rows = []; disk = record { primary = missing; backup = missing } }

abbrev registered : CachedRegistrationResult
registered = record {
  market = naver;
  ok = true;
  message = codes "done";
  external_id = some (codes "N-9");
  control_external_id = none;
}

abbrev between : List (Writes × Text × LedgerRequest)
between =
    (both, codes "t2", claim_request other_input)
    ∷ (both, codes "t3", finish_request other registered)
    ∷ (neither, codes "t4", claim_request changed_input)
    ∷ (both, codes "t5", reconcile_request (λ _ _ _ _. none))
    ∷ []

other_ne : other ≢ key
other_ne e = ground arith

abbrev in_flight : RegistrationLedger
in_flight = (claim both input (codes "t1") empty).1

granted : (claim both input (codes "t1") empty).0 ≡ ok (claimed (codes "h1"))
unfolding program
granted = refl

claim_exclusive_example :
    (claim both input (codes "t6") (serve_all between in_flight)).0 ≡ ok (conflict in_progress)
unfolding program
claim_exclusive_example =
    claim_exclusive both both input input (codes "t1") (codes "t6") empty between (codes "h1")
      granted (tt, (other_ne, (tt, (tt, tt)))) (tt, (tt, (tt, ((λ _ _ _. refl), tt)))) refl

found_row : find_row key in_flight.rows ≡ some (pending_row input (codes "t1") (codes "t1"))
unfolding program
found_row = refl

finishes : (finish both key registered (codes "t2") in_flight).0 ≡ ok tt
unfolding program
finishes = refl

finish_cached_example :
    (claim neither changed_input
      (codes "t6")
      (serve_all between (finish both key registered (codes "t2") in_flight).1)).0
    ≡ ok (conflict other_request)
unfolding program
finish_cached_example =
    finish_cached both neither key registered changed_input (codes "t2") (codes "t6") in_flight
      (pending_row input (codes "t1") (codes "t1")) between found_row refl finishes
      (tt, (other_ne, (tt, (tt, tt)))) refl
