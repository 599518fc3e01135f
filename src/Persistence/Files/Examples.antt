-- ===== src/Persistence/Files/Examples.antt =====
-- The snapshot file of the stores, with numbers for its rows.
use online_seller_control_hu.Common.{
  ℕ, ◌+◌, ◌≡◌, refl, inl, inr, ◌⊎◌, true, false, [], ◌∷◌, List, Result, ok, throw, running, ltb,
  if◌then◌else◌,
}
use online_seller_control_hu.Persistence.Files.{
  Disk, missing, damaged, holds, Writes, Mutation, Store, load, load_slots, recover, back_up,
  persist_rows, run_mutation, enqueue_mutation, refused,
}
use online_seller_control_hu.Persistence.Files.Crash.{crash_recovers, damage_recovers, backed_up}
use online_seller_control_hu.Persistence.Files.Sync.{
  restart_after_queue, enqueue_mutation_throws, run_queue,
}

program : Unit {0}
unfolding running load load_slots recover back_up persist_rows run_mutation enqueue_mutation
    run_queue
program = tt

abbrev both : Writes
both = record { backup = true; primary = true }

abbrev backup_only : Writes
backup_only = record { backup = true; primary = false }

abbrev saved : Disk ℕ
saved = record { primary = holds 7; backup = missing }

crash_recovers_example :
    (n : ℕ) × (load 0 true (back_up true saved) ≡ ok (n, back_up true saved)) × ((n ≡ 8) ⊎ (n ≡ 7))
crash_recovers_example = crash_recovers 0 7 8 true saved (back_up true saved) refl (backed_up true)

damage_recovers_example :
    let disk = (persist_rows both 8 saved).1 in
    (load 0 true (record disk { primary = damaged }) ≡ ok (7, record disk { primary = holds 7 }))
    × (load 0 true (record disk { backup = damaged }) ≡ ok (8, record disk { backup = damaged }))
    × ((persist_rows both 8 (record saved { primary = damaged })).1.backup ≡ missing)
damage_recovers_example = damage_recovers 0 7 8 both saved damaged refl refl refl (inr refl)

-- Adds to the number, and refuses to go beyond 9.
abbrev add : ℕ → ℕ → Result ℕ (Mutation ℕ ℕ)
add m n =
    if ltb 9 (n + m)
    then throw (n + m)
    else ok (record { rows = n + m; result = n; persist = true })

abbrev store : Store ℕ
store = record { rows = 7; disk = saved }

abbrev operations : List (Writes × (ℕ → Result ℕ (Mutation ℕ ℕ)))
operations = (both, add 1) ∷ (both, add 5) ∷ (backup_only, add 1) ∷ (both, add 1) ∷ []

abbrev after : Store ℕ
after = run_queue 0 operations store

counts : after.rows ≡ 9
unfolding program
counts = refl

restart_after_queue_example : load 0 true after.disk ≡ ok (after.rows, after.disk)
restart_after_queue_example = restart_after_queue 0 true operations store (inl refl)

refuses : (enqueue_mutation both (add 5) store).0 ≡ throw (refused 12)
unfolding program
refuses = refl

enqueue_mutation_throws_example :
    ((enqueue_mutation both (add 5) store).1.rows ≡ 7)
    × ((enqueue_mutation both (add 5) store).1.disk.primary ≡ holds 7)
    × ((true ≡ false) ⊎ ((f : ℕ) × (add 5 7 ≡ throw f)))
enqueue_mutation_throws_example = enqueue_mutation_throws 0 both (add 5) store (refused 12) refuses
