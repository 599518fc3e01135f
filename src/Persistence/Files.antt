-- ===== src/Persistence/Files.antt =====
-- The snapshot file, its backup and the queue of mutations, as src/persistence/registrationLedger.ts
-- has them; orderSnapshotStore.ts, marketLinkStore.ts and src/catalog/catalog.ts repeat this code
-- for other rows. `A` is what a file holds. A file's text is not modelled: a file is missing, holds rows,
-- or is damaged; rows that are written are read back as they are, which the file's schema
-- asks of them. Renaming a temporary file over another is one step.
pub mod Crash
pub mod Sync
mod Examples
use online_seller_control_hu.Common.{
  ℕ, ◌≡◌, Bool, true, false, ◌&&◌, not, Option, none, some, List, [], ◌∷◌, Text, if◌then◌else◌,
  Result, ok, throw,
}

pub data Slot (A : Type 0) : Type 0 where
  missing damaged : Slot A
  holds : A → Slot A

pub record Disk (A : Type 0) : Type 0 where
  pub primary : Slot A
  pub backup : Slot A

-- Which of the writes of one call succeed.
pub record Writes : Type 0 where
  pub backup : Bool
  pub primary : Bool

-- Where neither file exists the store starts empty; any other failure is the primary's.
pub data LoadError : Type 0 where
  primary_missing primary_damaged : LoadError

module _ {A : Type 0} where
  -- The `catch` of `load`, for an error of the primary file.
  unfoldable pub recover :
      (empty : A) (error : LoadError) (written : Bool)
      → Disk A
      → Slot A
      → Result LoadError (A × Disk A)
  recover empty error written disk (holds rows) =
      if written then ok (rows, record disk { primary = holds rows }) else throw error
  recover empty primary_missing written disk missing = ok (empty, disk)
  recover empty primary_damaged written disk missing = throw primary_damaged
  recover empty error written disk damaged = throw error

  unfoldable pub load_slots :
      (empty : A) (written : Bool) → Disk A → Slot A → Result LoadError (A × Disk A)
  load_slots empty written disk (holds rows) = ok (rows, disk)
  load_slots empty written disk missing = recover empty primary_missing written disk disk.backup
  load_slots empty written disk damaged = recover empty primary_damaged written disk disk.backup

  -- What a process that starts on this disk has in memory, and the disk after that.
  unfoldable pub load : (empty : A) (written : Bool) → Disk A → Result LoadError (A × Disk A)
  load empty written disk = load_slots empty written disk disk.primary

  -- A primary file that can be read is copied to the backup first; a failure there is ignored.
  unfoldable pub back_up : Bool → Disk A → Disk A
  back_up written disk = elim disk.primary [
    | holds rows ↦ if written then record disk { backup = holds rows } else disk
    | _ ↦ disk
  ]

  unfoldable pub persist_rows : Writes → A → Disk A → Bool × Disk A
  persist_rows w rows disk =
      let disk' = back_up w.backup disk in
      if w.primary then (true, record disk' { primary = holds rows }) else (false, disk')

-- What a mutation of the rows hands to the queue.
pub record Mutation (A T : Type 0) : Type 0 where
  pub rows : A
  pub result : T
  pub persist : Bool

pub record Store (A : Type 0) : Type 0 where
  pub rows : A
  pub disk : Disk A

-- The error of the mutation itself, or of the write of its rows.
pub data QueueError (E : Type 0) : Type 0 where
  refused : E → QueueError E
  write_failed : QueueError E

module _ {A E T : Type 0} where
  unfoldable pub run_mutation :
      Writes → Result E (Mutation A T) → Store A → Result (QueueError E) T × Store A
  run_mutation w (throw e) s = (throw (refused e), s)
  run_mutation w (ok m) s =
      if not m.persist
      then (ok m.result, s)
      else (let (written, disk') = persist_rows w m.rows s.disk in
          if written
          then (ok m.result, record { rows = m.rows; disk = disk' })
          else (throw write_failed, record s { disk = disk' }))

  -- One operation of the queue. A failed one does not stop those behind it.
  unfoldable pub enqueue_mutation :
      Writes → (A → Result E (Mutation A T)) → Store A → Result (QueueError E) T × Store A
  enqueue_mutation w mutate s = run_mutation w (mutate s.rows) s
