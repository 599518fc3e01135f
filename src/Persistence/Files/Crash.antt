-- ===== src/Persistence/Files/Crash.antt =====
-- The snapshot file of the stores: a crash at any step, or damage to one file, loses no more than
-- the last change.
use online_seller_control_hu.Common.{◌≡◌, ◌∙◌, refl, ◌⊎◌, inl, inr, Bool, true, ok, arith}
use online_seller_control_hu.Persistence.Files.{
  Slot, missing, damaged, holds, Disk, Writes, load, load_slots, recover, back_up, persist_rows,
}

module _ {A : Type 0} where
  -- The disks that a process which dies within `persist_rows` may leave: before the first rename,
  -- after the backup's, and after the primary's.
  pub data Crashed (rows : A) (disk : Disk A) : Disk A → Type 0 where
    before : Crashed rows disk disk
    backed_up : (w : Bool) → Crashed rows disk (back_up w disk)
    written : (w : Writes) → Crashed rows disk (persist_rows w rows disk).1

  loads :
      (empty : A) (w : Bool) (disk : Disk A) (rows : A)
      → disk.primary ≡ holds rows
      → load empty w disk ≡ ok (rows, disk)
  unfolding load load_slots
  loads empty w disk rows h = ground arith

  back_up-primary : (w : Bool) (disk : Disk A) → (back_up w disk).primary ≡ disk.primary
  unfolding back_up
  back_up-primary w disk = ground arith

  persist_rows-primary :
      (w : Writes) (rows : A) (disk : Disk A)
      → ((persist_rows w rows disk).1.primary ≡ holds rows)
        ⊎ ((persist_rows w rows disk).1.primary ≡ disk.primary)
  unfolding persist_rows
  persist_rows-primary w rows disk = ground (arith, back_up-primary w.backup disk)

  -- A file that a restart reads as it stands: it holds one of two snapshots.
  holds_either :
      (empty old new : A) (w : Bool) (disk : Disk A)
      → (disk.primary ≡ holds new) ⊎ (disk.primary ≡ holds old)
      → (rows : A) × (load empty w disk ≡ ok (rows, disk)) × ((rows ≡ new) ⊎ (rows ≡ old))
  holds_either empty old new w disk (inl h) = (new, loads empty w disk new h, inl refl)
  holds_either empty old new w disk (inr h) = (old, loads empty w disk old h, inr refl)

-- When a process dies at any step of a save over a readable file, a restart succeeds and finds
-- the snapshot of before the save or the one that was saved.
pub crash_recovers :
    {A : Type 0} (empty old new : A) (w : Bool) (disk disk' : Disk A)
    → disk.primary ≡ holds old
    → Crashed new disk disk'
    → (rows : A) × (load empty w disk' ≡ ok (rows, disk')) × ((rows ≡ new) ⊎ (rows ≡ old))
crash_recovers empty old new w disk _ h before = holds_either empty old new w disk (inr h)
crash_recovers empty old new w disk _ h (backed_up b) =
    holds_either empty old new w (back_up b disk) (inr (back_up-primary b disk ∙ h))
crash_recovers empty old new w disk _ h (written v) =
    holds_either empty old new w (persist_rows v new disk).1
      (elim (persist_rows-primary v new disk) [ inl e ↦ inl e | inr e ↦ inr (e ∙ h) ])

-- After a save over a readable file whose writes succeed, a primary file that is lost or damaged is
-- restored from the backup with the snapshot of before the save, and a backup that is lost or
-- damaged is not needed. A save over a damaged primary file leaves the backup as it was.
pub damage_recovers :
    {A : Type 0} (empty old new : A) (w : Writes) (disk : Disk A) (lost : Slot A)
    → w.backup ≡ true
    → w.primary ≡ true
    → disk.primary ≡ holds old
    → (lost ≡ missing) ⊎ (lost ≡ damaged)
    → let disk' = (persist_rows w new disk).1 in
      (load empty true (record disk' { primary = lost })
        ≡ ok (old, record disk' { primary = holds old }))
      × (load empty true (record disk' { backup = lost })
          ≡ ok (new, record disk' { backup = lost }))
      × ((persist_rows w new (record disk { primary = damaged })).1.backup ≡ disk.backup)
unfolding load load_slots recover persist_rows back_up
damage_recovers empty old new w disk lost hb hp h (inl e) = ground arith
damage_recovers empty old new w disk lost hb hp h (inr e) = ground arith
