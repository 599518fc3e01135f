-- ===== src/Persistence/Files/Sync.antt =====
-- The queue of mutations of the stores: memory and file agree after every operation.
use online_seller_control_hu.Common.{
  ◌≡◌, refl, ◌⊎◌, inl, inr, Bool, true, false, List, [], ◌∷◌, Result, ok, throw, arith,
}
use online_seller_control_hu.Persistence.Files.{
  missing, holds, Disk, Writes, load, load_slots, recover, back_up, persist_rows, Mutation, Store,
  QueueError, run_mutation, enqueue_mutation,
}

module _ {A : Type 0} (empty : A) where
  -- The file holds the rows in memory, or nothing was saved yet.
  abbrev pub IsSynced : Store A → Type 0
  IsSynced s =
      (s.disk.primary ≡ holds s.rows)
      ⊎ ((s.disk.primary ≡ missing) × (s.disk.backup ≡ missing) × (s.rows ≡ empty))

  -- A store that is loaded agrees with its file.
  pub load-IsSynced :
      (w : Bool) (disk disk' : Disk A) (rows : A)
      → load empty w disk ≡ ok (rows, disk')
      → IsSynced (record { rows = rows; disk = disk' })
  unfolding load load_slots recover
  load-IsSynced w disk disk' rows h = ground arith

  -- A restart of a store that agrees with its file loads the rows that were in memory.
  pub load_synced :
      (w : Bool) (s : Store A) → IsSynced s → load empty w s.disk ≡ ok (s.rows, s.disk)
  unfolding load load_slots recover
  load_synced w s (inl h) = ground arith
  load_synced w s (inr h) = ground arith

  module _ {E T : Type 0} where
    run_mutation-IsSynced :
        (w : Writes) (m : Result E (Mutation A T)) (s : Store A)
        → IsSynced s
        → IsSynced (run_mutation w m s).1
    unfolding run_mutation persist_rows back_up
    run_mutation-IsSynced w (throw e) s h = h
    run_mutation-IsSynced w (ok m) s h = ground arith

    -- A run of the queue, with the writes that succeed at each operation.
    unfoldable pub run_queue : List (Writes × (A → Result E (Mutation A T))) → Store A → Store A
    run_queue [] s = s
    run_queue ((w, mutate) ∷ ops) s = run_queue ops (enqueue_mutation w mutate s).1

    pub run_queue-IsSynced :
        (ops : List (Writes × (A → Result E (Mutation A T)))) (s : Store A)
        → IsSynced s
        → IsSynced (run_queue ops s)
    unfolding run_queue enqueue_mutation
    run_queue-IsSynced [] s h = h
    run_queue-IsSynced ((w, mutate) ∷ ops) s h =
        run_queue-IsSynced ops (run_mutation w (mutate s.rows) s).1
          (run_mutation-IsSynced w (mutate s.rows) s h)

    -- After any run of mutations, of which some are refused and some cannot be written, a restart
    -- finds exactly the rows that were in memory.
    pub restart_after_queue :
        (w : Bool) (ops : List (Writes × (A → Result E (Mutation A T)))) (s : Store A)
        → IsSynced s
        → load empty w (run_queue ops s).disk ≡ ok ((run_queue ops s).rows, (run_queue ops s).disk)
    restart_after_queue w ops s h = load_synced w (run_queue ops s) (run_queue-IsSynced ops s h)

    run_mutation_throws :
        (w : Writes) (m : Result E (Mutation A T)) (s : Store A) (e : QueueError E)
        → (run_mutation w m s).0 ≡ throw e
        → ((run_mutation w m s).1.rows ≡ s.rows)
          × ((run_mutation w m s).1.disk.primary ≡ s.disk.primary)
          × ((w.primary ≡ false) ⊎ ((f : E) × (m ≡ throw f)))
    unfolding run_mutation persist_rows back_up
    run_mutation_throws w (throw f) s e h = (refl, refl, inr (f, refl))
    run_mutation_throws w (ok m) s e h = ground arith

    -- An operation that throws was refused by its mutation or could not be written; the rows in
    -- memory and the primary file are as before.
    pub enqueue_mutation_throws :
        (w : Writes) (mutate : A → Result E (Mutation A T)) (s : Store A) (e : QueueError E)
        → (enqueue_mutation w mutate s).0 ≡ throw e
        → ((enqueue_mutation w mutate s).1.rows ≡ s.rows)
          × ((enqueue_mutation w mutate s).1.disk.primary ≡ s.disk.primary)
          × ((w.primary ≡ false) ⊎ ((f : E) × (mutate s.rows ≡ throw f)))
    unfolding enqueue_mutation
    enqueue_mutation_throws w mutate s e h = run_mutation_throws w (mutate s.rows) s e h

module _ {A T : Type 0} where
  run_mutation-ok_rows :
      (E : Type 0) (w : Writes) (n : Mutation A T) (s : Store A)
      → ((run_mutation {E = E} w (ok n) s).1.rows ≡ s.rows)
        ⊎ ((run_mutation {E = E} w (ok n) s).1.rows ≡ n.rows)
  unfolding run_mutation
  run_mutation-ok_rows E w n s = ground arith

module _ {A E T : Type 0} where
  run_mutation_rows :
      (w : Writes) (m : Result E (Mutation A T)) (s : Store A)
      → ((run_mutation w m s).1.rows ≡ s.rows)
        ⊎ ((n : Mutation A T) × (m ≡ ok n) × ((run_mutation w m s).1.rows ≡ n.rows))
  unfolding run_mutation
  run_mutation_rows w (throw e) s = inl refl
  run_mutation_rows w (ok n) s = elim (run_mutation-ok_rows E w n s) [
    | inl same ↦ inl same
    | inr new ↦ inr (n, refl, new)
  ]

  -- After an operation the rows are the old ones, or those of the mutation.
  pub enqueue_mutation_rows :
      (w : Writes) (mutate : A → Result E (Mutation A T)) (s : Store A)
      → ((enqueue_mutation w mutate s).1.rows ≡ s.rows)
        ⊎ ((n : Mutation A T) × (mutate s.rows ≡ ok n)
            × ((enqueue_mutation w mutate s).1.rows ≡ n.rows))
  unfolding enqueue_mutation
  enqueue_mutation_rows w mutate s = run_mutation_rows w (mutate s.rows) s

  -- What an operation answers where it does not throw.
  run_mutation_answer :
      (w : Writes) (m : Result E (Mutation A T)) (s : Store A) {t : T}
      → (run_mutation w m s).0 ≡ ok t
      → (n : Mutation A T) × (m ≡ ok n)
        × (n.result ≡ t)
        × (n.persist ≡ true → (run_mutation w m s).1.rows ≡ n.rows)
  unfolding run_mutation
  run_mutation_answer w (throw e) s h = cc
  run_mutation_answer w (ok n) s h = (n, refl, ground arith, ground arith)

  pub enqueue_mutation_answer :
      (w : Writes) (mutate : A → Result E (Mutation A T)) (s : Store A) {t : T}
      → (enqueue_mutation w mutate s).0 ≡ ok t
      → (n : Mutation A T) × (mutate s.rows ≡ ok n)
        × (n.result ≡ t)
        × (n.persist ≡ true → (enqueue_mutation w mutate s).1.rows ≡ n.rows)
  unfolding enqueue_mutation
  enqueue_mutation_answer w mutate s h = run_mutation_answer w (mutate s.rows) s h
