-- ===== src/Worker/Slots.antt =====
-- src/worker.c: how slots are taken and given back.
use cgr101_scpi.Prelude.{
  ℕ, ◌+◌, ◌≤◌, ◌<◌, ◌≡◌, Bool, true, false, some, arith, length, Option, ap, ◌∙◌, length-set,
  get_or-set_self,
}
use cgr101_scpi.Prelude.Int.{ℤ, pos, negsuc}
use cgr101_scpi.Worker.{
  Slot, Worker, max_workers, blank, slot, put_slot, worker_add, worker_getfd, worker_remove,
}

module _ {S : Type 0} where
  pub record IsValid (k : Worker S) : Type 0 where
    pub slots : length k.w ≡ max_workers
    pub in_use : k.count ≤ max_workers

  pub worker_add-IsValid :
      (k : Worker S) (fd : ℤ) (f : S → Option (Bool × S))
      → IsValid k
      → IsValid (worker_add k fd f).1
  unfolding worker_add
  worker_add-IsValid k fd f v =
      ground (arith, length-set k.w k.count (record (slot k k.count) { fd = fd; func = f }))

  -- In a valid table with a free slot a new worker is added with its descriptor, which
  -- `worker_getfd` then returns.
  pub worker_getfd-add :
      (k : Worker S) (fd : ℕ) (f : S → Option (Bool × S))
      → IsValid k
      → k.count < max_workers
      → ((worker_add k (pos fd) f).0 ≡ false)
        × (worker_getfd (worker_add k (pos fd) f).1 k.count ≡ some (pos fd))
  unfolding worker_add worker_getfd
  worker_getfd-add k fd f v h =
      ground (
        arith,
        get_or-set_self k.w k.count (record (slot k k.count) { fd = pos fd; func = f }) blank,
      )

  abbrev freed : Worker S → ℕ → Worker S
  freed k idx = record (put_slot k idx (record (slot k idx) { fd = negsuc 0 })) { count = idx }

  worker_remove-last :
      (k : Worker S) (idx : ℕ) → idx + 1 ≡ k.count → worker_remove k idx ≡ some (freed k idx)
  unfolding worker_remove
  worker_remove-last k idx e = ground arith

  freed-ready :
      (k : Worker S) (idx : ℕ)
      → IsValid k
      → idx + 1 ≡ k.count
      → slot (freed k idx) idx ≡ record (slot k idx) { fd = negsuc 0 }
  freed-ready k idx v e = get_or-set_self k.w idx _ blank (omega (arith, v))

  slot-worker_add :
      (k : Worker S) (fd : ℤ) (f : S → Option (Bool × S))
      → length k.w ≡ max_workers
      → k.count < max_workers
      → slot (worker_add k fd f).1 k.count ≡ record (slot k k.count) { fd = fd; func = f }
  unfolding worker_add
  slot-worker_add k fd f v h =
      ground
        (arith, get_or-set_self k.w k.count (record (slot k k.count) { fd = fd; func = f }) blank)

  -- The last worker of a valid table, removed while it is ready, leaves its mark behind: the
  -- worker added next in its slot is ready at once.
  worker_add_stale_ready :
      (k : Worker S) (idx : ℕ) (fd : ℤ) (f : S → Option (Bool × S))
      → IsValid k
      → idx + 1 ≡ k.count
      → (slot k idx).ready ≡ true
      → (k' : Worker S) × (worker_remove k idx ≡ some k')
        × (slot (worker_add k' fd f).1 idx ≡ record { fd = fd; func = f; ready = true })
  worker_add_stale_ready k idx fd f v e r = (
    freed k idx,
    worker_remove-last k idx e,
    slot-worker_add (freed k idx) fd f
          (omega (arith, v, length-set k.w idx (record (slot k idx) { fd = negsuc 0 })))
          (omega (arith, v))
        ∙ ap (λ x. record { fd = fd; func = f; ready = x })
            (ap (λ (x : Slot S). x.ready) (freed-ready k idx v e) ∙ r),
  )
