-- ===== src/Worker.antt =====
-- src/worker.c: the workers that the server loop calls when their descriptor is ready. `w` is the
-- whole array of ten slots, also past `count`. A worker's function changes a state `S`, and returns
-- whether it failed; none is a failed assertion.
pub mod Calls
pub mod Slots
use cgr101_scpi.Prelude.{
  ℕ, ◌+◌, ◌-◌, Bool, true, false, Option, none, some, List, [], ◌∷◌, ◌++◌, ltb, ◌==◌, if◌then◌else◌,
  get_or, set, take, drop, replicate,
}
use cgr101_scpi.Prelude.Int.{ℤ, pos, negsuc, leb_ℤ}
use cgr101_scpi.Prelude.Fault.{◌>>=◌, ◌>>◌, require}

abbrev pub max_workers : ℕ
max_workers = 10

-- An element of `w[]`.
pub record Slot (S : Type 0) : Type 0 where
  pub fd : ℤ
  pub func : S → Option (Bool × S)
  pub ready : Bool

-- `struct worker`
pub record Worker (S : Type 0) : Type 0 where
  pub count : ℕ
  pub w : List (Slot S)

module _ {S : Type 0} where
  -- A slot as `calloc` leaves it; its NULL function is never called.
  abbrev pub blank : Slot S
  blank = record { fd = pos 0; func = λ s. none; ready = false }

  -- `worker_init`
  unfoldable pub init : Worker S
  init = record { count = 0; w = replicate max_workers blank }

  abbrev pub slot : Worker S → ℕ → Slot S
  slot k i = get_or k.w i blank

  abbrev pub put_slot : Worker S → ℕ → Slot S → Worker S
  put_slot k i x = record k { w = set k.w i x }

  -- `worker_add`: the `err` that it returns. It leaves `ready` as it finds it.
  unfoldable pub worker_add : Worker S → ℤ → (S → Option (Bool × S)) → Bool × Worker S
  worker_add k fd func =
      if ltb k.count max_workers
      then (
        false,
        record (put_slot k k.count (record (slot k k.count) { fd = fd; func = func })) {
          count = k.count + 1;
        },
      )
      else (true, k)

  -- `assert(idx >= 0 && idx < worker->count)`, then `assert(fd >= 0)`.
  abbrev pub require_open : Worker S → ℕ → Option (Unit {0})
  require_open k idx = do require (ltb idx k.count); require (leb_ℤ (pos 0) (slot k idx).fd)

  -- `worker_getfd`
  unfoldable pub worker_getfd : Worker S → ℕ → Option ℤ
  worker_getfd k idx = do require_open k idx; some (slot k idx).fd

  -- `worker_ready`
  unfoldable pub worker_ready : Worker S → ℕ → Option (Worker S)
  worker_ready k idx = do
    require_open k idx
    some (put_slot k idx (record (slot k idx) { ready = true }))

  -- `worker_remove`
  unfoldable pub worker_remove : Worker S → ℕ → Option (Worker S)
  worker_remove k idx = do
    require (ltb idx k.count)
    let k' = put_slot k idx (record (slot k idx) { fd = negsuc 0 })
    some (if idx == k.count - 1 then record k' { count = k.count - 1 } else k')

  -- The loop of `worker_run_ready`, with `worker_call`, over the slots in use: the `err` at its
  -- end, the slots and the state. It stops at the first function that fails.
  unfoldable pub run_slots : List (Slot S) → S → Option (Bool × List (Slot S) × S)
  run_slots [] s = some (false, [], s)
  run_slots (x ∷ xs) s = elim x.ready [
    | false ↦ (do (err, xs', s') ← run_slots xs s; some (err, x ∷ xs', s'))
    | true ↦ (do
      require (leb_ℤ (pos 0) x.fd)
      (err, s') ← x.func s
      let x' = record x { ready = false }
      elim err [
        | true ↦ some (true, x' ∷ xs, s')
        | false ↦ (do (err', xs', s'') ← run_slots xs s'; some (err', x' ∷ xs', s''))
      ])
  ]

  -- `worker_run_ready`
  unfoldable pub worker_run_ready : Worker S → S → Option (Bool × Worker S × S)
  worker_run_ready k s = do
    (err, xs, s') ← run_slots (take k.count k.w) s
    some (err, record k { w = xs ++ drop k.count k.w }, s')
