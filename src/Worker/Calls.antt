-- ===== src/Worker/Calls.antt =====
-- src/worker.c: `worker_run_ready` against the list of functions that are due.
use cgr101_scpi.Prelude.{
  ◌≡◌, refl, Bool, true, false, some, none, List, [], ◌∷◌, ◌++◌, arith, Option, if◌then◌else◌, take,
  drop, map, Option-cases, inl, inr,
}
use cgr101_scpi.Prelude.Int.{pos, leb_ℤ}
use cgr101_scpi.Prelude.Fault.{◌>>=◌}
use cgr101_scpi.Worker.{Slot, Worker, run_slots, worker_run_ready}

module _ {S : Type 0} where
  -- The functions of the ready slots, in the order of the slots.
  unfoldable pub due : List (Slot S) → List (S → Option (Bool × S))
  due [] = []
  due (x ∷ xs) = if x.ready then x.func ∷ due xs else due xs

  -- Functions called in turn, up to the first that fails.
  unfoldable pub call_all : List (S → Option (Bool × S)) → S → Option (Bool × S)
  call_all [] s = some (false, s)
  call_all (f ∷ fs) s = do
    (err, s') ← f s
    elim err [ true ↦ some (true, s') | false ↦ call_all fs s' ]

  -- Every slot that is ready has a descriptor.
  abbrev pub AllOpen : List (Slot S) → Type 0
  AllOpen [] = Unit
  AllOpen (x ∷ xs) = (leb_ℤ (pos 0) x.fd ≡ true) × AllOpen xs

  abbrev pub idle : Slot S → Slot S
  idle x = record x { ready = false }

  abbrev outcome : Option (Bool × List (Slot S) × S) → Option (Bool × S)
  outcome none = none
  outcome (some (err, xs, s)) = some (err, s)

  -- The `err` and the state of a run.
  abbrev pub called : Option (Bool × Worker S × S) → Option (Bool × S)
  called none = none
  called (some (err, k, s)) = some (err, s)

  abbrev pub Served : Worker S → Option (Bool × Worker S × S) → Type 0
  Served k none = Unit
  Served k (some (true, k', s)) = Unit
  Served k (some (false, k', s)) =
      k' ≡ record k { w = map idle (take k.count k.w) ++ drop k.count k.w }

  run_slots-due :
      (xs : List (Slot S)) (s : S) → AllOpen xs → outcome (run_slots xs s) ≡ call_all (due xs) s
  unfolding run_slots due call_all
  run_slots-due [] s h = refl
  run_slots-due (x ∷ xs) s h = elim (Option-cases (x.func s)) [
    | inl e ↦ ground (arith, run_slots-due xs s h.1)
    | inr (r, e) ↦ ground (arith, run_slots-due xs s h.1, run_slots-due xs r.1 h.1)
  ]

  abbrev Idled : List (Slot S) → Option (Bool × List (Slot S) × S) → Type 0
  Idled xs none = Unit
  Idled xs (some (true, xs', s)) = Unit
  Idled xs (some (false, xs', s)) = xs' ≡ map idle xs

  run_slots-Idled : (xs : List (Slot S)) (s : S) → Idled xs (run_slots xs s)
  unfolding run_slots
  run_slots-Idled [] s = refl
  run_slots-Idled (x ∷ xs) s = elim (Option-cases (x.func s)) [
    | inl e ↦ ground (arith, run_slots-Idled xs s)
    | inr (r, e) ↦ ground (arith, run_slots-Idled xs s, run_slots-Idled xs r.1)
  ]

  -- Where every worker in use has a descriptor, `worker_run_ready` calls the functions of the ready
  -- workers, each once and in the order of their slots, up to the first that fails; if none fails,
  -- no worker in use is ready afterwards and nothing else of the table has changed.
  pub worker_run_ready-due :
      (k : Worker S) (s : S)
      → AllOpen (take k.count k.w)
      → (called (worker_run_ready k s) ≡ call_all (due (take k.count k.w)) s)
        × Served k (worker_run_ready k s)
  unfolding worker_run_ready
  worker_run_ready-due k s h =
      ground (arith, run_slots-due (take k.count k.w) s h, run_slots-Idled (take k.count k.w) s)
