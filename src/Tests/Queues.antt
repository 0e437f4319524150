-- ===== src/Tests/Queues.antt =====
-- Runs of the error queue of src/scpi_error.c, the event table of src/event.c and the workers of
-- src/worker.c.
use cgr101_scpi.Prelude.{
  ℕ, suc, ◌≡◌, refl, Bool, true, false, Option, none, some, List, [], ◌∷◌, codes, replicate, take,
}
use cgr101_scpi.Prelude.Int.{pos}
use cgr101_scpi.ErrorQueue
use cgr101_scpi.ErrorQueue.{
  ErrQueue, Entry, ErrNum, hardware_error, undefined_header, data_out_of_range, queue_overflow,
  count, release, get, reset, slot,
}
use cgr101_scpi.ErrorQueue.Spec
use cgr101_scpi.ErrorQueue.Spec.{Call}
use cgr101_scpi.ErrorQueue.Invariant.{IsValid}
use cgr101_scpi.ErrorQueue.Raise.{view, init-IsValid, push-IsValid}
use cgr101_scpi.ErrorQueue.Refine.{run, run-init_refines}
use cgr101_scpi.ErrorQueue.Release.{syndromes, release-view}
use cgr101_scpi.Event
use cgr101_scpi.Event.{
  EventId, unblock, output_flush, event_code, event_send, event_add, event_handler, call,
}
use cgr101_scpi.Worker
use cgr101_scpi.Worker.{Worker, worker_add, worker_getfd, worker_remove, worker_run_ready}
use cgr101_scpi.Worker.Calls.{due, call_all, called, Served, worker_run_ready-due}

abbrev two_errors : List Call
two_errors =
    Call.raise hardware_error (some (codes "E1"))
    ∷ Call.raise undefined_header none
    ∷ Call.next
    ∷ Call.next
    ∷ Call.next
    ∷ []

run-init_refines_example : run ErrorQueue.init two_errors ≡ Spec.run Spec.empty two_errors
run-init_refines_example = run-init_refines two_errors

abbrev one_error : ErrQueue
one_error = ErrorQueue.push ErrorQueue.init hardware_error (some (codes "E1"))

one_error-IsValid : IsValid one_error
one_error-IsValid = push-IsValid hardware_error (some (codes "E1")) ErrorQueue.Raise.init-IsValid

release-view_example :
    release one_error
    ≡ some (syndromes (view one_error).items, record one_error { tail = one_error.head })
release-view_example = release-view one_error-IsValid

-- The state is the list of the events handled.
abbrev note : EventId → List ℕ → Option (List ℕ)
note id s = some (event_code id ∷ s)

abbrev no_slots : List (Event.Slot (List ℕ))
no_slots = []

abbrev one_slot : List (Event.Slot (List ℕ))
one_slot = record { event_id = unblock; func = note unblock } ∷ []

-- A worker that counts its calls.
abbrev tick : ℕ → Option (Bool × ℕ)
tick n = some (false, suc n)

abbrev two_workers : Worker ℕ
two_workers = record {
  count = 2;
  w =
      record { fd = pos 4; func = tick; ready = true }
      ∷ record { fd = pos 5; func = tick; ready = false }
      ∷ replicate 8 Worker.blank;
}

worker_run_ready-due_example :
    (called (worker_run_ready two_workers 0) ≡ call_all (due (take 2 two_workers.w)) 0)
    × Served two_workers (worker_run_ready two_workers 0)
worker_run_ready-due_example = worker_run_ready-due two_workers 0 (refl, (refl, tt))

abbrev no_workers : Worker ℕ
no_workers = record { count = 0; w = replicate 10 Worker.blank }

-- A worker that is ready.
abbrev busy : Worker ℕ
busy = record {
  count = 1;
  w = record { fd = pos 4; func = tick; ready = true } ∷ replicate 9 Worker.blank;
}
