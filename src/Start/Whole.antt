-- ===== src/Start/Whole.antt =====
-- The whole program, from `init` of src/main.c to the end of the loop of src/server.c.
use cgr101_scpi.Prelude.{
  ℕ, ◌≡◌, refl, sym, Option-cases, inl, inr, Bool, true, false, Option, none, some, List, [], ◌∷◌,
  ◌++◌, map, replicate, arith,
}
use cgr101_scpi.Prelude.Int.{ℤ, pos, ltb_ℤ}
use cgr101_scpi.Prelude.Fault.{◌>>=◌}
use cgr101_scpi.Worker.{Slot, Worker, worker_add}
use cgr101_scpi.Worker
use cgr101_scpi.Worker.Calls.{AllOpen}
use cgr101_scpi.Event
use cgr101_scpi.Event.{event_add}
use cgr101_scpi.Event.Registry.{register, device_events, core_events}
use cgr101_scpi.Server.{Round, Status, ended, running, server_loop}
use cgr101_scpi.Server.Serve
use cgr101_scpi.Server.Serve.{AllReport, AllIdle, serve}
use cgr101_scpi.Server.Rounds.{seen, server_loop-serve}
use cgr101_scpi.Spawn.{Spawn, same_pid, spawn}
use cgr101_scpi.Start.{
  System, Handlers, Program, event_init, open_device, parser_init, core_init, server_run, init,
  result_of,
}

-- A system on which every call of the start succeeds, with its four pipes, and `fork` in the parent.
abbrev pub working : ℕ × ℕ → ℕ × ℕ → ℕ × ℕ → ℕ × ℕ → ℤ → System
working q i o e fork = record {
  event_pipe = some q;
  answers = record {
    pstdin = some i;
    pstdout = some o;
    pstderr = some e;
    cloexec = true;
    fork = fork;
    sigaction = false;
  };
  console_ok = true;
  scanner_fails = false;
}

module _ {S : Type 0} (h : Handlers S) where
  abbrev waiting : ℕ → (S → Option (Bool × S)) → Slot S
  waiting fd func = record { fd = pos fd; func = func; ready = false }

  -- The event pipe, the two outputs of the child, and the console.
  abbrev pub workers : ℕ × ℕ → ℕ × ℕ → ℕ × ℕ → List (Slot S)
  workers q o e =
      waiting q.0 h.event_handler
      ∷ waiting o.0 h.cgr101_out
      ∷ waiting e.0 h.cgr101_err
      ∷ waiting 0 h.cli_read
      ∷ []

  pub workers-AllOpen : (q o e : ℕ × ℕ) → AllOpen (workers q o e)
  workers-AllOpen q o e = ground arith

  pub workers-AllIdle : (q o e : ℕ × ℕ) → AllIdle (workers q o e)
  workers-AllIdle q o e = ground arith

  module _ (quit : S → Bool) (rs : List (Round × Serve.Event)) where
    -- `server_loop` on the program; no code sets a listening socket.
    abbrev pub loop : Program S → Option (Status × Program S)
    loop p = do
      (st, k, s) ← server_loop 0 quit (map (λ x. x.0) rs) p.worker p.state
      some (st, record p { worker = k; state = s })

    -- What `init` returns, the table of events, and the state of the handlers.
    abbrev pub Outcome : Type 0
    Outcome = Option Bool × List (Event.Slot S) × S

    abbrev pub outcome : Option (Option Bool × Program S) → Option Outcome
    outcome none = none
    outcome (some (r, p)) = some (r, p.events, p.state)

    -- A loop that has ended makes `init` return no error.
    abbrev pub returned : List (Event.Slot S) → Option (Status × S) → Option Outcome
    returned t none = none
    returned t (some (ended err, s)) = some (some false, t, s)
    returned t (some (running, s)) = some (none, t, s)

    -- The ten registrations.
    abbrev pub registered : List (Event.Slot S)
    registered =
        map (λ id. record { event_id = id; func = h.handler id }) (device_events ++ core_events)

    conclude :
        (p : Program S) (x : Option (Status × Worker S × S)) (y : Option (Status × S))
        → seen x ≡ y
        → outcome (do
          (rc, p₂) ← (do
            (st, p₁) ← (do (st, k, s) ← x; some (st, record p { worker = k; state = s }))
            some (result_of st, p₁))
          some (elim rc [ none ↦ none | some n ↦ some (ltb_ℤ n (pos 0)) ], p₂))
          ≡ returned p.events y
    conclude p none y e = rw (sym e) refl
    conclude p (some (ended true, k, s)) y e = rw (sym e) refl
    conclude p (some (ended false, k, s)) y e = rw (sym e) refl
    conclude p (some (running, k, s)) y e = rw (sym e) refl

    -- Where every call of the start succeeds, the program from `init` on, for any rounds of its loop
    -- in which `select` answers as its manual says: the ten events have their handlers; the device
    -- is set up once, before the loop; each round then calls the event pipe's worker, the two of the
    -- device and that of the console as far as they are ready (after a signal, all), in this order,
    -- up to the first that fails; and once the loop has ended, even in an error of a worker, `init`
    -- returns no error.
    pub init-serve :
        (q i o e : ℕ × ℕ) (fork : ℤ) (device_init : S → Option S) (state : S)
        → same_pid fork (pos 0) ≡ false
        → AllReport rs
        → outcome (init (working q i o e fork) h loop device_init state)
          ≡ (do s ← device_init state; returned registered (serve quit (workers q o e) rs s))
    unfolding init event_init open_device spawn server_run core_init parser_init register event_add
        worker_add Worker.init
    init-serve q i o e fork device_init state parent_side report =
        elim (Option-cases (device_init state)) [
          | inl none_left ↦ rw (parent_side, none_left) refl
          | inr (s, e₁) ↦
              let child_side : Spawn = record {
                stdin = i.1;
                stdout = o.0;
                stderr = e.0;
                pid = fork;
                status = 0;
              } in
              let p : Program S = record {
                worker = Worker.init;
                events = registered;
                eventq = q;
                spawned = some child_side;
                state = s;
              } in
              rw (parent_side, e₁)
                (conclude p _ _ (
                  server_loop-serve (workers q o e) (replicate 6 Worker.blank) 0 quit rs s report
                    (workers-AllOpen q o e) (workers-AllIdle q o e)))
        ]
