-- ===== src/World/Signals.antt =====
-- src/server.c: a signal that interrupts `select`, such as the alarm of the sleep command or the
-- end of a child process.
use cgr101_scpi.Prelude.{ℕ, ◌≡◌, false, sym, ◌∙◌, map, Option, none, List, [], ◌∷◌}
use cgr101_scpi.Worker.Calls.{call_all}
use cgr101_scpi.Event
use cgr101_scpi.Device.DigitalEvent.{Clock}
use cgr101_scpi.Server.{Round, Select, Status, server_loop}
use cgr101_scpi.Server.Serve
use cgr101_scpi.Server.Serve.{ready, signal, serve, chosen, table, Reports, AllReport}
use cgr101_scpi.World.{World, RunParser, event_handler, handlers}
use cgr101_scpi.World.Turns.{Apart, program, quits}
use cgr101_scpi.Server.Rounds.{seen, server_loop-serve}
use cgr101_scpi.Start.Whole.{workers-AllOpen, workers-AllIdle}
use cgr101_scpi.Worker.{Slot}
use cgr101_scpi.Platform.{Platform}

-- A round of the loop with this `select`.
abbrev pub round : Select → Round
round select = record { server_exit = false; select = select }

-- A world in which no event is in the pipe, and nothing has asked to quit.
abbrev pub waiting : {F : Type 0} → World F → World F
waiting w = record w { info = record (w.info) { event = []; quit = false } }

module _ (c : Platform) (now : Clock) where
  open c use {F}

  module _ (run_parser : RunParser F) (q o e : ℕ × ℕ) (a : Apart q o e) where
    -- The loop of the server on the program, from a table with its four workers.
    abbrev pub loops : List (Slot (World F)) → List Round → World F → Option (Status × World F)
    loops after rs w = seen (
        server_loop 0 (quits c now run_parser q o e a) rs
          (table (program c now run_parser q o e a) after) w)

    -- While the program waits with an empty event pipe, for any rounds that follow in which `select`
    -- answers as its manual says: a round in which no descriptor is ready changes nothing, but one
    -- in which a signal interrupts `select` has no result: the set is read although `select` has not
    -- changed it, all workers are called, the first of them reads the event pipe, and nobody is left
    -- to write to it.
    pub signal_stuck :
        (after : List (Slot (World F))) (idle interrupts : Select) (rs : List (Round × Serve.Event))
        (w : World F)
        → Reports idle (ready (λ fd. false))
        → Reports interrupts signal
        → AllReport rs
        → (loops after (round idle ∷ map (λ x. x.0) rs) (waiting w)
            ≡ loops after (map (λ x. x.0) rs) (waiting w))
          × (loops after (round interrupts ∷ map (λ x. x.0) rs) (waiting w) ≡ none)
    unfolding serve chosen call_all event_handler Event.event_handler
    signal_stuck after idle interrupts rs w i j all =
        let agree = λ (ts : List (Round × Serve.Event)) (h : AllReport ts).
          server_loop-serve (program c now run_parser q o e a) after 0
            (quits c now run_parser q o e a) ts (waiting w) h
            (workers-AllOpen (handlers c now run_parser) q o e)
            (workers-AllIdle (handlers c now run_parser) q o e) in
        (
          agree ((round idle, ready (λ fd. false)) ∷ rs) (i, all) ∙ sym (agree rs all),
          agree ((round interrupts, signal) ∷ rs) (j, all),
        )
