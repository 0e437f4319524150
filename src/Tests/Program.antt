-- ===== src/Tests/Program.antt =====
-- Runs of the start, the loop and the child process: src/main.c, src/server.c and src/spawn.c.
use cgr101_scpi.Prelude.{
  ℕ, ◌≡◌, ◌++◌, ◌&&◌, ltb, refl, true, false, Bool, Option, none, some, List, [], ◌∷◌, codes, arith,
}
use cgr101_scpi.Prelude.Int.{pos, negsuc, ℤ}
use cgr101_scpi.Event.{event_code}
use cgr101_scpi.Output.{cleared}
use cgr101_scpi.Parser.Line
use cgr101_scpi.Parser.Send.{Sender, start_line, first_input}
use cgr101_scpi.Parser.Prefix.{no_prefix}
use cgr101_scpi.Parser.Report
use cgr101_scpi.Server.{FdSet, Select, Round, answered, interrupted, running}
use cgr101_scpi.Server.Serve
use cgr101_scpi.Server.Serve.{ready, signal, serve, chosen}
use cgr101_scpi.Worker.Calls.{call_all}
use cgr101_scpi.Spawn.{Spawn, Answers, parent, spawn, unspawn, sigchld, kill, close}
use cgr101_scpi.Spawn.Ends.{collected, unspawn-sigchld, spawn_fork_fails}
use cgr101_scpi.Start.{Handlers, init}
use cgr101_scpi.Start.Whole.{working, loop, outcome, registered, init-serve}
use cgr101_scpi.World.{World, RunParser, parser_send}
use cgr101_scpi.World.Turns.{Apart, only, quits, program}
use cgr101_scpi.World.Replies.{before, arrived, line_answered}
use cgr101_scpi.World.Signals.{loops, round, waiting, signal_stuck}
use cgr101_scpi.Tests.Fixed.{fixed, fresh}
use cgr101_scpi.Tests.State.{noon}

-- The state is the list of what was called.
abbrev calls : ℕ → List ℕ → Option (Bool × List ℕ)
calls n s = some (false, s ++ (n ∷ []))

abbrev noted : Handlers (List ℕ)
noted = record {
  event_handler = calls 1;
  cgr101_out = calls 2;
  cgr101_err = calls 3;
  cli_read = λ s. some (true, s ++ (4 ∷ []));
  handler = λ id s. some (event_code id ∷ s);
}

abbrev told : FdSet → Round
told r = record {
  server_exit = false;
  select = λ n fds. answered (λ fd. ltb fd n && (fds fd && r fd));
}

abbrev never : List ℕ → Bool
never s = false

-- The device speaks, and then the console is read with an error.
abbrev turns : List (Round × Serve.Event)
turns = (told (only 7), ready (only 7)) ∷ (told (only 0), ready (only 0)) ∷ []

init-serve_example :
    outcome noted never turns (
      init
        (working (3, 4) (5, 6) (7, 8) (9, 10) (pos 99))
        noted
        (loop noted never turns)
        (λ s. some (0 ∷ s))
        [])
    ≡ some (some false, registered noted never turns, 0 ∷ 2 ∷ 4 ∷ [])
unfolding serve chosen call_all
init-serve_example =
    init-serve noted never turns (3, 4) (5, 6) (7, 8) (9, 10) (pos 99) (λ s. some (0 ∷ s)) [] refl
      ((λ n fds. refl), ((λ n fds. refl), tt))

abbrev idle_world : World ℤ
idle_world = record {
  info = record fresh { output = cleared };
  line = Line.init;
  block_until = false;
  sender = record {
    incl_depth = 0;
    header = record {
      separator = false;
      prefix_length = 0;
      prefix = no_prefix;
      active = false;
      idx = 0;
    };
    error = record { valid = false; msg = none; busy = false };
  };
  trace = false;
  device_reads = [];
  error_reads = [];
  console_reads = [];
  printed = [];
}

-- A parser that answers 1 to every line, and ends it.
abbrev one : World ℤ → World ℤ
one w = record w { info = record (w.info) { output = record cleared { buf = codes "1" } } }

abbrev over : Sender → Sender
over s = record s { error = record (s.error) { busy = false } }

abbrev answers_one : RunParser ℤ
answers_one text s w = some (over s, one w)

abbrev after_one : World ℤ → World ℤ
after_one w = record (one w) { sender = over (start_line (first_input w.sender)) }

apart : Apart (3, 4) (7, 8) (9, 10)
apart = record {
  q_console = refl;
  o_console = refl;
  e_console = refl;
  o_q = refl;
  e_q = refl;
  console_q = refl;
}

abbrev quiet : Select
quiet n fds = answered fds

abbrev calm : Round
calm = record { server_exit = false; select = quiet }

-- The line `*TST?`, whose first byte is a star.
line_answered_example :
    (w : World ℤ) × (serve
        (quits fixed noon answers_one (3, 4) (7, 8) (9, 10) apart)
        (program fixed noon answers_one (3, 4) (7, 8) (9, 10) apart)
        ((calm, ready (only 0)) ∷ (calm, ready (only 3)) ∷ (calm, ready (only 3)) ∷ [])
        (before (codes "*TST?") [] idle_world)
      ≡ some (running, w))
    × (w.printed ≡ (codes "1" ++ (10 ∷ [])) ∷ [])
    × (w.info.output.buf ≡ [])
    × (w.info.event ≡ [])
unfolding parser_send Report.send_result
line_answered_example =
    line_answered fixed noon answers_one (3, 4) (7, 8) (9, 10) apart b'*' (codes "TST?") []
      idle_world (after_one (arrived (codes "*TST?") [] idle_world)) quiet quiet quiet
      (ground arith) (omega arith) refl refl (omega arith) (omega arith)

abbrev stopped : Select
stopped n fds = interrupted

abbrev answers : Select
answers n fds = answered (λ fd. ltb fd n && (fds fd && false))

signal_stuck_example :
    (loops fixed noon answers_one
        (3, 4)
        (7, 8)
        (9, 10)
        apart
        []
        (round answers ∷ [])
        (waiting idle_world)
      ≡ loops fixed noon answers_one (3, 4) (7, 8) (9, 10) apart [] [] (waiting idle_world))
    × (loops fixed noon answers_one
          (3, 4)
          (7, 8)
          (9, 10)
          apart
          []
          (round stopped ∷ [])
          (waiting idle_world)
        ≡ none)
signal_stuck_example =
    signal_stuck fixed noon answers_one (3, 4) (7, 8) (9, 10) apart [] answers stopped [] idle_world
      (λ n fds. refl) (λ n fds. refl) tt

abbrev running_child : Spawn
running_child = record { stdin = 6; stdout = 7; stderr = 9; pid = pos 99; status = 0 }

unspawn-sigchld_example : unspawn (sigchld ((pos 50, 0) ∷ (pos 99, 1) ∷ []) running_child) ≡ []
unfolding collected
unspawn-sigchld_example = unspawn-sigchld ((pos 50, 0) ∷ (pos 99, 1) ∷ []) running_child

abbrev no_process : Answers
no_process = record {
  pstdin = some (5, 6);
  pstdout = some (7, 8);
  pstderr = some (9, 10);
  cloexec = true;
  fork = negsuc 0;
  sigaction = false;
}

spawn_fork_fails_example :
    (s : Spawn) × (spawn false no_process ≡ some (parent false s))
    × (unspawn s ≡ kill (negsuc 0) ∷ close 6 ∷ close 7 ∷ close 9 ∷ [])
spawn_fork_fails_example =
    spawn_fork_fails no_process (5, 6) (7, 8) (9, 10) refl refl refl refl refl
