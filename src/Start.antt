-- ===== src/Start.antt =====
-- The start of the program: src/event.c `event_init`, src/cgr101.c `cgr101_open`, src/parser.c
-- `parser_init`, src/scpi_core.c `scpi_core_init`, src/server.c `server_run` and src/main.c. What
-- the operating system answers is an argument. `S` is what the handlers work on; the workers'
-- functions and the events' handlers are arguments too.

pub mod Options
pub mod Whole
use cgr101_scpi.Prelude.{ℕ, Bool, true, false, not, Option, none, some, List, [], if◌then◌else◌}
use cgr101_scpi.Prelude.Int.{ℤ, pos, ltb_ℤ}
use cgr101_scpi.Prelude.Fault.{◌>>=◌, ◌>>◌, require}
use cgr101_scpi.Event.{EventId, event_add, process_line, unblock, output_flush}
use cgr101_scpi.Event
use cgr101_scpi.Event.Registry.{device_events, register}
use cgr101_scpi.Server.{Status, ended, running}
use cgr101_scpi.Spawn.{Spawn, Answers, child, parent, spawn}
use cgr101_scpi.Worker.{Worker, worker_add}
use cgr101_scpi.Worker

-- What the operating system and the generated scanner answer during the start: the event pipe, the
-- answers for `spawn`, the two `ioctl` of the console, and whether `yylex_init_extra` fails.
pub record System : Type 0 where
  pub event_pipe : Option (ℕ × ℕ)
  pub answers : Answers
  pub console_ok : Bool
  pub scanner_fails : Bool

-- The functions of the workers, and the handlers of the events.
pub record Handlers (S : Type 0) : Type 0 where
  pub event_handler : S → Option (Bool × S)
  pub cgr101_out : S → Option (Bool × S)
  pub cgr101_err : S → Option (Bool × S)
  pub cli_read : S → Option (Bool × S)
  pub handler : EventId → S → Option S

-- The tables that the start fills, and the rest of the state.
pub record Program (S : Type 0) : Type 0 where
  pub worker : Worker S
  pub events : List (Event.Slot S)
  pub eventq : ℕ × ℕ
  pub spawned : Option Spawn
  pub state : S

-- `cgr101_err`, where `read` returns that length; what is read is thrown away.
unfoldable pub cgr101_err : ℤ → Option Bool
cgr101_err len = do require (ltb_ℤ (pos 0) len); require (not (ltb_ℤ (pos 1024) len)); some false

-- The value of `rc` of `server_run` behind its loop, none while that goes on.
abbrev pub result_of : Status → Option ℤ
result_of (ended true) = some (pos 1)
result_of (ended false) = some (pos 0)
result_of running = none

module _ {S : Type 0} (sys : System) (h : Handlers S) where
  -- `event_init`: its pipe and the workers.
  unfoldable pub event_init : Worker S → Option ((ℕ × ℕ) × Worker S)
  event_init k = do
    eventq ← sys.event_pipe
    let (err, k') = worker_add k (pos eventq.0) h.event_handler
    require (not err)
    some (eventq, k')

  -- `cgr101_open` behind `spawn`. `init` is `cgr101_device_init`.
  abbrev pub open_child : (S → Option S) → Spawn → Program S → Option (Bool × Program S)
  open_child init s p =
      let (err₁, k₁) = worker_add p.worker (pos s.stdout) h.cgr101_out in
      let (err₂, k₂) = worker_add k₁ (pos s.stderr) h.cgr101_err in
      if err₁
      then some (true, record p { worker = k₁; spawned = some s })
      else if err₂
      then some (true, record p { worker = k₂; spawned = some s })
      else (do
        events ← register h.handler device_events p.events
        state ← init p.state
        some (
          false,
          record {
            worker = k₂;
            events = events;
            eventq = p.eventq;
            spawned = some s;
            state = state;
          },
        ))

  -- `cgr101_open`: its `err` and the program. The child process does not come back from `spawn`.
  unfoldable pub open_device : (S → Option S) → Program S → Option (Bool × Program S)
  open_device init p = do
    forked ← spawn false sys.answers
    elim forked [
      | child ↦ none
      | parent err s ↦
          if err then some (true, record p { spawned = some s }) else open_child init s p
    ]

  -- `parser_init`, without the flags for tracing.
  unfoldable pub parser_init : Program S → Option (Bool × Program S)
  parser_init p = if sys.scanner_fails then some (true, p) else (do
    require sys.console_ok
    let (err, k) = worker_add p.worker (pos 0) h.cli_read
    let (err', events) = event_add p.events process_line (h.handler process_line)
    (if err
        then some (true, record p { worker = k })
        else (do require (not err'); some (false, record p { worker = k; events = events }))))

  -- `scpi_core_init` behind `parser_init`.
  abbrev pub add_core : Bool × Program S → Option (Bool × Program S)
  add_core (true, p) = some (true, p)
  add_core (false, p) =
      let (err, events) = event_add p.events unblock (h.handler unblock) in
      let (err', events') = event_add events output_flush (h.handler output_flush) in
      if err
      then some (true, record p { events = events })
      else (do require (not err'); some (false, record p { events = events' }))

  -- `scpi_core_init`
  unfoldable pub core_init : Program S → Option (Bool × Program S)
  unfolding parser_init
  core_init p = do r ← parser_init p; add_core r

  module _ (loop : Program S → Option (Status × Program S)) where
    abbrev pub run_loop : Bool × Program S → Option (Option ℤ × Program S)
    run_loop (true, p) = some (some (pos 1), p)
    run_loop (false, p) = do (st, p') ← loop p; some (result_of st, p')

    -- `server_run`: what it returns, `rc < 0`, none while its loop goes on.
    unfoldable pub server_run : Program S → Option (Option Bool × Program S)
    unfolding core_init
    server_run p = do
      r ← core_init p
      (rc, p') ← run_loop r
      some (elim rc [ none ↦ none | some n ↦ some (ltb_ℤ n (pos 0)) ], p')

    abbrev pub blank : S → ℕ × ℕ → Worker S → Program S
    blank state eventq k = record {
      worker = k;
      events = [];
      eventq = eventq;
      spawned = none;
      state = state;
    }

    abbrev pub after_open : Bool × Program S → Option (Option Bool × Program S)
    after_open (true, p) = some (some true, p)
    after_open (false, p) = server_run p

    -- `init` of src/main.c: whether it returns an error, none while the loop of the server goes on.
    -- That of `done` behind it changes nothing of this.
    unfoldable pub init : (S → Option S) → S → Option (Option Bool × Program S)
    unfolding event_init open_device server_run
    init device_init state = do
      (eventq, k) ← event_init Worker.init
      r ← open_device device_init (blank state eventq k)
      after_open r
