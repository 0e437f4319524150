-- ===== src/World.antt =====
-- The program as one state: `struct info` with the buffer of the console, the reads that are still
-- to come, and what has been written to the console. The four workers and the ten handlers of
-- events are the functions of the components. The run of the generated parser over a line is a
-- parameter. A read that finds nothing waits: it has no result.

pub mod Turns
pub mod Replies
pub mod Signals
use cgr101_scpi.Prelude.{
  ℕ, Bool, true, false, not, Option, none, some, List, [], ◌∷◌, ◌++◌, map, ◌||◌, if◌then◌else◌,
}
use cgr101_scpi.Prelude.Int.{ℤ}
use cgr101_scpi.Prelude.Fault.{◌>>=◌}
use cgr101_scpi.Event
use cgr101_scpi.Event.{
  EventId, Pipe, event_send, identify_complete, identify_output, digital_read_complete,
  digital_read_output, scope_status_complete, scope_status_output, scope_offset_start, process_line,
  unblock, output_flush,
}
use cgr101_scpi.Event.Registry.{device_events, core_events}
use cgr101_scpi.Info.{Info}
use cgr101_scpi.Output
use cgr101_scpi.Output.{Text}
use cgr101_scpi.Parser.Line
use cgr101_scpi.Parser.Line.{Line, Effect, parser_process_line, parser_cli_read_worker}
use cgr101_scpi.Parser.Send
use cgr101_scpi.Parser.Send.{Sender}
use cgr101_scpi.Core
use cgr101_scpi.Device.Completion
use cgr101_scpi.Device.DigitalEvent.{Clock}
use cgr101_scpi.Device.Receive
use cgr101_scpi.Platform.{Platform}
use cgr101_scpi.Start
use cgr101_scpi.Start.{Handlers}

-- `info`, the input fields of it, `parser_block_until_active`, the state of the parser with its flag
-- `trace_yyerror`, the reads to come from the device,
-- from its error channel and from the console, and the responses written to the console.
pub record World (F : Type 0) : Type 0 where
  pub info : Info F
  pub line : Line
  pub block_until : Bool
  pub sender : Sender
  pub trace : Bool
  pub device_reads : List (Option Text)
  pub error_reads : List ℤ
  pub console_reads : List Text
  pub printed : List Text

-- `parser_loop` on a line, with the scanner, the parser that bison generates, and the actions of the
-- grammar, which may change all of the program.
abbrev pub RunParser : Type 0 → Type 0
RunParser F = Text → Sender → World F → Option (Sender × World F)

module _ {F : Type 0} where
  abbrev pub with_info : World F → Info F → World F
  with_info w i = record w { info = i }

  -- A handler of the driver.
  abbrev pub on_info : (Info F → Option (Info F)) → World F → Option (World F)
  on_info f w = do i ← f w.info; some (with_info w i)

  abbrev pub sends : EventId → World F → Option (World F)
  sends id w = do p ← event_send w.info.event id; some (with_info w (record (w.info) { event = p }))

  -- `parser_input_blocked`
  abbrev pub input_blocked : World F → Bool
  input_blocked w = w.block_until || w.info.block_input

  abbrev pub again : Bool → World F → Option (World F)
  again true w = sends process_line w
  again false w = some w

  abbrev pub write : Option Text → World F → World F
  write none w = w
  write (some t) w = record w { printed = w.printed ++ (t ∷ []) }

  -- `scpi_core_output_flush`
  unfoldable pub core_output_flush : World F → Option (World F)
  core_output_flush w = do
    (t, o) ← Output.flush w.info.output
    some (write t (with_info w (record (w.info) { output = o })))

  -- `parser_cli_read_worker`, which returns no error here.
  abbrev pub read_console : List Text → World F → Option (Bool × World F)
  read_console [] w = none
  read_console (bytes ∷ more) w = do
    (e, line) ← parser_cli_read_worker (input_blocked w) bytes w.line
    w' ← again e.again (record w { line = line; console_reads = more })
    some (false, w')

  unfoldable pub cli_read : World F → Option (Bool × World F)
  cli_read w = elim w.line.cli_line [
    | some p ↦ some (false, w)
    | none ↦ if input_blocked w then some (false, w) else read_console w.console_reads w
  ]

  abbrev pub read_errors : List ℤ → World F → Option (Bool × World F)
  read_errors [] w = none
  read_errors (n ∷ more) w = do
    err ← Start.cgr101_err n
    some (err, record w { error_reads = more })

module _ (c : Platform) (now : Clock) where
  open c use {F}

  abbrev pub read_device : List (Option Text) → World F → Option (Bool × World F)
  read_device [] w = none
  read_device (bytes ∷ more) w = do
    i ← Receive.cgr101_out c now bytes w.info
    some (false, record w { info = i; device_reads = more })

  module _ (run_parser : RunParser F) where
    -- `parser_send`; the line is copied for the scanner, and a parser is made, which both succeed.
    unfoldable pub parser_send : Text → World F → Option (World F)
    unfolding Send.parser_send
    parser_send text w = do
      (s, w') ←
          Send.parser_send (λ w. w.info) with_info run_parser w.trace false false text w.sender w
      some (record w' { sender = s })

    -- `parser_scpi_send`; the error of the line is in the queue.
    unfoldable pub parser_scpi_send : Text → World F → Option (World F)
    unfolding parser_send
    parser_scpi_send text w = do w' ← parser_send text w; sends output_flush w'

    abbrev pub send_line : Option Text → World F → Option (World F)
    send_line none w = some w
    send_line (some text) w = parser_scpi_send text w

    -- `parser_process_line`
    unfoldable pub on_process_line : World F → Option (World F)
    unfolding parser_scpi_send
    on_process_line w = do
      (e, line) ← parser_process_line (input_blocked w) w.line
      w₁ ← send_line e.line w
      again e.again (record w₁ { line = line })

    -- The handlers that are registered.
    unfoldable pub handler : EventId → World F → Option (World F)
    unfolding on_process_line core_output_flush
    handler identify_complete = on_info Completion.identify_completion
    handler identify_output = on_info λ i. Completion.identify_handler i.device.identify_state i
    handler digital_read_complete = on_info λ i. some (Completion.digital_read_completion i)
    handler digital_read_output =
        on_info λ i. Completion.digital_read_handler c i.device.digital_read_state i
    handler scope_status_complete = on_info Completion.scope_status_completion
    handler scope_status_output =
        on_info λ i. Completion.scope_status_handler c i.device.scope.status_state i
    handler scope_offset_start = on_info Completion.scope_offset_request
    handler process_line = on_process_line
    handler unblock = on_info (Core.unblock_input c)
    handler output_flush = core_output_flush

    -- The table of events that the start leaves.
    abbrev pub table : List (Event.Slot (World F))
    table = map (λ id. record { event_id = id; func = handler id }) (device_events ++ core_events)

    -- The pipe without the byte that is read.
    abbrev pub rest_of_pipe : World F → Pipe → World F
    rest_of_pipe w p = with_info w (record (w.info) { event = p })

    unfoldable pub event_handler : World F → Option (Bool × World F)
    unfolding handler
    event_handler w = Event.event_handler table w.info.event (rest_of_pipe w)

    -- The functions of the program, as the start gets them.
    abbrev pub handlers : Handlers (World F)
    handlers = record {
      event_handler = event_handler;
      cgr101_out = λ w. read_device w.device_reads w;
      cgr101_err = λ w. read_errors w.error_reads w;
      cli_read = cli_read;
      handler = handler;
    }
