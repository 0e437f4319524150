-- ===== src/World/Replies.antt =====
-- From a line on the console to its response, through src/server.c, src/worker.c, src/event.c,
-- src/parser.c and src/scpi_output.c.
use cgr101_scpi.Prelude.{
  ℕ, ◌+◌, ◌≤◌, ◌<◌, ◌≡◌, ◌∙◌, refl, ap, Bool, false, Option, none, some, List, [], ◌∷◌, ◌++◌, arith,
  length, length-append,
}
use cgr101_scpi.Prelude.Fault.{◌>>=◌}
use cgr101_scpi.Event.{event_send, event_code, process_line, output_flush}
use cgr101_scpi.Event
use cgr101_scpi.Output.{Output, Text, flush, printf}
use cgr101_scpi.Parser.Line.{
  cli_len, load, parser_cli_line, parser_cli_read, parser_cli_read_worker, parser_process_line,
}
use cgr101_scpi.Parser.Line.Lines.{IsText, load-Holds, parser_cli_line-cut}
use cgr101_scpi.Device.DigitalEvent.{Clock}
use cgr101_scpi.Server.{Select, Round, running}
use cgr101_scpi.Server.Serve.{ready, serve}
use cgr101_scpi.World.{
  World, RunParser, parser_send, with_info, cli_read, event_handler, handler, parser_scpi_send,
  on_process_line, core_output_flush, sends, write,
}
use cgr101_scpi.Platform.{Platform}
use cgr101_scpi.World.Turns.{Apart, only, program, quits, serve_console, serve_event}

-- A response that fits is written with a newline behind it.
flush_lem :
    (o : Output)
    → o.need_sep ≡ false
    → 0 < length o.buf
    → length o.buf < 32766
    → (o' : Output) × (flush o ≡ some (some (o.buf ++ (10 ∷ [])), o')) × (o'.buf ≡ [])
unfolding flush printf
flush_lem o n some_left fits =
    (record o { num_elem = o.num_elem + 1; buf = [] }, ground arith, refl)

module _ {F : Type 0} where
  -- A world in which no line waits, the input is not blocked, no event is in the pipe and nothing
  -- has asked to quit, while a line has come to the console.
  abbrev pub before : Text → List Text → World F → World F
  before text more w = record w {
    info = record (w.info) { event = []; block_input = false; quit = false };
    line = record (w.line) { cli_line = none };
    block_until = false;
    console_reads = (text ++ (10 ∷ [])) ∷ more;
  }

  abbrev pub arrived : Text → List Text → World F → World F
  arrived text more w = record (before text more w) {
    line = record (w.line) {
      cli_buf = load w.line.cli_buf w.line.cli_offset (text ++ (10 ∷ []));
      cli_line = some w.line.cli_offset;
      cli_line_len = length (text ++ (10 ∷ []));
    };
    console_reads = more;
  }

  -- What the parser leaves: no event, and no wish to quit.
  abbrev pub parsed : World F → World F
  parsed w = record w { info = record (w.info) { event = []; quit = false } }

module _ (c : Platform) (now : Clock) where
  open c use {F}

  module _ (run_parser : RunParser F) (q o e : ℕ × ℕ) (a : Apart q o e) where
    abbrev with_event : List ℕ → World F → World F
    with_event p w = with_info w (record (w.info) { event = p })

    abbrev line_done : Text → List Text → World F → World F → World F
    line_done text more w w' = record (with_event (8 ∷ []) (parsed w')) {
      line = record ((arrived text more w).line) { cli_line = none; cli_line_len = 0 };
    }

    -- What the handler does with what the parser has left.
    abbrev sent : Text → List Text → World F → Option (World F) → Option (Bool × World F)
    sent text more w r = do
      w₂ ← (do
        w₁ ← (do w' ← r; sends output_flush w')
        some (record w₁ {
          line = record ((arrived text more w).line) { cli_line = none; cli_line_len = 0 };
        }))
      some (false, w₂)

    read_line :
        (b : ℕ) (bs : Text) (more : List Text) (w : World F)
        → cli_read (before (b ∷ bs) more w)
          ≡ some (false, with_event (9 ∷ []) (arrived (b ∷ bs) more w))
    unfolding cli_read parser_cli_read_worker parser_cli_read event_send
    read_line b bs more w = refl

    cut_line :
        (b : ℕ) (bs : Text) (more : List Text) (w : World F)
        → IsText (b ∷ bs)
        → w.line.cli_offset + length ((b ∷ bs) ++ (10 ∷ [])) ≤ cli_len
        → parser_cli_line (arrived (b ∷ bs) more w).line
          ≡ some (
            record { line = some (b ∷ bs); again = false },
            record ((arrived (b ∷ bs) more w).line) { cli_line = none; cli_line_len = 0 },
          )
    cut_line b bs more w t fits =
        parser_cli_line-cut (arrived (b ∷ bs) more w).line w.line.cli_offset (b ∷ bs) [] refl
          (omega (arith, length-append (b ∷ bs) (10 ∷ []))) fits t
          (load-Holds w.line.cli_buf w.line.cli_offset ((b ∷ bs) ++ (10 ∷ [])))
        ∙ ground arith

    process :
        (b : ℕ) (bs : Text) (more : List Text) (w w' : World F)
        → IsText (b ∷ bs)
        → w.line.cli_offset + length ((b ∷ bs) ++ (10 ∷ [])) ≤ cli_len
        → parser_send c now run_parser (b ∷ bs) (arrived (b ∷ bs) more w) ≡ some (parsed w')
        → event_handler c now run_parser (with_event (9 ∷ []) (arrived (b ∷ bs) more w))
          ≡ some (false, line_done (b ∷ bs) more w w')
    unfolding event_handler Event.event_handler Event.find handler on_process_line
        parser_process_line parser_scpi_send event_send
    process b bs more w w' t fits parse =
        rw (cut_line b bs more w t fits) (ap (sent (b ∷ bs) more w) parse)

    abbrev flushed : Text → List Text → World F → World F → Output → World F
    flushed text more w w' out = record (line_done text more w w') {
      info = record ((parsed w').info) { output = out };
      printed = w'.printed ++ ((w'.info.output.buf ++ (10 ∷ [])) ∷ []);
    }

    abbrev written :
        Text
        → List Text
        → World F
        → World F
        → Option (Option Text × Output)
        → Option (Bool × World F)
    written text more w w' r = do
      w₂ ← (do
        (t, o) ← r
        some (
            write t (
              with_info (with_event [] (line_done text more w w'))
                (record ((parsed w').info) { output = o }))))
      some (false, w₂)

    write_response :
        (text : Text) (more : List Text) (w w' : World F) (out : Output)
        → flush w'.info.output ≡ some (some (w'.info.output.buf ++ (10 ∷ [])), out)
        → event_handler c now run_parser (line_done text more w w')
          ≡ some (false, flushed text more w w' out)
    unfolding event_handler Event.event_handler Event.find handler core_output_flush
    write_response text more w w' out f = ap (written text more w w') f

    abbrev round : Select → Round
    round select = record { server_exit = false; select = select }

    -- A line with at least one byte, no NUL, that fits in the buffer with its newline, comes to the
    -- console while nothing else waits: the console is ready in one round of the loop, and the event
    -- pipe in the next two. Where `parser_send` runs the line to an end, and leaves no event, no
    -- wish to quit, and a response that fits, with no separator due behind it: those rounds hand the
    -- line to the parser, and write its response with one newline to the console; the response
    -- buffer and the pipe are then empty, and the loop goes on.
    pub line_answered :
        (b : ℕ) (bs : Text) (more : List Text) (w w' : World F) (s₁ s₂ s₃ : Select)
        → IsText (b ∷ bs)
        → w.line.cli_offset + length ((b ∷ bs) ++ (10 ∷ [])) ≤ cli_len
        → parser_send c now run_parser (b ∷ bs) (arrived (b ∷ bs) more w) ≡ some (parsed w')
        → w'.info.output.need_sep ≡ false
        → 0 < length w'.info.output.buf
        → length w'.info.output.buf < 32766
        → (w₃ : World F) × (serve
              (quits c now run_parser q o e a)
              (program c now run_parser q o e a)
              ((round s₁, ready (only 0))
                ∷ (round s₂, ready (only q.0))
                ∷ (round s₃, ready (only q.0))
                ∷ [])
              (before (b ∷ bs) more w)
            ≡ some (running, w₃))
          × (w₃.printed ≡ w'.printed ++ ((w'.info.output.buf ++ (10 ∷ [])) ∷ []))
          × (w₃.info.output.buf ≡ [])
          × (w₃.info.event ≡ [])
    unfolding serve
    line_answered b bs more w w' s₁ s₂ s₃ t fits parse sep some_left room =
        let (out, f, empty) = flush_lem w'.info.output sep some_left room in
        (
          flushed (b ∷ bs) more w w' out,
          serve_console c now run_parser q o e a (round s₁)
                ((round s₂, ready (only q.0)) ∷ (round s₃, ready (only q.0)) ∷ [])
                (before (b ∷ bs) more w) _ refl refl (read_line b bs more w)
              ∙ serve_event c now run_parser q o e a (round s₂) ((round s₃, ready (only q.0)) ∷ [])
                  _ _ refl refl (process b bs more w w' t fits parse)
              ∙ serve_event c now run_parser q o e a (round s₃) [] _ _ refl refl
                  (write_response (b ∷ bs) more w w' out f),
          refl,
          empty,
          refl,
        )
