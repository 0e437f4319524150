-- ===== src/Lib.antt =====
-- A verification library for cgr101-scpi, a SCPI server for the CircuitGear CGR-101 instrument.
--
-- The program reads command lines from a console or a socket, parses them with a generated parser,
-- and runs the commands on a device that is a child process: it writes short commands to the
-- device, and handles the device's answers one byte at a time. Completions travel through a pipe of
-- events, which a worker reads; one loop calls the workers whose descriptors are ready.
--
--   ErrorQueue      src/scpi_error.c    `struct scpi_errq` is ErrQueue; scpi_error is push,
--                                       scpi_error_get is get, scpi_error_done is release
--   Output          src/scpi_output.c   the response buffer; scpi_output_printf is printf
--   Event           src/event.c         the table of handlers and the pipe; Event/Registry has the
--                                       registrations of src/cgr101.c, src/parser.c, src/scpi_core.c
--   Worker          src/worker.c        the table of workers and its scheduling round
--   Server          src/server.c        select, the rounds of the loop, and the workers that are due
--   Spawn           src/spawn.c         the child process
--   Start           src/main.c          init, with event_init, cgr101_open, scpi_core_init and
--                                       server_run; Options, the command line
--   World           (all of them)       one state for the program: its workers and the handlers of
--                                       its events
--   Parser/Prefix   src/parser.c        the header path and its replay, parser_loop; Actions, what the
--                                       actions of the grammar do to the path
--   Parser/Line     src/parser.c        reads from the console, cut into lines
--   Parser/Text     src/parser.c        texts in quotes, the pool of texts, numbers and places
--   Parser/Report   src/parser.c        the report of a line that does not parse
--   Parser/Send     src/parser.c        a line on its way to the generated parser
--   Scanner         src/scanner.l       Keywords and Rules, the rules of each start condition; Pattern
--                                       and Rule, what a rule matches and which rule flex applies;
--                                       Yylex, one call of the scanner; Words, the mnemonics
--   Input           src/scpi_input.c    checked command parameters
--   Info            src/info.h          `struct info` with `struct scpi_core` and `struct cgr101`;
--                                       Info/Actions has the effects that handlers share
--   Core            src/scpi_core.c     status registers, common commands, blocked input; Numbers, the
--                                       lists of numbers; Commands, *RST and the sleep command
--   Channels        src/scpi_dev.c      channel lists as masks
--   ErrorAnalysis   src/cea.c           the program that checks the conversions of data and voltages
--   Commands        src/scpi_dev.c      the commands of the grammar on the device: their parameters
--                                       and the calls of the driver; Commands/Settings has the
--                                       commands that set something as data, with *RST and ABORt,
--                                       and runs of them;
--                                       Commands/Query has the queries of settings, and lines of
--                                       them
--   Device          src/cgr101.c        DigitalEvent, Convert and Capture; Handlers and Receive, the
--                                       receive state machine; Completion, the requests and the
--                                       handlers of their events; Abort; Settings and Trigger, what
--                                       the scope is set to; Waveform and Pwm, the outputs
--   Platform        the C library and double arithmetic, a parameter of what uses them
--   Prelude         lists, integers, machine words and faults
--   Tests           concrete runs
--
-- A function keeps its C name without the prefix of its file. State is passed explicitly. A failed
-- assertion, a jump through NULL and an access outside an array give `none`; an error code that a
-- function returns is a Bool that is true for an error, or an Option. A char is its unsigned value,
-- an int that is used as a flag a Bool, and the unsigned arithmetic that can wrap is written with
-- its modulus. Memory allocation, writes to pipes and gettimeofday succeed; the write to the device
-- may fail.
--
-- Fuel: ErrorQueue.release gives its loop one round for each of the 32 slots and one to stop, since
-- each round moves the tail one slot nearer to the head. Parser/Prefix.loop is on fuel because the
-- generated parser decides when it ends; a replay takes one round for each token of the path and one
-- for the token behind it. Parser/Line.drain handles as many line events as its
-- caller allows: each line takes one. The scan of strchr is bounded by the array, and running
-- off it is a fault. The loop of a channel range has 65 rounds: a bit has left a long by then. The
-- loop over the sweep times is structural on the 16 divisors that are left.
-- The loop of the server gets a list of rounds: it returns when it ends, and stands as running when
-- they are used up. A read that finds nothing waits, which is no result.
--
-- A call of the scanner has one round for each byte and one to stop, since every rule that is applied
-- takes a byte. How flex applies the rules is taken from its manual: the longest match, the first
-- rule of those that match as much, and one byte at a time where none matches.
--
-- Not modelled: the grammar in src/scpi.y, which bison compiles (the parser it makes is a parameter);
-- what select, fork, waitpid and getopt do (they are parameters); server_listen, which
-- no code calls; what closes and frees at the end; the flags for tracing; what src/cea.c prints.
pub mod Prelude
pub mod ErrorQueue
pub mod Output
pub mod Event
pub mod Worker
pub mod Scanner
pub mod Server
pub mod Spawn
pub mod Start
pub mod World
pub mod Parser
pub mod Platform
pub mod Info
pub mod Device
pub mod ErrorAnalysis
pub mod Input
pub mod Core
pub mod Commands
pub mod Channels
pub mod Tests
