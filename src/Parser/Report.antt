-- ===== src/Parser/Report.antt =====
-- src/parser.c: what becomes of a line that does not parse: the message of the parser that bison
-- generates is kept until the line has ended, and then put in the error queue.
use cgr101_scpi.Prelude.{Bool, true, false, Option, none, some, [], ◌∷◌, ◌++◌, ◌==◌, if◌then◌else◌}
use cgr101_scpi.Prelude.Fault.{◌>>=◌}
use cgr101_scpi.ErrorQueue.{undefined_header, internal_parser_error}
use cgr101_scpi.Output.{Text}
use cgr101_scpi.Info.{Info}
use cgr101_scpi.Info.Actions.{raise}

-- `error` of `struct parser`, without the place, and `info->busy`.
pub record ParseError : Type 0 where
  pub valid : Bool
  pub msg : Option Text
  pub busy : Bool

-- `yyerror`
unfoldable pub yyerror : ParseError → Text → ParseError
yyerror e s = record { valid = true; msg = some s; busy = false }

-- `parser_error_get`: its `err` is none; otherwise the message, and the state.
unfoldable pub error_get : ParseError → Option (Option Text × ParseError)
error_get e = if e.valid then some (e.msg, record e { valid = false }) else none

-- The line up to its end.
unfoldable pub until_newline : Text → Text
until_newline [] = []
until_newline (c ∷ cs) = let rest = until_newline cs in if c == 10 then [] else c ∷ rest

abbrev pub appended : Text → Option Text → Text
appended s none = s
appended s (some m) = s ++ (b';' ∷ m)

module _ {F : Type 0} where
  -- `parser_error`: with an error of the parser itself, or with a line that it does not take and,
  -- where messages are traced, the message of the parser.
  unfoldable pub parser_error : Info F → Text → Bool → Option Text → Info F
  unfolding until_newline
  parser_error i buf err_in message =
      if err_in
      then raise i internal_parser_error none
      else raise i undefined_header (some (appended (until_newline buf) message))

  -- The end of `parser_send`, behind the parse of a line: `busy` and `err` are its results.
  unfoldable pub send_result :
      Info F → Text → Bool → Bool → ParseError → Option (Info F × ParseError)
  unfolding error_get parser_error
  send_result i buf trace err e =
      if e.busy
      then some (i, e)
      else if err
      then (do
        (message, e') ← error_get e
        some (parser_error i buf false (if trace then message else none), e'))
      else some (i, e)
