-- ===== src/Parser/Send.antt =====
-- src/parser.c: one line on its way through the generated scanner and parser, and the end of the
-- input. `loop` is `parser_loop` on the state of the parser and on `struct info`; whether
-- `yy_scan_bytes` and `yypstate_new` fail are arguments.
use cgr101_scpi.Prelude.{
  ℕ, ◌-◌, Bool, true, false, not, Option, none, some, [], ◌∷◌, ltb, ◌==◌, ◌||◌, ◌&&◌, if◌then◌else◌,
}
use cgr101_scpi.Prelude.Int.{ℤ}
use cgr101_scpi.Prelude.Fault.{◌>>=◌, ◌>>◌, require}
use cgr101_scpi.Info.{Info}
use cgr101_scpi.Input.{ScpiType}
use cgr101_scpi.Output
use cgr101_scpi.Output.{Text}
use cgr101_scpi.Parser.Prefix.{Parser, parser_separator}
use cgr101_scpi.Parser.Report.{ParseError, send_result}
use cgr101_scpi.Parser.Text.{parser_int, parser_float}

-- The depth of the stack of inputs, the header path, and the error with `info->busy`.
pub record Sender : Type 0 where
  pub incl_depth : ℕ
  pub header : Parser
  pub error : ParseError

-- The start of a line that is not the rest of a command.
abbrev pub start_line : Sender → Sender
start_line s = if s.error.busy then s else record s {
  header = (parser_separator s.header false).1;
  error = record (s.error) { busy = true };
}

abbrev pub first_input : Sender → Sender
first_input s = record s { incl_depth = if s.incl_depth == 0 then 1 else s.incl_depth }

-- `S` is the state of the program, in which `struct info` is found and set.
module _ {F S : Type 0} (info : S → Info F) (with_info : S → Info F → S)
    (loop : Text → Sender → S → Option (Sender × S)) where
  -- `parser_send_line`: its `err`, and the states.
  unfoldable pub parser_send_line : Bool → Bool → Text → Sender → S → Option (Bool × Sender × S)
  parser_send_line scan_fails new_fails text s w =
      let s₁ = first_input s in
      if scan_fails || (not s₁.error.busy && new_fails)
      then some (true, s₁, w)
      else (do (s₂, w') ← loop text (start_line s₁) w; some (s₂.error.valid, s₂, w'))

  -- `parser_send`
  unfoldable pub parser_send : Bool → Bool → Bool → Text → Sender → S → Option (Sender × S)
  unfolding parser_send_line
  parser_send trace scan_fails new_fails text s w = do
    let i = info w
    let w₀ = with_info w (record i { output = Output.clear i.output })
    (err, s', w₁) ← parser_send_line scan_fails new_fails text s w₀
    (i₂, e) ← send_result (info w₁) text trace err s'.error
    some (record s' { error = e }, with_info w₁ i₂)

-- The token is the NUL behind the line.
abbrev is_nul : Text → Bool
is_nul [] = true
is_nul (c ∷ cs) = c == 0

-- `parser_eof`: at the bottom of the stack the program is asked to quit. The buffer of the scanner
-- is left out.
unfoldable pub parser_eof : {F : Type 0} → Text → Sender → Info F → Option (Sender × Info F)
parser_eof s p i = do
  require (is_nul s)
  require (ltb 0 p.incl_depth)
  let depth = p.incl_depth - 1
  some (record p { incl_depth = depth }, if depth == 0 then record i { quit = true } else i)

-- The tokens of numbers.
pub data NumToken : Type 0 where
  num float other : NumToken

-- `parser_num`
unfoldable pub parser_num :
    {F : Type 0} → (Text → ℤ) → (Text → F) → Text → NumToken → Option (ScpiType F)
parser_num strtol sscanf s num = some (parser_int strtol sscanf s)
parser_num strtol sscanf s float = parser_float strtol sscanf s
parser_num strtol sscanf s other = none
