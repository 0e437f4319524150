-- ===== src/Output.antt =====
-- src/scpi_output.c: the response buffer. `buf` is the part of the array in use, its first `len`
-- bytes: no code reads further. A format and its arguments come as the format's text and the text
-- that `vsnprintf` makes of them, which is a function of those; `vsnprintf` itself is taken to
-- succeed.
pub mod Bounds
pub mod Response
use cgr101_scpi.Prelude.{
  ℕ, ◌+◌, ◌-◌, ◌%◌, ◌^◌, Bool, true, false, not, Option, none, some, List, [], ◌∷◌, ◌++◌, ltb, ◌==◌,
  if◌then◌else◌, ◌&&◌, length, take, codes,
}
use cgr101_scpi.Prelude.Fault.{◌>>=◌, ◌>>◌, require}

abbrev pub Text : Type 0
Text = List ℕ

abbrev pub output_size : ℕ
output_size = 32768

-- `struct scpi_output`
pub record Output : Type 0 where
  pub need_sep : Bool
  pub num_elem : ℕ
  pub overflow : Bool
  pub buf : Text

-- `scpi_output_init`, and `scpi_output_clear` after its `memset`.
abbrev pub cleared : Output
cleared = record { need_sep = false; num_elem = 0; overflow = false; buf = [] }

-- `OUTPUT_SIZE - output->len - 1`, on size_t.
abbrev pub room : Output → ℕ
room o = (output_size + 2 ^ 64 - length o.buf - 1) % 2 ^ 64

-- `scpi_output_append_char`: what it returns, and the output.
unfoldable pub append_char : Output → ℕ → ℕ × Output
append_char o c =
    if ltb 1 (room o)
    then (room o - 1, record o { buf = o.buf ++ (c ∷ []) })
    else (room o, record o { overflow = true })

-- The bytes below the new `len` after `vsnprintf(buf + len, current, …)` and `len += actual`, for
-- `actual <= current`: where the text needs the last place, its NUL stands there.
abbrev pub printed : ℕ → Text → Text
printed current text =
    if ltb (length text) current
    then text
    else if current == 0
    then []
    else take (current - 1) text ++ (0 ∷ [])

-- The pending separator.
abbrev pub separate : Output → ℕ × Output
separate o =
    if o.need_sep
    then (let (current, o') = append_char o b';' in
        (current, record o' { need_sep = false; num_elem = 0 }))
    else (room o, o)

abbrev pub is_newline : Text → Bool
is_newline [] = false
is_newline (c ∷ cs) = c == 10

-- The comma between two elements of one command.
abbrev pub punctuate : Text → ℕ × Output → ℕ × Output
punctuate format (current, o) =
    if ltb 0 o.num_elem && not (is_newline format) then append_char o b',' else (current, o)

-- The `vsnprintf` and what follows it; the flag is the `err` that is returned.
abbrev pub emit : Text → ℕ × Output → Bool × Output
emit text (current, o) =
    if ltb current (length text)
    then (true, record o { overflow = true; num_elem = o.num_elem + 1 })
    else (false, record o { buf = o.buf ++ printed current text; num_elem = o.num_elem + 1 })

-- `scpi_output_printf`
unfoldable pub printf : Output → Text → Text → Bool × Output
unfolding append_char
printf o format text = emit text (punctuate format (separate o))

-- `scpi_output_str`, and by their formats `scpi_output_int` and `scpi_output_fp`: the format is not
-- a newline, and the text is that of the argument.
unfoldable pub put : Output → Text → Bool × Output
unfolding printf
put o text = printf o (codes "%s") text

-- `scpi_output_cmd_sep`
unfoldable pub cmd_sep : Output → Output
cmd_sep o = record o { need_sep = true }

-- `scpi_output_clear`
unfoldable pub clear : Output → Output
clear o = cleared

-- `scpi_output_reset`
unfoldable pub reset : Output → Output
reset o = record o { buf = [] }

-- `scpi_output_flush`: the bytes handed to `write`, if any; `none` is its failed assertion. That
-- `write` itself does not fail is assumed.
unfoldable pub flush : Output → Option (Option Text × Output)
unfolding printf
flush o = if length o.buf == 0 then some (none, o) else (do
  let (err, o') = printf o (10 ∷ []) (10 ∷ [])
  require (not err)
  some (some o'.buf, record o' { buf = [] }))
