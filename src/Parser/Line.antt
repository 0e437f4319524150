-- ===== src/Parser/Line.antt =====
-- src/parser.c: splitting the console input into lines. `cli_buf` is a function from index to byte,
-- and a `char *` into it an index; a scan that leaves the array faults. What `read` returns is an
-- argument.
pub mod Lines
pub mod Leftover
use cgr101_scpi.Prelude.{
  ℕ, zero, suc, ◌+◌, ◌-◌, ◌%◌, ◌^◌, Bool, true, false, not, Option, none, some, List, [], ◌∷◌, ltb,
  leb, ◌==◌, if◌then◌else◌, length,
}
use cgr101_scpi.Prelude.Fault.{◌>>=◌, ◌>>◌, require}

abbrev pub cli_len : ℕ
cli_len = 16384

abbrev pub Memory : Type 0
Memory = ℕ → ℕ

-- The input fields of `struct info`.
pub record Line : Type 0 where
  pub cli_offset : ℕ
  pub cli_buf : Memory
  pub cli_line : Option ℕ
  pub cli_line_len : ℕ

abbrev pub init : Line
init = record { cli_offset = 0; cli_buf = λ i. 0; cli_line = none; cli_line_len = 0 }

-- The `n` bytes from index `p` on.
unfoldable pub slice : Memory → ℕ → ℕ → List ℕ
slice m p zero = []
slice m p (suc n) = m p ∷ slice m (p + 1) n

-- `memset(buf + p, 0, …)` up to the end of the array, and then the bytes read.
unfoldable pub load : Memory → ℕ → List ℕ → Memory
load m p [] i = if leb p i then 0 else m i
load m p (b ∷ bs) i = if i == p then b else load m (p + 1) bs i

-- What `strchr(s, '\n')` finds: the distance to the newline, none if a NUL comes first, and a fault
-- where it runs off the array.
pub data Scan : Type 0 where
  found : ℕ → Scan
  absent beyond : Scan

abbrev further : Scan → Scan
further (found n) = found (suc n)
further s = s

unfoldable pub strchr : ℕ → Memory → ℕ → Scan
strchr zero m p = beyond
strchr (suc left) m p =
    let rest = further (strchr left m (p + 1)) in
    if m p == 10 then found 0 else if m p == 0 then absent else rest

-- What a call does outside the buffer: the line that `parser_scpi_send` gets, if any, and whether
-- EVENT_PROCESS_LINE is sent.
pub record Effect : Type 0 where
  pub line : Option (List ℕ)
  pub again : Bool

abbrev pub nothing : Effect
nothing = record { line = none; again = false }

-- `memmove(info->cli_buf, info->cli_line, info->cli_line_len)`
abbrev pub move_down : Memory → ℕ → ℕ → Memory
move_down m p n i = if ltb i n then m (p + i) else m i

-- `parser_cli_line` where a newline is found `llen` bytes on.
abbrev pub cut : Line → ℕ → ℕ → Option (Effect × Line)
cut s p llen = do
  require (ltb llen cli_len)
  let sent = if llen == 0 then none else some (slice s.cli_buf p llen)
  let left = (s.cli_line_len + 2 ^ 64 - (llen + 1)) % 2 ^ 64
  some (
    record { line = sent; again = not (left == 0) },
    record s { cli_line = (if left == 0 then none else some (p + llen + 1)); cli_line_len = left },
  )

-- Its two other branches: the end of input, and a line that is not complete.
abbrev pub keep : Line → ℕ → Option (Effect × Line)
keep s p =
    if s.cli_buf p == 0
    then some (record { line = some (slice s.cli_buf p s.cli_line_len); again = false }, s)
    else (do
      require (ltb s.cli_line_len cli_len)
      some (
        nothing,
        record {
          cli_offset = s.cli_line_len;
          cli_buf = move_down s.cli_buf p s.cli_line_len;
          cli_line = none;
          cli_line_len = 0;
        },
      ))

abbrev pub choose : Scan → Line → ℕ → Option (Effect × Line)
choose (found n) s p = cut s p n
choose absent s p = keep s p
choose beyond s p = none

abbrev pub at_line : Option ℕ → Line → Option (Effect × Line)
at_line none s = none
at_line (some p) s = do
  require (ltb 0 s.cli_line_len)
  choose (strchr (cli_len - p) s.cli_buf p) s p

-- `parser_cli_line`; `none` is a failed assertion or a scan off the array.
unfoldable pub parser_cli_line : Line → Option (Effect × Line)
parser_cli_line s = at_line s.cli_line s

-- `parser_process_line`; `blocked` is `parser_input_blocked`.
unfoldable pub parser_process_line : Bool → Line → Option (Effect × Line)
unfolding parser_cli_line
parser_process_line blocked s = elim s.cli_line [
  | none ↦ some (nothing, s)
  | some p ↦ if blocked then some (record { line = none; again = true }, s) else parser_cli_line s
]

-- `parser_cli_read` where `read` returned these bytes, none at the end of input.
unfoldable pub parser_cli_read : List ℕ → Line → Option (Effect × Line)
parser_cli_read bytes s =
    let m = load s.cli_buf s.cli_offset bytes in
    let s' = record s { cli_buf = m; cli_line = some s.cli_offset } in
    elim bytes [
      | [] ↦ (do
        require (m s.cli_offset == 0)
        require (m (s.cli_offset + 1) == 0)
        some (record { line = none; again = true }, record s' { cli_line_len = 1 }))
      | b ∷ bs ↦
          some (record { line = none; again = true }, record s' { cli_line_len = length (b ∷ bs) })
    ]

-- `parser_cli_read_worker`
unfoldable pub parser_cli_read_worker : Bool → List ℕ → Line → Option (Effect × Line)
unfolding parser_cli_read
parser_cli_read_worker blocked bytes s = elim s.cli_line [
  | some p ↦ some (nothing, s)
  | none ↦ if blocked then some (nothing, s) else parser_cli_read bytes s
]

module _ {S : Type 0} (blocked : S → Bool) (scpi_send : List ℕ → S → Option S) where
  abbrev pub send_any : Option (List ℕ) → S → Option S
  send_any none w = some w
  send_any (some l) w = scpi_send l w

  -- EVENT_PROCESS_LINE handled as often as its handler sends it again. `S` is the rest of the
  -- program: `blocked` is `parser_input_blocked` of it, and `scpi_send` is `parser_scpi_send`. `none`
  -- is a fault, or the fuel ran out.
  unfoldable pub drain : ℕ → Line → S → Option (Line × S)
  unfolding parser_process_line
  drain zero s w = none
  drain (suc fuel) s w = do
    (e, s') ← parser_process_line (blocked w) s
    w' ← send_any e.line w
    elim e.again [ true ↦ drain fuel s' w' | false ↦ some (s', w') ]
