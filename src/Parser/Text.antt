-- ===== src/Parser/Text.antt =====
-- src/parser.c: the texts, numbers and places of tokens. The actions of src/scanner.l call these
-- functions with the text of a token, which is a list of its bytes without the final NUL. `strtol`
-- and `sscanf` of the C library are parameters.
pub mod Quoted
pub mod Pool
use cgr101_scpi.Prelude.{
  ℕ, ◌+◌, Bool, true, false, not, Option, none, some, List, [], ◌∷◌, ◌++◌, ltb, leb, ◌==◌,
  if◌then◌else◌, length,
}
use cgr101_scpi.Prelude.Int.{ℤ}
use cgr101_scpi.Prelude.Fault.{◌>>=◌, ◌>>◌, require}
use cgr101_scpi.Output.{Text}
use cgr101_scpi.Input.{Value, ScpiType, int, float, str}

-- `YYLTYPE`
pub record Location : Type 0 where
  pub first_line : ℕ
  pub first_column : ℕ
  pub last_line : ℕ
  pub last_column : ℕ

-- `parser_update_location`
unfoldable pub update_location : Location → ℕ → Location
update_location loc len = record {
  first_line = loc.last_line;
  first_column = loc.last_column + 1;
  last_line = loc.last_line;
  last_column = loc.last_column + 1 + len;
}

-- `parser_blank`
unfoldable pub parser_blank : Text → Location → Location
unfolding update_location
parser_blank s loc = update_location loc (length s)

abbrev is_newline : Text → Bool
is_newline (c ∷ []) = c == 10
is_newline _ = false

-- `parser_eol`
unfoldable pub parser_eol : Text → Location → Option Location
parser_eol s loc = do
  require (is_newline s)
  some (record {
    first_line = loc.last_line + 1;
    first_column = 0;
    last_line = loc.last_line + 1;
    last_column = 0;
  })

-- `struct parser_strpool_s`: the texts in the pool, and the room of its array.
pub record Strpool : Type 0 where
  pub pool : List Text
  pub max : ℕ

-- `STRPOOL_CHUNK` and `DSTR_CHUNK`
abbrev pub strpool_chunk : ℕ
strpool_chunk = 256

abbrev pub dstr_chunk : ℕ
dstr_chunk = 256

-- An array grows by a chunk once it is full.
abbrev pub grown : ℕ → ℕ → ℕ → ℕ
grown max len chunk = if leb max len then max + chunk else max

-- `parser_strpool_add`; the copy of the text has the bytes of the text.
unfoldable pub strpool_add : Strpool → Text → Option Strpool
strpool_add p s = do
  let max = grown p.max (length p.pool) strpool_chunk
  require (ltb (length p.pool) max)
  some (record { pool = p.pool ++ (s ∷ []); max = max })

-- `parser_cleanup`
unfoldable pub parser_cleanup : Strpool → Strpool
parser_cleanup p = record { pool = []; max = 0 }

-- `struct scpi_type_dstr`: the bytes stored so far, and the room of the array, which is not
-- allocated while that is 0.
pub record Dstr : Type 0 where
  pub text : Text
  pub max : ℕ

-- `parser_dstr_new`
unfoldable pub dstr_new : Dstr
dstr_new = record { text = []; max = 0 }

-- `parser_dstr_add`: the byte, and a NUL behind it. A write past the array is a fault.
unfoldable pub dstr_add : Dstr → ℕ → Option Dstr
dstr_add d c = do
  require (not (c == 0))
  let max = grown d.max (length d.text) dstr_chunk
  require (ltb (length d.text) max)
  require (ltb (length d.text + 1) max)
  some (record { text = d.text ++ (c ∷ []); max = max })

-- `parser_dstr_quote`: two quotes stand for one.
unfoldable pub dstr_quote : Dstr → ℕ → ℕ → Option Dstr
unfolding dstr_add
dstr_quote d c c' = do require (not (c == 0)); require (c == c'); dstr_add d c'

-- `parser_dstr`: the value and the pool. `strdup` of an array that was not allocated is a fault.
unfoldable pub dstr_end : {F : Type 0} → Dstr → Strpool → Option (ScpiType F × Strpool)
unfolding strpool_add
dstr_end d p = do
  require (ltb 0 d.max)
  p' ← strpool_add p d.text
  some (record { val = str; src = d.text }, p')

-- `parser_ident` and `parser_punct`: the value and the pool.
unfoldable pub parser_ident : {F : Type 0} → Text → Strpool → Option (ScpiType F × Strpool)
unfolding strpool_add
parser_ident s p = do p' ← strpool_add p s; some (record { val = str; src = s }, p')

-- `parser_squeeze`: what it writes before the NUL.
unfoldable pub squeeze : Text → Text
squeeze [] = []
squeeze (c ∷ cs) = let rest = squeeze cs in if c == b' ' then rest else c ∷ rest

module _ {F : Type 0} (strtol : Text → ℤ) (sscanf : Text → F) where
  -- `parser_int`
  unfoldable pub parser_int : Text → ScpiType F
  parser_int s = record { val = int (strtol s); src = s }

  -- `parser_float`, whose buffer has 32 bytes.
  unfoldable pub parser_float : Text → Option (ScpiType F)
  unfolding squeeze
  parser_float s = do
    require (ltb (length (squeeze s)) 32)
    some (record { val = float (sscanf (squeeze s)); src = s })
