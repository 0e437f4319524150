-- ===== src/Tests/Tokens.antt =====
-- Runs of the texts of src/parser.c and of the number lists of src/scpi_core.c.
use cgr101_scpi.Prelude.{◌≡◌, some, [], ◌∷◌, true, false, arith}
use cgr101_scpi.Prelude.Int.{ℤ, pos}
use cgr101_scpi.Input.{ScpiType, input_fp_block}
use cgr101_scpi.Core.Numbers.{nrf_all}
use cgr101_scpi.Core.Numbers.Block.{number, numbers, nrf_all-block}
use cgr101_scpi.Parser.Text.Quoted.{byte, quote, quoted, read, quoted-read}

-- A text with two quotes for one.
quoted-read_example :
    quoted {F = ℤ} (byte b'a' ∷ quote b'"' ∷ []) (record { pool = []; max = 0 })
    ≡ some (read (b'a' ∷ b'"' ∷ []) (record { pool = []; max = 0 }))
quoted-read_example =
    quoted-read {F = ℤ} (byte b'a' ∷ quote b'"' ∷ []) (record { pool = []; max = 0 })
      (omega arith, (omega arith, tt)) (omega arith)

nrf_all-block_example :
    (v : ScpiType ℤ) × (nrf_all false false
        (number (pos 1, []))
        (numbers ((pos 2, []) ∷ (pos 3, []) ∷ []))
      ≡ some (v, true))
    × (input_fp_block v ≡ some (pos 1 ∷ pos 2 ∷ pos 3 ∷ []))
nrf_all-block_example = nrf_all-block false (pos 1, []) (pos 2, []) ((pos 3, []) ∷ []) (omega arith)
