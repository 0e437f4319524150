-- ===== src/Tests/Buffers.antt =====
-- Runs of the output buffer of src/scpi_output.c.
use cgr101_scpi.Prelude.{ℕ, ◌≡◌, false, List, [], ◌∷◌, codes, arith, replicate}
use cgr101_scpi.Output.{Output, Text, printf}
use cgr101_scpi.Output.Bounds.{IsValid, printf-IsValid}
use cgr101_scpi.Output.Response.{respond, response, elements, more_commands, respond-response}

abbrev answers : List (List Text)
answers = [] ∷ (codes "1" ∷ codes "2" ∷ []) ∷ []

respond-response_example :
    ((respond (codes "+1.5" ∷ []) answers).buf ≡ codes "+1.5;1,2")
    × ((respond (codes "+1.5" ∷ []) answers).overflow ≡ false)
unfolding response elements more_commands
respond-response_example = respond-response (codes "+1.5" ∷ []) answers (omega arith)

abbrev with_bytes : ℕ → Output
with_bytes n = record { need_sep = false; num_elem = 0; overflow = false; buf = replicate n b'x' }

printf-IsValid_example : IsValid (printf (with_bytes 3) (codes "%d") (codes "17")).1
printf-IsValid_example = printf-IsValid (with_bytes 3) (codes "%d") (codes "17") (omega arith)
