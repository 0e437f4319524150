-- ===== src/Tests/Parsing.antt =====
-- Runs of the replay of the header path and of the line splitting of src/parser.c.
use cgr101_scpi.Prelude.{
  ℕ, ◌≡◌, ◌++◌, ◌+◌, ◌==◌, leb, length, if◌then◌else◌, refl, Bool, true, false, Option, none, some,
  List, [], ◌∷◌, arith,
}
use cgr101_scpi.Parser.Prefix.{Parser, lex, replay_reset, loop, no_prefix}
use cgr101_scpi.Prelude.Fault.{◌>>=◌}
use cgr101_scpi.Parser.Prefix.Actions.{Act, adds, separates, push}
use cgr101_scpi.Parser.Prefix.Replay.{path_from, replay_path, replay_no_path}
use cgr101_scpi.Parser.Line.{Line, Effect, init, nothing, parser_cli_read, parser_cli_line, drain}
use cgr101_scpi.Parser.Line.Lines.{read-drain}
use cgr101_scpi.Parser.Line.Leftover.{leftover_lost}

-- A parser of `A:B:` and one more word in the tokens 5, 1, 6, 1: its state counts the tokens, each
-- word of the path is added to it, any other ends the command, and a semicolon separates.
abbrev header_parser : ℕ → ℕ → Option (Bool × ℕ × List Act)
header_parser g t =
    if t == 0
    then some (false, g + 1, [])
    else if t == 1
    then some (true, g + 1, [])
    else if t == 2
    then some (true, g + 1, separates true ∷ [])
    else some (true, g + 1, adds t ∷ [])

-- Behind the semicolon of `A:B:C;`, with the tokens 5 and 6 and a colon of 1.
abbrev after_semicolon : Parser
after_semicolon = record {
  separator = true;
  prefix_length = 4;
  prefix = 5 ∷ 1 ∷ 6 ∷ 1 ∷ 0 ∷ 0 ∷ 0 ∷ 0 ∷ 0 ∷ 0 ∷ [];
  active = false;
  idx = 0;
}

replay_path_example : loop 1 (push 1 header_parser) 6 lex 0 (7 ∷ []) after_semicolon 0 ≡ (do
  (more, g'', p') ← push 1 header_parser 4 7 (replay_reset after_semicolon)
  elim more [
    | true ↦ loop 1 (push 1 header_parser) 1 lex 7 [] p' g''
    | false ↦ some (true, g'', p')
  ])
unfolding path_from
replay_path_example =
    replay_path 1 header_parser 1 3 0 7 [] after_semicolon 0 4 refl refl refl refl
      (omega arith, (omega arith, (omega arith, (omega arith, tt))))
      (1, adds 5 ∷ [], refl, tt, (2, [], refl, tt, (3, adds 6 ∷ [], refl, tt, refl))) (omega arith)

-- Behind the semicolon of `*CLS;`.
abbrev after_common : Parser
after_common = record {
  separator = true;
  prefix_length = 0;
  prefix = no_prefix;
  active = false;
  idx = 0;
}

replay_no_path_example : loop 1 (push 1 header_parser) 3 lex 0 (7 ∷ []) after_common 0 ≡ none
replay_no_path_example =
    replay_no_path 1 (push 1 header_parser) 2 0 7 [] after_common 0 refl refl (omega arith)

-- The lines that are sent are noted, and the input is blocked behind five of them.
abbrev enough : List (List ℕ) → Bool
enough w = leb 5 (length w)

abbrev note : List ℕ → List (List ℕ) → Option (List (List ℕ))
note l w = some (w ++ (l ∷ []))

read-drain_example :
    (s' s'' : Line) × (parser_cli_read (65 ∷ 10 ∷ 10 ∷ []) init
      ≡ some (record { line = none; again = true }, s'))
    × (drain enough note 2 s' [] ≡ some (s'', (65 ∷ []) ∷ []))
    × (s''.cli_line ≡ none)
read-drain_example =
    read-drain enough note ([] ∷ []) (65 ∷ []) init [] ((65 ∷ []) ∷ []) refl
      ((omega arith, omega arith, tt), (tt, tt)) (omega arith)
      (refl, (65 ∷ []) ∷ [], refl, (refl, (65 ∷ []) ∷ [], refl, refl))

leftover_lost_example :
    (s₁ s₂ s₃ s₄ : Line) × (e : Effect) × (parser_cli_read (65 ∷ []) init
      ≡ some (record { line = none; again = true }, s₁))
    × (parser_cli_line s₁ ≡ some (nothing, s₂))
    × (parser_cli_read (66 ∷ 10 ∷ []) s₂ ≡ some (e, s₃))
    × (parser_cli_line s₃ ≡ some (record { line = some (66 ∷ []); again = false }, s₄))
    × (s₄.cli_line ≡ none)
leftover_lost_example =
    leftover_lost (65 ∷ []) (66 ∷ []) init (omega arith, omega arith, tt)
      (omega arith, omega arith, tt) (omega arith) (omega arith) (omega arith) (omega arith)
