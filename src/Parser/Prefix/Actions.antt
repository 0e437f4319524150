-- ===== src/Parser/Prefix/Actions.antt =====
-- src/scpi.y, src/scpi_core.c: the actions of the grammar that change the header path, and the
-- generated parser with them: `parse` takes a token from a state of the parser to whether it asks
-- for more, its state, and the actions that it runs meanwhile.
use cgr101_scpi.Prelude.{ℕ, Bool, Option, some, List, [], ◌∷◌}
use cgr101_scpi.Prelude.Fault.{◌>>=◌}
use cgr101_scpi.Parser.Prefix.{Parser, add_prefix, parser_separator}

-- `scpi_core_add_prefix` with a token, and `scpi_core_cmd_sep` with a value.
pub data Act : Type 0 where
  adds : ℕ → Act
  separates : Bool → Act

module _ (colon : ℕ) where
  unfoldable pub run_act : Act → Parser → Option Parser
  unfolding add_prefix
  run_act (adds t) p = add_prefix colon p t
  run_act (separates value) p = some (parser_separator p value).1

  unfoldable pub run_acts : List Act → Parser → Option Parser
  unfolding run_act
  run_acts [] p = some p
  run_acts (a ∷ acts) p = do p' ← run_act a p; run_acts acts p'

  -- `yypush_parse`
  unfoldable pub push :
      {G : Type 0}
      → (G → ℕ → Option (Bool × G × List Act))
      → G
      → ℕ
      → Parser
      → Option (Bool × G × Parser)
  unfolding run_acts
  push parse g t p = do (more, g', acts) ← parse g t; p' ← run_acts acts p; some (more, g', p')
