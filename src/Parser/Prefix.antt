-- ===== src/Parser/Prefix.antt =====
-- src/parser.c: the header path that is replayed to the parser after a semicolon. Tokens are
-- numbers, and 0 is both an empty slot of `prefix[]` and the end of input. What bison generates
-- from src/scpi.y is the parameter `push`, with the actions that the parser runs on this state.
pub mod Actions
pub mod Replay
use cgr101_scpi.Prelude.{
  ℕ, zero, suc, ◌+◌, Bool, true, false, not, Option, some, List, [], ◌∷◌, ltb, ◌==◌, ◌&&◌,
  if◌then◌else◌, get_or, set, replicate,
}
use cgr101_scpi.Prelude.Fault.{◌>>=◌, ◌>>◌, require}

abbrev pub max_cmd_depth : ℕ
max_cmd_depth = 10

-- The fields of `struct parser` that the header path uses.
pub record Parser : Type 0 where
  pub separator : Bool
  pub prefix_length : ℕ
  pub prefix : List ℕ
  pub active : Bool
  pub idx : ℕ

abbrev pub no_prefix : List ℕ
no_prefix = replicate max_cmd_depth 0

-- `parser_replay_reset`
abbrev pub replay_reset : Parser → Parser
replay_reset p = record p { active = false; idx = 0; separator = false }

-- `parser_replay_prefix`: the token, and the parser.
unfoldable pub replay_prefix : Parser → Option (ℕ × Parser)
replay_prefix p = do
  require p.active
  let token = get_or p.prefix p.idx 0
  let p' = record p { idx = p.idx + 1 }
  require (not (token == 0))
  some (token, if p'.idx == p'.prefix_length then replay_reset p' else p')

-- `parser_replay_active`: it turns the replay on as a side effect.
abbrev pub replay_active : Parser → Parser
replay_active p = if not p.active && p.separator then record p { active = true } else p

-- `parser_reset_prefix`
abbrev pub reset_prefix : Parser → Parser
reset_prefix p = record p { active = false; prefix_length = 0; prefix = no_prefix }

-- `parser_separator`: the previous value, and the parser.
unfoldable pub parser_separator : Parser → Bool → Bool × Parser
parser_separator p value =
    let p' = record p { separator = value } in (p.separator, if value then p' else reset_prefix p')

-- `parser_add_prefix_`
unfoldable pub add_token : Parser → ℕ → Option Parser
add_token p token = do
  require (ltb p.prefix_length max_cmd_depth)
  some (record p {
    prefix = set p.prefix p.prefix_length token;
    prefix_length = p.prefix_length + 1;
  })

-- `enum parser_loop_state`
pub data LoopState : Type 0 where
  lex prefix : LoopState

module _ (colon : ℕ) where
  -- `parser_add_prefix`
  unfoldable pub add_prefix : Parser → ℕ → Option Parser
  add_prefix p token = if p.active then some p else (do p' ← add_token p token; add_token p' colon)

  module _ {G : Type 0} (push : G → ℕ → Parser → Option (Bool × G × Parser)) where
    -- The next token of the line; at its end the lexer keeps answering 0.
    abbrev pub next_token : List ℕ → ℕ × List ℕ
    next_token [] = (0, [])
    next_token (c ∷ cs) = (c, cs)

    -- The token that one round of `parser_loop` hands on, with the loop state, the suffix, the
    -- tokens that are left and the parser.
    abbrev pub Round : Type 0
    Round = ℕ × LoopState × ℕ × List ℕ × Parser

    -- `case LEX`
    abbrev pub lex_round : ℕ → ℕ × List ℕ → Parser → Option Round
    lex_round suffix (c, cs) p =
        let p' = replay_active p in
        if p'.active && not (c == colon)
        then (do (t, p'') ← replay_prefix p'; some (t, prefix, c, cs, p''))
        else some (c, lex, suffix, cs, p')

    -- `case PREFIX`
    abbrev pub prefix_round : ℕ → List ℕ → Parser → Option Round
    prefix_round suffix cs p =
        let p' = replay_active p in
        if p'.active
        then (do (t, p'') ← replay_prefix p'; some (t, prefix, suffix, cs, p''))
        else some (suffix, lex, suffix, cs, p')

    abbrev pub round : LoopState → ℕ → List ℕ → Parser → Option Round
    round lex suffix cs p = lex_round suffix (next_token cs) p
    round prefix suffix cs p = prefix_round suffix cs p

    -- The loop of `parser_loop`, on fuel: it goes on while `yypush_parse` asks for more. `none` is
    -- a failed assertion, `some (false, …)` says that the fuel ran out.
    unfoldable pub loop : ℕ → LoopState → ℕ → List ℕ → Parser → G → Option (Bool × G × Parser)
    loop zero st suffix cs p g = some (false, g, p)
    loop (suc fuel) st suffix cs p g = do
      (t, st', suffix', cs', p') ← round st suffix cs p
      (more, g', p'') ← push g t p'
      elim more [ true ↦ loop fuel st' suffix' cs' p'' g' | false ↦ some (true, g', p'') ]

    -- `parser_loop`
    unfoldable pub parser_loop : ℕ → List ℕ → Parser → G → Option (Bool × G × Parser)
    parser_loop fuel cs p g = loop fuel lex 0 cs (replay_reset p) g
