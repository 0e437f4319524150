-- ===== src/Scanner/Yylex.antt =====
-- src/scanner.l: one call of the scanner, which runs rules until one returns a token. The place of
-- a token is left out. `strtol` and `sscanf` of the C library are parameters.
use cgr101_scpi.Prelude.{ℕ, zero, suc, Bool, false, Option, none, some, [], ◌∷◌, ◌==◌, take, drop}
use cgr101_scpi.Prelude.Int.{ℤ}
use cgr101_scpi.Prelude.Fault.{◌>>=◌}
use cgr101_scpi.Output.{Text}
use cgr101_scpi.Input.{ScpiType}
use cgr101_scpi.Parser.Text
use cgr101_scpi.Parser.Text.{Dstr, Strpool, dstr_new, dstr_add, dstr_quote, dstr_end}
use cgr101_scpi.Parser.Send
use cgr101_scpi.Parser.Send.{NumToken}
use cgr101_scpi.Scanner.Rule.{
  Action, Found, choose_rule, parser_ident, parser_punct, parser_num, parser_dstr, parser_blank,
  parser_eol, parser_eof, comment, begin_dstr, begin_sstr, parser_dstr_quote, parser_dstr_add,
  default_rule,
}
use cgr101_scpi.Scanner.Rules.{Condition, initial, dstr, sstr, rules}
use cgr101_scpi.Scanner.Token.{Token, string, eof, other}

-- The scanner: its start condition, whether it is at the beginning of a line, the bytes that are
-- left, and the pool of texts. The condition stays from one line to the next.
pub record Scanner : Type 0 where
  pub condition : Condition
  pub bol : Bool
  pub text : Text
  pub pool : Strpool

-- What an action leads to: the condition, the string that `yylval` holds, if it does, and the pool;
-- or the token that it returns, with its value.
pub data Outcome (F : Type 0) : Type 0 where
  goes_on : Condition → Option Dstr → Strpool → Outcome F
  returns : Token → Option (ScpiType F) → Condition → Strpool → Outcome F

-- What a call returns. `ran_out` says that the fuel did not do.
pub data Lexed (F : Type 0) : Type 0 where
  ran_out end_of_input : Lexed F
  token : Token → Option (ScpiType F) → Lexed F

abbrev num_token : NumToken → Token
num_token NumToken.num = Token.num
num_token NumToken.float = Token.float
num_token NumToken.other = other

-- Whether the match ends in a newline.
abbrev pub ends_line : Text → Bool
ends_line [] = false
ends_line (c ∷ []) = c == 10
ends_line (c ∷ d ∷ cs) = ends_line (d ∷ cs)

-- Where no rule matches, flex's default rule takes one byte.
abbrev pub taken : Option Found → ℕ × Action
taken none = (1, default_rule)
taken (some (n, r)) = (n, r.action)

-- The scanner behind a match.
abbrev pub moved : Scanner → ℕ → Condition → Strpool → Scanner
moved l n q p = record {
  condition = q;
  bol = ends_line (take n l.text);
  text = drop n l.text;
  pool = p;
}

module _ {F : Type 0} (strtol : Text → ℤ) (sscanf : Text → F) where
  -- The action of a rule on the text it has matched. `none` is a failed assertion.
  unfoldable pub act : Action → Text → Condition → Option Dstr → Strpool → Option (Outcome F)
  act (parser_ident t) s q d p = do (v, p') ← Text.parser_ident s p; some (returns t (some v) q p')
  act (parser_punct t) s q d p = do (v, p') ← Text.parser_ident s p; some (returns t (some v) q p')
  act (parser_num t) s q d p = do
    v ← Send.parser_num strtol sscanf s t
    some (returns (num_token t) (some v) q p)
  act parser_dstr s q none p = none
  act parser_dstr s q (some d) p = do
    (v, p') ← dstr_end d p
    some (returns string (some v) initial p')
  act parser_eof s q d p = some (returns eof none q p)
  act begin_dstr s q d p = some (goes_on dstr (some dstr_new) p)
  act begin_sstr s q d p = some (goes_on sstr (some dstr_new) p)
  act parser_dstr_quote (c ∷ c' ∷ s) q (some d) p = do
    d' ← dstr_quote d c c'
    some (goes_on q (some d') p)
  act parser_dstr_quote s q d p = none
  act parser_dstr_add (c ∷ s) q (some d) p = do d' ← dstr_add d c; some (goes_on q (some d') p)
  act parser_dstr_add s q d p = none
  act parser_blank s q d p = some (goes_on q d p)
  act parser_eol s q d p = some (goes_on q d p)
  act comment s q d p = some (goes_on q d p)
  act default_rule s q d p = some (goes_on q d p)

  -- A call in its course, on fuel; `d` is the string that `yylval` holds.
  unfoldable pub lex_rest : ℕ → Option Dstr → Scanner → Option (Lexed F × Scanner)
  unfolding act
  lex_rest zero d l = some (ran_out, l)
  lex_rest (suc fuel) d l = elim l.text [
    | [] ↦ some (end_of_input, l)
    | c ∷ cs ↦
        let (n, a) = taken (choose_rule l.bol (rules l.condition) l.text) in
        act a (take n l.text) l.condition d l.pool >>= λ o. elim o [
          | goes_on q d' p ↦ lex_rest fuel d' (moved l n q p)
          | returns t v q p ↦ some (token t v, moved l n q p)
        ]
  ]

  -- `yylex`: `parser_loop` hands it a cleared `yylval`.
  unfoldable pub yylex : ℕ → Scanner → Option (Lexed F × Scanner)
  unfolding lex_rest
  yylex fuel l = lex_rest fuel none l
