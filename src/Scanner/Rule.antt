-- ===== src/Scanner/Rule.antt =====
-- src/scanner.l: what a rule is, and the rule that flex applies at a place: the one with the longest
-- match, and of those the one that stands first.
use cgr101_scpi.Prelude.{
  ℕ, Bool, false, not, ◌&&◌, Option, none, some, List, [], ◌∷◌, ltb, if◌then◌else◌, codes,
}
use cgr101_scpi.Output.{Text}
use cgr101_scpi.Scanner.Pattern.{Pattern, seq, either, char, word, longest}
use cgr101_scpi.Scanner.Token.{Token}
use cgr101_scpi.Parser.Send.{NumToken}
use Prim.Native.String.{String}

-- The function that a rule calls, with the start of a quoted string, a comment, and the rule of
-- flex that takes a byte where no other matches.
pub data Action : Type 0 where
  parser_ident parser_punct : Token → Action
  parser_num : NumToken → Action
  parser_dstr : Action
  parser_blank parser_eol parser_eof comment : Action
  begin_dstr begin_sstr parser_dstr_quote parser_dstr_add default_rule : Action

-- `anchored` stands for `^`.
pub record Rule : Type 0 where
  pub anchored : Bool
  pub pattern : Pattern
  pub action : Action

abbrev pub rule : Pattern → Action → Rule
rule p a = record { anchored = false; pattern = p; action = a }

abbrev pub keyword : Pattern → Token → Rule
keyword p t = rule p (parser_ident t)

-- The short and the long form of a word.
abbrev pub both : String → String → Pattern
both short long = either (word (codes short)) (word (codes long))

abbrev pub query : Pattern → Pattern
query p = seq p (char b'?')

-- A rule with the length of its match.
abbrev pub Found : Type 0
Found = ℕ × Rule

abbrev pub found : Rule → Option ℕ → Option Found
found r none = none
found r (some n) = some (n, r)

abbrev pub try_rule : Bool → Text → Rule → Option Found
try_rule bol s r = if r.anchored && not bol then none else found r (longest r.pattern s)

-- The first of two rules, unless the second matches more.
abbrev pub longer : Option Found → Option Found → Option Found
longer none y = y
longer (some x) none = some x
longer (some (n, r)) (some (m, q)) = if ltb n m then some (m, q) else some (n, r)

-- `bol` tells whether the place is at the beginning of a line.
unfoldable pub choose_rule : Bool → List Rule → Text → Option Found
choose_rule bol [] s = none
choose_rule bol (r ∷ rs) s = longer (try_rule bol s r) (choose_rule bol rs s)
