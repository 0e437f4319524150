-- ===== src/Scanner/Rules.antt =====
-- src/scanner.l: the rules of each start condition, in their order.
use cgr101_scpi.Prelude.{ℕ, true, List, [], ◌∷◌, ◌++◌}
use cgr101_scpi.Parser.Send.{NumToken}
use cgr101_scpi.Scanner.Pattern.{
  Pattern, seq, either, many, char, digit, alpha, alnum, space, any, opt, some_of,
}
use cgr101_scpi.Scanner.Rule.{
  Rule, rule, parser_ident, parser_punct, parser_num, parser_dstr, parser_blank, parser_eol,
  parser_eof, comment, begin_dstr, begin_sstr, parser_dstr_quote, parser_dstr_add,
}
use cgr101_scpi.Scanner.Token.{ident, lparen, rparen, comma, semis, colon, dash, at, other}
use cgr101_scpi.Scanner.Keywords.Upper.{upper}
use cgr101_scpi.Scanner.Keywords.Lower.{lower}

-- The start conditions.
pub data Condition : Type 0 where
  initial dstr sstr : Condition

-- The rules inside a string, up to its quote.
abbrev pub string_rules : ℕ → List Rule
string_rules quote =
    rule (char quote) parser_dstr
    ∷ rule (seq (char quote) (char quote)) parser_dstr_quote
    ∷ rule any parser_dstr_add
    ∷ []

abbrev pub punctuation : List Rule
punctuation =
    rule (char b'(') (parser_punct lparen)
    ∷ rule (char b')') (parser_punct rparen)
    ∷ rule (char b',') (parser_punct comma)
    ∷ rule (char b';') (parser_punct semis)
    ∷ rule (char b':') (parser_punct colon)
    ∷ rule (char b'-') (parser_punct dash)
    ∷ rule (char b'@') (parser_punct at)
    ∷ []

abbrev signs : Pattern
signs = many (either (char b'+') (char b'-'))

-- A mantissa with a digit behind the point, and one with a digit before it.
abbrev behind : Pattern
behind = seq signs (seq (many digit) (seq (char b'.') (some_of digit)))

abbrev before : Pattern
before = seq signs (seq (some_of digit) (seq (char b'.') (many digit)))

abbrev exponent : Pattern
exponent = seq (many space) (seq (opt (char b'e')) (seq (many space) (seq signs (some_of digit))))

abbrev pub numbers : List Rule
numbers =
    rule behind (parser_num NumToken.float)
    ∷ rule before (parser_num NumToken.float)
    ∷ rule (seq behind exponent) (parser_num NumToken.float)
    ∷ rule (seq before exponent) (parser_num NumToken.float)
    ∷ rule (seq signs (some_of digit)) (parser_num NumToken.num)
    ∷ []

abbrev pub comments : Rule
comments = record {
  anchored = true;
  pattern = seq (many space) (seq (char b'#') (many any));
  action = comment;
}

-- The rules from the names on.
abbrev pub rest_rules : List Rule
rest_rules =
    rule (seq (some_of alpha) (many alnum)) (parser_ident ident)
    ∷ rule (many space) parser_blank
    ∷ rule (char 10) parser_eol
    ∷ rule (char 0) parser_eof
    ∷ rule any (parser_punct other)
    ∷ []

abbrev pub initial_rules : List Rule
initial_rules =
    rule (char b'"') begin_dstr ∷ rule (char 39) begin_sstr ∷ upper
    ++ lower
    ++ punctuation
    ++ (comments ∷ [])
    ++ numbers
    ++ rest_rules

abbrev pub rules : Condition → List Rule
rules initial = initial_rules
rules dstr = string_rules b'"'
rules sstr = string_rules 39
