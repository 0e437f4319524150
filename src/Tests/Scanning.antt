-- ===== src/Tests/Scanning.antt =====
-- src/scanner.l: the scanner on concrete lines.
use cgr101_scpi.Prelude.{
  ℕ, zero, suc, ◌≡◌, refl, inr, true, false, Option, none, some, List, [], ◌∷◌, length, codes,
  arith,
}
use cgr101_scpi.Prelude.Int.{ℤ, pos}
use cgr101_scpi.Output.{Text}
use cgr101_scpi.Parser.Text
use cgr101_scpi.Parser.Send
use cgr101_scpi.Scanner.Pattern.{longest}
use cgr101_scpi.Scanner.Rule.{choose_rule}
use cgr101_scpi.Scanner.Rules.{initial, dstr, sstr}
use cgr101_scpi.Scanner.Token.{abor, Token, ident, num, colon, syst, errq, float, comma}
use cgr101_scpi.Scanner.Yylex.{Scanner, Lexed, token, end_of_input, yylex}
use cgr101_scpi.Scanner.Progress.{Reads, yylex-Reads}
use cgr101_scpi.Input.{ScpiType}
use cgr101_scpi.Scanner.Words.{reads}
use cgr101_scpi.Scanner.Mnemonics.{yylex_mnemonic}
use cgr101_scpi.Scanner.Unclosed.{yylex_unclosed}

abbrev pub zero_num : Text → ℤ
zero_num s = pos 0

abbrev pub line : Text → Scanner
line s = record { condition = initial; bol = true; text = s; pool = record { pool = []; max = 0 } }

-- The tokens of a line, as far as the scanner goes.
abbrev tokens : ℕ → Option (Lexed ℤ × Scanner) → List Token
tokens zero r = []
tokens (suc n) (some (token t v, l)) =
    t ∷ tokens n (yylex zero_num zero_num (suc (length l.text)) l)
tokens (suc n) _ = []

abbrev words : Text → List Token
words s = tokens (suc (length s)) (yylex zero_num zero_num (suc (length s)) (line s))

header_words : words (codes "syst:ERRor?") ≡ syst ∷ colon ∷ errq ∷ []
unfolding choose_rule yylex longest Text.parser_ident
header_words = refl

-- Two numbers with a blank between them are one token, and a number with an exponent but no point
-- is two.
two_numbers : words (codes "1.5 2,3") ≡ float ∷ comma ∷ num ∷ []
unfolding choose_rule yylex longest Text.parser_ident Text.parser_float Text.parser_int
    Send.parser_num
two_numbers = refl

exponent_alone : words (codes "1e3") ≡ num ∷ ident ∷ []
unfolding choose_rule yylex longest Text.parser_ident Text.parser_float Text.parser_int
    Send.parser_num
exponent_alone = refl

-- A line that leaves a quote open leaves the scanner inside the string, and the next line fails.
quote_open :
    yylex {F = ℤ} zero_num zero_num 4 (line (codes "'ab"))
    ≡ some (
      end_of_input,
      record { condition = sstr; bol = false; text = []; pool = record { pool = []; max = 0 } },
    )
unfolding choose_rule yylex longest Text.dstr_add Text.dstr_new
quote_open = refl

yylex-Reads_example :
    Reads {F = ℤ} zero_num zero_num
      (codes "OFF 1")
      (yylex zero_num zero_num 6 (line (codes "OFF 1")))
yylex-Reads_example = yylex-Reads zero_num zero_num (line (codes "OFF 1"))

yylex_unclosed_example :
    yylex {F = ℤ} zero_num zero_num 5 (record (line (codes "*RST")) { condition = dstr }) ≡ none
yylex_unclosed_example =
    yylex_unclosed zero_num zero_num 4 (record (line (codes "*RST")) { condition = dstr }) b'*'
      (codes "RST") (λ e. absurd cc) refl (omega arith)

-- ABORt.
yylex_mnemonic_example :
    (v : ScpiType ℤ) × (l : Scanner) × (yylex zero_num zero_num 5 (line (codes "aBoR"))
      ≡ some (token abor (some v), l))
    × (l.text ≡ [])
yylex_mnemonic_example =
    yylex_mnemonic zero_num zero_num 13 (reads "ABORt" abor) (codes "aBoR")
      (record { pool = []; max = 0 }) refl (inr (refl, (refl, (refl, (refl, tt))))) (omega arith)
