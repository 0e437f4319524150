-- ===== src/Scanner/Pattern.antt =====
-- The patterns of src/scanner.l as regular expressions over bytes, and what flex's manual says a
-- pattern matches: the bytes are eaten one by one, each leaving the pattern of what may follow.
use cgr101_scpi.Prelude.{
  ℕ, suc, ◌+◌, Bool, true, false, not, ◌&&◌, ◌||◌, Option, none, some, [], ◌∷◌, leb, ◌==◌,
  if◌then◌else◌,
}
use cgr101_scpi.Output.{Text}

-- A class of bytes: a byte in either case, `[[:digit:]]`, `[[:alpha:]]`, `[[:blank:]]`, and `.`.
pub data Class : Type 0 where
  byte : ℕ → Class
  is_digit is_alpha is_blank no_newline : Class

abbrev pub to_lower : ℕ → ℕ
to_lower c = if leb 65 c && leb c 90 then c + 32 else c

abbrev pub in_class : Class → ℕ → Bool
in_class (byte b) c = to_lower b == to_lower c
in_class is_digit c = leb 48 c && leb c 57
in_class is_alpha c = leb 97 (to_lower c) && leb (to_lower c) 122
in_class is_blank c = (c == 32) || (c == 9)
in_class no_newline c = not (c == 10)

pub data Pattern : Type 0 where
  nothing blank : Pattern
  one : Class → Pattern
  seq either : Pattern → Pattern → Pattern
  many : Pattern → Pattern

abbrev pub nullable : Pattern → Bool
nullable nothing = false
nullable blank = true
nullable (one k) = false
nullable (seq p q) = nullable p && nullable q
nullable (either p q) = nullable p || nullable q
nullable (many p) = true

abbrev pub eaten : Bool → Pattern
eaten true = blank
eaten false = nothing

abbrev pub or_else : Bool → Pattern → Pattern → Pattern
or_else true p q = either p q
or_else false p q = p

-- What may follow the byte.
abbrev pub rest : Pattern → ℕ → Pattern
rest nothing c = nothing
rest blank c = nothing
rest (one k) c = eaten (in_class k c)
rest (seq p q) c = or_else (nullable p) (seq (rest p c) q) (rest q c)
rest (either p q) c = either (rest p c) (rest q c)
rest (many p) c = seq (rest p c) (many p)

abbrev pub step_longer : Bool → Option ℕ → Option ℕ
step_longer b (some n) = some (suc n)
step_longer true none = some 0
step_longer false none = none

-- The length of the longest start of the text that the pattern matches.
unfoldable pub longest : Pattern → Text → Option ℕ
longest p [] = step_longer (nullable p) none
longest p (c ∷ cs) = step_longer (nullable p) (longest (rest p c) cs)

abbrev pub char : ℕ → Pattern
char c = one (byte c)

abbrev pub digit : Pattern
digit = one is_digit

abbrev pub alpha : Pattern
alpha = one is_alpha

abbrev pub alnum : Pattern
alnum = either alpha digit

abbrev pub space : Pattern
space = one is_blank

abbrev pub any : Pattern
any = one no_newline

abbrev pub opt : Pattern → Pattern
opt p = either p blank

abbrev pub some_of : Pattern → Pattern
some_of p = seq p (many p)

-- A literal, in letters of either case.
abbrev pub word : Text → Pattern
word [] = blank
word (c ∷ cs) = seq (char c) (word cs)
