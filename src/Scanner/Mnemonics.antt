-- ===== src/Scanner/Mnemonics.antt =====
-- src/scanner.l: each mnemonic is read as its token, in its short and its long form, in letters of
-- either case.
use cgr101_scpi.Prelude.{
  ℕ, zero, suc, ◌≤◌, ◌≡◌, refl, sym, ap, ap₂, ◌∙◌, ◌⊎◌, inl, inr, true, some, none, List, [], ◌∷◌,
  ◌++◌, arith, length, take, drop, get_elem?,
}
use cgr101_scpi.Prelude.Int.{ℤ}
use cgr101_scpi.Prelude.Fault.{◌>>=◌}
use mathlib.Core.Path.{subst}
use cgr101_scpi.Output.{Text}
use cgr101_scpi.Input.{ScpiType, str}
use cgr101_scpi.Parser.Text
use cgr101_scpi.Parser.Text.{Strpool, strpool_add, strpool_chunk, grown}
use cgr101_scpi.Scanner.Pattern.{longest}
use cgr101_scpi.Scanner.Rule.{Action, parser_ident, parser_blank}
use cgr101_scpi.Scanner.Rules.{initial, initial_rules}
use cgr101_scpi.Scanner.Token.{Token}
use cgr101_scpi.Scanner.Yylex.{Scanner, token, taken, act, moved, yylex}
use cgr101_scpi.Scanner.Case.{SameLetters, choose_rule-SameLetters}
use cgr101_scpi.Scanner.Progress.{stepped, behind, lex_rest-stepped}
use cgr101_scpi.Scanner.Words.{
  Word, rule_for, first_words, more_words, last_words, short_form, chosen, intended,
  first_words-chosen, more_words-chosen, last_words-chosen,
}

abbrev pub words : List Word
words = first_words ++ more_words ++ last_words

chosen-append : (xs ys : List Word) → chosen (xs ++ ys) ≡ chosen xs ++ chosen ys
chosen-append [] ys = refl
chosen-append (x ∷ xs) ys =
    ap (λ r. rule_for x.mnemonic ∷ rule_for (short_form x.mnemonic) ∷ r) (chosen-append xs ys)

intended-append : (xs ys : List Word) → intended (xs ++ ys) ≡ intended xs ++ intended ys
intended-append [] ys = refl
intended-append (x ∷ xs) ys =
    ap
      (λ r.
        (length x.mnemonic, parser_ident x.token)
        ∷ (length (short_form x.mnemonic), parser_ident x.token)
        ∷ r)
      (intended-append xs ys)

abbrev IsRead : Text → Token → Type 0
IsRead s t = rule_for s ≡ (length s, parser_ident t)

abbrev BothRead : Word → Type 0
BothRead w = IsRead w.mnemonic w.token × IsRead (short_form w.mnemonic) w.token

some_same : (x w : Word) → some x ≡ some w → x ≡ w
some_same x w e = cc

first : (a b c d : ℕ × Action) (xs ys : List (ℕ × Action)) → a ∷ c ∷ xs ≡ b ∷ d ∷ ys → a ≡ b
first a b c d xs ys e = cc

second : (a b c d : ℕ × Action) (xs ys : List (ℕ × Action)) → a ∷ c ∷ xs ≡ b ∷ d ∷ ys → c ≡ d
second a b c d xs ys e = cc

others : (a b c d : ℕ × Action) (xs ys : List (ℕ × Action)) → a ∷ c ∷ xs ≡ b ∷ d ∷ ys → xs ≡ ys
others a b c d xs ys e = cc

word_read :
    (ws : List Word) (k : ℕ) (w : Word)
    → chosen ws ≡ intended ws
    → get_elem? ws k ≡ some w
    → BothRead w
word_read [] k w e h = absurd cc
word_read (x ∷ ws) zero w e h =
    subst BothRead (some_same x w h) (first _ _ _ _ _ _ e, second _ _ _ _ _ _ e)
word_read (x ∷ ws) (suc k) w e h = word_read ws k w (others _ _ _ _ _ _ e) h

words-chosen : chosen words ≡ intended words
words-chosen =
    chosen-append (first_words ++ more_words) last_words
    ∙ ap₂ ◌++◌
        (chosen-append first_words more_words ∙ ap₂ ◌++◌ first_words-chosen more_words-chosen)
        last_words-chosen
    ∙ sym (
        intended-append (first_words ++ more_words) last_words
        ∙ ap (λ r. r ++ intended last_words) (intended-append first_words more_words))

SameLetters-length : (s t : Text) → SameLetters s t → length s ≡ length t
SameLetters-length [] [] h = refl
SameLetters-length [] (d ∷ ds) h = absurd h
SameLetters-length (c ∷ cs) [] h = absurd h
SameLetters-length (c ∷ cs) (d ∷ ds) (e, h) = ap suc (SameLetters-length cs ds h)

same-IsRead : (s form : Text) (t : Token) → SameLetters s form → IsRead form t → IsRead s t
unfolding rule_for
same-IsRead s form t h r =
    ap taken (choose_rule-SameLetters true initial_rules s form h)
    ∙ r
    ∙ ap (λ n. (n, parser_ident t)) (sym (SameLetters-length s form h))

drop_all : (s : Text) → drop (length s) s ≡ []
drop_all [] = refl
drop_all (c ∷ cs) = drop_all cs

module _ {F : Type 0} (strtol : Text → ℤ) (sscanf : Text → F) where
  abbrev pub at_start : Text → Strpool → Scanner
  at_start s p = record { condition = initial; bol = true; text = s; pool = p }

  stored :
      (p : Strpool) (s : Text)
      → length p.pool ≤ p.max
      → (v : ScpiType F) × (p' : Strpool) × (Text.parser_ident s p ≡ some (v, p'))
  unfolding Text.parser_ident strpool_add
  stored p s h = (
    record { val = str; src = s },
    record { pool = p.pool ++ (s ∷ []); max = grown p.max (length p.pool) strpool_chunk },
    ground arith,
  )

  nothing_read : rule_for [] ≡ (0, parser_blank)
  unfolding rule_for longest
  nothing_read = refl

  no_word : (t : Token) → parser_blank ≡ parser_ident t → ⊥
  no_word t e = cc

  read_act :
      (fuel : ℕ) (s : Text) (t : Token) (p p' : Strpool) (v : ScpiType F)
      → IsRead s t
      → Text.parser_ident (take (length s) s) p ≡ some (v, p')
      → stepped strtol sscanf fuel none (at_start s p)
        ≡ some (token t (some v), moved (at_start s p) (length s) initial p')
  unfolding rule_for act
  read_act fuel s t p p' v r e =
      ap
        (λ x.
          act strtol sscanf x.1 (take x.0 s) initial none p
          >>= behind strtol sscanf fuel x.0 (at_start s p))
        r
      ∙ rw e refl

  read_alone :
      (s : Text) (t : Token) (p : Strpool)
      → length p.pool ≤ p.max
      → IsRead s t
      → (v : ScpiType F) × (l : Scanner) × (yylex strtol sscanf (suc (length s)) (at_start s p)
          ≡ some (token t (some v), l))
        × (l.text ≡ [])
  unfolding yylex
  read_alone [] t p h r = absurd (no_word t (ap (λ x. x.1) (sym nothing_read ∙ r)))
  read_alone (c ∷ cs) t p h r =
      let (v, p', e) = stored p (take (length (c ∷ cs)) (c ∷ cs)) h in
      (
        v,
        moved (at_start (c ∷ cs) p) (length (c ∷ cs)) initial p',
        lex_rest-stepped strtol sscanf (length (c ∷ cs)) none (at_start (c ∷ cs) p) c cs refl
            ∙ read_act (length (c ∷ cs)) (c ∷ cs) t p p' v r e,
        drop_all cs,
      )

  -- A line that is one of the 129 mnemonics, in its long or its short form and in letters of either
  -- case, with any texts in a pool that has the room it claims: the scanner reads all of the line as
  -- the token that the grammar has for the mnemonic. (A mnemonic whose short form is another token's
  -- stands without small letters.)
  pub yylex_mnemonic :
      (k : ℕ) (w : Word) (s : Text) (p : Strpool)
      → get_elem? words k ≡ some w
      → SameLetters s w.mnemonic ⊎ SameLetters s (short_form w.mnemonic)
      → length p.pool ≤ p.max
      → (v : ScpiType F) × (l : Scanner) × (yylex strtol sscanf (suc (length s)) (at_start s p)
          ≡ some (token w.token (some v), l))
        × (l.text ≡ [])
  yylex_mnemonic k w s p h (inl j) m =
      read_alone s w.token p m
        (same-IsRead s w.mnemonic w.token j (word_read words k w words-chosen h).0)
  yylex_mnemonic k w s p h (inr j) m =
      read_alone s w.token p m
        (same-IsRead s (short_form w.mnemonic) w.token j (word_read words k w words-chosen h).1)
