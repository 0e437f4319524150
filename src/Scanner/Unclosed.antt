-- ===== src/Scanner/Unclosed.antt =====
-- src/scanner.l: a line that ends inside a quoted string. The start condition stays, while
-- `parser_loop` of src/parser.c clears `yylval`.
use cgr101_scpi.Prelude.{
  ℕ, suc, ◌≡◌, ◌≢◌, refl, ◌∙◌, Bool, true, Option, none, some, [], ◌∷◌, arith, ◌==◌, not, take,
}
use cgr101_scpi.Prelude.Int.{ℤ}
use cgr101_scpi.Output.{Text}
use cgr101_scpi.Parser.Text.{Strpool}
use cgr101_scpi.Scanner.Rule.{parser_dstr_add, parser_dstr_quote, Rule, Found, choose_rule}
use cgr101_scpi.Scanner.Rules.{Condition, initial, dstr, sstr, rules, string_rules}
use cgr101_scpi.Scanner.Munch.{choose_rule-Chosen}
use cgr101_scpi.Scanner.Progress.{Each, Each_chosen, lex_rest-stepped, Chosen_some, stepped}
use cgr101_scpi.Scanner.Yylex.{Scanner, act, yylex}

string_condition : (q : Condition) → q ≢ initial → (quote : ℕ) × (rules q ≡ string_rules quote)
string_condition initial h = absurd (h refl)
string_condition dstr h = (b'"', refl)
string_condition sstr h = (39, refl)

-- A byte other than a newline is taken inside a string.
string_taken :
    (quote : ℕ) (bol : Bool) (c : ℕ) (cs : Text)
    → c ≢ 10
    → choose_rule bol (string_rules quote) (c ∷ cs) ≢ none
string_taken quote bol c cs h e =
    let (_, (_, (no_any, _))) = rw e at (choose_rule-Chosen bol (string_rules quote) (c ∷ cs)) in
    no_any 1 (c ∷ [], cs, refl, refl, (refl, (c, refl, other_byte c h)))
  where
    other_byte : (c : ℕ) → c ≢ 10 → not (c == 10) ≡ true
    other_byte c h = ground arith

module _ {F : Type 0} (strtol : Text → ℤ) (sscanf : Text → F) where
  -- The action of the rule needs a string in `yylval`.
  abbrev NeedsString : Rule → Type 0
  NeedsString r =
      (s : Text) (q : Condition) (p : Strpool) → act strtol sscanf r.action s q none p ≡ none

  quote_needs :
      (s : Text) (q : Condition) (p : Strpool)
      → act strtol sscanf parser_dstr_quote s q none p ≡ none
  unfolding act
  quote_needs [] q p = refl
  quote_needs (c ∷ []) q p = refl
  quote_needs (c ∷ d ∷ s) q p = refl

  add_needs :
      (s : Text) (q : Condition) (p : Strpool) → act strtol sscanf parser_dstr_add s q none p ≡ none
  unfolding act
  add_needs [] q p = refl
  add_needs (c ∷ s) q p = refl

  rules_need : (quote : ℕ) → Each NeedsString (string_rules quote)
  unfolding act
  rules_need quote = ((λ s q p. refl), (quote_needs, (add_needs, tt)))

  stepped-none :
      (fuel quote : ℕ) (l : Scanner) (o : Option Found)
      → rules l.condition ≡ string_rules quote
      → choose_rule l.bol (rules l.condition) l.text ≡ o
      → choose_rule l.bol (string_rules quote) l.text ≢ none
      → stepped strtol sscanf fuel none l ≡ none
  stepped-none fuel quote l none e h t = absurd (t (rw e at h))
  stepped-none fuel quote l (some (n, r)) e h t = rw h (
      rw
        (Each_chosen NeedsString l.bol (string_rules quote) l.text n r (rules_need quote)
          (Chosen_some l.bol (string_rules quote) l.text n r (rw e at h)) (take n l.text)
          l.condition l.pool)
        refl)

  -- Where a call starts in the start condition of a string, which a line with an open quote leaves
  -- behind, and the next byte is not a newline, an assertion fails, since `yylval` is cleared.
  pub yylex_unclosed :
      (fuel : ℕ) (l : Scanner) (c : ℕ) (cs : Text)
      → l.condition ≢ initial
      → l.text ≡ c ∷ cs
      → c ≢ 10
      → yylex strtol sscanf (suc fuel) l ≡ none
  unfolding yylex
  yylex_unclosed fuel l c cs q e h =
      let (quote, k) = string_condition l.condition q in
      lex_rest-stepped strtol sscanf fuel none l c cs e
      ∙ stepped-none fuel quote l _ k refl (rw e (string_taken quote l.bol c cs h))
