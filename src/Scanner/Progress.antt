-- ===== src/Scanner/Progress.antt =====
-- src/scanner.l: a call of the scanner comes to an end, and what it does to the text.
use cgr101_scpi.Prelude.{
  ℕ, zero, suc, ◌≤◌, ◌<◌, ◌≡◌, refl, sym, ap, ◌∙◌, inl, inr, Bool, true, false, Option, none, some,
  List, [], ◌∷◌, ◌++◌, arith, length, take, drop, length-drop, ◌==◌, Bool-cases,
}
use mathlib.Core.List.{append_assoc}
use cgr101_scpi.Prelude.Int.{ℤ}
use cgr101_scpi.Prelude.Fault.{◌>>=◌}
use cgr101_scpi.Output.{Text}
use cgr101_scpi.Parser.Text.{Dstr}
use cgr101_scpi.Scanner.Pattern.{nullable, to_lower}
use cgr101_scpi.Scanner.Matches.{Matches-nullable}
use cgr101_scpi.Scanner.Rule.{Rule, Found, choose_rule}
use cgr101_scpi.Scanner.Rules.{Condition, initial, dstr, sstr, rules, string_rules, initial_rules}
use cgr101_scpi.Scanner.Munch.{TakesStart, AtMost, Longest, Less-append, choose_rule-Chosen}
use cgr101_scpi.Scanner.Yylex.{
  Scanner, Outcome, goes_on, returns, Lexed, ran_out, end_of_input, token, taken, act, moved,
  lex_rest, yylex,
}

abbrev pub Each : (Rule → Type 0) → List Rule → Type 0
Each P [] = Unit {0}
Each P (r ∷ rs) = P r × Each P rs

Each_get :
    (P : Rule → Type 0) (before after : List Rule) (r : Rule) → Each P (before ++ (r ∷ after)) → P r
Each_get P [] after r h = h.0
Each_get P (q ∷ before) after r (h, hs) = Each_get P before after r hs

-- What holds of each rule holds of the rule that is chosen.
pub Each_chosen :
    (P : Rule → Type 0) (bol : Bool) (rs : List Rule) (s : Text) (n : ℕ) (r : Rule)
    → Each P rs
    → Longest bol rs s n r
    → P r
Each_chosen P bol rs s n r h (before, after, e, t, l, u) = Each_get P before after r (rw e h)

-- No rule of the list takes more than the one that is chosen.
chosen_most :
    (bol : Bool) (rs : List Rule) (s : Text) (n : ℕ) (r : Rule)
    → Longest bol rs s n r
    → AtMost bol rs s n
chosen_most bol rs s n r (before, after, e, t, l, u) =
    rw e at (Less-append bol before (r ∷ after) s n n (omega arith) l u)

most_drop :
    (k : ℕ) (bol : Bool) (rs : List Rule) (s : Text) (n : ℕ)
    → AtMost bol rs s n
    → AtMost bol (drop k rs) s n
most_drop zero bol rs s n h = h
most_drop (suc k) bol [] s n h = h
most_drop (suc k) bol (r ∷ rs) s n (h, hs) = most_drop k bol rs s n hs

abbrev IsSolid : Rule → Type 0
IsSolid r = nullable r.pattern ≡ false

solid_pos : (bol : Bool) (s : Text) (n : ℕ) (r : Rule) → IsSolid r → TakesStart bol r s n → 0 < n
solid_pos bol s n r h ([], b, j, l, (t, k)) =
    absurd (clash (sym h ∙ Matches-nullable r.pattern [] refl k))
  where
    clash : false ≡ true → ⊥
    clash e = cc
solid_pos bol s n r h (c ∷ a, b, j, l, (t, k)) = omega arith

string_pos :
    (quote : ℕ) (bol : Bool) (s : Text) (n : ℕ) (r : Rule)
    → Longest bol (string_rules quote) s n r
    → 0 < n
string_pos quote bol s n r h =
    solid_pos bol s n r
      (Each_chosen IsSolid bol (string_rules quote) s n r (refl, (refl, (refl, tt))) h) h.3

-- The rules for a newline and for any other byte stand at the end of the table.
newline : (c : ℕ) → (c == 10) ≡ true → (to_lower 10 == to_lower c) ≡ true
newline c e = ground arith

initial_pos :
    (bol : Bool) (c : ℕ) (cs : Text) (n : ℕ) (r : Rule)
    → Longest bol initial_rules (c ∷ cs) n r
    → 0 < n
initial_pos bol c cs n r h =
    let last =
      most_drop 146 bol initial_rules (c ∷ cs) n (chosen_most bol initial_rules (c ∷ cs) n r h) in
    elim (Bool-cases (c == 10)) [
      | inl e ↦ last.0 1 (c ∷ [], cs, refl, refl, (refl, (c, refl, newline c e)))
      | inr e ↦ last.1.1.0 1 (c ∷ [], cs, refl, refl, (refl, (c, refl, rw e refl)))
    ]

pub Chosen_some :
    (bol : Bool) (rs : List Rule) (s : Text) (n : ℕ) (r : Rule)
    → choose_rule bol rs s ≡ some (n, r)
    → Longest bol rs s n r
Chosen_some bol rs s n r h = rw h at (choose_rule-Chosen bol rs s)

-- Every rule that is chosen takes a byte.
rules_pos :
    (q : Condition) (bol : Bool) (c : ℕ) (cs : Text) (n : ℕ) (r : Rule)
    → choose_rule bol (rules q) (c ∷ cs) ≡ some (n, r)
    → 0 < n
rules_pos initial bol c cs n r h = initial_pos bol c cs n r (Chosen_some bol _ _ n r h)
rules_pos dstr bol c cs n r h = string_pos b'"' bol (c ∷ cs) n r (Chosen_some bol _ _ n r h)
rules_pos sstr bol c cs n r h = string_pos 39 bol (c ∷ cs) n r (Chosen_some bol _ _ n r h)

taken_pos :
    (q : Condition) (bol : Bool) (c : ℕ) (cs : Text)
    → 0 < (taken (choose_rule bol (rules q) (c ∷ cs))).0
taken_pos q bol c cs = go (choose_rule bol (rules q) (c ∷ cs)) refl
  where
    go : (o : Option Found) → choose_rule bol (rules q) (c ∷ cs) ≡ o → 0 < (taken o).0
    go none h = omega arith
    go (some (n, r)) h = rules_pos q bol c cs n r h

take-drop : (n : ℕ) (s : Text) → take n s ++ drop n s ≡ s
take-drop zero s = refl
take-drop (suc n) [] = refl
take-drop (suc n) (c ∷ cs) = ap (λ u. c ∷ u) (take-drop n cs)

module _ {F : Type 0} (strtol : Text → ℤ) (sscanf : Text → F) where
  -- What a call returns: all of the text is read, or a token has been read from its start.
  abbrev pub Reads : Text → Option (Lexed F × Scanner) → Type 0
  Reads s none = Unit {0}
  Reads s (some (ran_out, l)) = ⊥
  Reads s (some (end_of_input, l)) = l.text ≡ []
  Reads s (some (token t v, l)) = (length l.text < length s) × (read : Text) × (read ++ l.text ≡ s)

  Reads-behind :
      (n : ℕ) (s : Text) (res : Option (Lexed F × Scanner)) → Reads (drop n s) res → Reads s res
  Reads-behind n s none h = tt
  Reads-behind n s (some (ran_out, l)) h = h
  Reads-behind n s (some (end_of_input, l)) h = h
  Reads-behind n s (some (token t v, l)) (h, read, e) = (
    omega (arith, h, length-drop n s),
    take n s ++ read,
    append_assoc (take n s) read l.text ∙ ap (λ u. take n s ++ u) e ∙ take-drop n s,
  )

  abbrev pub behind : ℕ → ℕ → Scanner → Outcome F → Option (Lexed F × Scanner)
  behind fuel n l (goes_on q d p) = lex_rest strtol sscanf fuel d (moved l n q p)
  behind fuel n l (returns t v q p) = some (token t v, moved l n q p)

  -- The first rule of a call on a text that is not empty, and what comes behind it.
  abbrev pub stepped : ℕ → Option Dstr → Scanner → Option (Lexed F × Scanner)
  stepped fuel d l =
      let (n, a) = taken (choose_rule l.bol (rules l.condition) l.text) in
      act strtol sscanf a (take n l.text) l.condition d l.pool >>= behind fuel n l

  pub lex_rest-stepped :
      (fuel : ℕ) (d : Option Dstr) (l : Scanner) (c : ℕ) (cs : Text)
      → l.text ≡ c ∷ cs
      → lex_rest strtol sscanf (suc fuel) d l ≡ stepped fuel d l
  unfolding lex_rest
  lex_rest-stepped fuel d l c cs e = rw e refl

  after_act :
      (fuel n : ℕ) (l : Scanner) (o : Option (Outcome F))
      → 0 < n
      → 0 < length l.text
      → length l.text ≤ fuel
      → ((d : Option Dstr) (l' : Scanner)
          → length l'.text < fuel
          → Reads l'.text (lex_rest strtol sscanf fuel d l'))
      → Reads l.text (o >>= behind fuel n l)
  after_act fuel n l none h k m ih = tt
  after_act fuel n l (some (goes_on q d p)) h k m ih =
      Reads-behind n l.text _ (ih d (moved l n q p) (omega (arith, length-drop n l.text)))
  after_act fuel n l (some (returns t v q p)) h k m ih =
      (omega (arith, length-drop n l.text), take n l.text, take-drop n l.text)

  Reads-step :
      (fuel : ℕ) (d : Option Dstr) (l : Scanner) (s : Text)
      → l.text ≡ s
      → length l.text ≤ fuel
      → ((d : Option Dstr) (l' : Scanner)
          → length l'.text < fuel
          → Reads l'.text (lex_rest strtol sscanf fuel d l'))
      → Reads l.text (lex_rest strtol sscanf (suc fuel) d l)
  unfolding lex_rest
  Reads-step fuel d l [] e m ih = rw e refl
  Reads-step fuel d l (c ∷ cs) e m ih = rw (lex_rest-stepped fuel d l c cs e) (
      after_act fuel (taken (choose_rule l.bol (rules l.condition) l.text)).0 l _
        (rw e (taken_pos l.condition l.bol c cs)) (rw e (omega arith)) m ih)

  lex_rest-Reads :
      (fuel : ℕ) (d : Option Dstr) (l : Scanner)
      → length l.text < fuel
      → Reads l.text (lex_rest strtol sscanf fuel d l)
  lex_rest-Reads zero d l h = absurd (omega arith)
  lex_rest-Reads (suc fuel) d l h =
      Reads-step fuel d l l.text refl (omega arith) (lex_rest-Reads fuel)

  -- One call of the scanner on any bytes, in any condition, ends within one more round than there
  -- are bytes, unless an assertion of an action fails: either nothing of the text is left, or a
  -- token has been read, and what is left is a proper end of the text.
  pub yylex-Reads : (l : Scanner) → Reads l.text (yylex strtol sscanf (suc (length l.text)) l)
  unfolding yylex
  yylex-Reads l = lex_rest-Reads (suc (length l.text)) none l (omega arith)
