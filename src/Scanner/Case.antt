-- ===== src/Scanner/Case.antt =====
-- src/scanner.l: `%option case-insensitive`.
use cgr101_scpi.Prelude.{
  ℕ, ◌≡◌, refl, ap, ap₂, Bool, List, [], ◌∷◌, arith, none, leb, ◌==◌, not, ◌&&◌, if◌then◌else◌,
}
use cgr101_scpi.Output.{Text}
use cgr101_scpi.Scanner.Pattern.{
  Class, byte, is_digit, is_alpha, is_blank, no_newline, in_class, to_lower, Pattern, nothing,
  blank, one, seq, either, many, nullable, eaten, or_else, rest, longest, step_longer,
}
use cgr101_scpi.Scanner.Rule.{Rule, choose_rule, found, longer}

-- The texts differ in the case of letters alone.
abbrev pub SameLetters : Text → Text → Type 0
SameLetters [] [] = Unit {0}
SameLetters [] (d ∷ ds) = ⊥
SameLetters (c ∷ cs) [] = ⊥
SameLetters (c ∷ cs) (d ∷ ds) = (to_lower c ≡ to_lower d) × SameLetters cs ds

class-to_lower : (k : Class) (c d : ℕ) → to_lower c ≡ to_lower d → in_class k c ≡ in_class k d
class-to_lower (byte b) c d e = ap (λ x. to_lower b == x) e
class-to_lower is_digit c d e = ground arith
class-to_lower is_alpha c d e = ap (λ x. leb 97 x && leb x 122) e
class-to_lower is_blank c d e = ground arith
class-to_lower no_newline c d e = ground arith

rest-to_lower : (p : Pattern) (c d : ℕ) → to_lower c ≡ to_lower d → rest p c ≡ rest p d
rest-to_lower nothing c d e = refl
rest-to_lower blank c d e = refl
rest-to_lower (one k) c d e = ap eaten (class-to_lower k c d e)
rest-to_lower (seq p q) c d e =
    ap₂ (λ a b. or_else (nullable p) (seq a q) b) (rest-to_lower p c d e) (rest-to_lower q c d e)
rest-to_lower (either p q) c d e = ap₂ either (rest-to_lower p c d e) (rest-to_lower q c d e)
rest-to_lower (many p) c d e = ap (λ a. seq a (many p)) (rest-to_lower p c d e)

longest-SameLetters : (p : Pattern) (s t : Text) → SameLetters s t → longest p s ≡ longest p t
unfolding longest
longest-SameLetters p [] [] h = refl
longest-SameLetters p [] (d ∷ ds) h = absurd h
longest-SameLetters p (c ∷ cs) [] h = absurd h
longest-SameLetters p (c ∷ cs) (d ∷ ds) (e, h) =
    ap (step_longer (nullable p))
      (rw (rest-to_lower p c d e) (longest-SameLetters (rest p d) cs ds h))

-- The rules are blind to case: on two texts that differ in the case of letters alone, the same rule
-- is chosen from any list of rules, for a match of the same length, or none on either.
pub choose_rule-SameLetters :
    (bol : Bool) (rs : List Rule) (s t : Text)
    → SameLetters s t
    → choose_rule bol rs s ≡ choose_rule bol rs t
unfolding choose_rule
choose_rule-SameLetters bol [] s t h = refl
choose_rule-SameLetters bol (r ∷ rs) s t h =
    ap₂ (λ a b. longer (if r.anchored && not bol then none else found r a) b)
      (longest-SameLetters r.pattern s t h) (choose_rule-SameLetters bol rs s t h)
