-- ===== src/Scanner/Munch.antt =====
-- src/scanner.l: the rule that is applied is the one with the longest match, and of those the one
-- that stands first.
use cgr101_scpi.Prelude.{
  ℕ, ◌≤◌, ◌<◌, ◌≡◌, refl, ap, ◌∙◌, inl, inr, Bool, true, false, not, ◌&&◌, Option, none, some, List,
  [], ◌∷◌, ◌++◌, arith, length, Bool-cases, ltb, ltb→lt, sym, if◌then◌else◌,
}
use cgr101_scpi.Output.{Text}
use cgr101_scpi.Scanner.Pattern.{longest}
use cgr101_scpi.Scanner.Matches.{Matches, longest-Matches, Matches-longest}
use cgr101_scpi.Scanner.Rule.{Rule, Found, choose_rule, try_rule, found, longer}

-- The rule takes the bytes, at the beginning of a line or elsewhere.
abbrev pub Takes : Bool → Rule → Text → Type 0
Takes bol r a = ((r.anchored && not bol) ≡ false) × Matches r.pattern a

-- The rule takes a start of the text that is `n` bytes long.
abbrev pub TakesStart : Bool → Rule → Text → ℕ → Type 0
TakesStart bol r s n = (a b : Text) × (a ++ b ≡ s) × (length a ≡ n) × Takes bol r a

-- Each rule of the list takes at most, or less than, `n` bytes.
abbrev pub AtMost : Bool → List Rule → Text → ℕ → Type 0
AtMost bol [] s n = Unit {0}
AtMost bol (r ∷ rs) s n = ((m : ℕ) → TakesStart bol r s m → m ≤ n) × AtMost bol rs s n

abbrev pub Less : Bool → List Rule → Text → ℕ → Type 0
Less bol [] s n = Unit {0}
Less bol (r ∷ rs) s n = ((m : ℕ) → TakesStart bol r s m → m < n) × Less bol rs s n

-- The rule of the list that takes the longest start, and the first of those.
abbrev pub Longest : Bool → List Rule → Text → ℕ → Rule → Type 0
Longest bol rs s n r =
    (before after : List Rule) × (before ++ (r ∷ after) ≡ rs)
    × TakesStart bol r s n
    × Less bol before s n
    × AtMost bol (r ∷ after) s n

abbrev pub NoneTakes : Bool → List Rule → Text → Type 0
NoneTakes bol [] s = Unit {0}
NoneTakes bol (r ∷ rs) s = ((m : ℕ) → TakesStart bol r s m → ⊥) × NoneTakes bol rs s

-- What the choice says of the rules.
abbrev pub Chosen : Bool → List Rule → Text → Option Found → Type 0
Chosen bol rs s none = NoneTakes bol rs s
Chosen bol rs s (some (n, r)) = Longest bol rs s n r

le_trans : {a b c : ℕ} → a ≤ b → b ≤ c → a ≤ c
le_trans h l = omega arith

lt_le : {a b c : ℕ} → a < b → b ≤ c → a ≤ c
lt_le h l = omega arith

le_lt : {a b c : ℕ} → a ≤ b → b < c → a < c
le_lt h l = omega arith

-- One rule.
abbrev One : Bool → Rule → Text → Option Found → Type 0
One bol r s none = (m : ℕ) → TakesStart bol r s m → ⊥
One bol r s (some (n, q)) =
    (q ≡ r) × TakesStart bol q s n × ((m : ℕ) → TakesStart bol r s m → m ≤ n)

takes_le :
    (bol : Bool) (r : Rule) (s : Text) (m : ℕ)
    → TakesStart bol r s m
    → (n : ℕ) × (longest r.pattern s ≡ some n) × (m ≤ n)
takes_le bol r s m (a, b, j, l, (t, k)) =
    let (n, e, h) = Matches-longest r.pattern a b k in
    (n, ap (longest r.pattern) (sym j) ∙ e, omega arith)

One-found :
    (bol : Bool) (s : Text) (r : Rule) (o : Option ℕ)
    → longest r.pattern s ≡ o
    → (r.anchored && not bol) ≡ false
    → One bol r s (found r o)
One-found bol s r none h t =
    λ m t'. let (n, e, l) = takes_le bol r s m t' in absurd (clash n (sym h ∙ e))
  where
    clash : (n : ℕ) → none ≡ some n → ⊥
    clash n e = cc
One-found bol s r (some n) h t =
    let (a, b, j, l, k) = longest-Matches r.pattern s n h in
    (
      refl,
      (a, b, j, l, (t, k)),
      λ m t'. let (n', e, l') = takes_le bol r s m t' in below n n' m (sym h ∙ e) l',
    )
  where
    below : (n n' m : ℕ) → some n ≡ some n' → m ≤ n' → m ≤ n
    below n n' m e l = ground arith

One-if :
    (bol : Bool) (s : Text) (r : Rule) (b : Bool)
    → (r.anchored && not bol) ≡ b
    → One bol r s (if b then none else found r (longest r.pattern s))
One-if bol s r true h = λ m (a, b, j, l, (t, k)). clash (sym h ∙ t)
  where
    clash : true ≡ false → ⊥
    clash e = cc
One-if bol s r false h = One-found bol s r (longest r.pattern s) refl h

none-AtMost :
    (bol : Bool) (rs : List Rule) (s : Text) (n : ℕ) → NoneTakes bol rs s → AtMost bol rs s n
none-AtMost bol [] s n h = tt
none-AtMost bol (r ∷ rs) s n (h, t) = ((λ m t'. absurd (h m t')), none-AtMost bol rs s n t)

pub Less-append :
    (bol : Bool) (before rest : List Rule) (s : Text) (n m : ℕ)
    → m ≤ n
    → Less bol before s m
    → AtMost bol rest s m
    → AtMost bol (before ++ rest) s n
Less-append bol [] [] s n m l h u = tt
Less-append bol [] (r ∷ rest) s n m l h (u, us) =
    ((λ k t. le_trans (u k t) l), Less-append bol [] rest s n m l tt us)
Less-append bol (r ∷ before) rest s n m l (h, hs) u =
    ((λ k t. lt_le (h k t) l), Less-append bol before rest s n m l hs u)

longer-Chosen :
    (bol : Bool) (r : Rule) (rs : List Rule) (s : Text) (x y : Option Found)
    → One bol r s x
    → Chosen bol rs s y
    → Chosen bol (r ∷ rs) s (longer x y)
longer-Chosen bol r rs s none none h t = (h, t)
longer-Chosen bol r rs s none (some (m, q)) h (before, after, e, t, l, u) =
    (r ∷ before, after, ap (λ x. r ∷ x) e, t, ((λ k t'. absurd (h k t')), l), u)
longer-Chosen bol r rs s (some (n, q)) none (e, t, h) u =
    ([], rs, ap (λ x. x ∷ rs) e, t, tt, (rw e h, none-AtMost bol rs s n u))
longer-Chosen bol r rs s (some (n, q)) (some (m, q')) (e, t, h) (before, after, e', t', l, u) =
    elim (Bool-cases (ltb n m)) [
      | inl j ↦
          rw j (
            r ∷ before,
            after,
            ap (λ x. r ∷ x) e',
            t',
            ((λ k w. le_lt (h k w) (ltb→lt n m j)), l),
            u,
          )
      | inr j ↦ rw j (
        [],
        rs,
        ap (λ x. x ∷ rs) e,
        t,
        tt,
        (rw e h, rw e' at (Less-append bol before (q' ∷ after) s n m (ground arith) l u)),
      )
    ]

-- In any list of rules, on any text, at the beginning of a line or elsewhere: where a rule is chosen,
-- it is a rule of the list that matches the start of the text it takes, no rule of the list matches
-- a longer start, and the rules before it match shorter starts only, or none; where none is chosen,
-- no rule matches any start of the text. A rule with `^` matches at the beginning of a line alone.
pub choose_rule-Chosen :
    (bol : Bool) (rs : List Rule) (s : Text) → Chosen bol rs s (choose_rule bol rs s)
unfolding choose_rule
choose_rule-Chosen bol [] s = tt
choose_rule-Chosen bol (r ∷ rs) s =
    longer-Chosen bol r rs s (try_rule bol s r) (choose_rule bol rs s)
      (One-if bol s r (r.anchored && not bol) refl) (choose_rule-Chosen bol rs s)
