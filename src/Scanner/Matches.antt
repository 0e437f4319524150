-- ===== src/Scanner/Matches.antt =====
-- What a pattern matches, as a predicate on whole texts, and that eating a text byte by byte
-- decides it.
use cgr101_scpi.Prelude.{
  ℕ, suc, ◌≤◌, ◌≡◌, refl, ap, sym, ◌∙◌, ◌⊎◌, inl, inr, Bool, true, false, ◌||◌, Option, none, some,
  [], ◌∷◌, ◌++◌, arith, length, Bool-cases, and_left, and_right,
}
use cgr101_scpi.Output.{Text}
use cgr101_scpi.Scanner.Pattern.{
  Pattern, in_class, nothing, blank, one, seq, either, many, nullable, eaten, or_else, rest,
  longest, step_longer,
}

-- Some texts with the property, one behind the other.
pub data Many (P : Text → Type 0) : Text → Type 0 where
  stop : (t : Text) → t ≡ [] → Many P t
  more : (a b t : Text) → a ++ b ≡ t → P a → Many P b → Many P t

abbrev pub Matches : Pattern → Text → Type 0
Matches nothing t = ⊥
Matches blank t = t ≡ []
Matches (one k) t = (c : ℕ) × (t ≡ c ∷ []) × (in_class k c ≡ true)
Matches (seq p q) t = (a b : Text) × (a ++ b ≡ t) × Matches p a × Matches q b
Matches (either p q) t = Matches p t ⊎ Matches q t
Matches (many p) t = Many (Matches p) t

cons_head : (d c : ℕ) (a t : Text) → d ∷ a ≡ c ∷ t → d ≡ c
cons_head d c a t e = cc

cons_tail : (d c : ℕ) (a t : Text) → d ∷ a ≡ c ∷ t → a ≡ t
cons_tail d c a t e = cc

or_right : (a b : Bool) → b ≡ true → (a || b) ≡ true
or_right true b h = refl
or_right false b h = h

eaten_only : (b : Bool) (t : Text) → Matches (eaten b) t → (b ≡ true) × (t ≡ [])
eaten_only true t m = (refl, m)
eaten_only false t m = elim m [ ]

eaten_all : (b : Bool) (t : Text) → b ≡ true → t ≡ [] → Matches (eaten b) t
eaten_all true t h e = e
eaten_all false t h e = absurd cc

or_else_one :
    (b : Bool) (p q : Pattern) (t : Text)
    → Matches (or_else b p q) t
    → Matches p t ⊎ ((b ≡ true) × Matches q t)
or_else_one true p q t (inl m) = inl m
or_else_one true p q t (inr m) = inr (refl, m)
or_else_one false p q t m = inl m

or_else_left : (b : Bool) (p q : Pattern) (t : Text) → Matches p t → Matches (or_else b p q) t
or_else_left true p q t m = inl m
or_else_left false p q t m = m

or_else_right :
    (b : Bool) (p q : Pattern) (t : Text) → b ≡ true → Matches q t → Matches (or_else b p q) t
or_else_right true p q t h m = inr m
or_else_right false p q t h m = absurd cc

nullable-Matches : (p : Pattern) → nullable p ≡ true → Matches p []
nullable-Matches nothing h = absurd cc
nullable-Matches blank h = refl
nullable-Matches (one k) h = absurd cc
nullable-Matches (seq p q) h = (
  [],
  [],
  refl,
  nullable-Matches p (and_left (nullable p) (nullable q) h),
  nullable-Matches q (and_right (nullable p) (nullable q) h),
)
nullable-Matches (either p q) h = elim (Bool-cases (nullable p)) [
  | inl e ↦ inl (nullable-Matches p e)
  | inr e ↦ inr (nullable-Matches q (rw e at h))
]
nullable-Matches (many p) h = stop [] refl

pub Matches-nullable : (p : Pattern) (t : Text) → t ≡ [] → Matches p t → nullable p ≡ true
Matches-nullable nothing t e m = elim m [ ]
Matches-nullable blank t e m = refl
Matches-nullable (one k) t e m = cc
Matches-nullable (seq p q) t e ([], [], j, m, n) =
    rw (Matches-nullable p [] refl m, Matches-nullable q [] refl n) refl
Matches-nullable (seq p q) t e ([], d ∷ b, j, m, n) = absurd cc
Matches-nullable (seq p q) t e (d ∷ a, b, j, m, n) = absurd cc
Matches-nullable (either p q) t e (inl m) = rw (Matches-nullable p t e m) refl
Matches-nullable (either p q) t e (inr m) =
    or_right (nullable p) (nullable q) (Matches-nullable q t e m)
Matches-nullable (many p) t e m = refl

-- Eating is sound.
rest-Matches : (p : Pattern) (c : ℕ) (t : Text) → Matches (rest p c) t → Matches p (c ∷ t)
rest-Matches nothing c t m = elim m [ ]
rest-Matches blank c t m = elim m [ ]
rest-Matches (one k) c t m = let (h, e) = eaten_only (in_class k c) t m in (c, ap (λ u. c ∷ u) e, h)
rest-Matches (seq p q) c t m = elim (or_else_one (nullable p) (seq (rest p c) q) (rest q c) t m) [
  | inl (a, b, e, k, n) ↦ (c ∷ a, b, ap (λ u. c ∷ u) e, rest-Matches p c a k, n)
  | inr (h, n) ↦ ([], c ∷ t, refl, nullable-Matches p h, rest-Matches q c t n)
]
rest-Matches (either p q) c t (inl m) = inl (rest-Matches p c t m)
rest-Matches (either p q) c t (inr m) = inr (rest-Matches q c t m)
rest-Matches (many p) c t (a, b, e, m, n) =
    more (c ∷ a) b (c ∷ t) (ap (λ u. c ∷ u) e) (rest-Matches p c a m) n

-- Eating is complete.
many_rest :
    (p : Pattern) (c : ℕ)
    → ((s t : Text) → s ≡ c ∷ t → Matches p s → Matches (rest p c) t)
    → (s t : Text) → s ≡ c ∷ t
    → Many (Matches p) s
    → Matches (rest (many p) c) t
many_rest p c ih s t e (stop _ j) = absurd cc
many_rest p c ih s t e (more [] b _ j m n) = many_rest p c ih b t (j ∙ e) n
many_rest p c ih s t e (more (d ∷ a) b _ j m n) = (
  a,
  b,
  cons_tail d c (a ++ b) t (j ∙ e),
  ih (d ∷ a) a (ap (λ x. x ∷ a) (cons_head d c (a ++ b) t (j ∙ e))) m,
  n,
)

Matches-rest : (p : Pattern) (c : ℕ) (s t : Text) → s ≡ c ∷ t → Matches p s → Matches (rest p c) t
Matches-rest nothing c s t e m = elim m [ ]
Matches-rest blank c s t e m = absurd cc
Matches-rest (one k) c s t e (d, j, h) =
    eaten_all (in_class k c) t (ap (in_class k) (cons_head c d t [] (sym e ∙ j)) ∙ h)
      (cons_tail c d t [] (sym e ∙ j))
Matches-rest (seq p q) c s t e ([], b, j, m, n) =
    or_else_right (nullable p) (seq (rest p c) q) (rest q c) t (Matches-nullable p [] refl m)
      (Matches-rest q c b t (j ∙ e) n)
Matches-rest (seq p q) c s t e (d ∷ a, b, j, m, n) =
    or_else_left (nullable p) (seq (rest p c) q) (rest q c) t (
      a,
      b,
      cons_tail d c (a ++ b) t (j ∙ e),
      Matches-rest p c (d ∷ a) a (ap (λ x. x ∷ a) (cons_head d c (a ++ b) t (j ∙ e))) m,
      n,
    )
Matches-rest (either p q) c s t e (inl m) = inl (Matches-rest p c s t e m)
Matches-rest (either p q) c s t e (inr m) = inr (Matches-rest q c s t e m)
Matches-rest (many p) c s t e m = many_rest p c (Matches-rest p c) s t e m

step_back :
    (b : Bool) (m : Option ℕ) (n : ℕ)
    → step_longer b m ≡ some n
    → ((b ≡ true) × (n ≡ 0)) ⊎ ((k : ℕ) × (m ≡ some k) × (n ≡ suc k))
step_back b (some k) n h = inr (k, refl, cc)
step_back true none n h = inl (refl, cc)
step_back false none n h = absurd cc

step_here : (b : Bool) (m : Option ℕ) → b ≡ true → (n : ℕ) × (step_longer b m ≡ some n) × (0 ≤ n)
step_here b (some k) h = (suc k, refl, omega arith)
step_here true none h = (0, refl, omega arith)
step_here false none h = absurd cc

-- The longest start that `longest` finds is one that the pattern matches.
pub longest-Matches :
    (p : Pattern) (s : Text) (n : ℕ)
    → longest p s ≡ some n
    → (a b : Text) × (a ++ b ≡ s) × (length a ≡ n) × Matches p a
unfolding longest
longest-Matches p [] n h = elim (step_back (nullable p) none n h) [
  | inl (e, z) ↦ ([], [], refl, sym z, nullable-Matches p e)
  | inr (k, e, z) ↦ absurd cc
]
longest-Matches p (c ∷ cs) n h = elim (step_back (nullable p) (longest (rest p c) cs) n h) [
  | inl (e, z) ↦ ([], c ∷ cs, refl, sym z, nullable-Matches p e)
  | inr (k, e, z) ↦
      let (a, b, j, l, m) = longest-Matches (rest p c) cs k e in
      (c ∷ a, b, ap (λ u. c ∷ u) j, ap suc l ∙ sym z, rest-Matches p c a m)
]

-- No start that the pattern matches is longer.
pub Matches-longest :
    (p : Pattern) (a b : Text)
    → Matches p a
    → (n : ℕ) × (longest p (a ++ b) ≡ some n) × (length a ≤ n)
unfolding longest
Matches-longest p [] [] m = step_here (nullable p) none (Matches-nullable p [] refl m)
Matches-longest p [] (c ∷ b) m =
    step_here (nullable p) (longest (rest p c) b) (Matches-nullable p [] refl m)
Matches-longest p (c ∷ a) b m =
    let (n, e, l) = Matches-longest (rest p c) a b (Matches-rest p c (c ∷ a) a refl m) in
    (suc n, ap (step_longer (nullable p)) e, omega arith)
