-- ===== src/Parser/Line/Leftover.antt =====
-- src/parser.c: what becomes of a line that two reads bring in parts.
use cgr101_scpi.Prelude.{
  ℕ, zero, suc, ◌+◌, ◌-◌, ◌≤◌, ◌<◌, ◌≡◌, refl, ◌∙◌, true, false, some, none, List, [], ◌∷◌, ◌++◌,
  arith, length, if◌then◌else◌, length-append, ◌==◌, ==_iff,
}
use cgr101_scpi.Parser.Line.{
  Line, Effect, Memory, absent, cli_len, strchr, parser_cli_line, parser_cli_read, nothing, load,
  move_down,
}
use cgr101_scpi.Parser.Line.Lines.{IsText, arrived, read-arrived, parser_cli_line-cut, load-Holds}

-- The memory holds these bytes from `p` on, and a NUL behind them.
abbrev Ends : Memory → ℕ → List ℕ → Type 0
Ends m p [] = m p ≡ 0
Ends m p (b ∷ bs) = (m p ≡ b) × Ends m (p + 1) bs

strchr-absent :
    (l : List ℕ) (left : ℕ) (m : Memory) (p : ℕ)
    → IsText l
    → Ends m p l
    → length l < left
    → strchr left m p ≡ absent
unfolding strchr
strchr-absent [] zero m p t h k = absurd (omega arith)
strchr-absent [] (suc left) m p t h k = ground arith
strchr-absent (b ∷ l) zero m p t h k = absurd (omega arith)
strchr-absent (b ∷ l) (suc left) m p t h k =
    ground (arith, strchr-absent l left m (p + 1) t.2 h.1 (omega arith))

Ends-shadow :
    (m : Memory) (p q b : ℕ) (bs : List ℕ)
    → p < q
    → Ends m q bs
    → Ends (λ i. if i == p then b else m i) q bs
Ends-shadow m p q b [] lt h = rw (apart q p lt) h
  where
    apart : (i j : ℕ) → j < i → (i == j) ≡ false
    apart i j k = ground arith
Ends-shadow m p q b (x ∷ bs) lt h =
    (rw (apart q p lt) h.0, Ends-shadow m p (q + 1) b bs (omega arith) h.1)
  where
    apart : (i j : ℕ) → j < i → (i == j) ≡ false
    apart i j k = ground arith

load-Ends : (m : Memory) (p : ℕ) (bs : List ℕ) → Ends (load m p bs) p bs
unfolding load
load-Ends m p [] = ground arith
load-Ends m p (b ∷ bs) = (
  rw ((==_iff p p).1 refl),
  Ends-shadow (load m (p + 1) bs) p (p + 1) b bs (omega arith) (load-Ends m (p + 1) bs),
)

-- The state in which an incomplete line is kept for the next read.
abbrev kept : Line → List ℕ → Line
kept s a = record {
  cli_offset = length a;
  cli_buf = move_down (arrived s a).cli_buf s.cli_offset (length a);
  cli_line = none;
  cli_line_len = 0;
}

parser_cli_line-kept :
    (a : List ℕ) (s : Line)
    → IsText a
    → 0 < length a
    → s.cli_offset + length a < cli_len
    → parser_cli_line (arrived s a) ≡ some (nothing, kept s a)
unfolding parser_cli_line load
parser_cli_line-kept [] s t n b = absurd (omega arith)
parser_cli_line-kept (x ∷ a) s t n b =
    rw
      (strchr-absent (x ∷ a) (cli_len - s.cli_offset) (load s.cli_buf s.cli_offset (x ∷ a))
        s.cli_offset t (load-Ends s.cli_buf s.cli_offset (x ∷ a)) (omega arith))
      (ground arith)

-- A line without NULs that fits in the buffer, whose first part comes with one read and whose
-- rest, not empty either, with the next: it is sent without its first part.
pub leftover_lost :
    (a l : List ℕ) (s : Line)
    → IsText a
    → IsText l
    → 0 < length a
    → 0 < length l
    → s.cli_offset + length a < cli_len
    → length a + length l + 1 ≤ cli_len
    → (s₁ s₂ s₃ s₄ : Line) × (e : Effect) × (parser_cli_read a s
        ≡ some (record { line = none; again = true }, s₁))
      × (parser_cli_line s₁ ≡ some (nothing, s₂))
      × (parser_cli_read (l ++ (10 ∷ [])) s₂ ≡ some (e, s₃))
      × (parser_cli_line s₃ ≡ some (record { line = some l; again = false }, s₄))
      × (s₄.cli_line ≡ none)
leftover_lost a l s ta tl na nl ba bl =
    let s₃ = arrived (kept s a) (l ++ (10 ∷ [])) in
    (
      arrived s a,
      kept s a,
      s₃,
      record s₃ { cli_line = none; cli_line_len = 0 },
      record { line = none; again = true },
      read-arrived a s na,
      parser_cli_line-kept a s ta na ba,
      read-arrived (l ++ (10 ∷ [])) (kept s a) (omega (arith, length-append l (10 ∷ []))),
      parser_cli_line-cut s₃ (length a) l [] refl (omega (arith, length-append l (10 ∷ [])))
            (omega (arith, bl, length-append l (10 ∷ []))) tl
            (load-Holds (kept s a).cli_buf (length a) (l ++ (10 ∷ [])))
          ∙ rw full refl,
      refl,
    )
  where
    full : (length l == 0) ≡ false
    full = ground arith
