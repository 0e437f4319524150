-- ===== src/Parser/Line/Lines.antt =====
-- src/parser.c: whole lines that one read brings are sent in order.
use cgr101_scpi.Prelude.{
  ℕ, zero, suc, ◌+◌, ◌-◌, ◌≤◌, ◌<◌, ◌≡◌, ◌≢◌, refl, true, false, not, some, none, List, [], ◌∷◌,
  ◌++◌, arith, length, if◌then◌else◌, ap, ap₂, Bool, Option, ◌∙◌, length-append, ==_iff, ◌==◌,
}
use cgr101_scpi.Parser.Line.{
  Line, Effect, Memory, found, cli_len, slice, strchr, parser_cli_line, parser_cli_read, load,
  drain, send_any, parser_process_line,
}

-- The bytes of a line: no newline and no NUL.
abbrev pub IsText : List ℕ → Type 0
IsText [] = Unit
IsText (b ∷ bs) = (b ≢ 10) × (b ≢ 0) × IsText bs

-- The memory holds these bytes from `p` on.
abbrev pub Holds : Memory → ℕ → List ℕ → Type 0
Holds m p [] = Unit
Holds m p (b ∷ bs) = (m p ≡ b) × Holds m (p + 1) bs

strchr-found :
    (l rest : List ℕ) (left : ℕ) (m : Memory) (p : ℕ)
    → IsText l
    → Holds m p (l ++ (10 ∷ rest))
    → length l < left
    → strchr left m p ≡ found (length l)
unfolding strchr
strchr-found [] rest zero m p t h k = absurd (omega arith)
strchr-found [] rest (suc left) m p t h k = ground arith
strchr-found (b ∷ l) rest zero m p t h k = absurd (omega arith)
strchr-found (b ∷ l) rest (suc left) m p t h k =
    ground (arith, strchr-found l rest left m (p + 1) t.2 h.1 (omega arith))

slice-Holds :
    (l rest : List ℕ) (m : Memory) (p : ℕ) → Holds m p (l ++ rest) → slice m p (length l) ≡ l
unfolding slice
slice-Holds [] rest m p h = refl
slice-Holds (b ∷ l) rest m p h = ap₂ ◌∷◌ h.0 (slice-Holds l rest m (p + 1) h.1)

-- One line is cut off: it is sent unless it is empty, and the pointer moves past its newline.
pub parser_cli_line-cut :
    (s : Line) (p : ℕ) (l rest : List ℕ)
    → s.cli_line ≡ some p
    → s.cli_line_len ≡ length l + 1 + length rest
    → p + s.cli_line_len ≤ cli_len
    → IsText l
    → Holds s.cli_buf p (l ++ (10 ∷ rest))
    → parser_cli_line s
      ≡ some (
        record { line = (if length l == 0 then none else some l); again = not (length rest == 0) },
        record s {
          cli_line = (if length rest == 0 then none else some (p + length l + 1));
          cli_line_len = length rest;
        },
      )
unfolding parser_cli_line
parser_cli_line-cut s p l rest e n b t h =
    rw (e, strchr-found l rest (cli_len - p) s.cli_buf p t h (omega arith))
      (rw (slice-Holds l (10 ∷ rest) s.cli_buf p h, n) (ground arith))

abbrev pub unlines : List (List ℕ) → List ℕ
unlines [] = []
unlines (l ∷ ls) = l ++ (10 ∷ unlines ls)

abbrev pub AllText : List (List ℕ) → Type 0
AllText [] = Unit
AllText (l ∷ ls) = IsText l × AllText ls

Holds-append : (m : Memory) (p : ℕ) (a b : List ℕ) → Holds m p (a ++ b) → Holds m (p + length a) b
Holds-append m p [] b h = let e : p + 0 ≡ p = omega arith in rw e h
Holds-append m p (x ∷ a) b h =
    let e : p + suc (length a) ≡ p + 1 + length a = omega arith in
    rw e (Holds-append m (p + 1) a b h.1)

-- The state in which the line after `l` is next.
abbrev behind : Line → ℕ → List ℕ → List ℕ → Line
behind s p l rest = record s {
  cli_line = (if length rest == 0 then none else some (p + length l + 1));
  cli_line_len = length rest;
}

Holds-shadow :
    (m : Memory) (p q b : ℕ) (bs : List ℕ)
    → p < q
    → Holds m q bs
    → Holds (λ i. if i == p then b else m i) q bs
Holds-shadow m p q b [] lt h = tt
Holds-shadow m p q b (x ∷ bs) lt h =
    (rw (apart q p lt) h.0, Holds-shadow m p (q + 1) b bs (omega arith) h.1)
  where
    apart : (i j : ℕ) → j < i → (i == j) ≡ false
    apart i j k = ground arith

pub load-Holds : (m : Memory) (p : ℕ) (bs : List ℕ) → Holds (load m p bs) p bs
unfolding load
load-Holds m p [] = tt
load-Holds m p (b ∷ bs) = (
  rw ((==_iff p p).1 refl),
  Holds-shadow (load m (p + 1) bs) p (p + 1) b bs (omega arith) (load-Holds m (p + 1) bs),
)

-- The state that a read leaves.
abbrev pub arrived : Line → List ℕ → Line
arrived s bytes = record s {
  cli_buf = load s.cli_buf s.cli_offset bytes;
  cli_line = some s.cli_offset;
  cli_line_len = length bytes;
}

pub read-arrived :
    (bytes : List ℕ) (s : Line)
    → 0 < length bytes
    → parser_cli_read bytes s ≡ some (record { line = none; again = true }, arrived s bytes)
unfolding parser_cli_read
read-arrived [] s h = absurd (omega arith)
read-arrived (b ∷ bs) s h = refl

process_open :
    (s s' : Line) (p : ℕ) (e : Effect) (blocked : Bool)
    → s.cli_line ≡ some p
    → parser_cli_line s ≡ some (e, s')
    → blocked ≡ false
    → parser_process_line blocked s ≡ some (e, s')
unfolding parser_process_line
process_open s s' p e blocked l c b = ground arith

module _ {S : Type 0} (blocked : S → Bool) (scpi_send : List ℕ → S → Option S) where
  -- The lines that are not empty are sent in order, and the input is never blocked in front of one.
  abbrev pub Sends : List (List ℕ) → S → S → Type 0
  Sends [] w w' = w ≡ w'
  Sends (l ∷ ls) w w' =
      (blocked w ≡ false)
      × (v : S) × (send_any blocked scpi_send (if length l == 0 then none else some l) w ≡ some v)
      × Sends ls v w'

  drain_step :
      (fuel : ℕ) (s s' : Line) (p : ℕ) (e : Effect) (w v : S)
      → s.cli_line ≡ some p
      → parser_cli_line s ≡ some (e, s')
      → blocked w ≡ false
      → send_any blocked scpi_send e.line w ≡ some v
      → drain blocked scpi_send (suc fuel) s w
        ≡ elim e.again [ true ↦ drain blocked scpi_send fuel s' v | false ↦ some (s', v) ]
  unfolding drain
  drain_step fuel s s' p e w v l c b d = rw (process_open s s' p e (blocked w) l c b, d) refl

  drain-unlines :
      (ls : List (List ℕ)) (l : List ℕ) (s : Line) (p : ℕ) (w w' : S)
      → s.cli_line ≡ some p
      → s.cli_line_len ≡ length (unlines (l ∷ ls))
      → p + s.cli_line_len ≤ cli_len
      → AllText (l ∷ ls)
      → Holds s.cli_buf p (unlines (l ∷ ls))
      → Sends (l ∷ ls) w w'
      → drain blocked scpi_send (suc (length ls)) s w
        ≡ some (record s { cli_line = none; cli_line_len = 0 }, w')
  drain-unlines [] l s p w w' e n b t h (u, v, d, z) =
      drain_step 0 s (behind s p l []) p _ w v e
        (parser_cli_line-cut s p l [] e (omega (arith, n, length-append l (10 ∷ []))) b t.0 h) u d
      ∙ ap (λ x. some (record s { cli_line = none; cli_line_len = 0 }, x)) z
  drain-unlines (l' ∷ ls) l s p w w' e n b t h (u, v, d, z) =
      drain_step (suc (length ls)) s (behind s p l rest) p _ w v e
        (parser_cli_line-cut s p l rest e here b t.0 h) u d
      ∙ rw some_left (
          drain-unlines ls l' (behind s p l rest) (p + length l + 1) v w' (rw some_left) refl
            (omega (arith, here, b)) t.1 next z)
    where
      rest : List ℕ
      rest = unlines (l' ∷ ls)

      here : s.cli_line_len ≡ length l + 1 + length rest
      here = omega (arith, n, length-append l (10 ∷ rest))

      some_left : (length rest == 0) ≡ false
      some_left = ground (arith, length-append l' (10 ∷ unlines ls))

      next : Holds s.cli_buf (p + length l + 1) rest
      next = (Holds-append s.cli_buf p l (10 ∷ rest) h).1

  -- A read that brings whole lines without NULs, which fit in the buffer, while nothing is kept of a
  -- line before: it sends the line event, and where the lines that are not empty can be sent one
  -- after the other, with the input not blocked in front of any line, then as many line events as
  -- there are lines, each sent by the handler of the one before, send them in that order and leave
  -- no line and no line event.
  pub read-drain :
      (ls : List (List ℕ)) (l : List ℕ) (s : Line) (w w' : S)
      → s.cli_offset ≡ 0
      → AllText (l ∷ ls)
      → length (unlines (l ∷ ls)) ≤ cli_len
      → Sends (l ∷ ls) w w'
      → (s' s'' : Line) × (parser_cli_read (unlines (l ∷ ls)) s
          ≡ some (record { line = none; again = true }, s'))
        × (drain blocked scpi_send (suc (length ls)) s' w ≡ some (s'', w'))
        × (s''.cli_line ≡ none)
  read-drain ls l s w w' z t b d = (
    arrived s (unlines (l ∷ ls)),
    record (arrived s (unlines (l ∷ ls))) { cli_line = none; cli_line_len = 0 },
    read-arrived (unlines (l ∷ ls)) s (omega (arith, length-append l (10 ∷ unlines ls))),
    drain-unlines ls l (arrived s (unlines (l ∷ ls))) s.cli_offset w w' refl refl
        (omega (arith, z, b)) t (load-Holds s.cli_buf s.cli_offset (unlines (l ∷ ls))) d,
    refl,
  )
