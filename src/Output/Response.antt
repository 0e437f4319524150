-- ===== src/Output/Response.antt =====
-- src/scpi_output.c: the bytes of a whole response.
use cgr101_scpi.Prelude.{
  ℕ, ◌+◌, ◌<◌, ◌≡◌, refl, Bool, true, false, List, [], ◌∷◌, ◌++◌, arith, length, length-append, suc,
  ap, ◌∙◌, sym,
}
use mathlib.Core.List.{append_assoc, append-nil}
use cgr101_scpi.Output.{Output, Text, cleared, append_char, put, cmd_sep}

-- The printed elements of one command, in order.
unfoldable pub put_all : Output → List Text → Output
put_all o [] = o
put_all o (t ∷ ts) = put_all (put o t).1 ts

-- The commands of one line, the first without its separator.
unfoldable pub put_rest : Output → List (List Text) → Output
put_rest o [] = o
put_rest o (c ∷ cs) = put_rest (put_all (cmd_sep o) c) cs

unfoldable pub respond : List Text → List (List Text) → Output
respond c cs = put_rest (put_all cleared c) cs

-- What IEEE 488.2 asks for: commas between the elements of a command, semicolons between commands.
unfoldable pub more_elements : List Text → Text
more_elements [] = []
more_elements (t ∷ ts) = b',' ∷ (t ++ more_elements ts)

unfoldable pub elements : List Text → Text
unfolding more_elements
elements [] = []
elements (t ∷ ts) = t ++ more_elements ts

abbrev after_separator : List Text → Text
after_separator [] = []
after_separator (t ∷ ts) = b';' ∷ (t ++ more_elements ts)

unfoldable pub more_commands : List (List Text) → Text
unfolding elements
more_commands [] = []
more_commands (c ∷ cs) = after_separator c ++ more_commands cs

unfoldable pub response : List Text → List (List Text) → Text
response c cs = elements c ++ more_commands cs

-- A buffer in which nothing was lost.
abbrev whole : Bool → ℕ → Text → Output
whole sep n buf = record { need_sep = sep; num_elem = n; overflow = false; buf = buf }

-- One print where there is room for a separator and the text.
put_first :
    (buf t : Text)
    → length (buf ++ t) < 32767
    → put (whole false 0 buf) t ≡ (false, whole false 1 (buf ++ t))
unfolding put
put_first buf t h = ground (arith, length-append buf t)

put_comma :
    (n : ℕ) (buf t : Text)
    → length (buf ++ (b',' ∷ t)) < 32767
    → put (whole false (suc n) buf) t ≡ (false, whole false (suc (suc n)) (buf ++ (b',' ∷ t)))
unfolding put append_char
put_comma n buf t h = ground (
  arith,
  length-append buf (b',' ∷ t),
  length-append buf (b',' ∷ []),
  append_assoc buf (b',' ∷ []) t,
)

put_semicolon :
    (n : ℕ) (buf t : Text)
    → length (buf ++ (b';' ∷ t)) < 32767
    → put (whole true n buf) t ≡ (false, whole false 1 (buf ++ (b';' ∷ t)))
unfolding put append_char
put_semicolon n buf t h = ground (
  arith,
  length-append buf (b';' ∷ t),
  length-append buf (b';' ∷ []),
  append_assoc buf (b';' ∷ []) t,
)

length-append_assoc : (a b c : Text) → length (a ++ (b ++ c)) ≡ length ((a ++ b) ++ c)
length-append_assoc a b c = ap length (sym (append_assoc a b c))

put_all_more :
    (n : ℕ) (buf : Text) (ts : List Text)
    → length (buf ++ more_elements ts) < 32767
    → put_all (whole false (suc n) buf) ts
      ≡ whole false (suc n + length ts) (buf ++ more_elements ts)
unfolding put_all more_elements
put_all_more n buf [] h = rw (append-nil buf) (ap (λ k. whole false k buf) (omega arith))
put_all_more n buf (t ∷ ts) h =
    rw
      (put_comma n buf t
        (omega (arith, fits, length-append (buf ++ (b',' ∷ t)) (more_elements ts))))
      (put_all_more (suc n) (buf ++ (b',' ∷ t)) ts (omega (arith, fits))
        ∙ rw (append_assoc buf (b',' ∷ t) (more_elements ts))
            (ap (λ k. whole false k (buf ++ (b',' ∷ (t ++ more_elements ts)))) (omega arith)))
  where
    fits : length ((buf ++ (b',' ∷ t)) ++ more_elements ts) < 32767
    fits = omega (arith, h, length-append_assoc buf (b',' ∷ t) (more_elements ts))

put_all-elements :
    (ts : List Text)
    → length (elements ts) < 32767
    → put_all cleared ts ≡ whole false (length ts) (elements ts)
unfolding put_all elements
put_all-elements [] h = refl
put_all-elements (t ∷ ts) h =
    rw (put_first [] t (omega (arith, h, length-append t (more_elements ts))))
      (put_all_more 0 t ts h ∙ ap (λ k. whole false k (t ++ more_elements ts)) (omega arith))

-- A command that follows others, printed after a separator: its elements behind a semicolon.
put_all_after :
    (s : Bool) (n : ℕ) (buf : Text) (c : List Text)
    → length (buf ++ after_separator c) < 32767
    → (s' : Bool) × (n' : ℕ) × (put_all (cmd_sep (whole s n buf)) c
        ≡ whole s' n' (buf ++ after_separator c))
unfolding put_all cmd_sep
put_all_after s n buf [] h = (true, n, rw (append-nil buf))
put_all_after s n buf (t ∷ ts) h = (
  false,
  1 + length ts,
  rw
      (put_semicolon n buf t
        (omega (arith, fits, length-append (buf ++ (b';' ∷ t)) (more_elements ts))))
      (put_all_more 0 (buf ++ (b';' ∷ t)) ts (omega (arith, fits))
        ∙ rw (append_assoc buf (b';' ∷ t) (more_elements ts))),
)
  where
    fits : length ((buf ++ (b';' ∷ t)) ++ more_elements ts) < 32767
    fits = omega (arith, h, length-append_assoc buf (b';' ∷ t) (more_elements ts))

put_rest_lem :
    (s : Bool) (n : ℕ) (buf : Text) (cs : List (List Text))
    → length (buf ++ more_commands cs) < 32767
    → (s' : Bool) × (n' : ℕ) × (put_rest (whole s n buf) cs ≡ whole s' n' (buf ++ more_commands cs))
unfolding put_rest more_commands
put_rest_lem s n buf [] h = (s, n, rw (append-nil buf))
put_rest_lem s n buf (c ∷ cs) h =
    let fits : length ((buf ++ after_separator c) ++ more_commands cs) < 32767 =
      omega (arith, h, length-append_assoc buf (after_separator c) (more_commands cs)) in
    let (s₁, n₁, e₁) =
      put_all_after s n buf c
        (omega (arith, fits, length-append (buf ++ after_separator c) (more_commands cs))) in
    let (s₂, n₂, e₂) = put_rest_lem s₁ n₁ (buf ++ after_separator c) cs (omega (arith, fits)) in
    (s₂, n₂, rw e₁ (e₂ ∙ rw (append_assoc buf (after_separator c) (more_commands cs))))

-- While a response fits in the buffer, it is the elements of each command joined by commas, the
-- commands that print joined to what stands before them by a semicolon, and nothing is marked lost.
pub respond-response :
    (c : List Text) (cs : List (List Text))
    → length (response c cs) < 32767
    → ((respond c cs).buf ≡ response c cs) × ((respond c cs).overflow ≡ false)
unfolding respond response
respond-response c cs h =
    let first =
      put_all-elements c (omega (arith, h, length-append (elements c) (more_commands cs))) in
    let (s, n, e) = put_rest_lem false (length c) (elements c) cs h in
    (rw (first, e), rw (first, e))
