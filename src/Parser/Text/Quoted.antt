-- ===== src/Parser/Text/Quoted.antt =====
-- src/parser.c: which texts in quotes are read.
use cgr101_scpi.Prelude.{
  ℕ, suc, ◌+◌, ◌<◌, ◌≤◌, ◌≡◌, refl, ap, ◌∙◌, true, false, not, Option, none, some, List, [], ◌∷◌,
  ◌++◌, ltb, ◌==◌, if◌then◌else◌, ap₂, ◌&&◌, length, length-append, arith, ◌≢◌, Bool-cases, inl,
  inr,
}
use cgr101_scpi.Prelude.Fault.{◌>>=◌}
use cgr101_scpi.Output.{Text}
use cgr101_scpi.Input.{ScpiType, str}
use cgr101_scpi.Parser.Text.{
  Dstr, Strpool, dstr_new, dstr_add, dstr_quote, dstr_end, strpool_add, grown, strpool_chunk,
}
use mathlib.Core.List.{append_assoc, append-nil}

-- What stands between the quotes: a byte, or a quote that is written twice.
pub data Piece : Type 0 where
  byte quote : ℕ → Piece

abbrev pub char : Piece → ℕ
char (byte c) = c
char (quote c) = c

-- The text that the pieces stand for.
abbrev pub text_of : List Piece → Text
text_of [] = []
text_of (x ∷ xs) = char x ∷ text_of xs

-- No byte is NUL.
abbrev pub NoNul : List Piece → Type 0
NoNul [] = Unit
NoNul (x ∷ xs) = (char x ≢ 0) × NoNul xs

-- The actions of the scanner for a piece.
unfoldable pub add_piece : Dstr → Piece → Option Dstr
add_piece d (byte c) = dstr_add d c
add_piece d (quote c) = dstr_quote d c c

unfoldable pub add_pieces : Dstr → List Piece → Option Dstr
unfolding add_piece
add_pieces d [] = some d
add_pieces d (x ∷ xs) = do d' ← add_piece d x; add_pieces d' xs

-- A text in quotes: the opening quote, the pieces, the closing quote.
unfoldable pub quoted : {F : Type 0} → List Piece → Strpool → Option (ScpiType F × Strpool)
unfolding add_pieces dstr_end
quoted xs p = do d ← add_pieces dstr_new xs; dstr_end d p

abbrev full : Text → Dstr
full t = record { text = t; max = 256 }

not_nul : (c : ℕ) → c ≢ 0 → not (c == 0) ≡ true
not_nul c h = ground arith

-- A byte behind a text that fits in the array.
dstr_add-full :
    (t : Text) (c : ℕ)
    → c ≢ 0
    → length t < 256
    → dstr_add (full t) c ≡ (if ltb (length t + 1) 256 then some (full (t ++ (c ∷ []))) else none)
unfolding dstr_add
dstr_add-full t c h l = rw (not_nul c h) (ground arith)

add_piece-char : (d : Dstr) (x : Piece) → char x ≢ 0 → add_piece d x ≡ dstr_add d (char x)
unfolding add_piece dstr_quote
add_piece-char d (byte c) h = refl
add_piece-char d (quote c) h =
    let same : (c == c) ≡ true = ground arith in rw (not_nul c h, same) refl

add_pieces-full :
    (xs : List Piece) (t : Text)
    → NoNul xs
    → length t < 256
    → add_pieces (full t) xs
      ≡ (if ltb (length t + length xs) 256 then some (full (t ++ text_of xs)) else none)
unfolding add_pieces
add_pieces-full [] t h l =
    let fits : ltb (length t + 0) 256 ≡ true = ground arith in rw (fits, append-nil t) refl
add_pieces-full (x ∷ xs) t h l =
    let t' = t ++ (char x ∷ []) in
    let added = add_piece-char (full t) x h.0 ∙ dstr_add-full t (char x) h.0 l in
    let size : length t' ≡ length t + 1 = length-append t (char x ∷ []) in
    elim (Bool-cases (ltb (length t + 1) 256)) [
      | inl e ↦
          let fits : add_piece (full t) x ≡ some (full t') = added ∙ rw e refl in
          ap (λ r. r >>= λ d. add_pieces d xs) fits
          ∙ add_pieces-full xs t' h.1 (ground arith)
          ∙ ap₂ (λ n u. if ltb n 256 then some (full u) else none) (omega arith)
              (append_assoc t (char x ∷ []) (text_of xs))
      | inr e ↦
          let stops : add_piece (full t) x ≡ none = added ∙ rw e refl in
          let over : ltb (length t + suc (length xs)) 256 ≡ false = ground arith in
          ap (λ r. r >>= λ d. add_pieces d xs) stops ∙ rw over refl
    ]

first_piece : (x : Piece) → char x ≢ 0 → add_piece dstr_new x ≡ some (full (char x ∷ []))
unfolding dstr_new dstr_add
first_piece x h = add_piece-char dstr_new x h ∙ rw (not_nul (char x) h) refl

-- The value of a text in quotes, and the pool with the text in it.
abbrev pub read : {F : Type 0} → Text → Strpool → ScpiType F × Strpool
read t p = (
  record { val = str; src = t },
  record { pool = p.pool ++ (t ∷ []); max = grown p.max (length p.pool) strpool_chunk },
)

end-read :
    {F : Type 0} (t : Text) (p : Strpool)
    → length p.pool ≤ p.max
    → dstr_end {F = F} (full t) p ≡ some (read t p)
unfolding dstr_end strpool_add
end-read t p h =
    let room : ltb (length p.pool) (grown p.max (length p.pool) strpool_chunk) ≡ true =
      ground arith in
    rw room refl

-- A text in quotes without NUL bytes, and a pool whose texts fit in its array: up to 255 bytes, and
-- at least one, are read as they are, with a quote for each two, and are kept in the pool; an empty
-- text is a fault, since nothing was allocated to copy, and so is one of 256 bytes or more, whose
-- NUL is written past the array.
pub quoted-read :
    {F : Type 0} (xs : List Piece) (p : Strpool)
    → NoNul xs
    → length p.pool ≤ p.max
    → quoted {F = F} xs p
      ≡ (if ltb 0 (length xs) && ltb (length xs) 256 then some (read (text_of xs) p) else none)
unfolding quoted add_pieces dstr_new dstr_end
quoted-read [] p h l = refl
quoted-read {F} (x ∷ xs) p h l =
    let added : add_pieces dstr_new (x ∷ xs)
        ≡ (if ltb (1 + length xs) 256 then some (full (char x ∷ text_of xs)) else none) =
      ap (λ r. r >>= λ d. add_pieces d xs) (first_piece x h.0)
      ∙ add_pieces-full xs (char x ∷ []) h.1 (omega arith) in
    let above : ltb 0 (suc (length xs)) ≡ true = ground arith in
    ap (λ r. r >>= λ d. dstr_end d p) added ∙ elim (Bool-cases (ltb (1 + length xs) 256)) [
      | inl e ↦
          let below : ltb (suc (length xs)) 256 ≡ true = ground arith in
          rw (e, above, below) (end-read (char x ∷ text_of xs) p l)
      | inr e ↦
          let past : ltb (suc (length xs)) 256 ≡ false = ground arith in rw (e, above, past) refl
    ]
