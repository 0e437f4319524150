-- ===== src/Parser/Text/Pool.antt =====
-- src/parser.c: the pool of texts.
use cgr101_scpi.Prelude.{
  ◌+◌, ◌≤◌, ◌≡◌, refl, sym, ◌∙◌, true, Option, some, List, [], ◌∷◌, ◌++◌, ltb, length,
  length-append, arith,
}
use cgr101_scpi.Prelude.Fault.{◌>>=◌}
use cgr101_scpi.Output.{Text}
use cgr101_scpi.Parser.Text.{Strpool, strpool_add, grown, strpool_chunk}
use mathlib.Core.List.{append_assoc, append-nil}

-- The texts fit in the array, which has no free chunk to spare.
abbrev pub Fits : Strpool → Type 0
Fits p = (length p.pool ≤ p.max) × (p.max ≤ length p.pool + strpool_chunk)

unfoldable pub add_all : Strpool → List Text → Option Strpool
add_all p [] = some p
add_all p (t ∷ ts) = do p' ← strpool_add p t; add_all p' ts

-- Adding any texts to a pool that fits in its array succeeds: they are behind the ones before, in
-- their order, and the array still fits, with at most 256 places free.
pub add_all-Fits :
    (p : Strpool) (ts : List Text)
    → Fits p
    → (p' : Strpool) × (add_all p ts ≡ some p') × (p'.pool ≡ p.pool ++ ts) × Fits p'
unfolding add_all strpool_add
add_all-Fits p [] h = (p, refl, sym (append-nil p.pool), h)
add_all-Fits p (t ∷ ts) h =
    let p₁ : Strpool = record {
      pool = p.pool ++ (t ∷ []);
      max = grown p.max (length p.pool) strpool_chunk;
    } in
    let room : ltb (length p.pool) (grown p.max (length p.pool) strpool_chunk) ≡ true =
      ground arith in
    let size : length p₁.pool ≡ length p.pool + 1 = length-append p.pool (t ∷ []) in
    let (p', e, texts, fits) = add_all-Fits p₁ ts (ground arith, ground arith) in
    (p', rw room e, texts ∙ append_assoc p.pool (t ∷ []) ts, fits)
