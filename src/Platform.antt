-- ===== src/Platform.antt =====
-- What the C library and the processor give the program: arithmetic on double, and the texts that
-- printf makes. None of it is code of the repository, so it is a parameter of what uses it.
use cgr101_scpi.Prelude.{ℕ, Bool, List}
use cgr101_scpi.Prelude.Int.{ℤ}
use Prim.Native.String.{String}

pub record Platform : Type 1 where
  -- double
  pub F : Type 0
  pub add : F → F → F
  pub sub : F → F → F
  pub mul : F → F → F
  pub div : F → F → F
  pub neg : F → F
  pub leb : F → F → Bool
  pub ltb : F → F → Bool
  -- floor, ceil and round of math.h, and sin
  pub floor : F → F
  pub ceil : F → F
  pub round : F → F
  pub sin : F → F
  -- the conversions (double)n and (int)x
  pub of_int : ℤ → F
  pub to_int : F → ℤ
  -- a constant: its decimal digits as an integer, and how many stand behind the point
  pub literal : ℤ → ℕ → F
  -- the text of a format with integer arguments, and of "%+.14g"
  pub format : String → List ℤ → List ℕ
  pub format_fp : F → List ℕ
  -- whether strcasecmp finds two texts equal
  pub same_text : List ℕ → List ℕ → Bool
