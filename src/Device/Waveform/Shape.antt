-- ===== src/Device/Waveform/Shape.antt =====
-- src/cgr101.c: the functions that make the points of a waveform. A function of a phase is none
-- where an assertion fails.
use cgr101_scpi.Prelude.{
  ℕ, zero, suc, ◌-◌, Option, some, List, [], ◌∷◌, ltb, leb, if◌then◌else◌, length, get_elem?,
}
use cgr101_scpi.Prelude.Int.{pos, pos_part}
use cgr101_scpi.Prelude.Fault.{◌>>=◌, ◌>>◌, require}
use cgr101_scpi.Platform.{Platform}

-- `WAVEFORM_USER_MAX`
abbrev pub waveform_user_max : ℕ
waveform_user_max = 256

module _ (c : Platform) where
  open c use {F, add, sub, mul, div, neg, floor, sin, of_int, to_int, literal}

  -- `wff_t` with its argument.
  abbrev pub Wave : Type 0
  Wave = F → Option F

  abbrev one : F
  one = literal (pos 10) 1

  abbrev m_pi : F
  m_pi = literal (pos 314159265358979323846) 20

  -- `cgr101_fn_sin`, `cgr101_fn_squ`, `cgr101_fn_tri` and `cgr101_fn_const`
  unfoldable pub fn_sin : Wave
  fn_sin phase = some (sin (mul (mul (literal (pos 20) 1) m_pi) phase))

  unfoldable pub fn_squ : Wave
  fn_squ phase = some (if c.ltb phase (literal (pos 5) 1) then one else neg one)

  unfoldable pub fn_tri : Wave
  fn_tri phase =
      let phase₄ = mul phase (literal (pos 40) 1) in
      some (
        if c.ltb phase₄ (literal (pos 20) 1)
        then sub phase₄ one
        else sub (literal (pos 30) 1) phase₄)

  unfoldable pub fn_const : F → Wave
  fn_const value phase = some value

  -- `(size_t)x` of a number that is not negative.
  abbrev to_size : F → ℕ
  to_size x = pos_part (to_int x)

  -- `cgr101_fn_interp`
  unfoldable pub fn_interp : List F → Wave
  fn_interp values phase = do
    require (ltb 1 (length values))
    require (leb (length values) waveform_user_max)
    let segments = length values - 1
    let in_phase = mul phase (of_int (pos segments))
    let start_phase = floor in_phase
    let start_idx = to_size start_phase
    let end_idx = to_size (add start_phase one)
    require (ltb start_idx segments)
    require (ltb end_idx (length values))
    require (ltb start_idx end_idx)
    let interp_phase = sub in_phase start_phase
    require (c.leb (of_int (pos 0)) interp_phase)
    require (c.ltb interp_phase one)
    v₁ ← get_elem? values start_idx
    v₂ ← get_elem? values end_idx
    some (add v₁ (mul (sub v₂ v₁) interp_phase))

  -- The loop of `cgr101_waveform_create_fn`, for `n` more points.
  unfoldable pub points_from : Wave → F → ℕ → F → Option (List F)
  points_from wfn incr zero phase = some []
  points_from wfn incr (suc n) phase = do
    v ← wfn phase
    vs ← points_from wfn incr n (add phase incr)
    some (v ∷ vs)

  -- `cgr101_waveform_create_fn`: the array that it fills.
  unfoldable pub create_fn : Wave → ℕ → Option (List F)
  unfolding points_from
  create_fn wfn points = points_from wfn (div one (of_int (pos points))) points (literal (pos 0) 1)
