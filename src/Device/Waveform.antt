-- ===== src/Device/Waveform.antt =====
-- src/cgr101.c: the waveform generator: the names of the shapes, the points of a waveform, and the
-- commands that program the device.
pub mod Shape
pub mod Program
pub mod Names
use cgr101_scpi.Prelude.{
  ℕ, zero, suc, ◌+◌, ◌-◌, ◌/◌, ◌%◌, ◌^◌, ◌==◌, Bool, true, false, Option, none, some, List, [], ◌∷◌,
  ◌&&◌, leb, ltb, if◌then◌else◌, codes, length,
}
use cgr101_scpi.Prelude.Int.{ℤ, pos, negsuc, ◌-ℤ◌, ◌+ℤ◌, leb_ℤ, pos_part}
use cgr101_scpi.Prelude.Words.{u32}
use cgr101_scpi.Prelude.Fault.{◌>>=◌, ◌>>◌, require}
use cgr101_scpi.Output.{Text}
use cgr101_scpi.Info.{
  Info, Waveform, WaveformShape, shape_none, shape_rand, shape_sin, shape_squ, shape_tri,
  shape_user,
}
use cgr101_scpi.Info.Actions.{with_device, must_printf, print, print_fp}
use cgr101_scpi.Device.Waveform.Shape.{
  Wave, waveform_user_max, fn_sin, fn_squ, fn_tri, fn_const, fn_interp, create_fn,
}
use cgr101_scpi.Platform.{Platform}

-- `cgr101_waveform_map` without its sentinel.
abbrev pub waveform_map : List (Text × WaveformShape)
waveform_map =
    (codes "NONE", shape_none)
    ∷ (codes "RAND", shape_rand)
    ∷ (codes "SIN", shape_sin)
    ∷ (codes "SQU", shape_squ)
    ∷ (codes "TRI", shape_tri)
    ∷ (codes "USER", shape_user)
    ∷ []

-- The number of a shape, as C compares them.
abbrev pub shape_code : WaveformShape → ℕ
shape_code shape_none = 0
shape_code shape_rand = 1
shape_code shape_sin = 2
shape_code shape_squ = 3
shape_code shape_tri = 4
shape_code shape_user = 5

abbrev pub is_rand : WaveformShape → Bool
is_rand shape_rand = true
is_rand _ = false

abbrev pub is_none : WaveformShape → Bool
is_none shape_none = true
is_none _ = false

-- An int as the processor shifts and masks it.
abbrev pub bits_of : ℤ → ℕ
bits_of (pos n) = u32 n
bits_of (negsuc n) = 2 ^ 32 - 1 - u32 n

-- `cgr101_waveform_name`: the loop looks for the number of the shape.
unfoldable pub find_name : List (Text × WaveformShape) → ℕ → Option Text
find_name [] k = none
find_name ((name, shape) ∷ rest) k =
    let found = find_name rest k in if k == shape_code shape then some name else found

unfoldable pub waveform_name : WaveformShape → Option Text
unfolding find_name
waveform_name shape = find_name waveform_map (shape_code shape)

module _ (c : Platform) where
  open c use {F, add, mul, div, floor, ceil, to_int, literal, same_text}

  -- `cgr101_waveform_lookup`. The loop does not stop at the sentinel: on a name that is not in the
  -- table it hands NULL to `strcasecmp`, a fault.
  unfoldable pub find_shape : List (Text × WaveformShape) → Text → Option WaveformShape
  find_shape [] value = none
  find_shape ((name, shape) ∷ rest) value =
      if same_text value name then some shape else find_shape rest value

  unfoldable pub waveform_lookup : Text → Option WaveformShape
  unfolding find_shape
  waveform_lookup value = find_shape waveform_map value

  abbrev pub with_waveform : Info F → Waveform F → Info F
  with_waveform i w = with_device i (record (i.device) { waveform = w })

  abbrev pub filled : WaveformShape → Option (List F) → Info F → Option (Info F)
  filled shape points i = do
    xs ← points
    some (with_waveform i (record (i.device.waveform) { user = xs; shape = shape }))

  -- `cgr101_waveform_create`; a shape without a case is `assert(0)`.
  unfoldable pub waveform_create : WaveformShape → Info F → Option (Info F)
  waveform_create shape_sin i = filled shape_sin (create_fn c (fn_sin c) waveform_user_max) i
  waveform_create shape_squ i = filled shape_squ (create_fn c (fn_squ c) waveform_user_max) i
  waveform_create shape_tri i = filled shape_tri (create_fn c (fn_tri c) waveform_user_max) i
  waveform_create shape_user i = none
  waveform_create shape i = some (with_waveform i (record (i.device.waveform) { shape = shape }))

  -- `cgr101_waveform_conv`
  unfoldable pub waveform_conv : F → ℤ
  waveform_conv value =
      pos 255 -ℤ to_int (ceil (add (mul value (literal (pos 1275) 1)) (literal (pos 1270) 1)))

  -- The loop of `cgr101_waveform_program`, from index `k` on.
  unfoldable pub program_from : ℕ → List F → Info F → Option (Info F)
  program_from k [] i = some i
  program_from k (x ∷ xs) i = do
    require (leb_ℤ (pos 0) (waveform_conv x))
    require (leb_ℤ (waveform_conv x) (pos 255))
    i' ← must_printf c i "W S %zu %d\n" (pos k ∷ waveform_conv x ∷ [])
    program_from (k + 1) xs i'

  -- All points of the waveform, and the command that ends them.
  unfoldable pub program_user : Info F → Option (Info F)
  unfolding program_from
  program_user i = do i' ← program_from 0 i.device.waveform.user i; must_printf c i' "W P\n" []

  -- `cgr101_waveform_program`
  unfoldable pub waveform_program : Info F → Option (Info F)
  unfolding program_user
  waveform_program i =
      if is_rand i.device.waveform.shape
      then must_printf c i "W N\n" []
      else (do i' ← program_from 0 i.device.waveform.user i; must_printf c i' "W P\n" [])

  -- The function of `cgr101_waveform_user`, which asserts on a length that it does not handle.
  abbrev pub user_wave : List F → Option (Wave c)
  user_wave [] = some (fn_interp c [])
  user_wave (x ∷ []) = some (fn_const c x)
  user_wave points =
      if leb (length points) waveform_user_max then some (fn_interp c points) else none

  -- `cgr101_waveform_user`
  unfoldable pub waveform_user : List F → Info F → Option (Info F)
  waveform_user points i = do
    wfn ← user_wave points
    xs ← create_fn c wfn waveform_user_max
    some (with_waveform i (record (i.device.waveform) { user = xs }))

  -- `cgr101_source_waveform_user`
  unfoldable pub source_waveform_user : List F → Info F → Option (Info F)
  unfolding waveform_user waveform_program
  source_waveform_user points i = do
    i' ← waveform_user points (with_waveform i (record (i.device.waveform) { shape = shape_user }))
    waveform_program i'

  unfoldable pub print_points : List F → Info F → Info F
  print_points [] i = i
  print_points (x ∷ xs) i = print_points xs (print_fp c i x)

  -- `cgr101_waveform_userq`, with `cgr101_source_waveform_userq`
  unfoldable pub waveform_userq : Info F → Info F
  unfolding print_points
  waveform_userq i = print_points i.device.waveform.user i

  -- `cgr101_source_waveform_function`
  unfoldable pub waveform_function : Text → Info F → Option (Info F)
  unfolding waveform_lookup waveform_create waveform_program
  waveform_function value i = do
    shape ← waveform_lookup value
    (if is_none shape then some i else (do i' ← waveform_create shape i; waveform_program i'))

  -- `cgr101_source_waveform_functionq`
  unfoldable pub waveform_functionq : Info F → Option (Info F)
  unfolding waveform_name
  waveform_functionq i = do name ← waveform_name i.device.waveform.shape; some (print i name)

  -- `K1`
  abbrev k1 : F
  k1 = literal (pos 9313225746) 11

  abbrev pub phase_bytes : ℕ → List ℤ
  phase_bytes n =
      pos (n / 2 ^ 24 % 256) ∷ pos (n / 2 ^ 16 % 256) ∷ pos (n / 2 ^ 8 % 256) ∷ pos (n % 256) ∷ []

  -- The conversion to int has no result where the number has no place in 32 bits.
  abbrev pub phase_incr : F → Option ℤ
  phase_incr value = do
    let n = to_int (floor (div value k1))
    require (leb_ℤ (negsuc (2 ^ 31 - 1)) n && leb_ℤ n (pos (2 ^ 31 - 1)))
    some n

  -- `cgr101_source_waveform_frequency`
  unfoldable pub waveform_frequency : F → Info F → Option (Info F)
  waveform_frequency value i = do
    n ← phase_incr value
    i' ← must_printf c i "W F %d %d %d %d\n" (phase_bytes (bits_of n))
    some (with_waveform i' (record (i'.device.waveform) { frequency = value }))

  -- `cgr101_source_waveform_frequencyq`
  unfoldable pub waveform_frequencyq : Info F → Info F
  waveform_frequencyq i = print_fp c i i.device.waveform.frequency

  abbrev pub amplitude_in : F → Bool
  amplitude_in x = c.leb (literal (pos 0) 1) x && c.leb x (literal (pos 10) 1)

  abbrev amp : F → ℤ
  amp value = to_int (floor (mul value (literal (pos 2550) 1)))

  abbrev pub with_level : F → Info F → Info F
  with_level value i = with_waveform i (record (i.device.waveform) { amplitude = value })

  -- `cgr101_source_waveform_level`: a value out of range is ignored.
  unfoldable pub waveform_level : F → Info F → Option (Info F)
  waveform_level value i =
      if amplitude_in value
      then (do
        require (leb_ℤ (pos 0) (amp value))
        require (leb_ℤ (amp value) (pos 255))
        must_printf c (with_level value i) "W A %d\n" (amp value ∷ []))
      else some i

  -- `cgr101_source_waveform_levelq`
  unfoldable pub waveform_levelq : Info F → Info F
  waveform_levelq i = print_fp c i i.device.waveform.amplitude
