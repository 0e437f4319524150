-- ===== src/ErrorAnalysis.antt =====
-- src/cea.c: the program that checks the conversions between raw data and voltages. The output of
-- its table is left out. A midpoint is one of two constants, so that no int overflows.
pub mod Conversions
use cgr101_scpi.Prelude.{ℕ, zero, suc, ◌+◌, ◌-◌, ◌*◌, ◌%◌, ◌==◌, ltb, if◌then◌else◌, Option, some}
use cgr101_scpi.Prelude.Int.{ℤ, pos, negsuc, sub_ℕ, ◌+ℤ◌, ◌-ℤ◌, leb_ℤ, ltb_ℤ}
use cgr101_scpi.Prelude.Fault.{◌>>=◌, ◌>>◌, require}
use cgr101_scpi.Device.Convert.{mp8, mp10, step_low, step_high}
use cgr101_scpi.Platform.{Platform}

-- The limits that `a2c` and `c2a` assert: of the unsigned value, and of the complement.
abbrev pub top : ℕ → ℤ
top m = if m % 2 == 1 then pos (m * 2 + 1) else sub_ℕ (m * 2) 1

abbrev pub bottom : ℕ → ℤ
bottom m = if m % 2 == 1 then negsuc m else sub_ℕ 1 m

-- `a2c`
unfoldable pub a2c : ℕ → ℤ → Option ℤ
a2c midpoint value = do
  require (ltb 0 midpoint)
  require (leb_ℤ (pos 0) value)
  require (leb_ℤ value (top midpoint))
  let result = pos midpoint -ℤ value
  require (leb_ℤ result (pos midpoint))
  require (leb_ℤ (bottom midpoint) result)
  some result

-- `c2a`
unfoldable pub c2a : ℕ → ℤ → Option ℤ
c2a midpoint value = do
  require (ltb 0 midpoint)
  require (leb_ℤ value (pos (midpoint * 2)))
  require (leb_ℤ (bottom midpoint) value)
  let result = pos midpoint -ℤ value
  require (leb_ℤ (pos 0) result)
  require (leb_ℤ result (top midpoint))
  some result

-- `offset_data_to_offset_complement` and `offset_complement_to_offset_data`
unfoldable pub offset_data_to_offset_complement : ℤ → ℕ → Option ℤ
unfolding a2c
offset_data_to_offset_complement o k = a2c k o

unfoldable pub offset_complement_to_offset_data : ℤ → ℕ → Option ℤ
unfolding c2a
offset_complement_to_offset_data v k = c2a k v

-- `==` on int
abbrev pub same_int : ℤ → ℤ → Option (Unit {0})
same_int a b = do require (leb_ℤ a b); require (leb_ℤ b a)

module _ (c : Platform) where
  open c use {F, add, sub, mul, div, round, of_int, to_int, literal}

  unfoldable pub offset_data_to_offset_voltage : ℤ → ℕ → F → Option F
  unfolding a2c
  offset_data_to_offset_voltage o k s = do n ← a2c k o; some (mul (of_int n) s)

  unfoldable pub offset_voltage_to_offset_data : F → ℕ → F → Option ℤ
  unfolding c2a
  offset_voltage_to_offset_data v k s = c2a k (to_int (round (div v s)))

  unfoldable pub scope_data_to_voltage_ov : ℤ → ℕ → F → F → Option F
  unfolding a2c
  scope_data_to_voltage_ov d m s o = do n ← a2c m d; some (sub (mul (of_int n) s) o)

  unfoldable pub scope_voltage_to_data_ov : F → ℕ → F → F → Option ℤ
  unfolding c2a
  scope_voltage_to_data_ov v m s o = c2a m (to_int (round (div (add v o) s)))

  unfoldable pub scope_data_to_voltage_oc : ℤ → ℕ → F → ℤ → Option F
  unfolding a2c
  scope_data_to_voltage_oc d m s o = do n ← a2c m d; some (mul (of_int (n -ℤ o)) s)

  unfoldable pub scope_voltage_to_data_oc : F → ℕ → F → ℤ → Option ℤ
  unfolding c2a
  scope_voltage_to_data_oc v m s o = c2a m (to_int (round (div v s)) +ℤ o)

  -- `check_o`
  unfoldable pub check_o : ℤ → F → Option (Unit {0})
  unfolding offset_data_to_offset_voltage offset_voltage_to_offset_data
      offset_data_to_offset_complement offset_complement_to_offset_data
  check_o offset step = do
    ov ← offset_data_to_offset_voltage offset mp8 step
    dv ← offset_voltage_to_offset_data ov mp8 step
    oc ← offset_data_to_offset_complement offset mp8
    dc ← offset_complement_to_offset_data oc mp8
    same_int dv dc

  -- `QUARTER_LSB_10`
  abbrev quarter_lsb_10 : F
  quarter_lsb_10 = div (div (literal (pos 10) 1) (literal (pos 10240) 1)) (literal (pos 40) 1)

  -- `check_d`, with `fabs` of math.h
  unfoldable pub check_d : (F → F) → ℤ → ℤ → F → Option (Unit {0})
  unfolding offset_data_to_offset_voltage offset_data_to_offset_complement scope_data_to_voltage_ov
      scope_data_to_voltage_oc scope_voltage_to_data_ov scope_voltage_to_data_oc
  check_d fabs value offset step = do
    ov ← offset_data_to_offset_voltage offset mp8 step
    oc ← offset_data_to_offset_complement offset mp8
    v_ov ← scope_data_to_voltage_ov value mp10 step ov
    v_oc ← scope_data_to_voltage_oc value mp10 step oc
    d_ov ← scope_voltage_to_data_ov v_ov mp10 step ov
    d_oc ← scope_voltage_to_data_oc v_oc mp10 step oc
    same_int d_ov d_oc
    require (c.ltb (fabs (sub v_ov v_oc)) quarter_lsb_10)

  -- `main`: its loop over the data, and the one over the offsets.
  unfoldable pub data_loop : (F → F) → ℕ → ℕ → ℕ → Option (Unit {0})
  unfolding check_d
  data_loop fabs zero value offset = some tt
  data_loop fabs (suc n) value offset = do
    check_d fabs (pos value) (pos offset) (step_low c)
    check_d fabs (pos value) (pos offset) (step_high c)
    data_loop fabs n (value + 1) offset

  unfoldable pub offset_loop : (F → F) → ℕ → ℕ → Option (Unit {0})
  unfolding check_o data_loop
  offset_loop fabs zero offset = some tt
  offset_loop fabs (suc n) offset = do
    check_o (pos offset) (step_low c)
    check_o (pos offset) (step_high c)
    data_loop fabs 1024 0 offset
    offset_loop fabs n (offset + 1)

  unfoldable pub main : (F → F) → Option (Unit {0})
  unfolding offset_loop
  main fabs = offset_loop fabs 256 0
