-- ===== src/ErrorAnalysis/Conversions.antt =====
-- src/cea.c: the conversions of data with the offset as a complement lose nothing.
use cgr101_scpi.Prelude.{ℕ, ◌<◌, ◌≡◌, refl, arith, some}
use cgr101_scpi.Prelude.Int.{ℤ, pos, negsuc, ◌+ℤ◌, ◌-ℤ◌, ◌≤ℤ◌}
use cgr101_scpi.ErrorAnalysis.{
  a2c, c2a, top, scope_data_to_voltage_oc, scope_voltage_to_data_oc, check_o,
  offset_data_to_offset_voltage, offset_voltage_to_offset_data, offset_data_to_offset_complement,
  offset_complement_to_offset_data,
}
use cgr101_scpi.Device.Convert.{mp8, mp10}
use cgr101_scpi.Platform.{Platform}

-- The complement of a value within the limits, and the value of it.
a2c-value : (m v : ℕ) → 0 < m → pos v ≤ℤ top m → a2c m (pos v) ≡ some (pos m -ℤ pos v)
unfolding a2c
a2c-value m v some_midpoint fits = ground arith

c2a-a2c : (m v : ℕ) → 0 < m → pos v ≤ℤ top m → c2a m (pos m -ℤ pos v) ≡ some (pos v)
unfolding c2a
c2a-a2c m v some_midpoint fits = ground arith

add_sub : (a o : ℤ) → (a -ℤ o) +ℤ o ≡ a
add_sub (pos n) (pos k) = ground arith
add_sub (pos n) (negsuc k) = ground arith
add_sub (negsuc n) (pos k) = ground arith
add_sub (negsuc n) (negsuc k) = ground arith

-- A number of steps that the program converts: the data and an offset are at most so many.
abbrev pub IsSmall : ℤ → Type 0
IsSmall n = (negsuc 1023 ≤ℤ n) × (n ≤ℤ pos 1024)

module _ (c : Platform) where
  open c use {F, mul, div, round, of_int, to_int}

  -- A number of steps is found again in its voltage by division and rounding.
  abbrev pub IsExact : F → Type 0
  IsExact s = (n : ℤ) → IsSmall n → to_int (round (div (mul (of_int n) s) s)) ≡ n

  check_o-passes :
      (s : F) (offset : ℕ) → IsExact s → offset < 256 → check_o c (pos offset) s ≡ some tt
  unfolding check_o offset_data_to_offset_voltage offset_voltage_to_offset_data
      offset_data_to_offset_complement offset_complement_to_offset_data
  check_o-passes s offset exact small =
      let a = a2c-value 128 offset (omega arith) (omega arith) in
      let b = c2a-a2c 128 offset (omega arith) (omega arith) in
      let e = exact (pos 128 -ℤ pos offset) (ground arith, ground arith) in
      rw (a, e, b) (ground arith)

  -- Where division and rounding find a number of steps from -1024 to 1024 again in its voltage: for
  -- each of the 1024 values of data and each of the 256 offsets, the offset has a complement, the
  -- value has a voltage with it, and the voltage is converted back to the value; and the offset
  -- comes back from its voltage and from its complement alike, so that the check of it passes.
  pub scope_voltage_to_data_oc-scope_data_to_voltage_oc :
      (v : ℕ) (s : F) (offset : ℕ)
      → IsExact s
      → v < 1024
      → offset < 256
      → (o : ℤ) × (volts : F) × (offset_data_to_offset_complement (pos offset) mp8 ≡ some o)
        × (scope_data_to_voltage_oc c (pos v) mp10 s o ≡ some volts)
        × (scope_voltage_to_data_oc c volts mp10 s o ≡ some (pos v))
        × (check_o c (pos offset) s ≡ some tt)
  unfolding scope_data_to_voltage_oc scope_voltage_to_data_oc offset_data_to_offset_complement
  scope_voltage_to_data_oc-scope_data_to_voltage_oc v s offset exact fits small =
      let o = pos 128 -ℤ pos offset in
      let n = pos 511 -ℤ pos v in
      let e = exact (n -ℤ o) (in_steps v offset fits small) in
      (
        o,
        mul (of_int (n -ℤ o)) s,
        a2c-value 128 offset (omega arith) (omega arith),
        rw (a2c-value 511 v (omega arith) (omega arith)) refl,
        rw (e, add_sub n o) (c2a-a2c 511 v (omega arith) (omega arith)),
        check_o-passes s offset exact small,
      )
    where
      in_steps :
          (v offset : ℕ)
          → v < 1024
          → offset < 256
          → IsSmall ((pos 511 -ℤ pos v) -ℤ (pos 128 -ℤ pos offset))
      in_steps v offset h k = (ground arith, ground arith)
