-- ===== src/Tests/Analysis.antt =====
-- Runs of src/cea.c.
use cgr101_scpi.Prelude.{◌≡◌, some, arith}
use cgr101_scpi.Prelude.Int.{ℤ, pos, negsuc}
use cgr101_scpi.ErrorAnalysis.{
  offset_data_to_offset_complement, scope_data_to_voltage_oc, scope_voltage_to_data_oc, check_o,
}
use cgr101_scpi.ErrorAnalysis.Conversions.{
  IsExact, scope_voltage_to_data_oc-scope_data_to_voltage_oc,
}
use cgr101_scpi.Tests.Fixed.{fixed, unit}

-- A step of 1 volt.
one_volt-IsExact : IsExact fixed (pos unit)
one_volt-IsExact (pos n) h = ground arith
one_volt-IsExact (negsuc n) h = ground arith

scope_voltage_to_data_oc-scope_data_to_voltage_oc_example :
    (o : ℤ) × (volts : ℤ) × (offset_data_to_offset_complement (pos 255) 128 ≡ some o)
    × (scope_data_to_voltage_oc fixed (pos 1023) 511 (pos unit) o ≡ some volts)
    × (scope_voltage_to_data_oc fixed volts 511 (pos unit) o ≡ some (pos 1023))
    × (check_o fixed (pos 255) (pos unit) ≡ some tt)
scope_voltage_to_data_oc-scope_data_to_voltage_oc_example =
    scope_voltage_to_data_oc-scope_data_to_voltage_oc fixed 1023 (pos unit) 255 one_volt-IsExact
      (omega arith) (omega arith)
