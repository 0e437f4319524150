-- ===== src/Device/Convert.antt =====
-- src/cgr101.c: conversions between raw data and voltages.
use cgr101_scpi.Prelude.{ℕ, Bool, if◌then◌else◌}
use cgr101_scpi.Prelude.Int.{ℤ, pos, ◌-ℤ◌}
use cgr101_scpi.Info.{Scope, Channel}
use cgr101_scpi.Platform.{Platform}

-- `MP8` and `MP10`
abbrev pub mp8 : ℕ
mp8 = 128

abbrev pub mp10 : ℕ
mp10 = 511

-- The index of a channel, from 0.
pub data Chan : Type 0 where
  chan_a chan_b : Chan

-- `cgr101_adc2c`
unfoldable pub adc2c : ℕ → ℤ → ℤ
adc2c midpoint value = pos midpoint -ℤ value

module _ {F : Type 0} where
  abbrev pub channel : Scope F → Chan → Channel F
  channel s chan_a = s.channel_a
  channel s chan_b = s.channel_b

  abbrev pub put_channel : Scope F → Chan → Channel F → Scope F
  put_channel s chan_a x = record s { channel_a = x }
  put_channel s chan_b x = record s { channel_b = x }

module _ (c : Platform) where
  open c use {F, sub, mul, add, div, round, of_int, to_int, literal}

  -- `STEP_HIGH` and `STEP_LOW`
  abbrev pub step_high : F
  step_high = literal (pos 521) 4

  abbrev pub step_low : F
  step_low = literal (pos 592) 5

  abbrev pub zero_fp : F
  zero_fp = literal (pos 0) 1

  -- `cgr101_digitizer_d2v`
  unfoldable pub d2v : ℤ → ℕ → F → F → F
  d2v value midpoint step offset = sub (mul (of_int (adc2c midpoint value)) step) offset

  -- `cgr101_digitizer_v2d`
  unfoldable pub v2d : F → ℕ → F → F → ℤ
  v2d value midpoint step offset = adc2c midpoint (to_int (round (div (add value offset) step)))

  -- `cgr101_digitizer_step_offset`: the step and the offset.
  abbrev pub step_offset : Scope F → Chan → Bool → F × F
  step_offset s chan low_range =
      if low_range
      then (step_low, (channel s chan).offset_low)
      else (step_high, (channel s chan).offset_high)

  -- `cgr101_digitizer_data_to_voltage`
  unfoldable pub data_to_voltage : Scope F → Chan → Bool → ℕ → ℤ → F
  data_to_voltage s chan low_range midpoint value =
      let (step, offset) = step_offset s chan low_range in d2v value midpoint step offset

  -- `cgr101_digitizer_voltage_to_data`
  unfoldable pub voltage_to_data : Scope F → Chan → Bool → ℕ → F → ℤ
  voltage_to_data s chan low_range midpoint value =
      let (step, offset) = step_offset s chan low_range in v2d value midpoint step offset

  -- `cgr101_digitizer_value`
  unfoldable pub digitizer_value : Scope F → Chan → ℕ → F
  digitizer_value s chan idx =
      data_to_voltage s chan (channel s chan).input_low_range mp10
        (pos ((channel s chan).samples idx))
