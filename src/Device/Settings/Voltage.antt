-- ===== src/Device/Settings/Voltage.antt =====
-- src/cgr101.c: the limits of a channel, set by one of four values, and their queries.
use cgr101_scpi.Prelude.{ℕ, Option, some}
use cgr101_scpi.Prelude.Int.{pos}
use cgr101_scpi.Info.{Info, Channel}
use cgr101_scpi.Info.Actions.{print_int, print_fp}
use cgr101_scpi.Device.Convert.{Chan, channel}
use cgr101_scpi.Device.Capture.{bit}
use cgr101_scpi.Device.Settings.{
  each_channel, update_channel, set_midpoint_ptp, set_high_low, digitizer_set_range,
}
use cgr101_scpi.Platform.{Platform}

module _ (c : Platform) where
  open c use {F}

  -- What the loop does to a channel: its values are changed, and its range is set.
  abbrev pub adjust : (Channel F → Channel F) → Chan → Info F → Option (Info F)
  adjust f chan i = digitizer_set_range c chan (update_channel chan f i)

  abbrev pub to_low : F → Channel F → Channel F
  to_low value x = set_midpoint_ptp c (record x { input_low = value })

  abbrev pub to_offset : F → Channel F → Channel F
  to_offset value x = set_high_low c (record x { input_midpoint = value })

  abbrev pub to_ptp : F → Channel F → Channel F
  to_ptp value x = set_high_low c (record x { input_ptp = value })

  abbrev pub to_up : F → Channel F → Channel F
  to_up value x = set_midpoint_ptp c (record x { input_high = value })

  -- `cgr101_digitizer_voltage_low`, `…_offset`, `…_ptp` and `…_up`
  unfoldable pub voltage_low : ℕ → F → Info F → Option (Info F)
  voltage_low mask value = each_channel (adjust (to_low value)) mask

  unfoldable pub voltage_offset : ℕ → F → Info F → Option (Info F)
  voltage_offset mask value = each_channel (adjust (to_offset value)) mask

  unfoldable pub voltage_ptp : ℕ → F → Info F → Option (Info F)
  voltage_ptp mask value = each_channel (adjust (to_ptp value)) mask

  unfoldable pub voltage_up : ℕ → F → Info F → Option (Info F)
  voltage_up mask value = each_channel (adjust (to_up value)) mask

  abbrev pub print_field : (Channel F → F) → Chan → Info F → Option (Info F)
  print_field f chan i = some (print_fp c i (f (channel i.device.scope chan)))

  -- `cgr101_digitizer_lowq`, `cgr101_digitizer_offsetq`, `cgr101_digitizer_ptpq`,
  -- `cgr101_digitizer_upq`
  unfoldable pub lowq : ℕ → Info F → Option (Info F)
  lowq = each_channel (print_field λ x. x.input_low)

  unfoldable pub offsetq : ℕ → Info F → Option (Info F)
  offsetq = each_channel (print_field λ x. x.input_midpoint)

  unfoldable pub ptpq : ℕ → Info F → Option (Info F)
  ptpq = each_channel (print_field λ x. x.input_ptp)

  unfoldable pub upq : ℕ → Info F → Option (Info F)
  upq = each_channel (print_field λ x. x.input_high)

  -- `cgr101_digitizer_channel_stateq`
  unfoldable pub channel_stateq : ℕ → Info F → Option (Info F)
  channel_stateq =
      each_channel λ chan i. some (print_int c i (pos (bit (channel i.device.scope chan).enable)))
