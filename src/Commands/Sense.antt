-- ===== src/Commands/Sense.antt =====
-- src/scpi_dev.c: `scpi_dev_sense_…`, the settings of the scope and its data, with
-- `scpi_dev_input_coupling`.
use cgr101_scpi.Prelude.{true, false, Option, some}
use cgr101_scpi.Prelude.Fault.{◌>>=◌}
use cgr101_scpi.Info.{Info}
use cgr101_scpi.Channels.{chan_mask}
use cgr101_scpi.Input.{ScpiType, input_boolean, input_str, input_fp}
use cgr101_scpi.Device.Capture.{digitizer_dataq}
use cgr101_scpi.Device.Completion.{channel_state}
use cgr101_scpi.Device.Settings
use cgr101_scpi.Device.Settings.Init
use cgr101_scpi.Device.Settings.Voltage
use cgr101_scpi.Platform.{Platform}

module _ (c : Platform) where
  open c use {F}

  -- `scpi_dev_input_coupling`: the driver ignores the value.
  unfoldable pub input_coupling : ScpiType F → Info F → Option (Info F)
  input_coupling v i = do value ← input_str v; some i

  unfoldable pub dataq : ScpiType F → Info F → Option (Info F)
  dataq v i = do mask ← chan_mask v; digitizer_dataq c mask i

  -- `scpi_dev_sense_function_concurrent`: the driver ignores the value.
  unfoldable pub function_concurrent : ScpiType F → Info F → Option (Info F)
  function_concurrent v i = do r ← input_boolean i v; some r.1

  unfoldable pub function_off : ScpiType F → Info F → Option (Info F)
  function_off v i = do mask ← chan_mask v; some (channel_state mask false i)

  unfoldable pub function_on : ScpiType F → Info F → Option (Info F)
  function_on v i = do mask ← chan_mask v; some (channel_state mask true i)

  unfoldable pub function_stateq : ScpiType F → Info F → Option (Info F)
  function_stateq v i = do mask ← chan_mask v; Voltage.channel_stateq c mask i

  unfoldable pub sweep_offset_point : ScpiType F → Info F → Option (Info F)
  sweep_offset_point v i = do value ← input_fp c v; some (Settings.offset_point c value i)

  unfoldable pub sweep_offset_time : ScpiType F → Info F → Option (Info F)
  sweep_offset_time v i = do value ← input_fp c v; some (Settings.offset_time c value i)

  unfoldable pub sweep_oref_loc : ScpiType F → Info F → Option (Info F)
  sweep_oref_loc v i = do value ← input_fp c v; some (Settings.oref_loc c value i)

  unfoldable pub sweep_oref_point : ScpiType F → Info F → Option (Info F)
  sweep_oref_point v i = do value ← input_fp c v; some (Settings.oref_point c value i)

  unfoldable pub sweep_time : ScpiType F → Info F → Option (Info F)
  sweep_time v i = do value ← input_fp c v; some (Settings.digitizer_sweep_time c value i)

  unfoldable pub sweep_time_interval : ScpiType F → Info F → Option (Info F)
  sweep_time_interval v i = do value ← input_fp c v; some (Settings.sweep_interval c value i)

  -- The voltages take a number and a list of channels.
  unfoldable pub voltage_low : ScpiType F → ScpiType F → Info F → Option (Info F)
  voltage_low v chan i = do
    value ← input_fp c v
    mask ← chan_mask chan
    Voltage.voltage_low c mask value i

  unfoldable pub voltage_offset : ScpiType F → ScpiType F → Info F → Option (Info F)
  voltage_offset v chan i = do
    value ← input_fp c v
    mask ← chan_mask chan
    Voltage.voltage_offset c mask value i

  unfoldable pub voltage_ptp : ScpiType F → ScpiType F → Info F → Option (Info F)
  voltage_ptp v chan i = do
    value ← input_fp c v
    mask ← chan_mask chan
    Voltage.voltage_ptp c mask value i

  unfoldable pub voltage_up : ScpiType F → ScpiType F → Info F → Option (Info F)
  voltage_up v chan i = do
    value ← input_fp c v
    mask ← chan_mask chan
    Voltage.voltage_up c mask value i

  unfoldable pub voltage_lowq : ScpiType F → Info F → Option (Info F)
  voltage_lowq chan i = do mask ← chan_mask chan; Voltage.lowq c mask i

  unfoldable pub voltage_offsetq : ScpiType F → Info F → Option (Info F)
  voltage_offsetq chan i = do mask ← chan_mask chan; Voltage.offsetq c mask i

  unfoldable pub voltage_ptpq : ScpiType F → Info F → Option (Info F)
  voltage_ptpq chan i = do mask ← chan_mask chan; Voltage.ptpq c mask i

  unfoldable pub voltage_upq : ScpiType F → Info F → Option (Info F)
  voltage_upq chan i = do mask ← chan_mask chan; Voltage.upq c mask i

  -- The queries of what is set.
  unfoldable pub sweep_pointq : Info F → Info F
  sweep_pointq i = Settings.sweep_pointq c i

  unfoldable pub sweep_offset_pointq : Info F → Info F
  sweep_offset_pointq i = Settings.offset_pointq c i

  unfoldable pub sweep_offset_timeq : Info F → Info F
  sweep_offset_timeq i = Settings.offset_timeq c i

  unfoldable pub sweep_oref_locq : Info F → Info F
  sweep_oref_locq i = Settings.oref_locq c i

  unfoldable pub sweep_oref_pointq : Info F → Info F
  sweep_oref_pointq i = Settings.oref_pointq c i

  unfoldable pub sweep_timeq : Info F → Info F
  sweep_timeq i = Settings.sweep_timeq c i

  unfoldable pub sweep_time_intervalq : Info F → Info F
  sweep_time_intervalq i = Settings.sweep_time_intervalq c i

  unfoldable pub statq : Info F → Option (Info F)
  statq i = Init.statq c i

  unfoldable pub sense_reset : Info F → Option (Info F)
  sense_reset i = Init.digitizer_reset c i
