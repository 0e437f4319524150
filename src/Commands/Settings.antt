-- ===== src/Commands/Settings.antt =====
-- src/scpi_dev.c: the commands that set something in the device, as data, and runs of them. The
-- parser of the program calls one function for each; `exec` names it.
pub mod Scope
pub mod Outputs
pub mod Resets
pub mod Runs
use cgr101_scpi.Prelude.{Option, some, List, [], ◌∷◌}
use cgr101_scpi.Prelude.Fault.{◌>>=◌}
use cgr101_scpi.Info.{Info}
use cgr101_scpi.Input.{ScpiType}
use cgr101_scpi.Core.Commands.{common_rst}
use cgr101_scpi.Commands.Measure
use cgr101_scpi.Commands.Sense
use cgr101_scpi.Commands.Source
use cgr101_scpi.Commands.Trigger
use cgr101_scpi.Device.Settings.Init
use cgr101_scpi.Platform.{Platform}

pub data Command (F : Type 0) : Type 0 where
  sense_function_on sense_function_off : ScpiType F → Command F
  sense_offset_point sense_offset_time sense_oref_loc sense_oref_point : ScpiType F → Command F
  sense_sweep_time sense_sweep_time_interval : ScpiType F → Command F
  sense_voltage_low sense_voltage_offset : ScpiType F → ScpiType F → Command F
  sense_voltage_ptp sense_voltage_up : ScpiType F → ScpiType F → Command F
  source_digital_data source_pwm_duty_cycle source_pwm_frequency : ScpiType F → Command F
  source_waveform_frequency source_waveform_level : ScpiType F → Command F
  source_waveform_function source_waveform_user : ScpiType F → Command F
  trigger_level trigger_slope trigger_source : ScpiType F → Command F
  internal_offset : ScpiType F → ScpiType F → ScpiType F → ScpiType F → Command F
  rst abort conf_digital_data : Command F

module _ (c : Platform) where
  open c use {F}

  unfoldable pub exec : Command F → Info F → Option (Info F)
  exec (sense_function_on v) = Sense.function_on c v
  exec (sense_function_off v) = Sense.function_off c v
  exec (sense_offset_point v) = Sense.sweep_offset_point c v
  exec (sense_offset_time v) = Sense.sweep_offset_time c v
  exec (sense_oref_loc v) = Sense.sweep_oref_loc c v
  exec (sense_oref_point v) = Sense.sweep_oref_point c v
  exec (sense_sweep_time v) = Sense.sweep_time c v
  exec (sense_sweep_time_interval v) = Sense.sweep_time_interval c v
  exec (sense_voltage_low v chan) = Sense.voltage_low c v chan
  exec (sense_voltage_offset v chan) = Sense.voltage_offset c v chan
  exec (sense_voltage_ptp v chan) = Sense.voltage_ptp c v chan
  exec (sense_voltage_up v chan) = Sense.voltage_up c v chan
  exec (source_digital_data v) = Source.digital_data c v
  exec (source_pwm_duty_cycle v) = Source.pwm_duty_cycle c v
  exec (source_pwm_frequency v) = Source.pwm_frequency c v
  exec (source_waveform_frequency v) = Source.waveform_frequency c v
  exec (source_waveform_level v) = Source.waveform_level c v
  exec (source_waveform_function v) = Source.waveform_function c v
  exec (source_waveform_user v) = Source.waveform_user c v
  exec (trigger_level v) = Trigger.level c v
  exec (trigger_slope v) = Trigger.slope c v
  exec (trigger_source v) = Trigger.source c v
  exec (internal_offset v₁ v₂ v₃ v₄) = Measure.internal_offset c v₁ v₂ v₃ v₄
  exec rst = common_rst c
  exec abort = Measure.abort c
  exec conf_digital_data = λ i. some (Measure.conf_digital_data c i)

  -- A run of commands, which a fault ends.
  unfoldable pub run : List (Command F) → Info F → Option (Info F)
  unfolding exec
  run [] i = some i
  run (x ∷ xs) i = do i' ← exec x i; run xs i'
