-- ===== src/Commands/Settings/Runs.antt =====
-- src/scpi_dev.c: the settings stay in range through every run of commands.
use cgr101_scpi.Prelude.{List, [], ◌∷◌}
use cgr101_scpi.Info.{Info}
use cgr101_scpi.Device.Settings.InRange.{InRange, Stays, some-Stays, then-Stays}
use cgr101_scpi.Commands.Settings.{Command, exec, run}
use cgr101_scpi.Device.Settings.Start.{Constants}
use cgr101_scpi.Commands.Settings.Resets.{common_rst-Stays, abort-Stays, conf_digital_data-Stays}
use cgr101_scpi.Platform.{Platform}
use cgr101_scpi.Commands.Settings.Scope.{
  function_off-Stays, function_on-Stays, sweep_offset_point-Stays, sweep_offset_time-Stays,
  sweep_oref_loc-Stays, sweep_oref_point-Stays, sweep_time-Stays, sweep_time_interval-Stays,
  voltage_low-Stays, voltage_offset-Stays, voltage_ptp-Stays, voltage_up-Stays,
}
use cgr101_scpi.Commands.Settings.Outputs.{
  internal_offset-Stays, level-Stays, slope-Stays, source-Stays, digital_data-Stays,
  source_pwm_duty_cycle-Stays, source_pwm_frequency-Stays, source_waveform_frequency-Stays,
  source_waveform_function-Stays, source_waveform_level-Stays, waveform_user-Stays,
}

module _ (c : Platform) where
  open c use {F, literal}

  exec-Stays :
      Constants c → (x : Command F) (i : Info F) → InRange c i.device → Stays c (exec c x i)
  unfolding exec
  exec-Stays k (Command.sense_function_on x) i v = function_on-Stays c x i v
  exec-Stays k (Command.sense_function_off x) i v = function_off-Stays c x i v
  exec-Stays k (Command.sense_offset_point x) i v = sweep_offset_point-Stays c x i v
  exec-Stays k (Command.sense_offset_time x) i v = sweep_offset_time-Stays c x i v
  exec-Stays k (Command.sense_oref_loc x) i v = sweep_oref_loc-Stays c x i v
  exec-Stays k (Command.sense_oref_point x) i v = sweep_oref_point-Stays c x i v
  exec-Stays k (Command.sense_sweep_time x) i v = sweep_time-Stays c x i v
  exec-Stays k (Command.sense_sweep_time_interval x) i v = sweep_time_interval-Stays c x i v
  exec-Stays k (Command.sense_voltage_low x y) i v = voltage_low-Stays c x y i v
  exec-Stays k (Command.sense_voltage_offset x y) i v = voltage_offset-Stays c x y i v
  exec-Stays k (Command.sense_voltage_ptp x y) i v = voltage_ptp-Stays c x y i v
  exec-Stays k (Command.sense_voltage_up x y) i v = voltage_up-Stays c x y i v
  exec-Stays k (Command.source_digital_data x) i v = digital_data-Stays c x i v
  exec-Stays k (Command.source_pwm_duty_cycle x) i v = source_pwm_duty_cycle-Stays c x i v
  exec-Stays k (Command.source_pwm_frequency x) i v = source_pwm_frequency-Stays c x i v
  exec-Stays k (Command.source_waveform_frequency x) i v = source_waveform_frequency-Stays c x i v
  exec-Stays k (Command.source_waveform_level x) i v = source_waveform_level-Stays c x i v
  exec-Stays k (Command.source_waveform_function x) i v = source_waveform_function-Stays c x i v
  exec-Stays k (Command.source_waveform_user x) i v = waveform_user-Stays c x i v
  exec-Stays k (Command.trigger_level x) i v = level-Stays c x i v
  exec-Stays k (Command.trigger_slope x) i v = slope-Stays c x i v
  exec-Stays k (Command.trigger_source x) i v = source-Stays c x i v
  exec-Stays k (Command.internal_offset x y z w) i v = internal_offset-Stays c x y z w i v
  exec-Stays k Command.rst i v = common_rst-Stays c k i v
  exec-Stays k Command.abort i v = abort-Stays c i v
  exec-Stays k Command.conf_digital_data i v = conf_digital_data-Stays c i v

  -- From settings in range, and where the constants of the program compare as the numbers they stand
  -- for: any run of *RST, ABORt, the configuration of a digital read, and the 23 commands that set
  -- the scope, the trigger, the outputs and the offsets, with any parameters, leaves settings in
  -- range, unless one of them is a fault. In range means that the divisor is at most 15, the offset
  -- of the trigger and the reference of it are each within their own limits, the amplitude is from 0
  -- to 1, the waveform has 256 points, and each channel is in the range that its limits ask for.
  pub run-Stays :
      Constants c → (xs : List (Command F)) (i : Info F) → InRange c i.device → Stays c (run c xs i)
  unfolding run
  run-Stays k [] i v = some-Stays c i v
  run-Stays k (x ∷ xs) i v = then-Stays c _ _ (exec-Stays k x i v) λ i' w. run-Stays k xs i' w
