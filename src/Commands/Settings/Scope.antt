-- ===== src/Commands/Settings/Scope.antt =====
-- src/scpi_dev.c: the commands of the scope keep the settings in range.
use cgr101_scpi.Prelude.{true, false, some}
use cgr101_scpi.Prelude.Fault.{◌>>=◌}
use cgr101_scpi.Info.{Info, Channel}
use cgr101_scpi.Channels.{chan_mask}
use cgr101_scpi.Input.{ScpiType, input_fp}
use cgr101_scpi.Device.Settings
use cgr101_scpi.Device.Settings.{each_channel}
use cgr101_scpi.Device.Settings.InRange.{
  InRange, Stays, some-Stays, bind-Stays, each_channel-Stays, adjust-Stays, choose_sweep-InRange,
  offset_point-InRange, put_ref-InRange,
}
use cgr101_scpi.Device.Settings.Stays.{channel_state-InRange}
use cgr101_scpi.Device.Settings.Voltage
use cgr101_scpi.Device.Settings.Voltage.{adjust}
use cgr101_scpi.Commands.Sense
use cgr101_scpi.Platform.{Platform}

module _ (c : Platform) where
  open c use {F, literal}

  -- A handler that checks one number.
  fp-Stays :
      (x : ScpiType F) (f : F → Info F → Info F) (i : Info F)
      → ((n : F) → InRange c (f n i).device)
      → Stays c (do n ← input_fp c x; some (f n i))
  fp-Stays x f i h = bind-Stays c (input_fp c x) _ λ n. some-Stays c _ (h n)

  -- A handler that sets a voltage of the selected channels.
  voltage-Stays :
      (x y : ScpiType F) (f : F → Channel F → Channel F) (i : Info F)
      → InRange c i.device
      → Stays c (do n ← input_fp c x; mask ← chan_mask y; each_channel (adjust c (f n)) mask i)
  voltage-Stays x y f i v = bind-Stays c (input_fp c x) _ λ n.
      bind-Stays c (chan_mask y) _
        λ mask. each_channel-Stays c (adjust c (f n)) mask i (adjust-Stays c (f n)) v

  pub function_on-Stays :
      (x : ScpiType F) (i : Info F) → InRange c i.device → Stays c (Sense.function_on c x i)
  unfolding Sense.function_on
  function_on-Stays x i v =
      bind-Stays c (chan_mask x) _ λ m. some-Stays c _ (channel_state-InRange c m true i v)

  pub function_off-Stays :
      (x : ScpiType F) (i : Info F) → InRange c i.device → Stays c (Sense.function_off c x i)
  unfolding Sense.function_off
  function_off-Stays x i v =
      bind-Stays c (chan_mask x) _ λ m. some-Stays c _ (channel_state-InRange c m false i v)

  pub sweep_offset_point-Stays :
      (x : ScpiType F) (i : Info F) → InRange c i.device → Stays c (Sense.sweep_offset_point c x i)
  unfolding Sense.sweep_offset_point
  sweep_offset_point-Stays x i v =
      fp-Stays x (Settings.offset_point c) i λ n. offset_point-InRange c n i v

  pub sweep_offset_time-Stays :
      (x : ScpiType F) (i : Info F) → InRange c i.device → Stays c (Sense.sweep_offset_time c x i)
  unfolding Sense.sweep_offset_time Settings.offset_time
  sweep_offset_time-Stays x i v =
      fp-Stays x (Settings.offset_time c) i λ n. offset_point-InRange c _ i v

  pub sweep_oref_loc-Stays :
      (x : ScpiType F) (i : Info F) → InRange c i.device → Stays c (Sense.sweep_oref_loc c x i)
  unfolding Sense.sweep_oref_loc Settings.oref_loc
  sweep_oref_loc-Stays x i v = fp-Stays x (Settings.oref_loc c) i λ n. put_ref-InRange c _ i v

  pub sweep_oref_point-Stays :
      (x : ScpiType F) (i : Info F) → InRange c i.device → Stays c (Sense.sweep_oref_point c x i)
  unfolding Sense.sweep_oref_point Settings.oref_point
  sweep_oref_point-Stays x i v = fp-Stays x (Settings.oref_point c) i λ n. put_ref-InRange c _ i v

  pub sweep_time-Stays :
      (x : ScpiType F) (i : Info F) → InRange c i.device → Stays c (Sense.sweep_time c x i)
  unfolding Sense.sweep_time Settings.digitizer_sweep_time
  sweep_time-Stays x i v =
      fp-Stays x (Settings.digitizer_sweep_time c) i λ n. choose_sweep-InRange c i n v

  pub sweep_time_interval-Stays :
      (x : ScpiType F) (i : Info F) → InRange c i.device → Stays c (Sense.sweep_time_interval c x i)
  unfolding Sense.sweep_time_interval Settings.sweep_interval
  sweep_time_interval-Stays x i v =
      fp-Stays x (Settings.sweep_interval c) i λ n. choose_sweep-InRange c i _ v

  pub voltage_low-Stays :
      (x y : ScpiType F) (i : Info F) → InRange c i.device → Stays c (Sense.voltage_low c x y i)
  unfolding Sense.voltage_low Voltage.voltage_low
  voltage_low-Stays x y i v = voltage-Stays x y (Voltage.to_low c) i v

  pub voltage_offset-Stays :
      (x y : ScpiType F) (i : Info F) → InRange c i.device → Stays c (Sense.voltage_offset c x y i)
  unfolding Sense.voltage_offset Voltage.voltage_offset
  voltage_offset-Stays x y i v = voltage-Stays x y (Voltage.to_offset c) i v

  pub voltage_ptp-Stays :
      (x y : ScpiType F) (i : Info F) → InRange c i.device → Stays c (Sense.voltage_ptp c x y i)
  unfolding Sense.voltage_ptp Voltage.voltage_ptp
  voltage_ptp-Stays x y i v = voltage-Stays x y (Voltage.to_ptp c) i v

  pub voltage_up-Stays :
      (x y : ScpiType F) (i : Info F) → InRange c i.device → Stays c (Sense.voltage_up c x y i)
  unfolding Sense.voltage_up Voltage.voltage_up
  voltage_up-Stays x y i v = voltage-Stays x y (Voltage.to_up c) i v
