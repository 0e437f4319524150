-- ===== src/Commands/Query/Answers.antt =====
-- src/scpi_dev.c: what each query of a setting is asked for, read off the device alone: the texts
-- of its answer.
use cgr101_scpi.Prelude.{ℕ, Option, some, List, [], ◌∷◌, ◌++◌, if◌then◌else◌}
use cgr101_scpi.Prelude.Int.{ℤ, pos}
use cgr101_scpi.Prelude.Fault.{◌>>=◌}
use cgr101_scpi.Info.{Device, Channel}
use cgr101_scpi.Output.{Text}
use cgr101_scpi.Input.{ScpiType}
use cgr101_scpi.Channels.{chan_mask}
use cgr101_scpi.Commands.Query.{Query}
use cgr101_scpi.Device.Capture.{num_sample, bit}
use cgr101_scpi.Device.Convert.{chan_a, chan_b, channel}
use cgr101_scpi.Device.DigitalEvent.{has_bit}
use cgr101_scpi.Device.Settings.{samples_fp}
use cgr101_scpi.Device.Trigger.{slope_reply, source_name}
use cgr101_scpi.Device.Waveform.{waveform_name}
use cgr101_scpi.Platform.{Platform}
use mathlib.Core.List.{map}

module _ (c : Platform) where
  open c use {F, format, format_fp, mul, div}

  abbrev one : F → Option (List Text)
  one x = some (format_fp x ∷ [])

  abbrev one_int : ℤ → Option (List Text)
  one_int n = some (format "%d" (n ∷ []) ∷ [])

  -- One text for each selected channel, that of channel A first.
  abbrev pub selected : (Channel F → Text) → ℕ → Device F → List Text
  selected f mask d =
      (if has_bit mask 0 then f (channel d.scope chan_a) ∷ [] else [])
      ++ (if has_bit mask 1 then f (channel d.scope chan_b) ∷ [] else [])

  abbrev of_channels : (Channel F → Text) → ScpiType F → Device F → Option (List Text)
  of_channels f v d = do mask ← chan_mask v; some (selected f mask d)

  unfoldable pub answers : Query F → Device F → Option (List Text)
  answers (Query.sense_voltage_lowq v) d = of_channels (λ x. format_fp x.input_low) v d
  answers (Query.sense_voltage_offsetq v) d = of_channels (λ x. format_fp x.input_midpoint) v d
  answers (Query.sense_voltage_ptpq v) d = of_channels (λ x. format_fp x.input_ptp) v d
  answers (Query.sense_voltage_upq v) d = of_channels (λ x. format_fp x.input_high) v d
  answers (Query.sense_function_stateq v) d =
      of_channels (λ x. format "%d" (pos (bit x.enable) ∷ [])) v d
  answers Query.sense_sweep_pointq d = one_int (pos num_sample)
  answers Query.sense_sweep_offset_pointq d = one d.scope.trigger_offset
  answers Query.sense_sweep_offset_timeq d =
      one (mul (div d.scope.sweep_time (samples_fp c)) d.scope.trigger_offset)
  answers Query.sense_sweep_oref_locq d = one (div d.scope.trigger_ref (samples_fp c))
  answers Query.sense_sweep_oref_pointq d = one d.scope.trigger_ref
  answers Query.sense_sweep_timeq d = one d.scope.sweep_time
  answers Query.sense_sweep_time_intervalq d = one (div d.scope.sweep_time (samples_fp c))
  answers Query.source_digital_dataq d = one_int (pos d.digital_write_data)
  answers Query.source_waveform_frequencyq d = one d.waveform.frequency
  answers Query.source_waveform_levelq d = one d.waveform.amplitude
  answers Query.source_waveform_functionq d = do
    name ← waveform_name d.waveform.shape
    some (name ∷ [])
  answers Query.source_waveform_userq d = some (map format_fp d.waveform.user)
  answers Query.source_pwm_duty_cycleq d = one d.pwm.duty_cycle
  answers Query.source_pwm_frequencyq d = one d.pwm.frequency
  answers Query.trigger_levelq d = one d.scope.trigger_level
  answers Query.trigger_slopeq d = some (slope_reply c d.scope.trigger_polarity ∷ [])
  answers Query.trigger_sourceq d = some (source_name d.scope.trigger_source ∷ [])
  answers Query.internal_offsetq d = some (
      format_fp d.scope.channel_a.offset_low
      ∷ format_fp d.scope.channel_a.offset_high
      ∷ format_fp d.scope.channel_b.offset_low
      ∷ format_fp d.scope.channel_b.offset_high
      ∷ [])

  -- The answers of several queries, all from the same state of the device.
  unfoldable pub all_answers : List (Query F) → Device F → Option (List (List Text))
  unfolding answers
  all_answers [] d = some []
  all_answers (q ∷ qs) d = do ts ← answers q d; tss ← all_answers qs d; some (ts ∷ tss)
