-- ===== src/Commands/Query.antt =====
-- src/scpi_dev.c: the queries for what is set in the device, and lines of them. A query without a
-- parameter is a call of the query of the driver.
pub mod Answers
pub mod Replies
use cgr101_scpi.Prelude.{Option, some, List, [], ◌∷◌}
use cgr101_scpi.Prelude.Fault.{◌>>=◌}
use cgr101_scpi.Info.{Info}
use cgr101_scpi.Input.{ScpiType}
use cgr101_scpi.Output.{cmd_sep}
use cgr101_scpi.Commands.Measure
use cgr101_scpi.Commands.Sense
use cgr101_scpi.Commands.Source
use cgr101_scpi.Commands.Trigger
use cgr101_scpi.Platform.{Platform}

pub data Query (F : Type 0) : Type 0 where
  sense_voltage_lowq sense_voltage_offsetq sense_voltage_ptpq : ScpiType F → Query F
  sense_voltage_upq sense_function_stateq : ScpiType F → Query F
  sense_sweep_pointq sense_sweep_offset_pointq sense_sweep_offset_timeq : Query F
  sense_sweep_oref_locq sense_sweep_oref_pointq sense_sweep_timeq : Query F
  sense_sweep_time_intervalq source_digital_dataq source_waveform_frequencyq : Query F
  source_waveform_levelq source_waveform_functionq source_waveform_userq : Query F
  source_pwm_duty_cycleq source_pwm_frequencyq : Query F
  trigger_levelq trigger_slopeq trigger_sourceq internal_offsetq : Query F

module _ (c : Platform) where
  open c use {F}

  unfoldable pub ask : Query F → Info F → Option (Info F)
  ask (Query.sense_voltage_lowq v) i = Sense.voltage_lowq c v i
  ask (Query.sense_voltage_offsetq v) i = Sense.voltage_offsetq c v i
  ask (Query.sense_voltage_ptpq v) i = Sense.voltage_ptpq c v i
  ask (Query.sense_voltage_upq v) i = Sense.voltage_upq c v i
  ask (Query.sense_function_stateq v) i = Sense.function_stateq c v i
  ask Query.sense_sweep_pointq i = some (Sense.sweep_pointq c i)
  ask Query.sense_sweep_offset_pointq i = some (Sense.sweep_offset_pointq c i)
  ask Query.sense_sweep_offset_timeq i = some (Sense.sweep_offset_timeq c i)
  ask Query.sense_sweep_oref_locq i = some (Sense.sweep_oref_locq c i)
  ask Query.sense_sweep_oref_pointq i = some (Sense.sweep_oref_pointq c i)
  ask Query.sense_sweep_timeq i = some (Sense.sweep_timeq c i)
  ask Query.sense_sweep_time_intervalq i = some (Sense.sweep_time_intervalq c i)
  ask Query.source_digital_dataq i = some (Source.digital_dataq c i)
  ask Query.source_waveform_frequencyq i = some (Source.waveform_frequencyq c i)
  ask Query.source_waveform_levelq i = some (Source.waveform_levelq c i)
  ask Query.source_waveform_functionq i = Source.waveform_functionq c i
  ask Query.source_waveform_userq i = some (Source.waveform_userq c i)
  ask Query.source_pwm_duty_cycleq i = some (Source.pwm_duty_cycleq c i)
  ask Query.source_pwm_frequencyq i = some (Source.pwm_frequencyq c i)
  ask Query.trigger_levelq i = some (Trigger.levelq c i)
  ask Query.trigger_slopeq i = some (Trigger.slopeq c i)
  ask Query.trigger_sourceq i = some (Trigger.sourceq c i)
  ask Query.internal_offsetq i = some (Measure.internal_offsetq c i)

  -- The queries that follow on a line, each behind the separator, and a line of queries.
  unfoldable pub ask_rest : List (Query F) → Info F → Option (Info F)
  unfolding ask
  ask_rest [] i = some i
  ask_rest (q ∷ qs) i = do i₁ ← ask q (record i { output = cmd_sep i.output }); ask_rest qs i₁

  unfoldable pub ask_line : Query F → List (Query F) → Info F → Option (Info F)
  unfolding ask ask_rest
  ask_line q qs i = do i₁ ← ask q i; ask_rest qs i₁
