-- ===== src/Commands/Source.antt =====
-- src/scpi_dev.c: `scpi_dev_source_…`, the digital output, the waveform generator and the PWM.
use cgr101_scpi.Prelude.{none, some, Option}
use cgr101_scpi.Prelude.Int.{pos}
use cgr101_scpi.Prelude.Fault.{◌>>=◌}
use cgr101_scpi.Info.{Info}
use cgr101_scpi.Input.{
  ScpiType, input_uint8, input_str, input_fp, input_fp_range, input_fp_block, Result,
}
use cgr101_scpi.Device.Abort
use cgr101_scpi.Device.Pwm
use cgr101_scpi.Device.Waveform
use cgr101_scpi.Platform.{Platform}

-- The call behind a check of a parameter: none where the check failed and has put an error in the
-- queue.
abbrev pub if_ok : {F A : Type 0} → Result F A → (A → Info F → Option (Info F)) → Option (Info F)
if_ok (none, i) f = some i
if_ok (some a, i) f = f a i

module _ (c : Platform) where
  open c use {F, literal}

  unfoldable pub digital_data : ScpiType F → Info F → Option (Info F)
  digital_data v i = do r ← input_uint8 i v; if_ok r (Abort.source_digital_data c)

  unfoldable pub waveform_frequency : ScpiType F → Info F → Option (Info F)
  waveform_frequency v i = do value ← input_fp c v; Waveform.waveform_frequency c value i

  unfoldable pub waveform_level : ScpiType F → Info F → Option (Info F)
  waveform_level v i = do value ← input_fp c v; Waveform.waveform_level c value i

  unfoldable pub waveform_function : ScpiType F → Info F → Option (Info F)
  waveform_function v i = do value ← input_str v; Waveform.waveform_function c value i

  unfoldable pub waveform_user : ScpiType F → Info F → Option (Info F)
  waveform_user v i = do values ← input_fp_block v; Waveform.source_waveform_user c values i

  unfoldable pub pwm_duty_cycle : ScpiType F → Info F → Option (Info F)
  pwm_duty_cycle v i = do
    r ← input_fp_range c i v (literal (pos 0) 1) (literal (pos 10) 1)
    if_ok r (Pwm.pwm_duty_cycle c)

  unfoldable pub pwm_frequency : ScpiType F → Info F → Option (Info F)
  pwm_frequency v i = do
    r ← input_fp_range c i v (literal (pos 0) 1) (literal (pos 72000) 0)
    if_ok r (Pwm.pwm_frequency c)

  -- The queries of what is set.
  unfoldable pub digital_dataq : Info F → Info F
  digital_dataq i = Abort.source_digital_dataq c i

  unfoldable pub waveform_frequencyq : Info F → Info F
  waveform_frequencyq i = Waveform.waveform_frequencyq c i

  unfoldable pub waveform_levelq : Info F → Info F
  waveform_levelq i = Waveform.waveform_levelq c i

  unfoldable pub waveform_functionq : Info F → Option (Info F)
  waveform_functionq i = Waveform.waveform_functionq c i

  unfoldable pub waveform_userq : Info F → Info F
  waveform_userq i = Waveform.waveform_userq c i

  unfoldable pub pwm_duty_cycleq : Info F → Info F
  pwm_duty_cycleq i = Pwm.pwm_duty_cycleq c i

  unfoldable pub pwm_frequencyq : Info F → Info F
  pwm_frequencyq i = Pwm.pwm_frequencyq c i
