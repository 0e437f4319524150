-- ===== src/Commands/Settings/Outputs.antt =====
-- src/scpi_dev.c: the commands of the outputs and of the trigger keep the settings in range.
use cgr101_scpi.Prelude.{ℕ, ◌≡◌, arith, Option, none, some}
use cgr101_scpi.Prelude.Int.{ℤ, pos}
use cgr101_scpi.Prelude.Fault.{◌>>=◌, >>=-eq-some}
use cgr101_scpi.Info.{Info}
use cgr101_scpi.Info.Actions.{raise}
use cgr101_scpi.Input.{
  ScpiType, Result, input_uint8, input_int, input_fp, input_fp_range, input_str, input_fp_block,
}
use cgr101_scpi.Device.Pwm
use cgr101_scpi.Device.Settings.InRange.{InRange, Stays, some-Stays, bind-Stays, found-Stays}
use cgr101_scpi.Device.Settings.Stays.{
  input_offset-InRange, source_digital_data-Stays, trigger_level-Stays, trigger_slope-Stays,
  trigger_source-Stays, pwm_frequency-Stays, pwm_duty_cycle-Stays, waveform_frequency-Stays,
  waveform_level-Stays, waveform_function-Stays, source_waveform_user-Stays,
}
use cgr101_scpi.Commands.Measure
use cgr101_scpi.Commands.Source
use cgr101_scpi.Commands.Trigger
use cgr101_scpi.Platform.{Platform}

module _ (c : Platform) where
  open c use {F, literal}

  checked-Stays :
      {A : Type 0} (r : Result F A) (f : A → Info F → Option (Info F))
      → InRange c r.1.device
      → ((a : A) → Stays c (f a r.1))
      → Stays c (Source.if_ok r f)
  checked-Stays (none, i) f v h = some-Stays c i v
  checked-Stays (some a, i) f v h = h a

  input_int-InRange :
      (i : Info F) (x : ScpiType F) (low high : ℤ) (r : Result F ℤ)
      → InRange c i.device
      → input_int i x low high ≡ some r
      → InRange c r.1.device
  unfolding input_int raise
  input_int-InRange i x low high r v e = ground arith

  input_uint8-InRange :
      (i : Info F) (x : ScpiType F) (r : Result F ℕ)
      → InRange c i.device
      → input_uint8 i x ≡ some r
      → InRange c r.1.device
  unfolding input_uint8
  input_uint8-InRange i x r v e =
      let (q, e₁, e₂) = >>=-eq-some (input_int i x (pos 0) (pos 255)) _ e in
      let w : InRange c q.1.device = input_int-InRange i x (pos 0) (pos 255) q v e₁ in ground arith

  input_fp_range-InRange :
      (i : Info F) (x : ScpiType F) (low high : F) (r : Result F F)
      → InRange c i.device
      → input_fp_range c i x low high ≡ some r
      → InRange c r.1.device
  unfolding input_fp_range raise
  input_fp_range-InRange i x low high r v e = ground arith

  fp_range-Stays :
      (x : ScpiType F) (low high : F) (f : F → Info F → Option (Info F)) (i : Info F)
      → ((n : F) (j : Info F) → InRange c j.device → Stays c (f n j))
      → InRange c i.device
      → Stays c (do r ← input_fp_range c i x low high; Source.if_ok r f)
  fp_range-Stays x low high f i h v =
      found-Stays c (input_fp_range c i x low high) _ λ r e.
        let w = input_fp_range-InRange i x low high r v e in checked-Stays r f w λ n. h n r.1 w

  pub digital_data-Stays :
      (x : ScpiType F) (i : Info F) → InRange c i.device → Stays c (Source.digital_data c x i)
  unfolding Source.digital_data
  digital_data-Stays x i v = found-Stays c _ _ λ r e.
      let w = input_uint8-InRange i x r v e in
      checked-Stays r _ w λ n. source_digital_data-Stays c n r.1 w

  pub source_pwm_duty_cycle-Stays :
      (x : ScpiType F) (i : Info F) → InRange c i.device → Stays c (Source.pwm_duty_cycle c x i)
  unfolding Source.pwm_duty_cycle
  source_pwm_duty_cycle-Stays x i v =
      fp_range-Stays x (literal (pos 0) 1) (literal (pos 10) 1) (Pwm.pwm_duty_cycle c) i
        (pwm_duty_cycle-Stays c) v

  pub source_pwm_frequency-Stays :
      (x : ScpiType F) (i : Info F) → InRange c i.device → Stays c (Source.pwm_frequency c x i)
  unfolding Source.pwm_frequency
  source_pwm_frequency-Stays x i v =
      fp_range-Stays x (literal (pos 0) 1) (literal (pos 72000) 0) (Pwm.pwm_frequency c) i
        (pwm_frequency-Stays c) v

  pub source_waveform_frequency-Stays :
      (x : ScpiType F) (i : Info F) → InRange c i.device → Stays c (Source.waveform_frequency c x i)
  unfolding Source.waveform_frequency
  source_waveform_frequency-Stays x i v =
      bind-Stays c (input_fp c x) _ λ n. waveform_frequency-Stays c n i v

  pub source_waveform_level-Stays :
      (x : ScpiType F) (i : Info F) → InRange c i.device → Stays c (Source.waveform_level c x i)
  unfolding Source.waveform_level
  source_waveform_level-Stays x i v =
      bind-Stays c (input_fp c x) _ λ n. waveform_level-Stays c n i v

  pub source_waveform_function-Stays :
      (x : ScpiType F) (i : Info F) → InRange c i.device → Stays c (Source.waveform_function c x i)
  unfolding Source.waveform_function
  source_waveform_function-Stays x i v =
      bind-Stays c (input_str x) _ λ n. waveform_function-Stays c n i v

  pub waveform_user-Stays :
      (x : ScpiType F) (i : Info F) → InRange c i.device → Stays c (Source.waveform_user c x i)
  unfolding Source.waveform_user
  waveform_user-Stays x i v =
      bind-Stays c (input_fp_block x) _ λ n. source_waveform_user-Stays c n i v

  pub level-Stays :
      (x : ScpiType F) (i : Info F) → InRange c i.device → Stays c (Trigger.level c x i)
  unfolding Trigger.level
  level-Stays x i v = bind-Stays c (input_fp c x) _ λ n. trigger_level-Stays c n i v

  pub slope-Stays :
      (x : ScpiType F) (i : Info F) → InRange c i.device → Stays c (Trigger.slope c x i)
  unfolding Trigger.slope
  slope-Stays x i v = bind-Stays c (input_str x) _ λ n. trigger_slope-Stays c n i v

  pub source-Stays :
      (x : ScpiType F) (i : Info F) → InRange c i.device → Stays c (Trigger.source c x i)
  unfolding Trigger.source
  source-Stays x i v = bind-Stays c (input_str x) _ λ n. trigger_source-Stays c n i v

  pub internal_offset-Stays :
      (x y z w : ScpiType F) (i : Info F)
      → InRange c i.device
      → Stays c (Measure.internal_offset c x y z w i)
  unfolding Measure.internal_offset
  internal_offset-Stays x y z w i v = bind-Stays c (input_fp c x) _ λ f₁.
      bind-Stays c (input_fp c y) _ λ f₂. bind-Stays c (input_fp c z) _ λ f₃.
        bind-Stays c (input_fp c w) _ λ f₄. some-Stays c _ (input_offset-InRange c f₁ f₂ f₃ f₄ i v)
