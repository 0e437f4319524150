-- ===== src/Device/Settings/Stays.antt =====
-- src/cgr101.c: every handler that sets something keeps the settings in range.
use cgr101_scpi.Prelude.{
  ℕ, zero, suc, ◌+◌, ◌≡◌, refl, Bool, Option, none, some, List, [], ◌∷◌, arith, length,
}
use cgr101_scpi.Prelude.Fault.{>>=-eq-some}
use cgr101_scpi.Output.{Text}
use cgr101_scpi.Info.Actions.{must_printf}
use cgr101_scpi.Info.{
  Info, WaveformShape, shape_none, shape_rand, shape_sin, shape_squ, shape_tri, shape_user,
}
use cgr101_scpi.Device.Completion.{channel_state}
use cgr101_scpi.Device.Settings.InRange.{
  InRange, Stays, bind-Stays, then-Stays, if-Stays, test-Stays, some-Stays, none-Stays,
  require-Stays, must_printf-Stays, update_control-Stays,
}
use cgr101_scpi.Device.Settings.Init.{input_offset}
use cgr101_scpi.Device.Abort.{source_digital_data}
use cgr101_scpi.Device.Pwm.{pwm_duty_cycle, pwm_frequency, put_freq}
use cgr101_scpi.Device.Trigger.{trigger_level, trigger_slope, trigger_source}
use cgr101_scpi.Device.Waveform.{
  amplitude_in, is_rand, is_none, with_level, with_waveform, filled, waveform_level,
  waveform_frequency, phase_incr, waveform_create, waveform_program, program_from, program_user,
  waveform_user, source_waveform_user, waveform_function,
}
use cgr101_scpi.Device.Waveform.Shape.{Wave, points_from, create_fn, waveform_user_max}
use cgr101_scpi.Platform.{Platform}

module _ (c : Platform) where
  open c use {F}

  pub channel_state-InRange :
      (mask : ℕ) (b : Bool) (i : Info F)
      → InRange c i.device
      → InRange c (channel_state mask b i).device
  unfolding channel_state
  channel_state-InRange mask b i v = ground arith

  pub input_offset-InRange :
      (f₁ f₂ f₃ f₄ : F) (i : Info F)
      → InRange c i.device
      → InRange c (input_offset c f₁ f₂ f₃ f₄ i).device
  unfolding input_offset
  input_offset-InRange f₁ f₂ f₃ f₄ i v = ground arith

  pub source_digital_data-Stays :
      (n : ℕ) (i : Info F) → InRange c i.device → Stays c (source_digital_data c n i)
  unfolding source_digital_data
  source_digital_data-Stays n i v = must_printf-Stays c _ _ _ (ground arith)

  pub trigger_level-Stays :
      (x : F) (i : Info F) → InRange c i.device → Stays c (trigger_level c x i)
  unfolding trigger_level
  trigger_level-Stays x i v = bind-Stays c _ _ λ u. must_printf-Stays c _ _ _ (ground arith)

  pub trigger_slope-Stays :
      (t : Text) (i : Info F) → InRange c i.device → Stays c (trigger_slope c t i)
  unfolding trigger_slope
  trigger_slope-Stays t i v = bind-Stays c _ _ λ p. update_control-Stays c _ (ground arith)

  pub trigger_source-Stays :
      (t : Text) (i : Info F) → InRange c i.device → Stays c (trigger_source c t i)
  unfolding trigger_source
  trigger_source-Stays t i v = bind-Stays c _ _ λ p. update_control-Stays c _ (ground arith)

  put_freq-InRange :
      (f : Option F) (i : Info F) → InRange c i.device → InRange c (put_freq c f i).device
  put_freq-InRange none i v = v
  put_freq-InRange (some f) i v = ground arith

  pub pwm_frequency-Stays :
      (x : F) (i : Info F) → InRange c i.device → Stays c (pwm_frequency c x i)
  unfolding pwm_frequency
  pwm_frequency-Stays x i v = must_printf-Stays c _ _ _ (put_freq-InRange _ i v)

  pub pwm_duty_cycle-Stays :
      (x : F) (i : Info F) → InRange c i.device → Stays c (pwm_duty_cycle c x i)
  unfolding pwm_duty_cycle
  pwm_duty_cycle-Stays x i v = must_printf-Stays c _ _ _ (ground arith)

  pub waveform_frequency-Stays :
      (x : F) (i : Info F) → InRange c i.device → Stays c (waveform_frequency c x i)
  unfolding waveform_frequency
  waveform_frequency-Stays x i v =
      bind-Stays c (phase_incr c x) _
        λ n. then-Stays c _ _ (must_printf-Stays c i _ _ v) λ i' w. some-Stays c _ (ground arith)

  pub waveform_level-Stays :
      (x : F) (i : Info F) → InRange c i.device → Stays c (waveform_level c x i)
  unfolding waveform_level
  waveform_level-Stays x i v =
      test-Stays c (amplitude_in c x) _ _
        (λ e.
          let w : InRange c (with_level c x i).device = ground arith in
          require-Stays c _ _ (require-Stays c _ _ (must_printf-Stays c (with_level c x i) _ _ w)))
        (some-Stays c i v)

  length-points_from :
      (f : Wave c) (incr : F) (n : ℕ) (x : F) (ys : List F)
      → points_from c f incr n x ≡ some ys
      → length ys ≡ n
  unfolding points_from
  length-points_from f incr zero x ys e = ground arith
  length-points_from f incr (suc n) x ys e =
      let (y, _, e₁) = >>=-eq-some (f x) _ e in
      let (zs, e₂, e₃) = >>=-eq-some (points_from c f incr n (c.add x incr)) _ e₁ in
      ground (arith, length-points_from f incr n (c.add x incr) zs e₂)

  -- A waveform that is made has all its points.
  length-create_fn :
      (f : Wave c) (ys : List F)
      → create_fn c f waveform_user_max ≡ some ys
      → length ys ≡ waveform_user_max
  unfolding create_fn
  length-create_fn f ys e = length-points_from f _ waveform_user_max _ ys e

  program_from-Stays :
      (k : ℕ) (xs : List F) (i : Info F) → InRange c i.device → Stays c (program_from c k xs i)
  unfolding program_from
  program_from-Stays k [] i v = some-Stays c i v
  program_from-Stays k (x ∷ xs) i v = require-Stays c _ _ (
      require-Stays c _ _
        (then-Stays c _ _ (must_printf-Stays c i _ _ v) λ i' w. program_from-Stays (k + 1) xs i' w))

  program_user-Stays : (i : Info F) → InRange c i.device → Stays c (program_user c i)
  unfolding program_user
  program_user-Stays i v =
      then-Stays c (program_from c 0 i.device.waveform.user i) (λ i'. must_printf c i' "W P\n" [])
        (program_from-Stays 0 _ i v) λ i' w. must_printf-Stays c i' _ _ w

  program-Stays : (i : Info F) → InRange c i.device → Stays c (waveform_program c i)
  unfolding waveform_program
  program-Stays i v =
      if-Stays c (is_rand i.device.waveform.shape) _ _ (must_printf-Stays c i _ _ v)
        (program_user-Stays i v)

  filled-Stays :
      (shape : WaveformShape) (ys : Option (List F)) (i : Info F)
      → ((xs : List F) → ys ≡ some xs → length xs ≡ waveform_user_max)
      → InRange c i.device
      → Stays c (filled c shape ys i)
  filled-Stays shape none i h v = none-Stays c
  filled-Stays shape (some xs) i h v =
      let l : length xs ≡ waveform_user_max = h xs refl in some-Stays c _ (ground arith)

  create-Stays :
      (shape : WaveformShape) (i : Info F)
      → InRange c i.device
      → Stays c (waveform_create c shape i)
  unfolding waveform_create
  create-Stays shape_sin i v = filled-Stays _ _ i (length-create_fn _) v
  create-Stays shape_squ i v = filled-Stays _ _ i (length-create_fn _) v
  create-Stays shape_tri i v = filled-Stays _ _ i (length-create_fn _) v
  create-Stays shape_user i v = none-Stays c
  create-Stays shape_none i v = some-Stays c _ (ground arith)
  create-Stays shape_rand i v = some-Stays c _ (ground arith)

  pub waveform_function-Stays :
      (t : Text) (i : Info F) → InRange c i.device → Stays c (waveform_function c t i)
  unfolding waveform_function
  waveform_function-Stays t i v = bind-Stays c _ _ λ shape.
      if-Stays c (is_none shape) _ _ (some-Stays c i v)
        (then-Stays c _ _ (create-Stays shape i v) program-Stays)

  user-Stays : (xs : List F) (i : Info F) → InRange c i.device → Stays c (waveform_user c xs i)
  unfolding waveform_user
  user-Stays xs i v =
      bind-Stays c _ _ λ f. filled-Stays i.device.waveform.shape _ i (length-create_fn f) v

  pub source_waveform_user-Stays :
      (xs : List F) (i : Info F) → InRange c i.device → Stays c (source_waveform_user c xs i)
  unfolding source_waveform_user
  source_waveform_user-Stays xs i v =
      let j = with_waveform c i (record (i.device.waveform) { shape = shape_user }) in
      let w : InRange c j.device = ground arith in
      then-Stays c _ _ (user-Stays xs j w) program-Stays
