-- ===== src/Device/Pwm.antt =====
-- src/cgr101.c: the settings of the PWM output.
pub mod Table
use cgr101_scpi.Prelude.{ℕ, ◌+◌, Option, none, some, List, [], ◌∷◌, ◌&&◌, if◌then◌else◌}
use cgr101_scpi.Prelude.Int.{ℤ, pos}
use cgr101_scpi.Prelude.Fault.{◌>>=◌}
use cgr101_scpi.Info.{Info, Pwm}
use cgr101_scpi.Info.Actions.{with_device, must_printf, print_fp}
use cgr101_scpi.Platform.{Platform}

module _ (c : Platform) where
  open c use {F, mul, div, leb, ltb, floor, of_int, to_int, literal}

  -- A constant of the table, which has one digit behind the point.
  abbrev pub hertz : ℕ → F
  hertz n = literal (pos n) 1

  -- `cgr101_pwm_freq`, with its sentinel.
  abbrev pub pwm_freq : List F
  pwm_freq =
      hertz 720000
      ∷ hertz 360000
      ∷ hertz 90000
      ∷ hertz 45000
      ∷ hertz 11250
      ∷ hertz 5640
      ∷ hertz 2810
      ∷ hertz 1410
      ∷ hertz 700
      ∷ hertz 350
      ∷ hertz 0
      ∷ hertz 0
      ∷ []

  -- The loop of `cgr101_pwm_frequency` over the rest of the table, from index `idx` on: the index
  -- behind it, and the frequency that is stored before a `break`.
  unfoldable pub find_freq : F → ℕ → List F → ℕ × Option F
  find_freq value idx [] = (idx, none)
  find_freq value idx (f₁ ∷ []) = (idx, none)
  find_freq value idx (f₁ ∷ f₂ ∷ fs) =
      let rest = find_freq value (idx + 1) (f₂ ∷ fs) in
      if leb value f₁ && ltb f₂ value then (idx, some f₁) else rest

  abbrev pub with_pwm : Info F → Pwm F → Info F
  with_pwm i x = with_device i (record (i.device) { pwm = x })

  abbrev pub put_freq : Option F → Info F → Info F
  put_freq none i = i
  put_freq (some f) i = with_pwm i (record (i.device.pwm) { frequency = f })

  -- `cgr101_pwm_frequency`, with `cgr101_source_pwm_frequency`
  unfoldable pub pwm_frequency : F → Info F → Option (Info F)
  unfolding find_freq
  pwm_frequency value i =
      let r = find_freq value 0 pwm_freq in
      must_printf c (put_freq r.1 i) "D F %zu\n" (pos r.0 ∷ [])

  abbrev pub duty : F → ℤ
  duty value = to_int (floor (mul value (literal (pos 2550) 1)))

  -- `cgr101_pwm_duty_cycle`, with `cgr101_source_pwm_duty_cycle`
  unfoldable pub pwm_duty_cycle : F → Info F → Option (Info F)
  pwm_duty_cycle value i =
      must_printf c
        (with_pwm i
          (record (i.device.pwm) { duty_cycle = div (of_int (duty value)) (literal (pos 2550) 1) }))
        "D D %d\n" (duty value ∷ [])

  -- `cgr101_source_pwm_duty_cycleq` and `cgr101_source_pwm_frequencyq`
  unfoldable pub pwm_duty_cycleq : Info F → Info F
  pwm_duty_cycleq i = print_fp c i i.device.pwm.duty_cycle

  unfoldable pub pwm_frequencyq : Info F → Info F
  pwm_frequencyq i = print_fp c i i.device.pwm.frequency
