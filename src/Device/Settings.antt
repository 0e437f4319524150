-- ===== src/Device/Settings.antt =====
-- src/cgr101.c: what the scope is set to: the sweep time, the place of the trigger in the samples,
-- and the range of voltages of each channel.
pub mod Sweep
pub mod Voltage
pub mod Init
pub mod InRange
pub mod Stays
pub mod Start
use cgr101_scpi.Prelude.{
  ℕ, zero, suc, ◌+◌, Bool, true, false, Option, none, some, [], ◌∷◌, ◌&&◌, if◌then◌else◌,
}
use cgr101_scpi.Prelude.Int.{pos}
use cgr101_scpi.Prelude.Fault.{◌>>=◌}
use cgr101_scpi.Info.{Info, Channel}
use cgr101_scpi.Info.Actions.{with_scope, must_printf, print_int, print_fp}
use cgr101_scpi.Device.Convert.{Chan, chan_a, chan_b, channel, put_channel}
use cgr101_scpi.Device.DigitalEvent.{has_bit}
use cgr101_scpi.Device.Capture.{num_sample, sr_div_max}
use cgr101_scpi.Platform.{Platform}

module _ {F : Type 0} where
  -- The loop over the channels that the handlers of channels share: a channel whose bit is not in
  -- the mask is skipped.
  unfoldable pub each_channel : (Chan → Info F → Option (Info F)) → ℕ → Info F → Option (Info F)
  each_channel f mask i = do
    i₁ ← if has_bit mask 0 then f chan_a i else some i
    if has_bit mask 1 then f chan_b i₁ else some i₁

  abbrev pub update_channel : Chan → (Channel F → Channel F) → Info F → Info F
  update_channel chan f i =
      with_scope i (put_channel i.device.scope chan (f (channel i.device.scope chan)))

-- `cgr101_range_cmd`
abbrev pub range_cmd : Chan → Bool → ℕ
range_cmd chan_a false = b'A'
range_cmd chan_a true = b'a'
range_cmd chan_b false = b'B'
range_cmd chan_b true = b'b'

module _ (c : Platform) where
  open c use {F, add, sub, mul, div, neg, leb, ltb, floor, of_int, literal}

  abbrev pub two : F
  two = literal (pos 20) 1

  -- `SCOPE_NUM_SAMPLE` as a double
  abbrev pub samples_fp : F
  samples_fp = of_int (pos num_sample)

  -- `SCOPE_MIN_SWEEP_TIME`
  abbrev pub min_sweep_time : F
  min_sweep_time = div samples_fp (literal (pos 20000000) 0)

  abbrev pub in_interval : F → F → Bool
  in_interval time start = leb start time && ltb time (mul start two)

  -- The loop of `cgr101_sweep_time`, from the divisor `div` on: the time and the divisor at which it
  -- breaks off, if it does.
  unfoldable pub find_sweep : F → ℕ → ℕ → F → Option (F × ℕ)
  find_sweep time zero d start = none
  find_sweep time (suc n) d start =
      let rest = find_sweep time n (d + 1) (mul start two) in
      if in_interval time start then some (start, d) else rest

  abbrev pub with_sweep : Info F → F → ℕ → Info F
  with_sweep i time d =
      with_scope i (record (i.device.scope) { sweep_time = time; sample_rate_divisor = d })

  -- What `cgr101_sweep_time` does behind its loop.
  abbrev pub set_sweep : Info F → Option (F × ℕ) → Bool × Info F
  set_sweep i none = (true, i)
  set_sweep i (some r) = (false, with_sweep i r.0 r.1)

  -- `cgr101_sweep_time`: its `err`, and the state.
  unfoldable pub choose_sweep : Info F → F → Bool × Info F
  unfolding find_sweep
  choose_sweep i time = set_sweep i (find_sweep time (sr_div_max + 1) 0 min_sweep_time)

  -- `cgr101_digitizer_sweep_time` and `cgr101_digitizer_sweep_interval`, which ignore the error.
  unfoldable pub digitizer_sweep_time : F → Info F → Info F
  unfolding choose_sweep
  digitizer_sweep_time value i = (choose_sweep i value).1

  unfoldable pub sweep_interval : F → Info F → Info F
  unfolding choose_sweep
  sweep_interval value i = (choose_sweep i (mul value samples_fp)).1

  -- `cgr101_digitizer_sweep_timeq`, `cgr101_digitizer_sweep_time_intervalq`,
  -- `cgr101_digitizer_sweep_pointq`
  unfoldable pub sweep_timeq : Info F → Info F
  sweep_timeq i = print_fp c i i.device.scope.sweep_time

  unfoldable pub sweep_time_intervalq : Info F → Info F
  sweep_time_intervalq i = print_fp c i (div i.device.scope.sweep_time samples_fp)

  unfoldable pub sweep_pointq : Info F → Info F
  sweep_pointq i = print_int c i (pos num_sample)

  -- `midpoint` of `cgr101_digitizer_offset_point` and `cgr101_device_reset`
  abbrev pub midpoint : F
  midpoint = div samples_fp (of_int (pos 2))

  abbrev pub offset_in : F → Bool
  offset_in x = leb (neg midpoint) x && ltb x midpoint

  abbrev pub ref_in : F → Bool
  ref_in x = leb (of_int (pos 0)) x && ltb x samples_fp

  -- `cgr101_digitizer_offset_point`: a value out of range is ignored.
  unfoldable pub offset_point : F → Info F → Info F
  offset_point value i =
      if offset_in (floor value)
      then with_scope i (record (i.device.scope) { trigger_offset = floor value })
      else i

  -- `cgr101_digitizer_offset_time`
  unfoldable pub offset_time : F → Info F → Info F
  unfolding offset_point
  offset_time value i = offset_point (mul value (div i.device.scope.sweep_time samples_fp)) i

  abbrev pub put_ref : F → Info F → Info F
  put_ref x i = if ref_in x then with_scope i (record (i.device.scope) { trigger_ref = x }) else i

  -- `cgr101_digitizer_oref_loc` and `cgr101_digitizer_oref_point`
  unfoldable pub oref_loc : F → Info F → Info F
  oref_loc value i = put_ref (floor (mul value samples_fp)) i

  unfoldable pub oref_point : F → Info F → Info F
  oref_point value i = put_ref (floor value) i

  -- `cgr101_digitizer_offset_pointq`, `cgr101_digitizer_offset_timeq`, `cgr101_digitizer_oref_locq`,
  -- `cgr101_digitizer_oref_pointq`
  unfoldable pub offset_pointq : Info F → Info F
  offset_pointq i = print_fp c i i.device.scope.trigger_offset

  unfoldable pub offset_timeq : Info F → Info F
  offset_timeq i =
      print_fp c i (mul (div i.device.scope.sweep_time samples_fp) i.device.scope.trigger_offset)

  unfoldable pub oref_locq : Info F → Info F
  oref_locq i = print_fp c i (div i.device.scope.trigger_ref samples_fp)

  unfoldable pub oref_pointq : Info F → Info F
  oref_pointq i = print_fp c i i.device.scope.trigger_ref

  -- `cgr101_digitizer_set_midpoint_ptp`
  unfoldable pub set_midpoint_ptp : Channel F → Channel F
  set_midpoint_ptp x =
      let ptp = sub x.input_high x.input_low in
      record x { input_ptp = ptp; input_midpoint = add x.input_low (div ptp two) }

  -- `cgr101_digitizer_set_high_low`
  unfoldable pub set_high_low : Channel F → Channel F
  set_high_low x =
      let half = div x.input_ptp two in
      record x { input_low = sub x.input_midpoint half; input_high = add x.input_midpoint half }

  -- `low_range` of `cgr101_digitizer_set_range`
  abbrev pub low_range : Channel F → Bool
  low_range x = leb (neg (literal (pos 25) 1)) x.input_low && leb x.input_high (literal (pos 25) 1)

  abbrev pub ranged : Chan → Info F → Info F
  ranged chan i = update_channel chan (λ x. record x { input_low_range = low_range x }) i

  -- `cgr101_digitizer_set_range`
  unfoldable pub digitizer_set_range : Chan → Info F → Option (Info F)
  digitizer_set_range chan i =
      must_printf c (ranged chan i) "S P %c\n"
        (pos (range_cmd chan (low_range (channel i.device.scope chan))) ∷ [])
