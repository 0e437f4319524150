-- ===== src/Device/Settings/Start.antt =====
-- src/cgr101.c: `cgr101_device_init` leaves settings in range, and what *RST leaves the device with.
use cgr101_scpi.Prelude.{
  ℕ, ◌<◌, ◌≡◌, refl, ap, sym, ◌∙◌, Bool, true, false, Option, some, List, [], ◌∷◌, ◌++◌, length,
  arith, Bool-cases, inl, inr, if◌then◌else◌,
}
use cgr101_scpi.Prelude.Int.{pos}
use cgr101_scpi.Prelude.Fault.{◌>>=◌}
use cgr101_scpi.Event.{event_send, scope_offset_start}
use cgr101_scpi.Info.{Info}
use cgr101_scpi.Info.Actions.{with_scope, send, took, must_printf-fits}
use cgr101_scpi.Device.Convert.{Chan, chan_a, chan_b, channel}
use cgr101_scpi.Device.Settings.{
  in_interval, min_sweep_time, offset_in, ref_in, midpoint, low_range, choose_sweep, find_sweep,
  digitizer_set_range, range_cmd, update_channel, with_sweep, ranged,
}
use cgr101_scpi.Device.Settings.InRange.{InRange}
use cgr101_scpi.Device.Settings.Init.{
  device_reset, device_init, default_channel, rst, awaits_offsets,
}
use cgr101_scpi.Device.Waveform.{amplitude_in}
use cgr101_scpi.Device.Waveform.Shape.{waveform_user_max}
use mathlib.Core.Path.{subst}
use cgr101_scpi.Platform.{Platform}

-- What double arithmetic says of the constants of the program.
pub record Constants (c : Platform) : Type 0 where
  pub min_sweep : in_interval c (min_sweep_time c) (min_sweep_time c) ≡ true
  pub zero_offset : offset_in c (c.of_int (pos 0)) ≡ true
  pub middle_ref : ref_in c (midpoint c) ≡ true
  -- -25.0 is not at least -2.5
  pub wide : c.leb (c.neg (c.literal (pos 25) 1)) (c.neg (c.literal (pos 250) 1)) ≡ false

module _ (c : Platform) where
  open c use {F, format}

  abbrev shortest : Info F → Info F
  shortest i =
      with_sweep c
        (with_scope i
          (record (i.device.scope) { trigger_offset = c.of_int (pos 0); trigger_ref = midpoint c }))
        (min_sweep_time c) 0

  abbrev pub defaults : Info F → Info F
  defaults i =
      update_channel chan_b (default_channel c)
        (update_channel chan_a (default_channel c) (shortest i))

  pub reset-defaults : Constants c → (i : Info F) → device_reset c i ≡ some (defaults i)
  unfolding device_reset choose_sweep find_sweep
  reset-defaults k i = rw k.min_sweep refl

  -- Where the constants compare as the numbers they stand for: *RST puts both channels back to the
  -- wide range in the program and sends nothing, so that a device in the narrow range stays there.
  pub rst-unsent :
      Constants c
      → (i : Info F)
      → (i' : Info F) × (rst c i ≡ some i')
        × (i'.device.scope.channel_a.input_low_range ≡ false)
        × (i'.device.scope.channel_b.input_low_range ≡ false)
        × (i'.written ≡ i.written)
  unfolding rst
  rst-unsent k i = (defaults i, reset-defaults k i, refl, refl, refl)

  abbrev pub range_text : Chan → Bool → List ℕ
  range_text chan b = format "S P %c\n" (pos (range_cmd chan b) ∷ [])

  set_range-wide :
      (chan : Chan) (i : Info F)
      → low_range c (channel i.device.scope chan) ≡ false
      → length (range_text chan false) < 32
      → i.link ≡ true
      → digitizer_set_range c chan i ≡ some (took (ranged c chan i) (range_text chan false))
  unfolding digitizer_set_range
  set_range-wide chan i e fits link =
      let x = channel i.device.scope chan in
      let fits' : length (range_text chan (low_range c x)) < 32 =
        subst (λ b. length (range_text chan b) < 32) (sym e) fits in
      must_printf-fits c (ranged c chan i) "S P %c\n" (pos (range_cmd chan (low_range c x)) ∷ [])
        fits' link
      ∙ ap (λ b. some (took (ranged c chan i) (range_text chan b))) e

  abbrev ranges_set : Info F → Info F
  ranges_set i =
      took (ranged c chan_b (took (ranged c chan_a (defaults i)) (range_text chan_a false)))
        (range_text chan_b false)

  -- What follows the commands of the ranges.
  abbrev finished : Info F → Option (Info F)
  finished i = do
    i' ← if awaits_offsets i.device.scope.offset_state then some i else send i scope_offset_start
    some (record i' { offset_status = true })

  init-ranges_set :
      Constants c
      → (i : Info F) → length (range_text chan_a false) < 32
      → length (range_text chan_b false) < 32
      → i.link ≡ true
      → device_init c i ≡ finished (ranges_set i)
  unfolding device_init
  init-ranges_set k i fits_a fits_b link =
      let wide_a : low_range c (channel (defaults i).device.scope chan_a) ≡ false =
        rw k.wide refl in
      let i₁ = took (ranged c chan_a (defaults i)) (range_text chan_a false) in
      let wide_b : low_range c (channel i₁.device.scope chan_b) ≡ false = rw k.wide refl in
      rw (reset-defaults k i) (
        rw (set_range-wide chan_a (defaults i) wide_a fits_a link)
          (rw (set_range-wide chan_b i₁ wide_b fits_b link) refl))

  finished-same :
      (j : Info F)
      → (i' : Info F) × (finished j ≡ some i')
        × (i'.device ≡ j.device)
        × (i'.offset_status ≡ true)
        × (i'.written ≡ j.written)
  unfolding send event_send
  finished-same j = elim (Bool-cases (awaits_offsets j.device.scope.offset_state)) [
    | inl a ↦ rw a (_, refl, refl, refl, refl)
    | inr a ↦ rw a (_, refl, refl, refl, refl)
  ]

  ranges_set-InRange :
      Constants c
      → (i : Info F) → amplitude_in c i.device.waveform.amplitude ≡ true
      → length i.device.waveform.user ≡ waveform_user_max
      → InRange c (ranges_set i).device
  ranges_set-InRange k i amp points = record {
    divisor_fits = omega arith;
    offset_fits = k.zero_offset;
    ref_fits = k.middle_ref;
    amplitude_fits = amp;
    points_fit = points;
    range_a = refl;
    range_b = refl;
  }

  -- The start: where the constants compare as the numbers they stand for, the memory of the device
  -- is clear (its amplitude is in range, the waveform has its points), and the device takes the
  -- two commands of the ranges: they are all that is sent, the settings are in range behind them,
  -- and the offsets are awaited.
  pub device_init-InRange :
      Constants c
      → (i : Info F) → amplitude_in c i.device.waveform.amplitude ≡ true
      → length i.device.waveform.user ≡ waveform_user_max
      → length (range_text chan_a false) < 32
      → length (range_text chan_b false) < 32
      → i.link ≡ true
      → (i' : Info F) × (device_init c i ≡ some i')
        × InRange c i'.device
        × (i'.offset_status ≡ true)
        × (i'.written
            ≡ i.written ++ (range_text chan_a false ∷ []) ++ (range_text chan_b false ∷ []))
  device_init-InRange k i amp points fits_a fits_b link =
      let (i', e, same, offsets, written) = finished-same (ranges_set i) in
      (
        i',
        init-ranges_set k i fits_a fits_b link ∙ e,
        subst (InRange c) (sym same) (ranges_set-InRange k i amp points),
        offsets,
        written,
      )
