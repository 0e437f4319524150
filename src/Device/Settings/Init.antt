-- ===== src/Device/Settings/Init.antt =====
-- src/cgr101.c: the defaults of the scope, the stored offsets, and commands without a value.
use cgr101_scpi.Prelude.{Bool, true, false, not, Option, some, List, [], ◌∷◌, if◌then◌else◌, codes}
use cgr101_scpi.Prelude.Int.{ℤ, pos}
use cgr101_scpi.Prelude.Fault.{◌>>=◌, ◌>>◌, require}
use cgr101_scpi.Event.{scope_offset_start, scope_status_output}
use cgr101_scpi.Info.{Info, Channel, ByteState}
use cgr101_scpi.Info.Actions.{with_scope, send, must_send, must_printf, print_fp}
use cgr101_scpi.Device.Convert.{chan_a, chan_b, mp8, step_low, step_high, zero_fp, v2d}
use cgr101_scpi.Device.Capture.{digitizer_start}
use cgr101_scpi.Device.Settings.{
  update_channel, min_sweep_time, midpoint, choose_sweep, digitizer_set_range,
}
use cgr101_scpi.Platform.{Platform}

abbrev pub awaits_offsets : ByteState → Bool
awaits_offsets ByteState.expect_a_high = true
awaits_offsets _ = false

module _ (c : Platform) where
  open c use {F, neg, of_int, literal}

  -- The defaults of a channel: `SCOPE_DEFAULT_LOW`, `SCOPE_DEFAULT_HIGH`, `SCOPE_DEFAULT_MIDPOINT`
  -- and `SCOPE_DEFAULT_PTP`.
  abbrev pub default_channel : Channel F → Channel F
  default_channel x = record x {
    enable = false;
    input_low = neg (literal (pos 250) 1);
    input_high = literal (pos 250) 1;
    input_midpoint = zero_fp c;
    input_ptp = literal (pos 500) 1;
    input_low_range = false;
  }

  -- `cgr101_device_reset`
  unfoldable pub device_reset : Info F → Option (Info F)
  unfolding choose_sweep
  device_reset i = do
    let i₁ =
        with_scope i
          (record (i.device.scope) { trigger_offset = of_int (pos 0); trigger_ref = midpoint c })
    let (err, i₂) = choose_sweep c i₁ (min_sweep_time c)
    require (not err)
    some (update_channel chan_b default_channel (update_channel chan_a default_channel i₂))

  -- `cgr101_rst`
  unfoldable pub rst : Info F → Option (Info F)
  unfolding device_reset
  rst i = device_reset i

  -- `cgr101_device_init`
  unfoldable pub device_init : Info F → Option (Info F)
  unfolding device_reset digitizer_set_range
  device_init i = do
    i₁ ← device_reset i
    i₂ ← digitizer_set_range c chan_a i₁
    i₃ ← digitizer_set_range c chan_b i₂
    i₄ ← if awaits_offsets i₃.device.scope.offset_state then some i₃ else send i₃ scope_offset_start
    some (record i₄ { offset_status = true })

  -- `cgr101_digitizer_input_offset`
  unfoldable pub input_offset : F → F → F → F → Info F → Info F
  input_offset f₁ f₂ f₃ f₄ i =
      update_channel chan_b (λ x. record x { offset_low = f₃; offset_high = f₄ })
        (update_channel chan_a (λ x. record x { offset_low = f₁; offset_high = f₂ }) i)

  -- The offsets as raw data, in the order in which the flash memory has them.
  abbrev pub flash_args : Info F → List ℤ
  flash_args i =
      let s = i.device.scope in
      v2d c s.channel_a.offset_high mp8 (step_high c) (zero_fp c)
      ∷ v2d c s.channel_a.offset_low mp8 (step_low c) (zero_fp c)
      ∷ v2d c s.channel_b.offset_high mp8 (step_high c) (zero_fp c)
      ∷ v2d c s.channel_b.offset_low mp8 (step_low c) (zero_fp c)
      ∷ []

  -- `cgr101_digitizer_input_offset_store`, without what it reports when it is verbose.
  unfoldable pub input_offset_store : Info F → Option (Info F)
  input_offset_store i =
      if i.enable_flash_writes then must_printf c i "S F %d %d %d %d\n" (flash_args i) else some i

  -- `cgr101_digitizer_input_offsetq`
  unfoldable pub input_offsetq : Info F → Info F
  input_offsetq i =
      let s = i.device.scope in
      print_fp c
        (print_fp c (print_fp c (print_fp c i s.channel_a.offset_low) s.channel_a.offset_high)
          s.channel_b.offset_low)
        s.channel_b.offset_high

  -- `cgr101_digitizer_statq`
  unfoldable pub statq : Info F → Option (Info F)
  statq i = send i scope_status_output

  -- `cgr101_digitizer_reset`
  unfoldable pub digitizer_reset : Info F → Option (Info F)
  digitizer_reset i = do i₁ ← must_send i (codes "S D 1\n"); must_send i₁ (codes "S D 0\n")

  -- `cgr101_digitizer_immediate`, which ignores the error.
  unfoldable pub immediate : Info F → Option (Info F)
  immediate i = do (err, i') ← digitizer_start c true i; some i'
