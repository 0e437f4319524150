-- ===== src/Device/Settings/InRange.antt =====
-- src/cgr101.c: the invariant of the settings, and how the effects of the handlers keep it.
use cgr101_scpi.Prelude.{
  ℕ, ◌≤◌, ◌≡◌, refl, Bool, true, false, Option, none, some, List, arith, length, if◌then◌else◌, inl,
  inr,
}
use cgr101_scpi.Prelude.Int.{ℤ}
use cgr101_scpi.Prelude.Fault.{◌>>=◌, ◌>>◌, require}
use cgr101_scpi.Info.{Info, Device, Channel}
use cgr101_scpi.Info.Actions.{took, must_printf, must_printf-took}
use cgr101_scpi.Device.Convert.{Chan, chan_a, chan_b}
use cgr101_scpi.Device.Capture.{sr_div_max, update_control}
use cgr101_scpi.Device.DigitalEvent.{has_bit}
use cgr101_scpi.Device.Settings.{
  each_channel, offset_in, ref_in, low_range, choose_sweep, offset_point, put_ref,
  digitizer_set_range,
}
use cgr101_scpi.Device.Settings.Sweep.{choose_sweep-first}
use cgr101_scpi.Device.Settings.Voltage.{adjust}
use cgr101_scpi.Device.Waveform.{amplitude_in}
use cgr101_scpi.Device.Waveform.Shape.{waveform_user_max}
use cgr101_scpi.Platform.{Platform}
use Prim.Native.String.{String}

module _ (c : Platform) where
  open c use {F}

  -- The divisor has four bits, the place of the trigger lies in the samples, the amplitude is from
  -- 0 to 1, the waveform has all its points, and each channel is in the range that its limits ask
  -- for.
  pub record InRange (d : Device F) : Type 0 where
    pub divisor_fits : d.scope.sample_rate_divisor ≤ sr_div_max
    pub offset_fits : offset_in c d.scope.trigger_offset ≡ true
    pub ref_fits : ref_in c d.scope.trigger_ref ≡ true
    pub amplitude_fits : amplitude_in c d.waveform.amplitude ≡ true
    pub points_fit : length d.waveform.user ≡ waveform_user_max
    pub range_a : d.scope.channel_a.input_low_range ≡ low_range c d.scope.channel_a
    pub range_b : d.scope.channel_b.input_low_range ≡ low_range c d.scope.channel_b

  -- A command that ends normally leaves settings in range.
  unfoldable pub Stays : Option (Info F) → Type 0
  Stays none = Unit
  Stays (some i) = InRange i.device

  pub some-Stays : (i : Info F) → InRange i.device → Stays (some i)
  unfolding Stays
  some-Stays i v = v

  pub none-Stays : Stays none
  unfolding Stays
  none-Stays = tt

  pub bind-Stays {ℓ} :
      {A : Type ℓ} (m : Option A) (f : A → Option (Info F))
      → ((a : A) → Stays (f a))
      → Stays (m >>= f)
  unfolding Stays
  bind-Stays none f h = tt
  bind-Stays (some a) f h = h a

  pub found-Stays {ℓ} :
      {A : Type ℓ} (m : Option A) (f : A → Option (Info F))
      → ((a : A) → m ≡ some a → Stays (f a))
      → Stays (m >>= f)
  unfolding Stays
  found-Stays none f h = tt
  found-Stays (some a) f h = h a refl

  pub then-Stays :
      (m : Option (Info F)) (f : Info F → Option (Info F))
      → Stays m
      → ((i : Info F) → InRange i.device → Stays (f i))
      → Stays (m >>= f)
  unfolding Stays
  then-Stays none f v h = tt
  then-Stays (some i) f v h = h i v

  pub if-Stays : (b : Bool) (x y : Option (Info F)) → Stays x → Stays y → Stays (if b then x else y)
  unfolding Stays
  if-Stays true x y v w = v
  if-Stays false x y v w = w

  pub test-Stays :
      (b : Bool) (x y : Option (Info F))
      → (b ≡ true → Stays x)
      → Stays y
      → Stays (if b then x else y)
  unfolding Stays
  test-Stays true x y h w = h refl
  test-Stays false x y h w = w

  pub require-Stays : (b : Bool) (k : Option (Info F)) → Stays k → Stays (require b >> k)
  unfolding Stays
  require-Stays true k v = v
  require-Stays false k v = tt

  pub must_printf-Stays :
      (i : Info F) (fmt : String) (args : List ℤ)
      → InRange i.device
      → Stays (must_printf c i fmt args)
  must_printf-Stays i fmt args v =
      let v' : InRange (took i (c.format fmt args)).device = ground arith in
      rw (must_printf-took c i fmt args)
        (if-Stays _ (some (took i (c.format fmt args))) none (some-Stays _ v') none-Stays)

  pub update_control-Stays : (i : Info F) → InRange i.device → Stays (update_control c i)
  unfolding update_control
  update_control-Stays i v = bind-Stays _ _ λ u. must_printf-Stays _ _ _ v

  pub each_channel-Stays :
      (f : Chan → Info F → Option (Info F)) (mask : ℕ) (i : Info F)
      → ((chan : Chan) (i : Info F) → InRange i.device → Stays (f chan i))
      → InRange i.device
      → Stays (each_channel f mask i)
  unfolding each_channel
  each_channel-Stays f mask i h v =
      then-Stays (if has_bit mask 0 then f chan_a i else some i) _
        (if-Stays (has_bit mask 0) _ _ (h chan_a i v) (some-Stays i v))
        λ i₁ v₁. if-Stays (has_bit mask 1) _ _ (h chan_b i₁ v₁) (some-Stays i₁ v₁)

  pub adjust-Stays :
      (f : Channel F → Channel F) (chan : Chan) (i : Info F)
      → InRange i.device
      → Stays (adjust c f chan i)
  unfolding digitizer_set_range
  adjust-Stays f chan_a i v = must_printf-Stays _ _ _ (ground arith)
  adjust-Stays f chan_b i v = must_printf-Stays _ _ _ (ground arith)

  pub choose_sweep-InRange :
      (i : Info F) (time : F) → InRange i.device → InRange (choose_sweep c i time).1.device
  choose_sweep-InRange i time v = elim (choose_sweep-first c i time) [
    | inl (d, low, _, _, e) ↦ rw e (ground arith)
    | inr (_, e) ↦ rw e v
  ]

  pub offset_point-InRange :
      (value : F) (i : Info F) → InRange i.device → InRange (offset_point c value i).device
  unfolding offset_point
  offset_point-InRange value i v = ground arith

  pub put_ref-InRange : (x : F) (i : Info F) → InRange i.device → InRange (put_ref c x i).device
  put_ref-InRange x i v = ground arith
