-- ===== src/Device/Trigger/Slope.antt =====
-- src/cgr101.c: `cgr101_trigger_slope` and the query of the slope.
use cgr101_scpi.Prelude.{
  ◌≡◌, refl, Bool, true, false, not, ◌++◌, some, length, leb, codes, [], ◌∷◌, ◌<◌, ◌≤◌, arith,
  lt→ltb, if◌then◌else◌,
}
use cgr101_scpi.Prelude.Int.{pos}
use cgr101_scpi.Output.{Text}
use cgr101_scpi.Info.{Info}
use cgr101_scpi.Info.Actions.{with_scope, took, must_printf-took, print}
use cgr101_scpi.Device.Capture.{control_word, update_control, sr_div_max}
use cgr101_scpi.Device.Trigger.{slope_of, trigger_slope, trigger_slopeq}
use cgr101_scpi.Platform.{Platform}

module _ (c : Platform) where
  open c use {F, format, same_text}

  abbrev pub control_text : Info F → Text
  control_text i = format "S R %d\n" (pos (control_word i.device.scope) ∷ [])

  -- With a divisor in its bounds, the control register is sent where its command fits in the buffer.
  pub update_control-took :
      (i : Info F)
      → i.device.scope.sample_rate_divisor ≤ sr_div_max
      → length (control_text i) < 32
      → i.link ≡ true
      → update_control c i ≡ some (took i (control_text i))
  unfolding update_control
  update_control-took i d fits link =
      let in_bounds : leb i.device.scope.sample_rate_divisor sr_div_max ≡ true = ground arith in
      rw in_bounds (
        rw (must_printf-took c i "S R %d\n" (pos (control_word i.device.scope) ∷ []))
          (rw (lt→ltb (length (control_text i)) 32 fits, link) refl))

  abbrev pub with_polarity : Info F → Bool → Info F
  with_polarity i b = with_scope i (record (i.device.scope) { trigger_polarity = b })

  -- The command with the text POS, or with the text NEG, in letters of either case, while the
  -- divisor is in its bounds, the command of the control register fits in its buffer and the device
  -- takes it: a cleared polarity is stored for POS and a set one for NEG, the control register with
  -- that polarity is sent, and the query then answers the other slope: NEG after POS, POS after NEG.
  pub trigger_slope-inverted :
      (value : Text) (positive : Bool) (i : Info F)
      → same_text value (codes "POS") ≡ positive
      → same_text value (codes "NEG") ≡ not positive
      → i.device.scope.sample_rate_divisor ≤ sr_div_max
      → length (control_text (with_polarity i (not positive))) < 32
      → i.link ≡ true
      → (i' : Info F) × (trigger_slope c value i ≡ some i')
        × (i'.device.scope.trigger_polarity ≡ not positive)
        × (i'.written ≡ i.written ++ (control_text (with_polarity i (not positive)) ∷ []))
        × (trigger_slopeq c i' ≡ print i' (if positive then codes "NEG" else codes "POS"))
  unfolding trigger_slope trigger_slopeq slope_of
  trigger_slope-inverted value true i p n d fits link =
      let j = with_polarity i false in
      (took j (control_text j), rw p (update_control-took j d fits link), refl, refl, refl)
  trigger_slope-inverted value false i p n d fits link =
      let j = with_polarity i true in
      (took j (control_text j), rw (p, n) (update_control-took j d fits link), refl, refl, refl)
