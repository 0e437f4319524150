-- ===== src/Commands/Settings/Resets.antt =====
-- src/scpi_core.c, src/scpi_dev.c: *RST, ABORt and the configuration of a digital read leave settings
-- in range.
use cgr101_scpi.Prelude.{refl, false, some, arith}
use cgr101_scpi.Info.{Info, ByteState}
use cgr101_scpi.Event.{EventId, unblock}
use cgr101_scpi.Info.Actions.{send, with_scope, with_event}
use cgr101_scpi.Core.{opc}
use cgr101_scpi.Core.Commands.{common_rst}
use cgr101_scpi.Commands.Measure
use cgr101_scpi.Device.Abort
use cgr101_scpi.Device.Capture.{scope_data_done}
use cgr101_scpi.Device.DigitalEvent.{digital_event_done}
use cgr101_scpi.Device.Completion.{configure_digital_data}
use cgr101_scpi.Device.Settings.Init.{rst}
use cgr101_scpi.Device.Settings.Start.{Constants, defaults, reset-defaults}
use cgr101_scpi.Device.Settings.InRange.{
  InRange, Stays, some-Stays, bind-Stays, then-Stays, if-Stays,
}
use cgr101_scpi.Platform.{Platform}

module _ (c : Platform) where
  open c use {F}

  defaults-InRange :
      Constants c → (i : Info F) → InRange c i.device → InRange c (opc (defaults c i)).device
  unfolding opc
  defaults-InRange k i v = record {
    divisor_fits = omega arith;
    offset_fits = k.zero_offset;
    ref_fits = k.middle_ref;
    amplitude_fits = v.amplitude_fits;
    points_fit = v.points_fit;
    range_a = rw k.wide refl;
    range_b = rw k.wide refl;
  }

  pub common_rst-Stays : Constants c → (i : Info F) → InRange c i.device → Stays c (common_rst c i)
  unfolding common_rst rst
  common_rst-Stays k i v = rw (reset-defaults c k i) (some-Stays c _ (defaults-InRange k i v))

  send-Stays : (i : Info F) (id : EventId) → InRange c i.device → Stays c (send i id)
  unfolding send
  send-Stays i id v = bind-Stays c _ _ λ p. some-Stays c _ v

  scope_data_done-Stays :
      (i : Info F) → InRange c i.device → Stays c (scope_data_done c ByteState.idle i)
  unfolding scope_data_done
  scope_data_done-Stays i v = bind-Stays c _ _ λ u.
      send-Stays
        (with_scope (record i { overlapped = false; sweep_status = false })
          (record (i.device.scope) { data_state = ByteState.idle }))
        unblock (ground arith)

  digital_event_done-Stays : (i : Info F) → InRange c i.device → Stays c (digital_event_done c i)
  unfolding digital_event_done
  digital_event_done-Stays i v =
      send-Stays
        (with_event (record i { digital_event_status = false })
          (record (i.device.event) { chan_mask = 0 }))
        unblock (ground arith)

  pub abort-Stays : (i : Info F) → InRange c i.device → Stays c (Measure.abort c i)
  unfolding Measure.abort Abort.abort
  abort-Stays i v =
      then-Stays c _ _
        (if-Stays c i.sweep_status _ (some i) (scope_data_done-Stays i v) (some-Stays c i v))
        λ j w.
          if-Stays c j.digital_event_status _ (some j) (digital_event_done-Stays j w)
            (some-Stays c j w)

  pub conf_digital_data-Stays :
      (i : Info F) → InRange c i.device → Stays c (some (Measure.conf_digital_data c i))
  unfolding Measure.conf_digital_data configure_digital_data
  conf_digital_data-Stays i v = some-Stays c _ (ground arith)
