-- ===== src/Device/Abort.antt =====
-- src/cgr101.c: the end of what runs, and the digital output.
pub mod Stops
use cgr101_scpi.Prelude.{ℕ, Option, some, [], ◌∷◌, if◌then◌else◌}
use cgr101_scpi.Prelude.Int.{pos}
use cgr101_scpi.Prelude.Fault.{◌>>=◌}
use cgr101_scpi.Info.{Info, ByteState}
use cgr101_scpi.Info.Actions.{with_device, must_printf, print_int}
use cgr101_scpi.Device.Capture.{scope_data_done}
use cgr101_scpi.Device.DigitalEvent.{digital_event_done}
use cgr101_scpi.Platform.{Platform}

module _ (c : Platform) where
  open c use {F}

  -- `cgr101_abort`
  unfoldable pub abort : Info F → Option (Info F)
  unfolding scope_data_done digital_event_done
  abort i = do
    i₁ ← if i.sweep_status then scope_data_done c ByteState.idle i else some i
    if i₁.digital_event_status then digital_event_done c i₁ else some i₁

  -- `cgr101_source_digital_data`
  unfoldable pub source_digital_data : ℕ → Info F → Option (Info F)
  source_digital_data value i =
      must_printf c (with_device i (record (i.device) { digital_write_data = value })) "D O %d\n"
        (pos value ∷ [])

  -- `cgr101_source_digital_dataq`
  unfoldable pub source_digital_dataq : Info F → Info F
  source_digital_dataq i = print_int c i (pos i.device.digital_write_data)
