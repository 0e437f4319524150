-- ===== src/Commands/Measure.antt =====
-- src/scpi_dev.c: measurements of the digital input and of digital events, and commands on the whole
-- device.
pub mod Answer
use cgr101_scpi.Prelude.{Bool, true, false, Option, none, some, if◌then◌else◌}
use cgr101_scpi.Prelude.Int.{pos, pos_part}
use cgr101_scpi.Prelude.Fault.{◌>>=◌}
use cgr101_scpi.Output.{Text}
use cgr101_scpi.Info.{Info}
use cgr101_scpi.Channels.{chan_mask}
use cgr101_scpi.Input.{ScpiType, input_int, input_str, input_fp}
use cgr101_scpi.Device.Abort
use cgr101_scpi.Device.Completion
use cgr101_scpi.Device.DigitalEvent
use cgr101_scpi.Device.Settings.Init
use cgr101_scpi.Platform.{Platform}

module _ (c : Platform) where
  open c use {F}

  -- `scpi_dev_read_digital_dataq`, with `scpi_dev_abort`, `scpi_dev_initiate` and
  -- `scpi_dev_fetch_digital_dataq`, none of which reports an error.
  unfoldable pub fetch_digital_dataq : Info F → Option (Info F)
  fetch_digital_dataq i =
      if i.device.digital_read_requested then Completion.fetch_digital_data i else some i

  unfoldable pub read_digital_dataq : Info F → Option (Info F)
  unfolding fetch_digital_dataq
  read_digital_dataq i = do
    i₁ ← Abort.abort c i
    i₂ ← Completion.initiate c i₁
    fetch_digital_dataq i₂

  -- `scpi_dev_measure_digital_dataq`, with `scpi_dev_conf_digital_data`
  unfoldable pub measure_digital_dataq : Info F → Option (Info F)
  unfolding read_digital_dataq
  measure_digital_dataq i = read_digital_dataq (Completion.configure_digital_data i)

  -- The first parameter of a digital event, which may be missing.
  unfoldable pub selection : Option (ScpiType F) → Option (Option Text)
  selection none = some none
  selection (some v) = do name ← input_str v; some (some name)

  -- `scpi_dev_conf_digital_event`, with `scpi_dev_input_digital_event`: its `err`, and the state.
  unfoldable pub conf_digital_event :
      Option (ScpiType F) → ScpiType F → ScpiType F → Info F → Option (Bool × Info F)
  unfolding selection
  conf_digital_event v₁ v₂ v₃ i = do
    int_sel ← selection v₁
    r ← input_int i v₂ (pos 0) (pos 16777215)
    elim r.0 [
      | none ↦ some (true, r.1)
      | some count ↦ (do
        mask ← chan_mask v₃
        i' ← DigitalEvent.configure_digital_event c int_sel (pos_part count) mask r.1
        some (false, i'))
    ]

  -- `scpi_dev_read_digital_eventq`, with `scpi_dev_fetch_digital_eventq`
  unfoldable pub read_digital_eventq : Info F → Option (Info F)
  read_digital_eventq i = do
    i₁ ← Abort.abort c i
    i₂ ← Completion.initiate c i₁
    some (DigitalEvent.fetch_digital_event c i₂)

  -- `scpi_dev_measure_digital_eventq`
  unfoldable pub measure_digital_eventq :
      Option (ScpiType F) → ScpiType F → ScpiType F → Info F → Option (Info F)
  unfolding conf_digital_event read_digital_eventq
  measure_digital_eventq v₁ v₂ v₃ i = do
    (err, i') ← conf_digital_event v₁ v₂ v₃ i
    if err then some i' else read_digital_eventq i'

  -- `scpi_system_internal_offset`, where each of the four numbers is checked.
  unfoldable pub internal_offset :
      ScpiType F → ScpiType F → ScpiType F → ScpiType F → Info F → Option (Info F)
  internal_offset v₁ v₂ v₃ v₄ i = do
    f₁ ← input_fp c v₁
    f₂ ← input_fp c v₂
    f₃ ← input_fp c v₃
    f₄ ← input_fp c v₄
    some (Init.input_offset c f₁ f₂ f₃ f₄ i)

  -- The queries of what is set.
  unfoldable pub internal_offsetq : Info F → Info F
  internal_offsetq i = Init.input_offsetq c i

  -- What only passes a call on to the driver.
  unfoldable pub abort : Info F → Option (Info F)
  abort i = Abort.abort c i

  unfoldable pub initiate : Info F → Option (Info F)
  initiate i = Completion.initiate c i

  unfoldable pub initiate_immediate : Info F → Option (Info F)
  initiate_immediate i = Completion.initiate_immediate c i

  unfoldable pub conf_digital_data : Info F → Info F
  conf_digital_data i = Completion.configure_digital_data i

  unfoldable pub confq : Info F → Info F
  confq i = i

  unfoldable pub identify : Info F → Option (Info F)
  identify i = Completion.identify i

  unfoldable pub rst : Info F → Option (Info F)
  rst i = Init.rst c i

  unfoldable pub fetch_digital_eventq : Info F → Info F
  fetch_digital_eventq i = DigitalEvent.fetch_digital_event c i

  unfoldable pub internal_offset_store : Info F → Option (Info F)
  internal_offset_store i = Init.input_offset_store c i
