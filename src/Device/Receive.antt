-- ===== src/Device/Receive.antt =====
-- src/cgr101.c: the receive state machine, one byte from the device at a time.
pub mod Bytes
pub mod Invariant
pub mod Steps
pub mod Samples
pub mod Messages
use cgr101_scpi.Prelude.{
  ℕ, ◌+◌, true, false, Option, none, some, List, [], ◌∷◌, ltb, ◌==◌, ◌&&◌, if◌then◌else◌, length,
}
use cgr101_scpi.Prelude.Int.{pos}
use cgr101_scpi.Prelude.Fault.{◌>>=◌, ◌>>◌}
use cgr101_scpi.Event.{digital_read_complete}
use cgr101_scpi.Info.{Info, RcvState, ByteState}
use cgr101_scpi.Info.Actions.{with_device, with_scope, send}
use cgr101_scpi.Device.Convert.{chan_a, chan_b, mp8, step_high, step_low, zero_fp, d2v}
use cgr101_scpi.Device.DigitalEvent.{
  Clock, has_bit, interrupt_bit, digital_data_bit, interrupt_data, digital_event,
}
use cgr101_scpi.Device.Capture.{num_sample, scope_data_output, scope_data_done}
use cgr101_scpi.Platform.{Platform}
use cgr101_scpi.Device.Handlers.{
  rcv_idle, rcv_start, rcv_scope_status, rcv_scope_addr, rcv_scope_data_chan, expect, rcv_error_msg,
  rcv_ident,
}

module _ (p : Platform) where
  open p use {F}

  abbrev pub record_event : Clock → ℕ → ℕ → Info F → Option (Info F)
  record_event now k value i =
      if has_bit i.device.event.chan_mask k then digital_event p now value i else some i

  -- `cgr101_rcv_digital_read`
  unfoldable pub rcv_digital_read : Clock → Info F → ℕ → Option (Info F)
  rcv_digital_read now i c = do
    i₁ ←
        record_event now digital_data_bit c
          (with_device i (record (i.device) { digital_read_data = c }))
    i₂ ← send i₁ digital_read_complete
    some (rcv_idle i₂)

  abbrev pub offset_value : F → ℕ → F
  offset_value step c = d2v p (pos c) mp8 step (zero_fp p)

  -- `cgr101_rcv_scope_offset`
  unfoldable pub rcv_scope_offset : Info F → ℕ → ByteState → Option (Info F)
  rcv_scope_offset i c ByteState.expect_a_high =
      let s = i.device.scope in
      some (
        with_scope i (record s {
          channel_a = record (s.channel_a) { offset_high = offset_value (step_high p) c };
          offset_state = ByteState.expect_a_low;
        }))
  rcv_scope_offset i c ByteState.expect_a_low =
      let s = i.device.scope in
      some (
        with_scope i (record s {
          channel_a = record (s.channel_a) { offset_low = offset_value (step_low p) c };
          offset_state = ByteState.expect_b_high;
        }))
  rcv_scope_offset i c ByteState.expect_b_high =
      let s = i.device.scope in
      some (
        with_scope i (record s {
          channel_b = record (s.channel_b) { offset_high = offset_value (step_high p) c };
          offset_state = ByteState.expect_b_low;
        }))
  rcv_scope_offset i c ByteState.expect_b_low =
      let s = i.device.scope in
      some (
        rcv_idle
          (record (with_scope i (record s {
            channel_b = record (s.channel_b) { offset_low = offset_value (step_low p) c };
            offset_state = ByteState.complete;
          })) { offset_status = false }))
  rcv_scope_offset i c _ = none

  -- The end of a sample of both channels.
  abbrev pub sample_done : Info F → Option (Info F)
  sample_done i = do
    let i₁ = with_scope i (record (i.device.scope) { data_count = i.device.scope.data_count + 1 })
    (if i₁.device.scope.data_count == num_sample
        then (do
          i₂ ← if i₁.device.scope.output_pending then scope_data_output p i₁ else some i₁
          i₃ ← scope_data_done p ByteState.complete i₂
          some (rcv_idle i₃))
        else some (expect i₁ ByteState.expect_a_high))

  -- `cgr101_rcv_scope_data`
  unfoldable pub rcv_scope_data : Info F → ℕ → ByteState → Option (Info F)
  rcv_scope_data i c ByteState.expect_a_high = do
    i' ← rcv_scope_data_chan i chan_a true c
    some (expect i' ByteState.expect_a_low)
  rcv_scope_data i c ByteState.expect_a_low = do
    i' ← rcv_scope_data_chan i chan_a false c
    some (expect i' ByteState.expect_b_high)
  rcv_scope_data i c ByteState.expect_b_high = do
    i' ← rcv_scope_data_chan i chan_b true c
    some (expect i' ByteState.expect_b_low)
  rcv_scope_data i c ByteState.expect_b_low = do
    i' ← rcv_scope_data_chan i chan_b false c
    sample_done i'
  rcv_scope_data i c _ = none

  -- `cgr101_rcv_interrupt_msg`
  unfoldable pub rcv_interrupt_msg : Clock → Info F → ℕ → Option (Info F)
  rcv_interrupt_msg now i c =
      if c == 10
      then (do i' ← record_event now interrupt_bit interrupt_data i; some (rcv_idle i'))
      else if c == 13
      then some i
      else if c == b'!'
      then some i
      else none

  abbrev pub dispatch : RcvState → Clock → Info F → ℕ → Option (Info F)
  dispatch RcvState.idle now i c = some (rcv_start i c)
  dispatch RcvState.identify now i c = rcv_ident i c
  dispatch RcvState.digital_read now i c = rcv_digital_read now i c
  dispatch RcvState.scope_offset now i c = rcv_scope_offset i c i.device.scope.offset_state
  dispatch RcvState.scope_status now i c = rcv_scope_status i c i.device.scope.status_state
  dispatch RcvState.scope_addr now i c = rcv_scope_addr i c i.device.scope.addr_state
  dispatch RcvState.scope_data now i c = rcv_scope_data i c i.device.scope.data_state
  dispatch RcvState.error_msg now i c = rcv_error_msg i c
  dispatch RcvState.interrupt_msg now i c = rcv_interrupt_msg now i c
  dispatch RcvState.scope_read now i c = none

  -- `cgr101_rcv_sm`: no handler returns an error, so the state alone is returned.
  unfoldable pub rcv_sm : Clock → Info F → ℕ → Option (Info F)
  rcv_sm now i c = dispatch i.device.rcv_state now i c

  -- `cgr101_rcv_data`
  unfoldable pub rcv_data : Clock → List ℕ → Info F → Option (Info F)
  rcv_data now [] i = some i
  rcv_data now (c ∷ cs) i = do i' ← rcv_sm now i c; rcv_data now cs i'

  -- `cgr101_out`: what was read from the device, or nothing where `read` was interrupted. Bytes that
  -- come before a command has been sent are dropped.
  unfoldable pub cgr101_out : Clock → Option (List ℕ) → Info F → Option (Info F)
  unfolding rcv_data
  cgr101_out now none i = some i
  cgr101_out now (some bytes) i =
      if i.device.sent && ltb 0 (length bytes) then rcv_data now bytes i else some i
