-- ===== src/Device/Receive/Steps.antt =====
-- src/cgr101.c: what every byte from the device keeps.
use cgr101_scpi.Prelude.{
  ℕ, ◌+◌, ◌<◌, ◌≡◌, refl, false, Option, none, some, List, [], ◌∷◌, arith, ltb, ◌==◌, if◌then◌else◌,
}
use cgr101_scpi.Prelude.Fault.{◌>>=◌}
use cgr101_scpi.Info.{Info, RcvState, ByteState}
use cgr101_scpi.Info.Actions.{send, must_printf, device_printf, device_send}
use cgr101_scpi.Device.DigitalEvent.{
  Clock, interrupt_bit, digital_data_bit, interrupt_data, digital_event, digital_event_done,
  interrupt_mode, digital_event_output-output,
}
use cgr101_scpi.Device.Capture.{
  num_sample, scope_data_output, scope_data_done, scope_data_output-printed,
}
use cgr101_scpi.Device.Handlers.{rcv_scope_data_chan, rcv_idle, stored}
use cgr101_scpi.Device.Receive.{
  rcv_digital_read, rcv_scope_offset, rcv_scope_data, rcv_interrupt_msg, rcv_sm, rcv_data, dispatch,
  record_event, sample_done,
}
use cgr101_scpi.Device.Convert.{chan_b}
use cgr101_scpi.Event.{EventId, digital_read_complete}
use cgr101_scpi.Platform.{Platform}
use cgr101_scpi.Device.Receive.Invariant.{
  IsValid, Keeps, if-Keeps, require-Keeps, start-IsValid, status-Keeps, addr-Keeps, error-Keeps,
  ident-Keeps,
}

module _ (p : Platform) where
  open p use {F}

  offset-Keeps :
      (i : Info F) (b : ℕ) (st : ByteState)
      → IsValid i.device
      → i.device.rcv_state ≡ RcvState.scope_offset
      → Keeps (rcv_scope_offset p i b st)
  unfolding rcv_scope_offset
  offset-Keeps i b ByteState.idle v s = tt
  offset-Keeps i b ByteState.complete v s = tt
  offset-Keeps i b ByteState.expect_a_high v s = ground arith
  offset-Keeps i b ByteState.expect_a_low v s = ground arith
  offset-Keeps i b ByteState.expect_b_high v s = ground arith
  offset-Keeps i b ByteState.expect_b_low v s = ground arith

  done-Keeps :
      (i : Info F)
      → IsValid (record (i.device) { rcv_state = RcvState.idle })
      → Keeps (do i' ← scope_data_done p ByteState.complete i; some (rcv_idle i'))
  unfolding scope_data_done send
  done-Keeps i v = ground arith

  output_done-Keeps :
      (i : Info F)
      → IsValid (record (i.device) { rcv_state = RcvState.idle })
      → Keeps (do
        i₂ ← if i.device.scope.output_pending then scope_data_output p i else some i
        i₃ ← scope_data_done p ByteState.complete i₂
        some (rcv_idle i₃))
  unfolding scope_data_done send
  output_done-Keeps i v = rw (scope_data_output-printed p) (ground arith)

  sample_done-Keeps :
      (i : Info F)
      → IsValid i.device
      → i.device.scope.data_count < num_sample
      → i.device.rcv_state ≡ RcvState.scope_data
      → Keeps (sample_done p i)
  sample_done-Keeps i v l s =
      if-Keeps (i.device.scope.data_count + 1 == num_sample) _ _
        (λ h. output_done-Keeps _ (ground arith)) (λ h. ground arith)

  data-Keeps :
      (i : Info F) (b : ℕ) (st : ByteState)
      → IsValid i.device
      → i.device.rcv_state ≡ RcvState.scope_data
      → Keeps (rcv_scope_data p i b st)
  unfolding rcv_scope_data rcv_scope_data_chan
  data-Keeps i b ByteState.idle v s = tt
  data-Keeps i b ByteState.complete v s = tt
  data-Keeps i b ByteState.expect_a_high v s = ground arith
  data-Keeps i b ByteState.expect_a_low v s = ground arith
  data-Keeps i b ByteState.expect_b_high v s = ground arith
  data-Keeps i b ByteState.expect_b_low v s =
      require-Keeps (ltb i.device.scope.data_count num_sample) _ (λ i'. sample_done p i')
        (λ h. sample_done-Keeps (stored i chan_b false b) (ground arith) (ground arith) s)

  event-Keeps :
      (i : Info F) (now : Clock) (k value : ℕ)
      → IsValid (record (i.device) { rcv_state = RcvState.idle })
      → Keeps (do
        i' ← record_event p now k value i
        some (record i' { device = record (i'.device) { rcv_state = RcvState.idle } }))
  unfolding digital_event digital_event_done interrupt_mode must_printf device_printf device_send
      send
  event-Keeps i now k value v = rw (digital_event_output-output p) (ground arith)

  idle_send-Keeps :
      (m : Option (Info F)) (id : EventId)
      → Keeps (do i ← m; some (rcv_idle i))
      → Keeps (do i₁ ← m; i₂ ← send i₁ id; some (rcv_idle i₂))
  unfolding send
  idle_send-Keeps none id k = tt
  idle_send-Keeps (some i) id k = ground arith

  digital-Keeps :
      (i : Info F) (now : Clock) (b : ℕ)
      → IsValid i.device
      → i.device.rcv_state ≡ RcvState.digital_read
      → Keeps (rcv_digital_read p now i b)
  unfolding rcv_digital_read
  digital-Keeps i now b v s = idle_send-Keeps _ digital_read_complete (
      event-Keeps (record i { device = record (i.device) { digital_read_data = b } }) now
        digital_data_bit b (ground arith))

  interrupt-Keeps :
      (i : Info F) (now : Clock) (b : ℕ)
      → IsValid i.device
      → i.device.rcv_state ≡ RcvState.interrupt_msg
      → Keeps (rcv_interrupt_msg p now i b)
  unfolding rcv_interrupt_msg
  interrupt-Keeps i now b v s =
      if-Keeps (b == 10) _ _ (λ h. event-Keeps i now interrupt_bit interrupt_data (ground arith))
        (λ h. ground arith)

  dispatch-Keeps :
      (st : RcvState) (now : Clock) (i : Info F) (b : ℕ)
      → IsValid i.device
      → i.device.rcv_state ≡ st
      → Keeps (dispatch p st now i b)
  dispatch-Keeps RcvState.idle now i b v e = start-IsValid i b v e
  dispatch-Keeps RcvState.identify now i b v e = ident-Keeps i b v e
  dispatch-Keeps RcvState.digital_read now i b v e = digital-Keeps i now b v e
  dispatch-Keeps RcvState.scope_offset now i b v e =
      offset-Keeps i b i.device.scope.offset_state v e
  dispatch-Keeps RcvState.scope_status now i b v e =
      status-Keeps i b i.device.scope.status_state v refl e
  dispatch-Keeps RcvState.scope_addr now i b v e = addr-Keeps i b i.device.scope.addr_state v e
  dispatch-Keeps RcvState.scope_data now i b v e = data-Keeps i b i.device.scope.data_state v e
  dispatch-Keeps RcvState.error_msg now i b v e = error-Keeps i b v e
  dispatch-Keeps RcvState.interrupt_msg now i b v e = interrupt-Keeps i now b v e
  dispatch-Keeps RcvState.scope_read now i b v e = tt

  bind-Keeps :
      (m : Option (Info F)) (f : Info F → Option (Info F))
      → Keeps m
      → ((i : Info F) → IsValid i.device → Keeps (f i))
      → Keeps (m >>= f)
  bind-Keeps none f k l = tt
  bind-Keeps (some i) f k l = l i k

  -- Whatever bytes come from the device: a device that satisfies the invariant satisfies it after
  -- them, unless one of them is a fault.
  pub rcv_data-Keeps :
      (now : Clock) (bytes : List ℕ) (i : Info F)
      → IsValid i.device
      → Keeps (rcv_data p now bytes i)
  unfolding rcv_data rcv_sm
  rcv_data-Keeps now [] i v = v
  rcv_data-Keeps now (b ∷ bs) i v =
      bind-Keeps (dispatch p i.device.rcv_state now i b) _
        (dispatch-Keeps i.device.rcv_state now i b v refl) (rcv_data-Keeps now bs)
