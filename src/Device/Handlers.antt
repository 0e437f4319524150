-- ===== src/Device/Handlers.antt =====
-- src/cgr101.c: the handlers of the bytes of a message that need no arithmetic, and the start of a
-- message. A `char` is its unsigned value; writing past the end of `device_id` or `error_msg` is a
-- fault, as a failed assertion is.
use cgr101_scpi.Prelude.{
  ℕ, ◌+◌, ◌-◌, ◌*◌, Bool, Option, none, some, [], ◌∷◌, ◌++◌, ltb, leb, ◌==◌, ◌&&◌, if◌then◌else◌,
  codes, length,
}
use cgr101_scpi.Prelude.Fault.{◌>>=◌, ◌>>◌, require}
use cgr101_scpi.ErrorQueue.{hardware_error}
use cgr101_scpi.Event.{identify_complete, scope_status_complete}
use cgr101_scpi.Info.{Info, Channel, RcvState, Progress, ByteState, AddrState}
use cgr101_scpi.Info.Actions.{with_device, with_scope, send, raise, must_send}
use cgr101_scpi.Device.Convert.{Chan, channel, put_channel}
use cgr101_scpi.Device.Capture.{num_sample}

-- `ID_MAX` and `E_MAX`
abbrev pub id_max : ℕ
id_max = 32

abbrev pub e_max : ℕ
e_max = 32

module _ {F : Type 0} where
  abbrev pub with_state : Info F → RcvState → Info F
  with_state i s = with_device i (record (i.device) { rcv_state = s })

  -- `cgr101_rcv_idle`
  abbrev pub rcv_idle : Info F → Info F
  rcv_idle i = with_state i RcvState.idle

  -- The cases of `cgr101_rcv_start`. A byte that starts no message is skipped.
  abbrev pub start_identify : Info F → Info F
  start_identify i =
      with_device i
        (record (i.device) { rcv_state = RcvState.identify; identify_state = Progress.pending })

  abbrev pub start_digital : Info F → Info F
  start_digital i = with_device i (record (i.device) {
    rcv_state = RcvState.digital_read;
    digital_read_state = Progress.pending;
  })

  abbrev pub start_offset : Info F → Info F
  start_offset i =
      with_scope (with_state i RcvState.scope_offset)
        (record (i.device.scope) { offset_state = ByteState.expect_a_high })

  abbrev pub start_status : Info F → Info F
  start_status i =
      with_scope (with_state i RcvState.scope_status)
        (record (i.device.scope) { status_state = Progress.pending })

  abbrev pub start_addr : Info F → Info F
  start_addr i =
      with_scope (with_state i RcvState.scope_addr)
        (record (i.device.scope) { addr_state = AddrState.expect_high; addr = 0 })

  abbrev pub start_data : Info F → Info F
  start_data i =
      with_scope (with_state i RcvState.scope_data)
        (record (i.device.scope) { data_state = ByteState.expect_a_high; data_count = 0 })

  abbrev pub start_error : Info F → ℕ → Info F
  start_error i c = with_device i (record (i.device) {
    rcv_state = RcvState.error_msg;
    error_state = Progress.pending;
    error_msg = c ∷ [];
  })

  -- `cgr101_rcv_start`
  unfoldable pub rcv_start : Info F → ℕ → Info F
  rcv_start i c =
      if c == b'*'
      then start_identify i
      else if c == b'I'
      then start_digital i
      else if c == b'O'
      then start_offset i
      else if c == b'S'
      then start_status i
      else if c == b'A'
      then start_addr i
      else if c == b'D'
      then start_data i
      else if c == b'E'
      then start_error i c
      else if c == b'!'
      then with_state i RcvState.interrupt_msg
      else i

  -- `cgr101_rcv_scope_status`: a digit from 1 to 6 ends the message, any other byte is skipped.
  unfoldable pub rcv_scope_status : Info F → ℕ → Progress → Option (Info F)
  rcv_scope_status i c Progress.pending =
      if leb b'1' c && leb c b'6'
      then (do
        i' ←
            send
              (with_scope i
                (record (i.device.scope) { status = c - b'0'; status_state = Progress.complete }))
              scope_status_complete
        some (rcv_idle i'))
      else some i
  rcv_scope_status i c _ = none

  -- `cgr101_rcv_scope_addr`
  unfoldable pub rcv_scope_addr : Info F → ℕ → AddrState → Option (Info F)
  rcv_scope_addr i c AddrState.expect_high = do
    require (leb c 3)
    some (
        with_scope i
          (record (i.device.scope) { addr = c * 256; addr_state = AddrState.expect_low }))
  rcv_scope_addr i c AddrState.expect_low = do
    let addr = i.device.scope.addr + c
    require (ltb addr num_sample)
    must_send
        (rcv_idle
          (with_scope i (record (i.device.scope) { addr = addr; addr_state = AddrState.complete })))
        (codes "S B\n")
  rcv_scope_addr i c _ = none

  -- The element that `cgr101_rcv_scope_data_chan` writes: the high byte sets it, the low is added.
  abbrev pub store : Channel F → ℕ → Bool → ℕ → Channel F
  store x idx high c = record x {
    samples = λ j. if j == idx then (if high then c * 256 else x.samples idx + c) else x.samples j;
  }

  abbrev pub stored : Info F → Chan → Bool → ℕ → Info F
  stored i chan high c =
      let s = i.device.scope in
      with_scope i (put_channel s chan (store (channel s chan) s.data_count high c))

  -- `cgr101_rcv_scope_data_chan`; its callers set the state that is expected next.
  unfoldable pub rcv_scope_data_chan : Info F → Chan → Bool → ℕ → Option (Info F)
  rcv_scope_data_chan i chan high c = do
    require (ltb i.device.scope.data_count num_sample)
    some (stored i chan high c)

  abbrev pub expect : Info F → ByteState → Info F
  expect i b = with_scope i (record (i.device.scope) { data_state = b })

  -- `cgr101_rcv_error_msg`
  unfoldable pub rcv_error_msg : Info F → ℕ → Option (Info F)
  rcv_error_msg i c =
      if c == 10
      then (do
        require (ltb (length i.device.error_msg) e_max)
        some (rcv_idle (raise i hardware_error (some i.device.error_msg))))
      else if c == 13
      then some i
      else (do
        require (ltb (length i.device.error_msg) e_max)
        some (with_device i (record (i.device) { error_msg = i.device.error_msg ++ (c ∷ []) })))

  -- `cgr101_rcv_ident`, with `cgr101_identify_done`
  unfoldable pub rcv_ident : Info F → ℕ → Option (Info F)
  rcv_ident i c =
      if c == 10
      then (do i' ← send i identify_complete; some (rcv_idle i'))
      else if c == 13
      then some i
      else (do
        require (ltb (length i.device.device_id) id_max)
        some (with_device i (record (i.device) { device_id = i.device.device_id ++ (c ∷ []) })))
