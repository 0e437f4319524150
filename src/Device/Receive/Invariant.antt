-- ===== src/Device/Receive/Invariant.antt =====
-- src/cgr101.c: the invariant of the receiver, and the handlers that need no arithmetic.
use cgr101_scpi.Prelude.{
  ℕ, ◌≤◌, ◌<◌, ◌≡◌, refl, Bool, true, false, Option, none, some, [], ◌∷◌, arith, length,
  length-append, if◌then◌else◌,
}
use cgr101_scpi.Prelude.Fault.{◌>>=◌, ◌>>◌, require}
use cgr101_scpi.Info.{Info, Device, RcvState, Progress, ByteState, AddrState}
use cgr101_scpi.Info.Actions.{send, raise, must_send}
use cgr101_scpi.Device.Capture.{num_sample}
use cgr101_scpi.Device.Handlers.{
  id_max, e_max, rcv_start, rcv_scope_status, rcv_scope_addr, rcv_error_msg, rcv_ident,
}

-- The byte states in which a message is being received.
abbrev pub Expecting : ByteState → Type 0
Expecting ByteState.idle = ⊥
Expecting ByteState.complete = ⊥
Expecting _ = Unit

abbrev pub ExpectingAddr : AddrState → Type 0
ExpectingAddr AddrState.expect_high = Unit
ExpectingAddr AddrState.expect_low = Unit
ExpectingAddr _ = ⊥

-- The part of the state that belongs to the message being received is in a state that its handler
-- knows.
abbrev pub InMessage : RcvState → {F : Type 0} → Device F → Type 0
InMessage RcvState.scope_offset d = Expecting d.scope.offset_state
InMessage RcvState.scope_status d = d.scope.status_state ≡ Progress.pending
InMessage RcvState.scope_addr d = ExpectingAddr d.scope.addr_state
InMessage RcvState.scope_data d = Expecting d.scope.data_state × (d.scope.data_count < num_sample)
InMessage RcvState.scope_read d = ⊥
InMessage _ d = Unit

pub record IsValid {F : Type 0} (d : Device F) : Type 0 where
  pub id_in : length d.device_id ≤ id_max
  pub msg_in : length d.error_msg ≤ e_max
  pub addr_in : d.scope.addr < num_sample
  pub count_in : d.scope.data_count ≤ num_sample
  pub message : InMessage d.rcv_state d

-- A handler that ends normally leaves a valid device.
abbrev pub Keeps : {F : Type 0} → Option (Info F) → Type 0
Keeps none = Unit
Keeps (some i) = IsValid i.device

module _ {F : Type 0} where
  pub if-Keeps :
      (b : Bool) (x y : Option (Info F))
      → (b ≡ true → Keeps x)
      → (b ≡ false → Keeps y)
      → Keeps (if b then x else y)
  if-Keeps true x y k l = k refl
  if-Keeps false x y k l = l refl

  pub require-Keeps :
      (b : Bool) (x : Info F) (f : Info F → Option (Info F))
      → (b ≡ true → Keeps (f x))
      → Keeps ((do require b; some x) >>= f)
  require-Keeps true x f k = k refl
  require-Keeps false x f k = tt

  pub start-IsValid :
      (i : Info F) (b : ℕ)
      → IsValid i.device
      → i.device.rcv_state ≡ RcvState.idle
      → IsValid (rcv_start i b).device
  unfolding rcv_start
  start-IsValid i b v s = ground arith

  pub status-Keeps :
      (i : Info F) (b : ℕ) (st : Progress)
      → IsValid i.device
      → st ≡ i.device.scope.status_state
      → i.device.rcv_state ≡ RcvState.scope_status
      → Keeps (rcv_scope_status i b st)
  unfolding rcv_scope_status send
  status-Keeps i b Progress.pending v e s = ground arith
  status-Keeps i b _ v e s = tt

  pub addr-Keeps :
      (i : Info F) (b : ℕ) (st : AddrState)
      → IsValid i.device
      → i.device.rcv_state ≡ RcvState.scope_addr
      → Keeps (rcv_scope_addr i b st)
  unfolding rcv_scope_addr must_send
  addr-Keeps i b AddrState.expect_high v s = ground arith
  addr-Keeps i b _ v s = ground arith

  pub error-Keeps :
      (i : Info F) (b : ℕ)
      → IsValid i.device
      → i.device.rcv_state ≡ RcvState.error_msg
      → Keeps (rcv_error_msg i b)
  unfolding rcv_error_msg raise
  error-Keeps i b v s = ground (arith, length-append i.device.error_msg (b ∷ []))

  pub ident-Keeps :
      (i : Info F) (b : ℕ)
      → IsValid i.device
      → i.device.rcv_state ≡ RcvState.identify
      → Keeps (rcv_ident i b)
  unfolding rcv_ident send
  ident-Keeps i b v s = ground (arith, length-append i.device.device_id (b ∷ []))
