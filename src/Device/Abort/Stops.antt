-- ===== src/Device/Abort/Stops.antt =====
-- src/cgr101.c: what `cgr101_abort` leaves.
use cgr101_scpi.Prelude.{
  ℕ, List, [], ◌∷◌, ◌++◌, if◌then◌else◌, ◌≡◌, refl, sym, Bool, true, false, none, some, ◌⊎◌, inl,
  inr, Bool-cases,
}
use cgr101_scpi.Info.{Info, AddrState, RcvState}
use cgr101_scpi.Info.Actions.{send}
use cgr101_scpi.Event.{event_send, event_code, unblock}
use cgr101_scpi.Device.Capture.{complete_addr, scope_data_done}
use cgr101_scpi.Device.DigitalEvent.{Clock, digital_event_done}
use cgr101_scpi.Device.Abort.{abort}
use cgr101_scpi.Device.Receive.{rcv_data, rcv_sm, rcv_scope_data}
use mathlib.Core.List.{append_assoc, append-nil}
use cgr101_scpi.Platform.{Platform}

module _ (c : Platform) where
  open c use {F}

  abbrev unblocks : Bool → List ℕ
  unblocks b = if b then event_code unblock ∷ [] else []

  -- What an abort does: where it cannot end the sweep, since no address of the capture has come, an
  -- assertion fails; otherwise no sweep and no digital event is under way behind it, and an event
  -- that unblocks the input is sent for each of the two that was.
  pub abort-stops :
      (i : Info F)
      → (abort c i ≡ none)
          × (i.sweep_status ≡ true)
          × (complete_addr i.device.scope.addr_state ≡ false)
        ⊎ ((i' : Info F) × (abort c i ≡ some i')
            × (i'.sweep_status ≡ false)
            × (i'.digital_event_status ≡ false)
            × (i'.event ≡ i.event ++ (unblocks i.sweep_status ++ unblocks i.digital_event_status)))
  unfolding abort scope_data_done digital_event_done send event_send
  abort-stops i = elim (Bool-cases i.sweep_status) [
    | inl s ↦ elim (Bool-cases (complete_addr i.device.scope.addr_state)) [
      | inl a ↦ elim (Bool-cases i.digital_event_status) [
        | inl d ↦ rw (s, a, d) (inr (_, refl, refl, refl, append_assoc i.event (7 ∷ []) (7 ∷ [])))
        | inr d ↦ rw (s, a, d) (inr (_, refl, refl, refl, refl))
      ]
      | inr a ↦ rw (s, a) (inl (refl, refl, refl))
    ]
    | inr s ↦ elim (Bool-cases i.digital_event_status) [
      | inl d ↦ rw (s, d) (inr (_, refl, refl, refl, refl))
      | inr d ↦ rw (s, d) (inr (_, refl, refl, refl, sym (append-nil _)))
    ]
  ]

  -- An abort while the samples of a capture arrive: it ends the sweep, and the next byte of the
  -- capture is a fault, since the receiver still expects it and has no state for it.
  pub abort_in_data :
      (now : Clock) (byte : ℕ) (i : Info F)
      → i.sweep_status ≡ true
      → i.device.scope.addr_state ≡ AddrState.complete
      → i.device.rcv_state ≡ RcvState.scope_data
      → (i' : Info F) × (abort c i ≡ some i')
        × (i'.sweep_status ≡ false)
        × (rcv_data c now (byte ∷ []) i' ≡ none)
  unfolding abort scope_data_done digital_event_done send event_send rcv_data rcv_sm rcv_scope_data
  abort_in_data now byte i s a r = elim (Bool-cases i.digital_event_status) [
    | inl d ↦ rw (s, a, r, d) (_, refl, refl, refl)
    | inr d ↦ rw (s, a, r, d) (_, refl, refl, refl)
  ]
