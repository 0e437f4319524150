-- ===== src/Device/Receive/Samples.antt =====
-- src/cgr101.c: the `D` message as a whole.
use cgr101_scpi.Prelude.{
  ◌++◌, ℕ, zero, suc, ◌+◌, ◌/◌, ◌%◌, ◌<◌, ◌≡◌, refl, Bool, true, false, some, List, [], ◌∷◌, arith,
  ltb, ◌==◌, if◌then◌else◌, ◌∙◌,
}
use cgr101_scpi.Event.{unblock, event_code, event_send}
use cgr101_scpi.Info.{Info, RcvState, ByteState}
use cgr101_scpi.Info.Actions.{with_scope, send}
use cgr101_scpi.Device.DigitalEvent.{Clock}
use cgr101_scpi.Device.Capture.{
  num_sample, complete_addr, scope_data_output-printed, scope_data_done, printed,
}
use cgr101_scpi.Device.Handlers.{rcv_scope_data_chan, rcv_start}
use cgr101_scpi.Device.Receive.{rcv_scope_data, rcv_sm, rcv_data}
use cgr101_scpi.Platform.{Platform}
use cgr101_scpi.Device.Receive.Bytes.{
  sample_bytes, data_message, put_high, put_low, with_sample, with_samples, with_samples-stored,
  at_sample, bind-some, finish,
}

module _ (p : Platform) where
  open p use {F}

  abbrev four_bytes : (ℕ → ℕ) → (ℕ → ℕ) → ℕ → List ℕ → List ℕ
  four_bytes fa fb k rest = fa k / 256 ∷ fa k % 256 ∷ fb k / 256 ∷ fb k % 256 ∷ rest

  byte_a_high :
      (now : Clock) (c : ℕ) (rest : List ℕ) (i : Info F) (sa sb : ℕ → ℕ) (k : ℕ)
      → k < num_sample
      → rcv_data p now (c ∷ rest) (at_sample i ByteState.expect_a_high sa sb k)
        ≡ rcv_data p now rest (at_sample i ByteState.expect_a_low (put_high sa k c) sb k)
  unfolding rcv_data rcv_sm rcv_scope_data rcv_scope_data_chan
  byte_a_high now c rest i sa sb k h = let t : ltb k num_sample ≡ true = ground arith in rw t refl

  byte_a_low :
      (now : Clock) (c : ℕ) (rest : List ℕ) (i : Info F) (sa sb : ℕ → ℕ) (k : ℕ)
      → k < num_sample
      → rcv_data p now (c ∷ rest) (at_sample i ByteState.expect_a_low sa sb k)
        ≡ rcv_data p now rest (at_sample i ByteState.expect_b_high (put_low sa k c) sb k)
  unfolding rcv_data rcv_sm rcv_scope_data rcv_scope_data_chan
  byte_a_low now c rest i sa sb k h = let t : ltb k num_sample ≡ true = ground arith in rw t refl

  byte_b_high :
      (now : Clock) (c : ℕ) (rest : List ℕ) (i : Info F) (sa sb : ℕ → ℕ) (k : ℕ)
      → k < num_sample
      → rcv_data p now (c ∷ rest) (at_sample i ByteState.expect_b_high sa sb k)
        ≡ rcv_data p now rest (at_sample i ByteState.expect_b_low sa (put_high sb k c) k)
  unfolding rcv_data rcv_sm rcv_scope_data rcv_scope_data_chan
  byte_b_high now c rest i sa sb k h = let t : ltb k num_sample ≡ true = ground arith in rw t refl

  byte_b_low :
      (now : Clock) (c : ℕ) (rest : List ℕ) (i : Info F) (sa sb : ℕ → ℕ) (k : ℕ)
      → k + 1 < num_sample
      → rcv_data p now (c ∷ rest) (at_sample i ByteState.expect_b_low sa sb k)
        ≡ rcv_data p now rest (at_sample i ByteState.expect_a_high sa (put_low sb k c) (k + 1))
  unfolding rcv_data rcv_sm rcv_scope_data rcv_scope_data_chan
  byte_b_low now c rest i sa sb k h =
      let t : ltb k num_sample ≡ true = ground arith in
      let u : (k + 1 == num_sample) ≡ false = ground arith in rw t (rw u refl)

  last_byte :
      (now : Clock) (c : ℕ) (i : Info F) (sa sb : ℕ → ℕ) (k : ℕ)
      → k + 1 ≡ num_sample
      → rcv_data p now (c ∷ []) (at_sample i ByteState.expect_b_low sa sb k)
        ≡ finish p (at_sample i ByteState.expect_b_low sa (put_low sb k c) (k + 1))
  unfolding rcv_data rcv_sm rcv_scope_data rcv_scope_data_chan
  last_byte now c i sa sb k h =
      let t : ltb k num_sample ≡ true = ground arith in
      let u : (k + 1 == num_sample) ≡ true = ground arith in rw t (rw u (bind-some _))

  next_sample :
      (now : Clock) (fa fb : ℕ → ℕ) (rest : List ℕ) (i : Info F) (sa sb : ℕ → ℕ) (k : ℕ)
      → k + 1 < num_sample
      → rcv_data p now (four_bytes fa fb k rest) (at_sample i ByteState.expect_a_high sa sb k)
        ≡ rcv_data p now rest (
            at_sample i ByteState.expect_a_high (with_sample sa fa k) (with_sample sb fb k) (k + 1))
  next_sample now fa fb rest i sa sb k h =
      byte_a_high now _ _ i sa sb k (omega arith)
      ∙ byte_a_low now _ _ i _ sb k (omega arith)
      ∙ byte_b_high now _ _ i _ sb k (omega arith)
      ∙ byte_b_low now _ _ i _ _ k h

  last_sample :
      (now : Clock) (fa fb : ℕ → ℕ) (i : Info F) (sa sb : ℕ → ℕ) (k : ℕ)
      → k + 1 ≡ num_sample
      → rcv_data p now (four_bytes fa fb k []) (at_sample i ByteState.expect_a_high sa sb k)
        ≡ finish p
            (at_sample i ByteState.expect_b_low (with_sample sa fa k) (with_sample sb fb k) (k + 1))
  last_sample now fa fb i sa sb k h =
      byte_a_high now _ _ i sa sb k (omega arith)
      ∙ byte_a_low now _ _ i _ sb k (omega arith)
      ∙ byte_b_high now _ _ i _ sb k (omega arith)
      ∙ last_byte now _ i _ _ k h

  -- The bytes of the rest of a sweep store them all.
  all_samples :
      (now : Clock) (fa fb : ℕ → ℕ) (n : ℕ) (i : Info F) (sa sb : ℕ → ℕ) (k : ℕ)
      → k + suc n ≡ num_sample
      → rcv_data p now (sample_bytes fa fb k (suc n)) (at_sample i ByteState.expect_a_high sa sb k)
        ≡ finish p (
            at_sample i ByteState.expect_b_low
              (with_samples sa fa k (suc n))
              (with_samples sb fb k (suc n))
              num_sample)
  unfolding sample_bytes with_samples
  all_samples now fa fb zero i sa sb k h = last_sample now fa fb i sa sb k h ∙ rw h refl
  all_samples now fa fb (suc n) i sa sb k h =
      next_sample now fa fb _ i sa sb k (omega arith)
      ∙ all_samples now fa fb n i (with_sample sa fa k) (with_sample sb fb k) (k + 1) (omega arith)

  -- The state after the whole message.
  abbrev sweep_done : Info F → (ℕ → ℕ) → (ℕ → ℕ) → Info F
  sweep_done i sa sb =
      let captured = at_sample i ByteState.expect_b_low sa sb num_sample in
      let s = captured.device.scope in
      record captured {
        overlapped = false;
        sweep_status = false;
        output = if s.output_pending then (printed p s.output_mask captured).output else i.output;
        event = i.event ++ (event_code unblock ∷ []);
        device = record (captured.device) {
          rcv_state = RcvState.idle;
          scope = record s { data_state = ByteState.complete; output_pending = false };
        };
      }

  abbrev asked : Info F → Bool → Info F
  asked i b = with_scope i (record (i.device.scope) { output_pending = b })

  finish-done :
      (i : Info F) (sa sb : ℕ → ℕ) (b : Bool)
      → complete_addr i.device.scope.addr_state ≡ true
      → finish p (at_sample (asked i b) ByteState.expect_b_low sa sb num_sample)
        ≡ some (sweep_done (asked i b) sa sb)
  unfolding scope_data_done send event_send
  finish-done i sa sb true h = rw (scope_data_output-printed p) (rw h (rw h refl))
  finish-done i sa sb false h = rw h refl

  start_data_lem :
      (now : Clock) (rest : List ℕ) (i : Info F)
      → i.device.rcv_state ≡ RcvState.idle
      → rcv_data p now (b'D' ∷ rest) i
        ≡ rcv_data p now rest (
            at_sample i ByteState.expect_a_high i.device.scope.channel_a.samples
              i.device.scope.channel_b.samples 0)
  unfolding rcv_data rcv_sm rcv_start
  start_data_lem now rest i s = rw s refl

  rcv_message :
      (now : Clock) (fa fb : ℕ → ℕ) (i : Info F)
      → i.device.rcv_state ≡ RcvState.idle
      → complete_addr i.device.scope.addr_state ≡ true
      → rcv_data p now (data_message fa fb) i
        ≡ some (
            sweep_done i
              (with_samples i.device.scope.channel_a.samples fa 0 num_sample)
              (with_samples i.device.scope.channel_b.samples fb 0 num_sample))
  rcv_message now fa fb i s h =
      let sa = i.device.scope.channel_a.samples in
      let sb = i.device.scope.channel_b.samples in
      start_data_lem now (sample_bytes fa fb 0 num_sample) i s
      ∙ all_samples now fa fb 1023 i sa sb 0 refl
      ∙ finish-done i _ _ i.device.scope.output_pending h

  -- A `D` message that arrives in the idle state, once the scope's address is complete: it is
  -- handled, sample `j` of each channel is then the number that the message carries for it, the
  -- high byte first, the receiver is idle, the sweep is over, no output waits for the data any
  -- more, and the event that unblocks the input is sent.
  pub rcv_samples :
      (now : Clock) (fa fb : ℕ → ℕ) (i : Info F) (j : ℕ)
      → i.device.rcv_state ≡ RcvState.idle
      → complete_addr i.device.scope.addr_state ≡ true
      → j < num_sample
      → (i' : Info F) × (rcv_data p now (data_message fa fb) i ≡ some i')
        × (i'.device.scope.channel_a.samples j ≡ fa j)
        × (i'.device.scope.channel_b.samples j ≡ fb j)
        × (i'.device.rcv_state ≡ RcvState.idle)
        × (i'.sweep_status ≡ false)
        × (i'.device.scope.output_pending ≡ false)
        × (i'.event ≡ i.event ++ (event_code unblock ∷ []))
  rcv_samples now fa fb i j s h l = (
    _,
    rcv_message now fa fb i s h,
    with_samples-stored _ fa num_sample 0 j (omega arith) l,
    with_samples-stored _ fb num_sample 0 j (omega arith) l,
    refl,
    refl,
    refl,
    refl,
  )
