-- ===== src/Device/Capture.antt =====
-- src/cgr101.c: the scope: its control register, the start of a sweep, and the output of a capture.
pub mod Order
pub mod Control
use Prim.Native.Nat.{bit_or}
use cgr101_scpi.Prelude.{
  ◌≡◌, refl, ap, ◌∙◌, ℕ, zero, suc, ◌+◌, ◌-◌, ◌*◌, ◌/◌, ◌%◌, ◌^◌, Bool, true, false, Option, some,
  List, [], ◌∷◌, leb, ◌&&◌, ◌||◌, if◌then◌else◌, codes,
}
use cgr101_scpi.Prelude.Int.{ℤ, pos, ◌-ℤ◌, leb_ℤ, ltb_ℤ, pos_part}
use cgr101_scpi.Prelude.Fault.{◌>>=◌, ◌>>◌, require}
use cgr101_scpi.Event.{unblock}
use cgr101_scpi.Info.{Info, Scope, ByteState, AddrState, TriggerSource, imm}
use cgr101_scpi.Info.Actions.{
  with_scope, send, device_send, must_send, device_printf, must_printf, print_fp,
}
use cgr101_scpi.Device.Convert.{Chan, chan_a, chan_b, digitizer_value}
use cgr101_scpi.Device.DigitalEvent.{has_bit}
use cgr101_scpi.Platform.{Platform}

-- `SCOPE_NUM_SAMPLE` and `SCOPE_SR_DIV_MAX`
abbrev pub num_sample : ℕ
num_sample = 1024

abbrev pub sr_div_max : ℕ
sr_div_max = 15

abbrev pub bit : Bool → ℕ
bit true = 1
bit false = 0

-- The value of the control register: `ctl`, and four `ctl |= …`.
unfoldable pub control_bits : ℕ → Bool → Bool → Bool → Bool → ℕ
control_bits divisor source polarity external filter =
    let ctl₁ = bit_or divisor (bit source * 2 ^ 4) in
    let ctl₂ = bit_or ctl₁ (bit polarity * 2 ^ 5) in
    let ctl₃ = bit_or ctl₂ (bit external * 2 ^ 6) in bit_or ctl₃ (bit filter * 2 ^ 7)

abbrev pub control_word : {F : Type 0} → Scope F → ℕ
control_word s =
    control_bits s.sample_rate_divisor s.internal_trigger_source s.trigger_polarity
      s.trigger_external s.trigger_filter_disable

abbrev pub complete_addr : AddrState → Bool
complete_addr AddrState.complete = true
complete_addr _ = false

abbrev pub is_imm : TriggerSource → Bool
is_imm imm = true
is_imm _ = false

-- The start of the loop of `cgr101_digitizer_data_output`: the index of sample `j`, from where the
-- capture ended.
abbrev pub sample_index : ℕ → ℕ → ℕ
sample_index addr j =
    if leb num_sample (addr + 1 + j) then addr + 1 + j - num_sample else addr + 1 + j

-- The indices that the loop visits, from round `j` on.
unfoldable pub sample_order : ℕ → ℕ → ℕ → List ℕ
sample_order addr j zero = []
sample_order addr j (suc n) = sample_index addr j ∷ sample_order addr (j + 1) n

require-bind :
    {A : Type 0} {x y : A} (b : Bool) (f : A → Option A)
    → x ≡ y
    → ((do require b; some x) >>= f) ≡ (do require b; f y)
require-bind false f e = refl
require-bind true f e = ap f e

module _ (c : Platform) where
  open c use {F, to_int}

  -- `cgr101_digitizer_update_control`
  unfoldable pub update_control : Info F → Option (Info F)
  update_control i = do
    require (leb i.device.scope.sample_rate_divisor sr_div_max)
    must_printf c i "S R %d\n" (pos (control_word i.device.scope) ∷ [])

  abbrev pub set_external : Info F → Bool → Info F
  set_external i b = with_scope i (record (i.device.scope) { trigger_external = b })

  -- `cgr101_digitizer_manual_trigger`, without its delay.
  unfoldable pub manual_trigger : Info F → Option (Info F)
  unfolding update_control
  manual_trigger i = do
    let external = i.device.scope.trigger_external
    i₁ ← if external then some i else update_control (set_external i true)
    require (leb i₁.device.scope.sample_rate_divisor sr_div_max)
    i₂ ← must_send i₁ (codes "S D 5\n")
    i₃ ← must_send i₂ (codes "S D 4\n")
    if external then some i₃ else update_control (set_external i₃ false)

  -- `SCOPE_NUM_SAMPLE - trigger_ref - trigger_offset`, the samples after the trigger.
  abbrev pub post_trigger : Scope F → ℤ
  post_trigger s = pos num_sample -ℤ to_int s.trigger_ref -ℤ to_int s.trigger_offset

  -- `S C`: the two bytes of the sample count.
  abbrev pub count_args : ℕ → List ℤ
  count_args n = pos (n / 2 ^ 8 % 4) ∷ pos (n % 2 ^ 8) ∷ []

  abbrev pub in_range : ℤ → Bool
  in_range n = leb_ℤ (pos 0) n && ltb_ℤ n (pos num_sample)

  abbrev pub or_stop : Bool × Info F → (Info F → Option (Bool × Info F)) → Option (Bool × Info F)
  or_stop (true, i) f = some (true, i)
  or_stop (false, i) f = f i

  -- What `cgr101_digitizer_start` does once its commands are sent.
  abbrev pub swept : Info F → Info F
  swept i = record i { overlapped = true; sweep_status = true }

  -- `cgr101_digitizer_start`: its `err`, and the state.
  unfoldable pub digitizer_start : Bool → Info F → Option (Bool × Info F)
  digitizer_start manual i =
      if in_range (post_trigger i.device.scope)
      then (do
        sent ← device_printf c i "S C %d %d\n" (count_args (pos_part (post_trigger i.device.scope)))
        or_stop sent λ i₁. do
          i₂ ← update_control i₁
          or_stop (device_send i₂ (codes "S G\n")) λ i₃. do
            i₄ ←
                if is_imm i₃.device.scope.trigger_source || manual
                then manual_trigger i₃
                else some i₃
            some (false, swept i₄))
      else some (true, i)

  -- The inner loop of `cgr101_digitizer_data_output`.
  unfoldable pub print_samples : Chan → List ℕ → Info F → Info F
  print_samples chan [] i = i
  print_samples chan (x ∷ xs) i =
      print_samples chan xs (print_fp c i (digitizer_value c i.device.scope chan x))

  abbrev pub print_channel : Chan → Info F → Info F
  print_channel chan i = print_samples chan (sample_order i.device.scope.addr 0 num_sample) i

  -- One round of the outer loop; a channel that is not in the mask is skipped.
  abbrev pub print_if : Bool → Chan → Info F → Info F
  print_if b chan i = if b then print_channel chan i else i

  -- `cgr101_digitizer_data_output`
  unfoldable pub data_output : ℕ → Info F → Option (Info F)
  data_output mask i = do
    require (complete_addr i.device.scope.addr_state)
    some (print_if (has_bit mask 1) chan_b (print_if (has_bit mask 0) chan_a i))

  -- `cgr101_scope_data_output`
  unfoldable pub scope_data_output : Info F → Option (Info F)
  scope_data_output i = do
    require i.device.scope.output_pending
    i' ← data_output i.device.scope.output_mask i
    some (with_scope i' (record (i'.device.scope) { output_pending = false }))

  -- `cgr101_scope_data_done`
  unfoldable pub scope_data_done : ByteState → Info F → Option (Info F)
  scope_data_done state i = do
    require (complete_addr i.device.scope.addr_state)
    send
        (with_scope (record i { overlapped = false; sweep_status = false })
          (record (i.device.scope) { data_state = state }))
        unblock

  -- `cgr101_digitizer_data_pending`
  unfoldable pub data_pending : ℕ → Info F → Info F
  data_pending mask i =
      with_scope (record i { block_input = true })
        (record (i.device.scope) { output_pending = true; output_mask = mask })

  -- `cgr101_digitizer_dataq`
  unfoldable pub digitizer_dataq : ℕ → Info F → Option (Info F)
  unfolding data_pending data_output
  digitizer_dataq mask i = if i.sweep_status then some (data_pending mask i) else data_output mask i

  -- Printing changes the output alone.
  print_samples-output :
      (chan : Chan) (xs : List ℕ) (i : Info F)
      → print_samples chan xs i ≡ record i { output = (print_samples chan xs i).output }
  unfolding print_samples print_fp
  print_samples-output chan [] i = refl
  print_samples-output chan (x ∷ xs) i =
      print_samples-output chan xs (print_fp c i (digitizer_value c i.device.scope chan x))

  print_if-output :
      (b : Bool) (chan : Chan) (i : Info F)
      → print_if b chan i ≡ record i { output = (print_if b chan i).output }
  print_if-output false chan i = refl
  print_if-output true chan i =
      print_samples-output chan (sample_order i.device.scope.addr 0 num_sample) i

  -- The state with the samples of the selected channels printed.
  abbrev pub printed : ℕ → Info F → Info F
  printed mask i = print_if (has_bit mask 1) chan_b (print_if (has_bit mask 0) chan_a i)

  pub printed-output :
      (mask : ℕ) (i : Info F) → printed mask i ≡ record i { output = (printed mask i).output }
  printed-output mask i =
      print_if-output (has_bit mask 1) chan_b (print_if (has_bit mask 0) chan_a i)
      ∙ ap (λ (x : Info F). record x { output = (printed mask i).output })
          (print_if-output (has_bit mask 0) chan_a i)

  pub data_output-printed :
      (mask : ℕ) (i : Info F)
      → complete_addr i.device.scope.addr_state ≡ true
      → data_output mask i ≡ some (record i { output = (printed mask i).output })
  unfolding data_output
  data_output-printed mask i h = rw h (ap some (printed-output mask i))

  -- The same for the output of a capture that was asked for before it was complete.
  pub scope_data_output-printed :
      (i : Info F)
      → scope_data_output i ≡ (do
        require i.device.scope.output_pending
        require (complete_addr i.device.scope.addr_state)
        some (
            with_scope
              (record i { output = (printed i.device.scope.output_mask i).output })
              (record (i.device.scope) { output_pending = false })))
  unfolding scope_data_output data_output
  scope_data_output-printed i =
      ap (λ r. require i.device.scope.output_pending >> r)
        (require-bind (complete_addr i.device.scope.addr_state)
          (λ x. some (with_scope x (record (x.device.scope) { output_pending = false })))
          (printed-output i.device.scope.output_mask i))
