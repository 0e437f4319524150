-- ===== src/Core/Status.antt =====
-- src/scpi_core.c: the status byte and the commands that wait.
use Prim.Native.Nat.{bit_and, bit_and-bitwise}
use cgr101_scpi.Prelude.{
  ℕ, ◌+◌, ◌≤◌, ◌≡◌, refl, Bool, true, false, some, List, [], ◌∷◌, ◌++◌, ◌&&◌, if◌then◌else◌, arith,
  ◌∙◌,
}
use cgr101_scpi.Prelude.Int.{ℤ, pos, leb_ℤ}
use mathlib.Core.List.{append_assoc}
use cgr101_scpi.Prelude.Fault.{◌>>=◌}
use cgr101_scpi.ErrorQueue
use cgr101_scpi.ErrorQueue.{count, reset, data_out_of_range}
use cgr101_scpi.Event.{event_code, event_send, output_flush, process_line}
use cgr101_scpi.Info.{Info}
use cgr101_scpi.Info.Actions.{print_int, print, send, raise}
use cgr101_scpi.Input.{ScpiType, Value, input_uint8, input_int}
use cgr101_scpi.Core.{
  is_set, status_bits, summary, status_update, cls, sre, opcq, sreq, unblock_input,
}
use cgr101_scpi.Platform.{Platform}

abbrev pub weight : Bool → ℕ → ℕ
weight b n = if b then n else 0

or_not : (b : Bool) (k m : ℕ) → m ≡ k + 64 → (if b then m else k) ≡ k + weight b 64
or_not true k m e = e
or_not false k m e = omega arith

-- For any four conditions and any enable register, the value that `scpi_core_status_update`
-- returns is the sum of the bits of the conditions that hold, and of the summary bit where one of
-- these bits is enabled.
pub summary-status_bits :
    (erq ques sesr oper : Bool) (srer : ℕ)
    → summary (status_bits erq ques sesr oper) srer
      ≡ weight erq 4
        + weight ques 8
        + weight sesr 32
        + weight oper 128
        + weight
            (is_set
              (bit_and (weight erq 4 + weight ques 8 + weight sesr 32 + weight oper 128) srer))
            64
unfolding summary status_bits
summary-status_bits true true true true srer = or_not _ 172 236 refl
summary-status_bits true true true false srer = or_not _ 44 108 refl
summary-status_bits true true false true srer = or_not _ 140 204 refl
summary-status_bits true true false false srer = or_not _ 12 76 refl
summary-status_bits true false true true srer = or_not _ 164 228 refl
summary-status_bits true false true false srer = or_not _ 36 100 refl
summary-status_bits true false false true srer = or_not _ 132 196 refl
summary-status_bits true false false false srer = or_not _ 4 68 refl
summary-status_bits false true true true srer = or_not _ 168 232 refl
summary-status_bits false true true false srer = or_not _ 40 104 refl
summary-status_bits false true false true srer = or_not _ 136 200 refl
summary-status_bits false true false false srer = or_not _ 8 72 refl
summary-status_bits false false true true srer = or_not _ 160 224 refl
summary-status_bits false false true false srer = or_not _ 32 96 refl
summary-status_bits false false false true srer = or_not _ 128 192 refl
summary-status_bits false false false false srer = or_not _ 0 64 refl

module _ {F : Type 0} where
  -- After `*CLS` the answer to `*STB?` is 0, whatever the enable register holds.
  pub status_update-cls : (i : Info F) → (status_update (cls i)).0 ≡ 0
  unfolding status_update cls count summary status_bits reset
  status_update-cls i =
      summary-status_bits false false false false i.scpi.srer
      ∙ rw (bit_and-bitwise 0 i.scpi.srer) refl

  abbrev pub int_param : ℤ → List ℕ → ScpiType F
  int_param n src = record { val = Value.int n; src = src }

  -- `*SRE` with a number outside a byte changes no register: it raises the error of a parameter out of
  -- range, with the parameter's text as the syndrome.
  pub sre_out_of_range :
      (i : Info F) (n : ℤ) (src : List ℕ)
      → (leb_ℤ (pos 0) n && leb_ℤ n (pos 255)) ≡ false
      → sre i (int_param n src)
        ≡ some (record i { error = ErrorQueue.push i.error data_out_of_range (some src) })
  unfolding sre input_uint8 input_int raise
  sre_out_of_range i n src h = rw h refl

module _ (p : Platform) where
  open p use {F}

  -- For every number of a byte, `*SRE` with it followed by `*SRE?` leaves the output that printing
  -- the number leaves.
  pub sre-sreq :
      (i : Info F) (n : ℕ) (src : List ℕ)
      → n ≤ 255
      → (do i' ← sre i (int_param (pos n) src); some (sreq p i').output)
        ≡ some (print_int p i (pos n)).output
  unfolding sre input_uint8 input_int sreq print_int print
  sre-sreq i n src h =
      let t : (leb_ℤ (pos 0) (pos n) && leb_ℤ (pos n) (pos 255)) ≡ true = ground arith in rw t refl

  abbrev waiting : Info F → Info F
  waiting i = record i { block_input = true; scpi = record (i.scpi) { opcq = true } }

  opcq-waiting : (i : Info F) → i.overlapped ≡ true → opcq p i ≡ waiting i
  unfolding opcq
  opcq-waiting i h = rw h refl

  abbrev released : Info F → Info F
  released i =
      let i' =
        print_int p (record i { block_input = false; scpi = record (i.scpi) { opcq = false } })
          (pos 1) in
      record i' { event = (i.event ++ (8 ∷ [])) ++ (9 ∷ []) }

  -- While an operation runs, `*OPC?` prints nothing and holds the input back; when blocked input
  -- is then released, the input goes on, the answer 1 is printed, and the events follow that send
  -- the output and take the next line.
  unblock-opcq :
      (i : Info F)
      → i.overlapped ≡ true
      → ((opcq p i).block_input ≡ true)
        × ((opcq p i).output ≡ i.output)
        × ((i' : Info F) × (unblock_input p (opcq p i) ≡ some i')
            × (i'.block_input ≡ false)
            × (i'.scpi.opcq ≡ false)
            × (i'.output ≡ (print_int p i (pos 1)).output)
            × (i'.event ≡ i.event ++ (event_code output_flush ∷ event_code process_line ∷ [])))
  unfolding opcq unblock_input send event_send print_int print
  unblock-opcq i h =
      rw (opcq-waiting i h)
        (refl, refl, (released i, refl, refl, refl, refl, append_assoc i.event (8 ∷ []) (9 ∷ [])))
