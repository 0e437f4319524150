-- ===== src/Device/Capture/Control.antt =====
-- src/cgr101.c: the control register that `cgr101_digitizer_update_control` sends.
use cgr101_scpi.Prelude.{
  ℕ, ◌+◌, ◌*◌, ◌≤◌, ◌≡◌, refl, Bool, true, false, ◌==◌, arith, all_below, all_below-get,
}
use cgr101_scpi.Device.Capture.{bit, control_bits, sr_div_max}

abbrev fields : Bool → Bool → Bool → Bool → ℕ → ℕ
fields source polarity external filter divisor =
    divisor + 16 * bit source + 32 * bit polarity + 64 * bit external + 128 * bit filter

abbrev agree : Bool → Bool → Bool → Bool → ℕ → Bool
agree s p e f d = control_bits d s p e f == fields s p e f d

all_agree : (s p e f : Bool) → all_below 16 (agree s p e f) ≡ true
unfolding control_bits
all_agree true true true true = refl
all_agree true true true false = refl
all_agree true true false true = refl
all_agree true true false false = refl
all_agree true false true true = refl
all_agree true false true false = refl
all_agree true false false true = refl
all_agree true false false false = refl
all_agree false true true true = refl
all_agree false true true false = refl
all_agree false true false true = refl
all_agree false true false false = refl
all_agree false false true true = refl
all_agree false false true false = refl
all_agree false false false true = refl
all_agree false false false false = refl

-- With a divisor of at most 15 the control register is the sum of its fields, so that no field
-- changes another: the divisor in bits 0 to 3, then the trigger source, the polarity, the external
-- trigger and the filter.
control_bits-fields :
    (divisor : ℕ) (source polarity external filter : Bool)
    → divisor ≤ sr_div_max
    → control_bits divisor source polarity external filter
      ≡ divisor + 16 * bit source + 32 * bit polarity + 64 * bit external + 128 * bit filter
control_bits-fields d s p e f h =
    let t : agree s p e f d ≡ true =
      all_below-get 16 (agree s p e f) d (all_agree s p e f) (omega arith) in
    ground arith
