-- ===== src/Device/Receive/Bytes.antt =====
-- src/cgr101.c: the bytes of the `D` message, which carries the samples of a sweep, one at a time.
use cgr101_scpi.Prelude.{
  ℕ, zero, suc, ◌+◌, ◌*◌, ◌/◌, ◌%◌, ◌≤◌, ◌<◌, ◌≡◌, Bool-cases, inl, inr, refl, true, false, Option,
  none, some, List, [], ◌∷◌, arith, ◌==◌, if◌then◌else◌, ◌∙◌,
}
use cgr101_scpi.Prelude.Fault.{◌>>=◌}
use cgr101_scpi.Info.{Info, RcvState, ByteState}
use cgr101_scpi.Device.Capture.{num_sample, scope_data_output, scope_data_done}
use cgr101_scpi.Device.Handlers.{rcv_idle}
use cgr101_scpi.Platform.{Platform}

-- The bytes of the samples from `k` on, `n` of each channel: the high byte first.
unfoldable pub sample_bytes : (ℕ → ℕ) → (ℕ → ℕ) → ℕ → ℕ → List ℕ
sample_bytes fa fb k zero = []
sample_bytes fa fb k (suc n) =
    fa k / 256 ∷ fa k % 256 ∷ fb k / 256 ∷ fb k % 256 ∷ sample_bytes fa fb (k + 1) n

-- The `D` message with the samples.
abbrev pub data_message : (ℕ → ℕ) → (ℕ → ℕ) → List ℕ
data_message fa fb = b'D' ∷ sample_bytes fa fb 0 num_sample

-- What the bytes of sample `k` make of the samples stored so far.
abbrev pub put_high : (ℕ → ℕ) → ℕ → ℕ → ℕ → ℕ
put_high s k c j = if j == k then (if true then c * 256 else s k + c) else s j

abbrev pub put_low : (ℕ → ℕ) → ℕ → ℕ → ℕ → ℕ
put_low s k c j = if j == k then (if false then c * 256 else s k + c) else s j

abbrev pub with_sample : (ℕ → ℕ) → (ℕ → ℕ) → ℕ → ℕ → ℕ
with_sample s f k = put_low (put_high s k (f k / 256)) k (f k % 256)

unfoldable pub with_samples : (ℕ → ℕ) → (ℕ → ℕ) → ℕ → ℕ → ℕ → ℕ
with_samples s f k zero = s
with_samples s f k (suc n) = with_samples (with_sample s f k) f (k + 1) n

with_samples-before : (s f : ℕ → ℕ) (n k j : ℕ) → j < k → with_samples s f k n j ≡ s j
unfolding with_samples
with_samples-before s f zero k j h = refl
with_samples-before s f (suc n) k j h =
    with_samples-before (with_sample s f k) f n (k + 1) j (omega arith) ∙ ground arith

pub with_samples-stored :
    (s f : ℕ → ℕ) (n k j : ℕ) → k ≤ j → j < k + n → with_samples s f k n j ≡ f j
unfolding with_samples
with_samples-stored s f zero k j l h = absurd (omega arith)
with_samples-stored s f (suc n) k j l h = elim (Bool-cases (k == j)) [
  | inl e ↦ with_samples-before (with_sample s f k) f n (k + 1) j (ground arith) ∙ ground arith
  | inr e ↦ with_samples-stored (with_sample s f k) f n (k + 1) j (ground arith) (omega arith)
]

module _ {F : Type 0} where
  -- The state in which sample `k` is expected.
  abbrev pub at_sample : Info F → ByteState → (ℕ → ℕ) → (ℕ → ℕ) → ℕ → Info F
  at_sample i state sa sb k =
      let s = i.device.scope in
      record i {
        device = record (i.device) {
          rcv_state = RcvState.scope_data;
          scope = record s {
            data_state = state;
            data_count = k;
            channel_a = record (s.channel_a) { samples = sa };
            channel_b = record (s.channel_b) { samples = sb };
          };
        };
      }

pub bind-some : {A : Type 0} (m : Option A) → (m >>= λ x. some x) ≡ m
bind-some none = refl
bind-some (some x) = refl

module _ (p : Platform) where
  open p use {F}

  abbrev pub finish : Info F → Option (Info F)
  finish i = do
    i₂ ← if i.device.scope.output_pending then scope_data_output p i else some i
    i₃ ← scope_data_done p ByteState.complete i₂
    some (rcv_idle i₃)
