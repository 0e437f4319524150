-- ===== src/Device/Capture/Order.antt =====
-- src/cgr101.c: the order in which `cgr101_digitizer_data_output` prints the samples.
use cgr101_scpi.Prelude.{
  ℕ, zero, suc, ◌+◌, ◌-◌, ◌≤◌, ◌<◌, ◌≡◌, refl, List, [], ◌∷◌, ◌++◌, arith, ap, ap₂, ◌∙◌,
}
use cgr101_scpi.Device.Capture.{num_sample, sample_index, sample_order}

-- The `n` indices from `k` on.
unfoldable pub upwards : ℕ → ℕ → List ℕ
upwards k zero = []
upwards k (suc n) = k ∷ upwards (k + 1) n

append_order :
    (addr j k m n t : ℕ)
    → t ≡ m + n
    → k ≡ j + m
    → sample_order addr j t ≡ sample_order addr j m ++ sample_order addr k n
unfolding sample_order
append_order addr j k zero n t e h = ap₂ (sample_order addr) (omega arith) (omega arith)
append_order addr j k (suc m) n t e h =
    let e' : t ≡ suc (m + n) = omega arith in
    ap (sample_order addr j) e'
    ∙ ap (λ xs. sample_index addr j ∷ xs)
        (append_order addr (j + 1) k m n (m + n) refl (omega arith))

older :
    (addr n j k : ℕ) → k ≡ addr + 1 + j → k + n ≤ num_sample → sample_order addr j n ≡ upwards k n
unfolding sample_order upwards
older addr zero j k e h = refl
older addr (suc n) j k e h =
    ap₂ (λ x xs. x ∷ xs) (ground arith) (older addr n (j + 1) (k + 1) (omega arith) (omega arith))

newer : (addr n j k : ℕ) → num_sample + k ≡ addr + 1 + j → sample_order addr j n ≡ upwards k n
unfolding sample_order upwards
newer addr zero j k e = refl
newer addr (suc n) j k e =
    ap₂ (λ x xs. x ∷ xs) (ground arith) (newer addr n (j + 1) (k + 1) (omega arith))

-- For an address inside the buffer, the output of a channel visits the samples from the one behind
-- the address to the end of the buffer, then from its start to the address, each once.
pub sample_order-upwards :
    (addr : ℕ)
    → addr < num_sample
    → sample_order addr 0 num_sample
      ≡ upwards (addr + 1) (num_sample - (addr + 1)) ++ upwards 0 (addr + 1)
sample_order-upwards addr h =
    let n = num_sample - (addr + 1) in
    append_order addr 0 n n (addr + 1) num_sample (omega arith) (omega arith)
    ∙ ap₂ (λ xs ys. xs ++ ys) (older addr n 0 (addr + 1) (omega arith) (omega arith))
        (newer addr (addr + 1) n 0 (omega arith))
