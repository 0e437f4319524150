-- ===== src/ErrorQueue/Invariant.antt =====
-- The representation invariant of `struct scpi_errq`, and what the array holds.
use cgr101_scpi.Prelude.{
  ℕ, zero, suc, ◌+◌, ◌-◌, ◌%◌, ◌≤◌, ◌<◌, ◌≡◌, refl, ap, ap₂, List, [], ◌∷◌, ◌++◌, none, arith,
  length, get_or, set, get_or-set_self, get_or-set_ne,
}
use cgr101_scpi.ErrorQueue.{ErrQueue, Entry, blank, errq_size, slot}

-- How far round the array `i` lies from `t`.
abbrev pub distance : ℕ → ℕ → ℕ
distance t i = (i + errq_size - t) % errq_size

-- The number of queued errors.
abbrev pub used : ErrQueue → ℕ
used r = distance r.tail r.head

-- Slots outside the queue hold no syndrome, so `scpi_error` finds NULL where it stores none.
pub record IsValid (r : ErrQueue) : Type 0 where
  pub slots : length r.q ≡ errq_size
  pub head_in : r.head < errq_size
  pub tail_in : r.tail < errq_size
  pub clean : (i : ℕ) → i < errq_size → used r ≤ distance r.tail i → (slot r i).syndrome ≡ none

-- The `n` entries from index `t` on, going round at the end of the array.
module _ (q : List Entry) where
  unfoldable pub window : ℕ → ℕ → List Entry
  window t zero = []
  window t (suc n) = get_or q t blank ∷ window ((t + 1) % errq_size) n

  pub length-window : (t n : ℕ) → length (window t n) ≡ n
  unfolding window
  length-window t zero = refl
  length-window t (suc n) = ap suc (length-window ((t + 1) % errq_size) n)

  pub window_pos :
      (t n : ℕ) → 0 < n → window t n ≡ get_or q t blank ∷ window ((t + 1) % errq_size) (n - 1)
  unfolding window
  window_pos t zero h = absurd (omega arith)
  window_pos t (suc n) h = ap (λ k. window t (suc k)) (omega arith)

-- A write outside the window is not seen in it.
pub window-set_outside :
    (q : List Entry) (i : ℕ) (v : Entry) (t n : ℕ)
    → t < errq_size
    → i < errq_size
    → n ≤ distance t i
    → window (set q i v) t n ≡ window q t n
unfolding window
window-set_outside q i v t zero ht hi h = refl
window-set_outside q i v t (suc n) ht hi h =
    ap₂ ◌∷◌ (get_or-set_ne q i t v blank (omega arith))
      (window-set_outside q i v ((t + 1) % errq_size) n (omega arith) hi (omega arith))

-- A write just past the window extends it.
pub window-set_end :
    (q : List Entry) (i : ℕ) (v : Entry) (t n : ℕ)
    → length q ≡ errq_size
    → t < errq_size
    → i < errq_size
    → n ≡ distance t i
    → window (set q i v) t (suc n) ≡ window q t n ++ (v ∷ [])
unfolding window
window-set_end q i v t zero hq ht hi h =
    let e : i ≡ t = omega arith in
    rw e (ap (λ x. x ∷ []) (get_or-set_self q t v blank (omega arith)))
window-set_end q i v t (suc n) hq ht hi h =
    ap₂ ◌∷◌ (get_or-set_ne q i t v blank (omega arith))
      (window-set_end q i v ((t + 1) % errq_size) n hq (omega arith) hi (omega arith))
