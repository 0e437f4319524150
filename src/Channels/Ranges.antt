-- ===== src/Channels/Ranges.antt =====
-- src/scpi_dev.c: which channels a range of two channels selects.
use cgr101_scpi.Prelude.{
  ℕ, ◌+◌, ◌-◌, ◌^◌, ◌≤◌, ◌≡◌, ◌≢◌, refl, ap, ap₂, ◌∙◌, Bool, true, false, Option, none, some, List,
  ltb, ◌==◌, if◌then◌else◌, arith, all_below, all_below-get,
}
use cgr101_scpi.Prelude.Int.{pos}
use cgr101_scpi.Prelude.Fault.{◌>>=◌}
use cgr101_scpi.Input.{ScpiType, Value, chan}
use cgr101_scpi.Channels.{channel_num, channel_range, chan_mask, range_mask, set_range, max_chan}

-- The mask of the channels from `a` to `b`, both one based.
abbrev pub between : ℕ → ℕ → ℕ
between a b = 2 ^ b - 2 ^ (a - 1)

-- What a range selects: from the first to the last where it runs downwards, and to the one before
-- the last where it runs upwards.
abbrev pub selected : ℕ → ℕ → ℕ
selected a b = if ltb a b then between a (b - 1) else between b a

abbrev is_same : Option ℕ → ℕ → Bool
is_same none n = false
is_same (some m) n = m == n

same-some : (o : Option ℕ) (n : ℕ) → is_same o n ≡ true → o ≡ some n
same-some none n h = ground arith
same-some (some m) n h = ap some (ground arith)

-- The masks of two channels, counted from 0.
abbrev agree : ℕ → ℕ → Bool
agree a b = if a == b then true else is_same (range_mask (2 ^ a) (2 ^ b)) (selected (a + 1) (b + 1))

all_agree : all_below 7 (λ a. all_below 7 (agree a)) ≡ true
unfolding range_mask set_range
all_agree = refl

range_mask-selected :
    (a b : ℕ)
    → 1 ≤ a
    → a ≤ max_chan
    → 1 ≤ b
    → b ≤ max_chan
    → a ≢ b
    → range_mask (2 ^ (a - 1)) (2 ^ (b - 1)) ≡ some (selected a b)
range_mask-selected a b la ha lb hb n =
    let row : all_below 7 (agree (a - 1)) ≡ true =
      all_below-get 7 (λ x. all_below 7 (agree x)) (a - 1) all_agree (omega arith) in
    let cell : agree (a - 1) (b - 1) ≡ true =
      all_below-get 7 (agree (a - 1)) (b - 1) row (omega arith) in
    let apart : (a - 1 == b - 1) ≡ false = ground arith in
    let here : is_same (range_mask (2 ^ (a - 1)) (2 ^ (b - 1))) (selected (a - 1 + 1) (b - 1 + 1))
        ≡ true =
      rw apart at cell in
    same-some _ _ here ∙ ap₂ (λ x y. some (selected x y)) (omega arith) (omega arith)

module _ {F : Type 0} where
  abbrev pub number : ℕ → List ℕ → ScpiType F
  number n src = record { val = Value.int (pos n); src = src }

  abbrev pub masked : ℕ → List ℕ → ScpiType F
  masked m src = record { val = chan m; src = src }

  channel_range-mask :
      (v₁ v₂ : ℕ) (s t : List ℕ)
      → channel_range (masked v₁ s) (masked v₂ t) ≡ (do m ← range_mask v₁ v₂; some (masked m s))
  unfolding channel_range chan_mask
  channel_range-mask v₁ v₂ s t = refl

  channel_num-chan :
      (n : ℕ) (s : List ℕ)
      → 1 ≤ n
      → n ≤ max_chan
      → channel_num (number n s) ≡ masked (2 ^ (n - 1)) s
  unfolding channel_num
  channel_num-chan n s l h = ground arith

  -- For two different channels from 1 to 7 a range is accepted; one that runs downwards selects
  -- its channels, and one that runs upwards leaves its last channel out.
  pub channel_range-selected :
      (a b : ℕ) (s t : List ℕ)
      → 1 ≤ a
      → a ≤ max_chan
      → 1 ≤ b
      → b ≤ max_chan
      → a ≢ b
      → channel_range (channel_num (number a s)) (channel_num (number b t))
        ≡ some (masked (selected a b) s)
  channel_range-selected a b s t la ha lb hb n =
      ap₂ channel_range (channel_num-chan a s la ha) (channel_num-chan b t lb hb)
      ∙ channel_range-mask (2 ^ (a - 1)) (2 ^ (b - 1)) s t
      ∙ ap (λ o. o >>= λ m. some (masked m s)) (range_mask-selected a b la ha lb hb n)
