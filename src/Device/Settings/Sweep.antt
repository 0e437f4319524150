-- ===== src/Device/Settings/Sweep.antt =====
-- src/cgr101.c: which sweep time and which divisor `cgr101_sweep_time` chooses.
use cgr101_scpi.Prelude.{
  ℕ, zero, suc, ◌+◌, ◌≤◌, ◌<◌, ◌≡◌, refl, ap, sym, ◌∙◌, ◌⊎◌, inl, inr, Bool, true, false, Option,
  none, some, arith, Bool-cases, ◌==◌,
}
use cgr101_scpi.Info.{Info}
use cgr101_scpi.Device.Capture.{sr_div_max}
use cgr101_scpi.Device.Settings.{
  min_sweep_time, two, in_interval, find_sweep, choose_sweep, with_sweep, set_sweep,
}
use cgr101_scpi.Platform.{Platform}

module _ (c : Platform) where
  open c use {F, mul}

  -- The shortest sweep time, doubled `k` times.
  unfoldable pub doubled : ℕ → F
  doubled zero = min_sweep_time c
  doubled (suc k) = mul (doubled k) (two c)

  -- No interval before the `d`th has the time.
  abbrev pub NoneBefore : F → ℕ → Type 0
  NoneBefore time d = (k : ℕ) → k < d → in_interval c time (doubled k) ≡ false

  -- The time and the divisor are those of the first interval that has the time, if there is one.
  abbrev pub IsFirst : F → Option (F × ℕ) → Type 0
  IsFirst time none = NoneBefore time (sr_div_max + 1)
  IsFirst time (some r) =
      (r.1 ≤ sr_div_max)
      × (r.0 ≡ doubled r.1)
      × (in_interval c time (doubled r.1) ≡ true)
      × NoneBefore time r.1

  next-NoneBefore :
      (time : F) (d : ℕ)
      → NoneBefore time d
      → in_interval c time (doubled d) ≡ false
      → NoneBefore time (d + 1)
  next-NoneBefore time d before e k h = elim (Bool-cases (k == d)) [
    | inl same ↦ ap (λ j. in_interval c time (doubled j)) (ground arith) ∙ e
    | inr other ↦ before k (ground arith)
  ]

  doubled-succ : (k : ℕ) → doubled (k + 1) ≡ mul (doubled k) (two c)
  unfolding doubled
  doubled-succ k = let e : k + 1 ≡ suc k = omega arith in ap doubled e

  find_sweep-IsFirst :
      (time : F) (n d : ℕ) (start : F)
      → start ≡ doubled d
      → d + n ≡ sr_div_max + 1
      → NoneBefore time d
      → IsFirst time (find_sweep c time n d start)
  unfolding find_sweep
  find_sweep-IsFirst time zero d start s h before = λ k l. before k (omega arith)
  find_sweep-IsFirst time (suc n) d start s h before =
      elim (Bool-cases (in_interval c time start)) [
        | inl e ↦ rw e (omega arith, s, ap (in_interval c time) (sym s) ∙ e, before)
        | inr e ↦ rw e (
            find_sweep-IsFirst time n (d + 1) (mul start (two c))
              (ap (λ x. mul x (two c)) s ∙ sym (doubled-succ d)) (omega arith)
              (next-NoneBefore time d before (ap (in_interval c time) (sym s) ∙ e)))
      ]

  min-doubled : min_sweep_time c ≡ doubled 0
  unfolding doubled
  min-doubled = refl

  -- What is known of `err` and the state of `cgr101_sweep_time`.
  abbrev pub Chosen : Info F → F → Bool × Info F → Type 0
  Chosen i time r =
      ((d : ℕ) × (d ≤ sr_div_max)
        × (in_interval c time (doubled d) ≡ true)
        × NoneBefore time d
        × (r ≡ (false, with_sweep c i (doubled d) d)))
      ⊎ (NoneBefore time (sr_div_max + 1) × (r ≡ (true, i)))

  set_sweep-Chosen :
      (i : Info F) (time : F) (r : Option (F × ℕ))
      → IsFirst time r
      → Chosen i time (set_sweep c i r)
  set_sweep-Chosen i time none first = inr (first, refl)
  set_sweep-Chosen i time (some r) first =
      inl (r.1, first.0, first.2, first.3, ap (λ t. (false, with_sweep c i t r.1)) first.1)

  -- Any time: if one of the 16 intervals that double from the shortest sweep time on has it, the
  -- sweep time and the divisor are set to those of the first such interval, and nothing else is
  -- changed; if none has it, an error is returned and the state is as before.
  pub choose_sweep-first : (i : Info F) (time : F) → Chosen i time (choose_sweep c i time)
  unfolding choose_sweep
  choose_sweep-first i time =
      set_sweep-Chosen i time (find_sweep c time (sr_div_max + 1) 0 (min_sweep_time c)) (
        find_sweep-IsFirst time (sr_div_max + 1) 0 (min_sweep_time c) min-doubled refl
          (λ k l. absurd (omega arith)))
