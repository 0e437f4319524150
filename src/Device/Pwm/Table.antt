-- ===== src/Device/Pwm/Table.antt =====
-- src/cgr101.c: which entry of the table `cgr101_pwm_frequency` chooses.
use cgr101_scpi.Prelude.{
  ℕ, suc, ◌+◌, ◌<◌, ◌≡◌, refl, ap, ◌∙◌, Bool, true, false, not, Option, none, some, List, [], ◌∷◌,
  ◌&&◌, arith, Bool-cases, inl, inr, get_elem?, drop, length,
}
use cgr101_scpi.Prelude.Int.{pos}
use cgr101_scpi.Info.{Info}
use cgr101_scpi.Info.Actions.{took, must_printf, must_printf-fits}
use cgr101_scpi.Device.Pwm.{find_freq, pwm_frequency, pwm_freq, put_freq, with_pwm, hertz}
use cgr101_scpi.Platform.{Platform}

module _ (c : Platform) where
  open c use {F, leb, ltb, format}

  abbrev last : F → List F → F
  last f [] = f
  last f (g ∷ gs) = last g gs

  -- The value is at most the `k`th frequency of a table and above the next one, and the loop finds
  -- it there.
  abbrev Found : F → ℕ → List F → Type 0
  Found value idx fs =
      (k : ℕ) × (f : F) × (g : F) × (get_elem? fs k ≡ some f)
      × (get_elem? fs (suc k) ≡ some g)
      × (leb value f ≡ true)
      × (ltb g value ≡ true)
      × (find_freq c value idx fs ≡ (idx + k, some f))

  link-put_freq : (f : Option F) (i : Info F) → i.link ≡ true → (put_freq c f i).link ≡ true
  link-put_freq none i h = h
  link-put_freq (some f) i h = h

  sent :
      (value : F) (i : Info F) (k : ℕ) (f : Option F)
      → find_freq c value 0 (pwm_freq c) ≡ (k, f)
      → length (format "D F %zu\n" (pos k ∷ [])) < 32
      → i.link ≡ true
      → pwm_frequency c value i ≡ some (took (put_freq c f i) (format "D F %zu\n" (pos k ∷ [])))
  unfolding pwm_frequency
  sent value i k f found fits link =
      ap (λ r. must_printf c (put_freq c r.1 i) "D F %zu\n" (pos r.0 ∷ [])) found
      ∙ must_printf-fits c (put_freq c f i) "D F %zu\n" (pos k ∷ []) fits (link-put_freq f i link)

  abbrev all_hertz : List ℕ → List F
  all_hertz [] = []
  all_hertz (n ∷ ns) = hertz c n ∷ all_hertz ns

  and_false : (b : Bool) → (b && false) ≡ false
  and_false true = refl
  and_false false = refl

  skips :
      (value : F) (idx n : ℕ) (ns : List ℕ)
      → ((n : ℕ) → ltb (hertz c n) value ≡ false)
      → find_freq c value idx (all_hertz (n ∷ ns)) ≡ (idx + length ns, none)
  unfolding find_freq
  skips value idx n [] low = ap (λ k. (k, none)) (omega arith)
  skips value idx n (m ∷ ms) low =
      rw (low m, and_false (leb value (hertz c n)))
        (skips value (idx + 1) m ms low ∙ ap (λ k. (k, none)) (omega arith))

  none_below :
      (value : F)
      → ((n : ℕ) → ltb (hertz c n) value ≡ false)
      → find_freq c value 0 (pwm_freq c) ≡ (11, none)
  none_below value low =
      skips value 0 720000
        (360000 ∷ 90000 ∷ 45000 ∷ 11250 ∷ 5640 ∷ 2810 ∷ 1410 ∷ 700 ∷ 350 ∷ 0 ∷ 0 ∷ []) low

  module _ (order : (x y : F) → ltb x y ≡ not (leb y x)) where
    find_freq-Found :
        (value : F) (idx : ℕ) (f : F) (fs : List F)
        → leb value f ≡ true
        → ltb (last f fs) value ≡ true
        → Found value idx (f ∷ fs)
    unfolding find_freq
    find_freq-Found value idx f [] e l = absurd (ground (arith, order f value))
    find_freq-Found value idx f (g ∷ gs) e l = elim (Bool-cases (ltb g value)) [
      | inl above ↦
          (0, f, g, refl, refl, e, above, rw (e, above) (ap (λ k. (k, some f)) (omega arith)))
      | inr below ↦
          let e' : leb value g ≡ true = ground (arith, order g value) in
          let (k, f', g', at, next, lo, hi, found) = find_freq-Found value (idx + 1) g gs e' l in
          (
            suc k,
            f',
            g',
            at,
            next,
            lo,
            hi,
            rw (e, below) (found ∙ ap (λ j. (j, some f')) (omega arith)),
          )
    ]

    -- A frequency above 0 and up to 72 kHz, where comparisons of doubles are those of an order (no
    -- operand is NaN): if its command fits in the buffer and the device takes it, then the table has
    -- an entry that is at least the frequency, with the next entry below it; that entry is stored,
    -- and its index is sent.
    pub pwm_frequency-chosen :
        (value : F) (i : Info F)
        → leb value (hertz c 720000) ≡ true
        → ltb (hertz c 0) value ≡ true
        → ((k : ℕ) → length (format "D F %zu\n" (pos k ∷ [])) < 32)
        → i.link ≡ true
        → (k : ℕ) × (f : F) × (g : F) × (get_elem? (pwm_freq c) k ≡ some f)
          × (get_elem? (pwm_freq c) (suc k) ≡ some g)
          × (leb value f ≡ true)
          × (ltb g value ≡ true)
          × (pwm_frequency c value i
              ≡ some (
                  took
                    (with_pwm c i (record (i.device.pwm) { frequency = f }))
                    (format "D F %zu\n" (pos k ∷ []))))
    pwm_frequency-chosen value i top bottom fits link =
        let (k, f, g, at, next, lo, hi, found) =
          find_freq-Found value 0 (hertz c 720000) (drop 1 (pwm_freq c)) top bottom in
        let found' : find_freq c value 0 (pwm_freq c) ≡ (k, some f) =
          found ∙ ap (λ j. (j, some f)) (omega arith) in
        (k, f, g, at, next, lo, hi, sent value i k (some f) found' (fits k) link)

  -- A frequency that no entry is below, as 0 Hz: if the command fits in the buffer and the device
  -- takes it, index 11, behind the last entry, is sent, and the stored frequency is the one before.
  pwm_frequency_zero :
      (value : F) (i : Info F)
      → ((n : ℕ) → ltb (hertz c n) value ≡ false)
      → length (format "D F %zu\n" (pos 11 ∷ [])) < 32
      → i.link ≡ true
      → pwm_frequency c value i ≡ some (took i (format "D F %zu\n" (pos 11 ∷ [])))
  pwm_frequency_zero value i low fits link = sent value i 11 none (none_below value low) fits link
