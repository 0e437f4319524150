-- ===== src/Device/Waveform/Program.antt =====
-- src/cgr101.c: what `cgr101_waveform_program` and `cgr101_source_waveform_frequency` send.
use cgr101_scpi.Prelude.{
  Bool, ◌&&◌, ltb, ℕ, ◌+◌, ◌<◌, ◌≡◌, refl, ap, sym, ◌∙◌, true, some, List, [], ◌∷◌, ◌++◌, arith,
  length,
}
use cgr101_scpi.Prelude.Int.{pos, leb_ℤ}
use cgr101_scpi.Info.{Info}
use cgr101_scpi.Info.Actions.{took, must_printf-fits}
use cgr101_scpi.Output.{Text}
use cgr101_scpi.Device.Waveform.{program_from, program_user, waveform_conv}
use mathlib.Core.List.{append_assoc, append-nil}
use cgr101_scpi.Platform.{Platform}

module _ (c : Platform) where
  open c use {F, format}

  abbrev pub point_text : ℕ → F → Text
  point_text k x = format "W S %zu %d\n" (pos k ∷ waveform_conv c x ∷ [])

  -- One command for each point, numbered from `k` on.
  abbrev pub commands : ℕ → List F → List Text
  commands k [] = []
  commands k (x ∷ xs) = point_text k x ∷ commands (k + 1) xs

  -- Each point converts to a byte, and its command fits in the buffer.
  abbrev pub Sendable : ℕ → List F → Type 0
  Sendable k [] = Unit
  Sendable k (x ∷ xs) =
      (leb_ℤ (pos 0) (waveform_conv c x) ≡ true)
      × (leb_ℤ (waveform_conv c x) (pos 255) ≡ true)
      × (length (point_text k x) < 32)
      × Sendable (k + 1) xs

  -- The same as a test.
  abbrev pub sendable : ℕ → List F → Bool
  sendable k [] = true
  sendable k (x ∷ xs) =
      leb_ℤ (pos 0) (waveform_conv c x)
      && leb_ℤ (waveform_conv c x) (pos 255)
      && ltb (length (point_text k x)) 32
      && sendable (k + 1) xs

  pub sendable-Sendable : (k : ℕ) (xs : List F) → sendable k xs ≡ true → Sendable k xs
  sendable-Sendable k [] e = tt
  sendable-Sendable k (x ∷ xs) e =
      let rest : sendable (k + 1) xs ≡ true = ground arith in
      let fits : length (point_text k x) < 32 = ground arith in
      (ground arith, ground arith, fits, sendable-Sendable (k + 1) xs rest)

  program_from-written :
      (k : ℕ) (xs : List F) (i : Info F)
      → Sendable k xs
      → i.link ≡ true
      → (i' : Info F) × (program_from c k xs i ≡ some i')
        × (i'.written ≡ i.written ++ commands k xs)
        × (i'.link ≡ true)
        × (i'.device.waveform ≡ i.device.waveform)
  unfolding program_from
  program_from-written k [] i s link = (i, refl, sym (append-nil i.written), link, refl)
  program_from-written k (x ∷ xs) i s link =
      let (i', e, written, link', same) =
        program_from-written (k + 1) xs (took i (point_text k x)) s.3 link in
      (
        i',
        rw (s.0, s.1)
            (rw (must_printf-fits c i "W S %zu %d\n" (pos k ∷ waveform_conv c x ∷ []) s.2 link) e),
        written ∙ append_assoc i.written (point_text k x ∷ []) _,
        link',
        same,
      )

  -- Each point of the waveform converts to a byte, the commands fit in the buffer, and the device
  -- takes them: what is sent is one command for each point, in order and with its index, and then
  -- the command that starts the waveform.
  pub program_user-written :
      (i : Info F)
      → Sendable 0 i.device.waveform.user
      → length (format "W P\n" []) < 32
      → i.link ≡ true
      → (i' : Info F) × (program_user c i ≡ some i')
        × (i'.written ≡ i.written ++ commands 0 i.device.waveform.user ++ (format "W P\n" [] ∷ []))
        × (i'.device.waveform ≡ i.device.waveform)
  unfolding program_user
  program_user-written i s fits link =
      let (i', e, written, link', same) = program_from-written 0 i.device.waveform.user i s link in
      (
        took i' (format "W P\n" []),
        rw e (must_printf-fits c i' "W P\n" [] fits link'),
        ap (λ ts. ts ++ (format "W P\n" [] ∷ [])) written,
        same,
      )
