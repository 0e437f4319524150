-- ===== src/Device/Waveform/Names.antt =====
-- src/cgr101.c: a waveform that is chosen by its name, and the query of the name.
use cgr101_scpi.Prelude.{
  ◌<◌, ◌≡◌, refl, ap, ◌∙◌, true, false, Option, none, some, List, [], ◌∷◌, ◌++◌, length, arith,
  codes,
}
use cgr101_scpi.Info.{
  Info, WaveformShape, shape_none, shape_rand, shape_sin, shape_squ, shape_tri, shape_user,
}
use cgr101_scpi.Info.Actions.{print}
use cgr101_scpi.Output.{Text}
use cgr101_scpi.Device.Waveform.{
  find_shape, waveform_lookup, find_name, waveform_name, waveform_create, waveform_program, filled,
  program_user, waveform_function, waveform_functionq, is_none, is_rand,
}
use cgr101_scpi.Device.Waveform.Program.{Sendable, commands, program_user-written}
use mathlib.Core.Path.{subst}
use cgr101_scpi.Platform.{Platform}

-- The names of the table.
abbrev pub shape_name : WaveformShape → Text
shape_name shape_none = codes "NONE"
shape_name shape_rand = codes "RAND"
shape_name shape_sin = codes "SIN"
shape_name shape_squ = codes "SQU"
shape_name shape_tri = codes "TRI"
shape_name shape_user = codes "USER"

name-shape : (shape : WaveformShape) → waveform_name shape ≡ some (shape_name shape)
unfolding waveform_name find_name
name-shape shape_none = refl
name-shape shape_rand = refl
name-shape shape_sin = refl
name-shape shape_squ = refl
name-shape shape_tri = refl
name-shape shape_user = refl

module _ (c : Platform) where
  open c use {F, format, same_text}

  -- The text that a shape is looked up from is its name, but for the case of its letters.
  lookup-name :
      (value : Text) (shape : WaveformShape)
      → waveform_lookup c value ≡ some shape
      → same_text value (shape_name shape) ≡ true
  unfolding waveform_lookup find_shape
  lookup-name value shape_none e = ground arith
  lookup-name value shape_rand e = ground arith
  lookup-name value shape_sin e = ground arith
  lookup-name value shape_squ e = ground arith
  lookup-name value shape_tri e = ground arith
  lookup-name value shape_user e = ground arith

  -- What is made of a shape that is drawn: the shape is stored, and nothing is sent.
  abbrev Created : WaveformShape → Info F → Option (Info F) → Type 0
  Created shape i none = Unit
  Created shape i (some j) =
      (j.device.waveform.shape ≡ shape) × (j.link ≡ i.link) × (j.written ≡ i.written)

  filled-Created :
      (shape : WaveformShape) (ys : Option (List F)) (i : Info F)
      → Created shape i (filled c shape ys i)
  filled-Created shape none i = tt
  filled-Created shape (some ys) i = (refl, refl, refl)

  create-Created :
      (shape : WaveformShape) (i : Info F) → Created shape i (waveform_create c shape i)
  unfolding waveform_create
  create-Created shape_sin i = filled-Created shape_sin _ i
  create-Created shape_squ i = filled-Created shape_squ _ i
  create-Created shape_tri i = filled-Created shape_tri _ i
  create-Created shape_user i = tt
  create-Created shape_none i = (refl, refl, refl)
  create-Created shape_rand i = (refl, refl, refl)

  -- A shape that the device is given point by point.
  abbrev pub Drawn : WaveformShape → Type 0
  Drawn shape_none = ⊥
  Drawn shape_rand = ⊥
  Drawn _ = Unit

  tests_of_points :
      (shape : WaveformShape) → Drawn shape → (is_none shape ≡ false) × (is_rand shape ≡ false)
  tests_of_points shape_none d = absurd d
  tests_of_points shape_rand d = absurd d
  tests_of_points shape_sin d = (refl, refl)
  tests_of_points shape_squ d = (refl, refl)
  tests_of_points shape_tri d = (refl, refl)
  tests_of_points shape_user d = (refl, refl)

  program_points :
      (shape : WaveformShape) (j : Info F)
      → Drawn shape
      → j.device.waveform.shape ≡ shape
      → waveform_program c j ≡ program_user c j
  unfolding waveform_program
  program_points shape j d e = rw (e, (tests_of_points shape d).1) refl

  created :
      (shape : WaveformShape) (i j : Info F)
      → waveform_create c shape i ≡ some j
      → Created shape i (some j)
  created shape i j e = subst (Created shape i) e (create-Created shape i)

  -- A text that names a shape of 256 points which can be made, where each point converts to a byte,
  -- the commands fit in the buffer and the device takes them: one command for each point is sent,
  -- in order and with its index, then the command that starts the waveform; and the query of the
  -- function answers the name of the table that the text matches.
  pub waveform_function-query :
      (value : Text) (shape : WaveformShape) (i j : Info F)
      → waveform_lookup c value ≡ some shape
      → Drawn shape
      → waveform_create c shape i ≡ some j
      → Sendable c 0 j.device.waveform.user
      → length (format "W P\n" []) < 32
      → i.link ≡ true
      → (i' : Info F) × (waveform_function c value i ≡ some i')
        × (i'.written
            ≡ i.written ++ commands c 0 j.device.waveform.user ++ (format "W P\n" [] ∷ []))
        × (same_text value (shape_name shape) ≡ true)
        × (waveform_functionq c i' ≡ some (print i' (shape_name shape)))
  unfolding waveform_function waveform_functionq
  waveform_function-query value shape i j e d made s fits link =
      let (of_shape, linked, unsent) = created shape i j made in
      let (i', done, written, same) = program_user-written c j s fits (linked ∙ link) in
      let named =
        ap (λ w. waveform_name w.shape) same ∙ ap waveform_name of_shape ∙ name-shape shape in
      (
        i',
        rw (e, (tests_of_points shape d).0, made) (program_points shape j d of_shape ∙ done),
        written
            ∙ ap (λ ts. ts ++ commands c 0 j.device.waveform.user ++ (format "W P\n" [] ∷ []))
                unsent,
        lookup-name value shape e,
        rw named refl,
      )
