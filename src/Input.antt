-- ===== src/Input.antt =====
-- src/scpi_input.c: parameters of commands, checked against the range that a command takes.
use cgr101_scpi.Prelude.{Bool, Option, none, some, List, [], ◌∷◌, ◌&&◌, ◌||◌, if◌then◌else◌, ℕ}
use cgr101_scpi.Prelude.Int.{ℤ, pos, leb_ℤ, pos_part, ltb_ℤ}
use cgr101_scpi.Prelude.Fault.{◌>>=◌}
use cgr101_scpi.ErrorQueue.{data_out_of_range}
use cgr101_scpi.Output.{Text}
use cgr101_scpi.Info.{Info}
use cgr101_scpi.Info.Actions.{raise}
use cgr101_scpi.Platform.{Platform}

-- What a list holds: integers, numbers or channels.
pub data Item (F : Type 0) : Type 0 where
  int_item : ℤ → Item F
  float_item : F → Item F
  chan_item : ℕ → Item F

-- `enum scpi_type_name` with the value of `union scpi_type_val` that belongs to it; a channel is
-- a mask.
pub data Value (F : Type 0) : Type 0 where
  unknown : Value F
  int : ℤ → Value F
  float : F → Value F
  str : Value F
  dstr : Text → Value F
  chan : ℕ → Value F
  list : List (Item F) → Value F

-- `struct scpi_type`, without its token.
pub record ScpiType (F : Type 0) : Type 0 where
  pub val : Value F
  pub src : Text

-- What a function of this file returns, where `A` is what it stores through `out`: `err` is none.
abbrev pub Result : Type 0 → Type 0 → Type 0
Result F A = Option A × Info F

module _ {F : Type 0} where
  abbrev pub out_of_range : {A : Type 0} → Info F → ScpiType F → Result F A
  out_of_range i x = (none, raise i data_out_of_range (some x.src))

  -- `scpi_input_int`
  unfoldable pub input_int : Info F → ScpiType F → ℤ → ℤ → Option (Result F ℤ)
  input_int i x low high = elim x.val [
    | int n ↦ if leb_ℤ low n && leb_ℤ n high then some (some n, i) else some (out_of_range i x)
    | _ ↦ none
  ]

  -- `scpi_input_boolean`
  unfoldable pub input_boolean : Info F → ScpiType F → Option (Result F Bool)
  unfolding input_int
  input_boolean i x = do
    r ← input_int i x (pos 0) (pos 1)
    some (elim r.0 [ none ↦ none | some n ↦ some (ltb_ℤ (pos 0) n) ], r.1)

  -- The number as an unsigned integer of the width that the range stands for.
  abbrev pub unsigned : Result F ℤ → Result F ℕ
  unsigned (none, i) = (none, i)
  unsigned (some n, i) = (some (pos_part n), i)

  -- `scpi_input_uint8`
  unfoldable pub input_uint8 : Info F → ScpiType F → Option (Result F ℕ)
  unfolding input_int
  input_uint8 i x = do r ← input_int i x (pos 0) (pos 255); some (unsigned r)

  -- `scpi_input_uint16`
  unfoldable pub input_uint16 : Info F → ScpiType F → Option (Result F ℕ)
  unfolding input_int
  input_uint16 i x = do r ← input_int i x (pos 0) (pos 65535); some (unsigned r)

  -- `scpi_input_str`; a text has no other value than its source.
  unfoldable pub input_str : ScpiType F → Option Text
  input_str x = elim x.val [ str ↦ some x.src | _ ↦ none ]

  -- The numbers of a list of numbers.
  unfoldable pub floats : List (Item F) → Option (List F)
  floats [] = some []
  floats (float_item x ∷ xs) = do ys ← floats xs; some (x ∷ ys)
  floats (_ ∷ xs) = none

  -- `scpi_input_fp_block`, with `scpi_input_fp_block_copy`: the block that it hands out. The list,
  -- which the copy overwrites, is not used behind it.
  unfoldable pub input_fp_block : ScpiType F → Option (List F)
  unfolding floats
  input_fp_block x = elim x.val [ float y ↦ some (y ∷ []) | list xs ↦ floats xs | _ ↦ none ]

module _ (p : Platform) where
  open p use {F, leb, ltb, of_int}

  -- `scpi_input_fp`
  unfoldable pub input_fp : ScpiType F → Option F
  input_fp x = elim x.val [ float y ↦ some y | int n ↦ some (of_int n) | _ ↦ none ]

  -- `scpi_input_fp_range`
  unfoldable pub input_fp_range : Info F → ScpiType F → F → F → Option (Result F F)
  unfolding input_fp
  input_fp_range i x min max = do
    value ← input_fp x
    some (if ltb value min || ltb max value then out_of_range i x else (some value, i))
