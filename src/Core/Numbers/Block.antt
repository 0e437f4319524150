-- ===== src/Core/Numbers/Block.antt =====
-- src/scpi_core.c, src/scpi_input.c: a list of numbers, from the parser to the block that the device
-- takes.
use cgr101_scpi.Prelude.{
  suc, ◌+◌, ◌%◌, ◌≤◌, ◌<◌, ◌≡◌, refl, ap, ◌∙◌, sym, Bool, true, false, none, some, List, [], ◌∷◌,
  ◌++◌, ◌==◌, Bool-cases, inl, inr, length, length-append, arith,
}
use cgr101_scpi.Output.{Text}
use cgr101_scpi.Input.{Item, float_item, ScpiType, float, list, floats, input_fp_block}
use cgr101_scpi.Core.Numbers.{nrf_list, nrf_all, append_item, start_list}
use mathlib.Core.List.{append_assoc, append-nil}

module _ {F : Type 0} where
  -- A number as the scanner reads it.
  abbrev pub number : F × Text → ScpiType F
  number (x, s) = record { val = float x; src = s }

  abbrev pub numbers : List (F × Text) → List (ScpiType F)
  numbers [] = []
  numbers (x ∷ xs) = number x ∷ numbers xs

  abbrev pub values : List (F × Text) → List F
  values [] = []
  values (x ∷ xs) = x.0 ∷ values xs

  abbrev items : List F → List (Item F)
  items [] = []
  items (x ∷ xs) = float_item x ∷ items xs

  -- A list with the source of its first number.
  abbrev gathered : List F → Text → ScpiType F
  gathered xs s = record { val = list (items xs); src = s }

  floats-items : (xs : List F) → floats (items xs) ≡ some xs
  unfolding floats
  floats-items [] = refl
  floats-items (x ∷ xs) = rw (floats-items xs) refl

  length-items : (xs : List F) → length (items xs) ≡ length xs
  length-items [] = refl
  length-items (x ∷ xs) = ap suc (length-items xs)

  items-append : (xs : List F) (y : F) → items (xs ++ (y ∷ [])) ≡ items xs ++ (float_item y ∷ [])
  items-append [] y = refl
  items-append (x ∷ xs) y = ap (λ ys. float_item x ∷ ys) (items-append xs y)

  append_item-items :
      (in_place : Bool) (x y : F) (xs : List F)
      → length (x ∷ xs) < 256
      → append_item in_place (items (x ∷ xs)) (float_item y) ≡ some (items (x ∷ (xs ++ (y ∷ []))))
  unfolding append_item
  append_item-items in_place x y xs h =
      let free : (suc (length (items xs)) % 256 == 0) ≡ false =
        rw (length-items xs) (ground arith) in
      rw free (ap (λ ys. some (float_item x ∷ ys)) (sym (items-append xs y)))

  append_item_full :
      (x y : F) (xs : List F)
      → length (x ∷ xs) ≡ 256
      → append_item false (items (x ∷ xs)) (float_item y) ≡ none
  unfolding append_item
  append_item_full x y xs h =
      let full : (suc (length (items xs)) % 256 == 0) ≡ true =
        rw (length-items xs) (ground arith) in
      rw full refl

  nrf_all-items :
      (in_place held : Bool) (x : F) (xs : List F) (s : Text) (zs : List (F × Text))
      → length (x ∷ xs) + length zs ≤ 256
      → nrf_all in_place held (gathered (x ∷ xs) s) (numbers zs)
        ≡ some (gathered (x ∷ (xs ++ values zs)) s, held)
  unfolding nrf_all nrf_list
  nrf_all-items in_place held x xs s [] h = rw (append-nil xs) refl
  nrf_all-items in_place held x xs s ((z, t) ∷ zs) h =
      let size : length (xs ++ (z ∷ [])) ≡ length xs + 1 = length-append xs (z ∷ []) in
      rw (append_item-items in_place x z xs (omega arith)) (
        nrf_all-items in_place held x (xs ++ (z ∷ [])) s zs (omega arith)
        ∙ ap (λ ys. some (gathered (x ∷ ys) s, held)) (append_assoc xs (z ∷ []) (values zs)))

  nrf_all_full :
      (held : Bool) (x : F) (xs : List F) (s : Text) (zs : List (F × Text))
      → length (x ∷ xs) ≤ 256
      → 256 < length (x ∷ xs) + length zs
      → nrf_all false held (gathered (x ∷ xs) s) (numbers zs) ≡ none
  unfolding nrf_all nrf_list
  nrf_all_full held x xs s [] h l = absurd (omega arith)
  nrf_all_full held x xs s ((z, t) ∷ zs) h l = elim (Bool-cases (length (x ∷ xs) == 256)) [
    | inl e ↦ rw (append_item_full x z xs (ground arith)) refl
    | inr e ↦
        let size : length (xs ++ (z ∷ [])) ≡ length xs + 1 = length-append xs (z ∷ []) in
        let below : length (x ∷ xs) < 256 = ground arith in
        rw (append_item-items false x z xs below)
          (nrf_all_full held x (xs ++ (z ∷ [])) s zs (omega arith) (omega arith))
  ]

  -- From 2 to 256 numbers, where no list is held: they are gathered, whether or not an array can
  -- grow in its place, and the block that the device takes has the same numbers in the same order.
  pub nrf_all-block :
      (in_place : Bool) (x y : F × Text) (zs : List (F × Text))
      → length zs ≤ 254
      → (v : ScpiType F) × (nrf_all in_place false (number x) (numbers (y ∷ zs)) ≡ some (v, true))
        × (input_fp_block v ≡ some (values (x ∷ y ∷ zs)))
  unfolding nrf_all nrf_list start_list input_fp_block
  nrf_all-block in_place (x, s) (y, t) zs h = (
    gathered (x ∷ y ∷ values zs) s,
    nrf_all-items in_place true x (y ∷ []) s zs (omega arith),
    floats-items (x ∷ y ∷ values zs),
  )

  -- More than 256 numbers, and an array that is moved when it grows: a fault, since the list keeps
  -- the pointer to the elements of the array that was freed.
  nrf_all_moved :
      (x y : F × Text) (zs : List (F × Text))
      → 254 < length zs
      → nrf_all false false (number x) (numbers (y ∷ zs)) ≡ none
  unfolding nrf_all nrf_list start_list
  nrf_all_moved (x, s) (y, t) zs h = nrf_all_full true x (y ∷ []) s zs (omega arith) (omega arith)
