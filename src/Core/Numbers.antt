-- ===== src/Core/Numbers.antt =====
-- src/scpi_core.c: lists of numbers, which `scpi_core_nrf_list` gathers, and the end of a line.
pub mod Block
use cgr101_scpi.Prelude.{
  ℕ, ◌+◌, ◌%◌, Bool, true, false, not, Option, none, some, List, [], ◌∷◌, ◌++◌, ◌==◌, if◌then◌else◌,
  length,
}
use cgr101_scpi.Prelude.Fault.{◌>>=◌, ◌>>◌, require}
use cgr101_scpi.Info.{Info}
use cgr101_scpi.Info.Actions.{print}
use cgr101_scpi.Input.{
  Item, int_item, float_item, chan_item, Value, ScpiType, int, float, chan, list,
}
use cgr101_scpi.Output
use cgr101_scpi.Parser.Prefix.{Parser, parser_separator}
use cgr101_scpi.Parser.Text.{Strpool, parser_cleanup}

-- `NRF_CHUNK`
abbrev pub nrf_chunk : ℕ
nrf_chunk = 256

module _ {F : Type 0} where
  -- The element of a list that a value becomes; only numbers and channels come here.
  abbrev pub item_of : Value F → Option (Item F)
  item_of (int n) = some (int_item n)
  item_of (float x) = some (float_item x)
  item_of (chan m) = some (chan_item m)
  item_of _ = none

  abbrev pub same_type : Item F → Item F → Bool
  same_type (int_item _) (int_item _) = true
  same_type (float_item _) (float_item _) = true
  same_type (chan_item _) (chan_item _) = true
  same_type _ _ = false

  -- The first case of `scpi_core_nrf_list`: a list of two; `held` says whether a list is in
  -- `info->scpi->pool`.
  unfoldable pub start_list : Bool → Item F → Item F → Option (List (Item F))
  start_list held x y = do require (same_type x y); require (not held); some (x ∷ y ∷ [])

  -- The second case: the array is full at each multiple of its chunk. The pointer to its elements is
  -- not set to the array that `realloc` returns, so a write is a fault unless it is `in_place`.
  unfoldable pub append_item : Bool → List (Item F) → Item F → Option (List (Item F))
  append_item in_place [] y = none
  append_item in_place (x ∷ xs) y = do
    require (same_type x y)
    require (if length (x ∷ xs) % nrf_chunk == 0 then in_place else true)
    some ((x ∷ xs) ++ (y ∷ []))

  -- `scpi_core_nrf_list`: the value, and whether a list is held.
  unfoldable pub nrf_list : Bool → Bool → ScpiType F → ScpiType F → Option (ScpiType F × Bool)
  unfolding start_list append_item
  nrf_list in_place held v s = do
    y ← item_of s.val
    elim v.val [
      | list xs ↦ (do zs ← append_item in_place xs y; some (record v { val = list zs }, held))
      | w ↦ (do x ← item_of w; zs ← start_list held x y; some (record v { val = list zs }, true))
    ]

  -- The rule of src/scpi.y for a list: each number is appended to what stands before it.
  unfoldable pub nrf_all : Bool → Bool → ScpiType F → List (ScpiType F) → Option (ScpiType F × Bool)
  unfolding nrf_list
  nrf_all in_place held v [] = some (v, held)
  nrf_all in_place held v (s ∷ ss) = do
    (v', held') ← nrf_list in_place held v s
    nrf_all in_place held' v' ss

  -- `scpi_system_internal_echo`
  unfoldable pub internal_echo : ScpiType F → Info F → Info F
  internal_echo v i = print i v.src

-- `scpi_core_top`: the pool of texts is emptied; that no list is held, and that the parser is not
-- busy, are the two flags.
unfoldable pub core_top : Strpool → Bool × Bool × Strpool
unfolding parser_cleanup
core_top p = (false, false, parser_cleanup p)

-- `scpi_core_cmd_sep`
unfoldable pub core_cmd_sep : Bool → Parser → Output.Output → Parser × Output.Output
unfolding parser_separator
core_cmd_sep value p o =
    let (previous, p') = parser_separator p value in (p', if value then Output.cmd_sep o else o)
