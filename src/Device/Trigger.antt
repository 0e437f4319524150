-- ===== src/Device/Trigger.antt =====
-- src/cgr101.c: the trigger of the scope: its level, slope and source.
pub mod Slope
use cgr101_scpi.Prelude.{
  ℕ, ◌/◌, ◌%◌, ◌^◌, Bool, true, false, Option, none, some, List, [], ◌∷◌, if◌then◌else◌, codes,
}
use cgr101_scpi.Prelude.Int.{ℤ, pos, pos_part}
use cgr101_scpi.Prelude.Fault.{◌>>=◌, ◌>>◌, require}
use cgr101_scpi.Output.{Text}
use cgr101_scpi.Info.{Info, Scope, TriggerSource, int, ext, imm}
use cgr101_scpi.Info.Actions.{with_scope, print, print_fp, must_printf}
use cgr101_scpi.Device.Convert.{Chan, chan_a, chan_b, channel, mp10, voltage_to_data}
use cgr101_scpi.Device.Capture.{in_range, update_control}
use cgr101_scpi.Platform.{Platform}

-- The texts of the trigger sources.
abbrev pub source_name : TriggerSource → Text
source_name imm = codes "IMM"
source_name int = codes "INT"
source_name ext = codes "EXT"

module _ (c : Platform) where
  open c use {F, same_text}

  -- The channel whose range the level is converted with.
  abbrev pub level_channel : Scope F → Chan
  level_channel s =
      if s.trigger_external then chan_b else if s.internal_trigger_source then chan_b else chan_a

  abbrev pub level_data : Scope F → F → ℤ
  level_data s value =
      voltage_to_data c s (level_channel s) (channel s (level_channel s)).input_low_range mp10 value

  -- `S T`: bits 8 and 9 of the level, and its low byte.
  abbrev pub level_args : ℕ → List ℤ
  level_args n = pos (n / 2 ^ 8) ∷ pos (n % 2 ^ 8) ∷ []

  -- `cgr101_trigger_level`
  unfoldable pub trigger_level : F → Info F → Option (Info F)
  trigger_level value i = do
    let i' = with_scope i (record (i.device.scope) { trigger_level = value })
    let raw = level_data i'.device.scope value
    require (in_range c raw)
    must_printf c i' "S T %d %d\n" (level_args (pos_part raw))

  -- `cgr101_trigger_levelq`
  unfoldable pub trigger_levelq : Info F → Info F
  trigger_levelq i = print_fp c i i.device.scope.trigger_level

  -- The polarity that a text names: `assert(0)` on any other text.
  unfoldable pub slope_of : Text → Option Bool
  slope_of value =
      if same_text value (codes "POS")
      then some false
      else if same_text value (codes "NEG")
      then some true
      else none

  -- `cgr101_trigger_slope`
  unfoldable pub trigger_slope : Text → Info F → Option (Info F)
  unfolding slope_of
  trigger_slope value i = do
    polarity ← slope_of value
    update_control c (with_scope i (record (i.device.scope) { trigger_polarity = polarity }))

  -- `cgr101_trigger_slopeq`
  abbrev pub slope_reply : Bool → Text
  slope_reply polarity = if polarity then codes "POS" else codes "NEG"

  unfoldable pub trigger_slopeq : Info F → Info F
  trigger_slopeq i = print i (slope_reply i.device.scope.trigger_polarity)

  unfoldable pub source_of : Text → Option TriggerSource
  source_of value =
      if same_text value (codes "IMM")
      then some imm
      else if same_text value (codes "INT")
      then some int
      else if same_text value (codes "EXT")
      then some ext
      else none

  -- `cgr101_trigger_source`
  unfoldable pub trigger_source : Text → Info F → Option (Info F)
  unfolding source_of
  trigger_source value i = do
    source ← source_of value
    update_control c (with_scope i (record (i.device.scope) { trigger_source = source }))

  -- `cgr101_trigger_sourceq`
  unfoldable pub trigger_sourceq : Info F → Info F
  trigger_sourceq i = print i (source_name i.device.scope.trigger_source)
