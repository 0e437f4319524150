-- ===== src/Commands/Trigger.antt =====
-- src/scpi_dev.c: `scpi_dev_trigger_…`.
use cgr101_scpi.Prelude.{some, Option}
use cgr101_scpi.Prelude.Fault.{◌>>=◌}
use cgr101_scpi.Info.{Info}
use cgr101_scpi.Input.{ScpiType, input_str, input_fp}
use cgr101_scpi.Device.Trigger
use cgr101_scpi.Platform.{Platform}

module _ (c : Platform) where
  open c use {F}

  -- `scpi_dev_trigger_coupling`: the driver ignores the value.
  unfoldable pub coupling : ScpiType F → Info F → Option (Info F)
  coupling v i = do value ← input_str v; some i

  unfoldable pub level : ScpiType F → Info F → Option (Info F)
  level v i = do value ← input_fp c v; Trigger.trigger_level c value i

  unfoldable pub slope : ScpiType F → Info F → Option (Info F)
  slope v i = do value ← input_str v; Trigger.trigger_slope c value i

  unfoldable pub source : ScpiType F → Info F → Option (Info F)
  source v i = do value ← input_str v; Trigger.trigger_source c value i

  -- The queries of what is set.
  unfoldable pub levelq : Info F → Info F
  levelq i = Trigger.trigger_levelq c i

  unfoldable pub slopeq : Info F → Info F
  slopeq i = Trigger.trigger_slopeq c i

  unfoldable pub sourceq : Info F → Info F
  sourceq i = Trigger.trigger_sourceq c i
