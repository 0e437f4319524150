-- ===== src/Core/Commands.antt =====
-- src/scpi_core.c: *RST, and the sleep command and its alarm.
use cgr101_scpi.Prelude.{Bool, true, false, not, Option, some}
use cgr101_scpi.Prelude.Int.{ℤ, pos}
use cgr101_scpi.Prelude.Fault.{◌>>=◌, ◌>>◌, require}
use cgr101_scpi.Info.{Info}
use cgr101_scpi.Info.Actions.{print_int}
use cgr101_scpi.Input.{ScpiType, input_fp}
use cgr101_scpi.Core.{opc}
use cgr101_scpi.Device.Settings.Init.{rst}
use cgr101_scpi.Platform.{Platform}

-- The time of the alarm in seconds and microseconds, and `parser_block_until_active`, which keeps
-- the input from being read until the alarm.
pub record Alarm : Type 0 where
  pub tv_sec : ℤ
  pub tv_usec : ℤ
  pub block_until : Bool

-- `scpi_core_sigalrm`
unfoldable pub sigalrm : Alarm → Alarm
sigalrm a = record a { block_until = false }

module _ (c : Platform) where
  open c use {F, sub, mul, leb, floor, to_int, literal}

  -- `scpi_common_rst`
  unfoldable pub common_rst : Info F → Option (Info F)
  common_rst i = do i' ← rst c i; some (opc i')

  -- `scpi_system_internal_sleep`; `setitimer` is taken to succeed.
  unfoldable pub internal_sleep : ScpiType F → Alarm → Option Alarm
  internal_sleep v a = do
    value ← input_fp c v
    let sec = floor value
    let usec = floor (mul (sub value sec) (literal (pos 10000000) 1))
    require (leb (literal (pos 0) 1) sec)
    require (leb (literal (pos 0) 1) usec)
    require (not a.block_until)
    some (record { tv_sec = to_int sec; tv_usec = to_int usec; block_until = true })

  -- `scpi_status_operation_eventq` and `scpi_system_internal_setupq`: both answer 0.
  unfoldable pub operation_eventq : Info F → Info F
  operation_eventq i = print_int c i (pos 0)

  unfoldable pub internal_setupq : Info F → Info F
  internal_setupq i = print_int c i (pos 0)

-- `scpi_core_format_type` and `scpi_core_symbolic_value` hand their parameter on.
unfoldable pub format_type : {F : Type 0} → ScpiType F → ScpiType F → ScpiType F
format_type v₁ v₂ = v₁

unfoldable pub symbolic_value : {F : Type 0} → ScpiType F → ScpiType F
symbolic_value v = v

-- `parser_block_until_set`: the previous value.
unfoldable pub block_until_set : Bool → Alarm → Bool × Alarm
block_until_set active a = (a.block_until, record a { block_until = active })
