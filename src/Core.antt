-- ===== src/Core.antt =====
-- src/scpi_core.c: the registers of IEEE 488.2 and SCPI, and the commands on them.
pub mod Status
pub mod Numbers
pub mod Commands
use Prim.Native.Nat.{bit_or, bit_and}
use cgr101_scpi.Prelude.{
  ℕ, ◌-◌, Bool, true, false, not, Option, none, some, List, [], ◌∷◌, ◌++◌, ◌&&◌, ◌==◌,
  if◌then◌else◌, codes,
}
use cgr101_scpi.Prelude.Int.{pos}
use cgr101_scpi.Prelude.Fault.{◌>>=◌}
use cgr101_scpi.ErrorQueue
use cgr101_scpi.ErrorQueue.{err_code}
use cgr101_scpi.Output
use cgr101_scpi.Event.{output_flush, process_line}
use cgr101_scpi.Info.{Info, Core}
use cgr101_scpi.Info.Actions.{print, print_int, send}
use cgr101_scpi.Input.{ScpiType, input_uint8, input_uint16}
use cgr101_scpi.Platform.{Platform}

-- A C integer as a condition.
abbrev pub is_set : ℕ → Bool
is_set n = not (n == 0)

abbrev pub set_if : Bool → ℕ → ℕ → ℕ
set_if b mask n = if b then bit_or n mask else n

-- The status byte that `scpi_core_status_update` puts together: `SCPI_SBR_ERQ`, `SCPI_SBR_QUES`,
-- `SCPI_SBR_SESR` and `SCPI_SBR_OPER`.
unfoldable pub status_bits : Bool → Bool → Bool → Bool → ℕ
status_bits erq ques sesr oper = set_if oper 128 (set_if sesr 32 (set_if ques 8 (set_if erq 4 0)))

-- `SCPI_SBR_MSS`: its complement in the byte, and the bit with it.
unfoldable pub summary : ℕ → ℕ → ℕ
summary sbr srer =
    let stbq = bit_and sbr (255 - 64) in if is_set (bit_and stbq srer) then bit_or stbq 64 else stbq

-- The registers with another value in one of them.
abbrev pub with_core : {F : Type 0} → Info F → Core → Info F
with_core i c = record i { scpi = c }

module _ {F : Type 0} where
  abbrev pub byte_of : Info F → ℕ
  byte_of i =
      let s = i.scpi in
      status_bits (is_set (ErrorQueue.count i.error)) (is_set s.ques.event && is_set s.ques.enable)
        (is_set (bit_and s.sesr s.seser)) (is_set (bit_and s.oper.event s.oper.enable))

  -- `scpi_core_status_update`
  unfoldable pub status_update : Info F → ℕ × Info F
  status_update i =
      (summary (byte_of i) i.scpi.srer, with_core i (record (i.scpi) { sbr = byte_of i }))

  -- `scpi_common_cls`
  unfoldable pub cls : Info F → Info F
  cls i = record i {
    scpi = record (i.scpi) {
      ques = record (i.scpi.ques) { event = 0; enable = 0 };
      oper = record (i.scpi.oper) { event = 0; enable = 0 };
      seser = 0;
      sesr = 0;
    };
    error = ErrorQueue.reset i.error;
    output = Output.reset i.output;
  }

  abbrev pub stored : Option ℕ × Info F → (Info F → ℕ → Info F) → Info F
  stored (none, i) f = i
  stored (some n, i) f = f i n

  -- `scpi_common_ese`
  unfoldable pub ese : Info F → ScpiType F → Option (Info F)
  ese i x = do
    r ← input_uint8 i x
    some (stored r λ i' n. with_core i' (record (i'.scpi) { seser = n }))

  -- `scpi_common_sre`
  unfoldable pub sre : Info F → ScpiType F → Option (Info F)
  sre i x = do
    r ← input_uint8 i x
    some (stored r λ i' n. with_core i' (record (i'.scpi) { srer = n }))

  -- `scpi_common_opc`
  unfoldable pub opc : Info F → Info F
  opc i = with_core i (record (i.scpi) { sesr = bit_or i.scpi.sesr 1 })

  -- `scpi_common_wai`
  unfoldable pub wai : Info F → Info F
  wai i = if i.overlapped then record i { block_input = true } else i

  -- `scpi_status_operation_enable`
  unfoldable pub operation_enable : Info F → ScpiType F → Option (Info F)
  operation_enable i x = do
    r ← input_uint16 i x
    some (
        stored r
          λ i' n. with_core i' (record (i'.scpi) { oper = record (i'.scpi.oper) { enable = n } }))

  -- `scpi_status_questionable_enable`
  unfoldable pub questionable_enable : Info F → ScpiType F → Option (Info F)
  questionable_enable i x = do
    r ← input_uint16 i x
    some (
        stored r
          λ i' n. with_core i' (record (i'.scpi) { ques = record (i'.scpi.ques) { enable = n } }))

  -- `scpi_system_internal_quit`
  unfoldable pub internal_quit : Info F → Info F
  internal_quit i = record i { quit = true }

  -- `scpi_system_versionq` and `scpi_system_capabilityq`
  unfoldable pub versionq : Info F → Info F
  versionq i = print i (codes "1999.0")

  unfoldable pub capabilityq : Info F → Info F
  capabilityq i = print i (codes "\"DIGITIZER\"")

module _ (p : Platform) where
  open p use {F, format}

  -- `scpi_common_eseq`, `scpi_common_sreq`, `scpi_common_tstq`
  unfoldable pub eseq : Info F → Info F
  eseq i = print_int p i (pos i.scpi.seser)

  unfoldable pub sreq : Info F → Info F
  sreq i = print_int p i (pos i.scpi.srer)

  unfoldable pub tstq : Info F → Info F
  tstq i = print_int p i (pos 0)

  -- `scpi_common_esrq`: reading the register clears it.
  unfoldable pub esrq : Info F → Info F
  esrq i = let i' = print_int p i (pos i.scpi.sesr) in with_core i' (record (i'.scpi) { sesr = 0 })

  -- `scpi_common_opcq`
  unfoldable pub opcq : Info F → Info F
  opcq i =
      if i.overlapped
      then record i { block_input = true; scpi = record (i.scpi) { opcq = true } }
      else print_int p i (pos 1)

  -- `scpi_common_stbq`
  unfoldable pub stbq : Info F → Info F
  unfolding status_update
  stbq i = let (value, i') = status_update i in print_int p i' (pos value)

  -- `scpi_system_error_countq`
  unfoldable pub error_countq : Info F → Info F
  error_countq i = print_int p i (pos (ErrorQueue.count i.error))

  -- `scpi_system_error_nextq`: the code, and the message with the syndrome behind it, if any.
  abbrev pub error_text : ErrorQueue.Reply → List ℕ
  error_text r =
      format "%d" (err_code r.error ∷ [])
      ++ codes ",\""
      ++ r.msg
      ++ elim r.syndrome [ none ↦ [] | some s ↦ b';' ∷ s ]
      ++ codes "\""

  unfoldable pub error_nextq : Info F → Info F
  error_nextq i =
      let (r, q) = ErrorQueue.get i.error in print (record i { error = q }) (error_text r)

  -- `scpi_status_operation_conditionq`: `SCPI_OPER_SWE`, `SCPI_OPER_DE` and `SCPI_OPER_OF`.
  unfoldable pub operation_conditionq : Info F → Info F
  operation_conditionq i =
      let cond =
        set_if i.offset_status 512
          (set_if i.digital_event_status 256 (set_if i.sweep_status 8 0)) in
      let i' = with_core i (record (i.scpi) { oper = record (i.scpi.oper) { cond = cond } }) in
      print_int p i' (pos i'.scpi.oper.cond)

  -- `scpi_status_operation_enableq`, `scpi_status_questionableq`, `scpi_status_questionable_enableq`
  unfoldable pub operation_enableq : Info F → Info F
  operation_enableq i = print_int p i (pos i.scpi.oper.enable)

  unfoldable pub questionableq : Info F → Info F
  questionableq i = print_int p i (pos i.scpi.ques.cond)

  unfoldable pub questionable_enableq : Info F → Info F
  questionable_enableq i = print_int p i (pos i.scpi.ques.enable)

  -- `scpi_core_unblock`
  unfoldable pub unblock_input : Info F → Option (Info F)
  unblock_input i = do
    let i₁ = record i { block_input = false }
    let i₂ =
        if i.scpi.opcq
        then print_int p (with_core i₁ (record (i₁.scpi) { opcq = false })) (pos 1)
        else i₁
    i₃ ← send i₂ output_flush
    send i₃ process_line
