-- ===== src/Device/Completion.antt =====
-- src/cgr101.c: what is asked of the device, and the handlers of the events that its answers send.
pub mod Identify
use cgr101_scpi.Prelude.{
  ℕ, Bool, true, false, not, Option, some, List, [], ◌∷◌, ltb, length, ◌++◌, ◌==◌, ◌||◌,
  if◌then◌else◌, codes,
}
use cgr101_scpi.Prelude.Int.{pos}
use cgr101_scpi.Prelude.Fault.{◌>>=◌, ◌>>◌, require}
use cgr101_scpi.Event.{identify_output, digital_read_output, scope_status_output, output_flush}
use cgr101_scpi.Info.{Info, Progress}
use cgr101_scpi.Info.Actions.{
  with_device, with_scope, send, print, print_int, must_send, device_send,
}
use cgr101_scpi.Device.Convert.{Chan, chan_a, chan_b, channel, put_channel}
use cgr101_scpi.Device.DigitalEvent.{
  has_bit, interrupt_bit, digital_data_bit, interrupt_mode, digital_auto_update,
}
use cgr101_scpi.Device.Handlers.{id_max}
use cgr101_scpi.Device.Capture.{digitizer_start}
use cgr101_scpi.Platform.{Platform}

abbrev pub is_pending : Progress → Bool
is_pending Progress.pending = true
is_pending _ = false

-- The bytes in front of the first NUL.
unfoldable pub until_nul : List ℕ → List ℕ
until_nul [] = []
until_nul (c ∷ cs) = let rest = until_nul cs in if c == 0 then [] else c ∷ rest

module _ {F : Type 0} where
  -- `cgr101_identify`
  unfoldable pub identify : Info F → Option (Info F)
  identify i =
      send (with_device i (record (i.device) { identify_output_requested = true })) identify_output

  -- `cgr101_identify_completion`
  unfoldable pub identify_completion : Info F → Option (Info F)
  identify_completion i = do
    require (is_pending i.device.identify_state)
    let i' = with_device i (record (i.device) { identify_state = Progress.complete })
    if i'.device.identify_output_requested then send i' identify_output else some i'

  -- What `%s` prints of the array, which is 0 behind the bytes that are stored: they end at the
  -- first NUL, and a full array without one is read past its end.
  abbrev pub ident_text : Info F → Option (List ℕ)
  ident_text i = do
    let id = until_nul i.device.device_id
    require (ltb (length id) id_max)
    some (codes "GMP,CGR101-SCPI,1.0," ++ id)

  -- `cgr101_identify_output`, with `cgr101_identify_start`
  unfoldable pub identify_handler : Progress → Info F → Option (Info F)
  identify_handler Progress.idle i = must_send i (codes "i\n")
  identify_handler Progress.pending i = send i identify_output
  identify_handler Progress.complete i = do text ← ident_text i; send (print i text) output_flush

  -- `cgr101_digital_read_completion`
  unfoldable pub digital_read_completion : Info F → Info F
  digital_read_completion i =
      with_device i (record (i.device) { digital_read_state = Progress.complete })

  -- `cgr101_scope_status_completion` and `cgr101_scope_offset_start`
  unfoldable pub scope_status_completion : Info F → Option (Info F)
  scope_status_completion i = send i scope_status_output

  unfoldable pub scope_offset_request : Info F → Option (Info F)
  scope_offset_request i = must_send i (codes "S O\n")

  -- `cgr101_scope_status_start`: its `err`, and the state.
  unfoldable pub scope_status_start : Info F → Bool × Info F
  scope_status_start i =
      let (err, i') = device_send i (codes "S S\n") in
      (
        err,
        if err
            then i'
            else with_scope i' (record (i'.device.scope) { status_state = Progress.pending }),
      )

  -- `cgr101_configure_digital_data`, `cgr101_fetch_digital_data`
  unfoldable pub configure_digital_data : Info F → Info F
  configure_digital_data i = with_device i (record (i.device) { digital_read_requested = true })

  unfoldable pub fetch_digital_data : Info F → Option (Info F)
  fetch_digital_data i = send i digital_read_output

  -- One round of the loop of `cgr101_digitizer_channel_state`.
  abbrev pub enable_if : Bool → Chan → Bool → Info F → Info F
  enable_if b chan value i =
      if b
      then with_scope i (
          put_channel i.device.scope chan (record (channel i.device.scope chan) { enable = value }))
      else i

  -- `cgr101_digitizer_channel_state`
  unfoldable pub channel_state : ℕ → Bool → Info F → Info F
  channel_state mask value i =
      enable_if (has_bit mask 1) chan_b value (enable_if (has_bit mask 0) chan_a value i)

module _ (p : Platform) where
  open p use {F}

  -- `cgr101_digital_read_output`, with `cgr101_output_digital_read`
  unfoldable pub digital_read_handler : Progress → Info F → Option (Info F)
  digital_read_handler Progress.complete i =
      send (print_int p i (pos i.device.digital_read_data)) output_flush
  digital_read_handler _ i = send i digital_read_output

  -- `cgr101_scope_status_output`
  unfoldable pub scope_status_handler : Progress → Info F → Option (Info F)
  unfolding scope_status_start
  scope_status_handler Progress.idle i = do
    let (err, i') = scope_status_start i
    require (not err)
    some i'
  scope_status_handler Progress.pending i = send i scope_status_output
  scope_status_handler Progress.complete i = some (print_int p i (pos i.device.scope.status))

  abbrev pub any_enabled : Info F → Bool
  any_enabled i = i.device.scope.channel_a.enable || i.device.scope.channel_b.enable

  -- The part that `cgr101_initiate` and `cgr101_initiate_immediate` share, with
  -- `cgr101_digital_read_start`.
  abbrev pub start_reads : Bool → Info F → Option (Info F)
  start_reads manual i = do
    i₁ ← if i.device.digital_read_requested then must_send i (codes "D I\n") else some i
    (if any_enabled i₁
        then (do (err, i₂) ← digitizer_start p manual i₁; require (not err); some i₂)
        else some i₁)

  -- `cgr101_initiate_immediate`
  unfoldable pub initiate_immediate : Info F → Option (Info F)
  initiate_immediate i = start_reads true i

  -- `cgr101_initiate`
  unfoldable pub initiate : Info F → Option (Info F)
  initiate i = do
    i₁ ← start_reads false i
    let mask = i₁.device.event.chan_mask
    i₂ ← if has_bit mask interrupt_bit then interrupt_mode p i₁ else some i₁
    i₃ ← if has_bit mask digital_data_bit then digital_auto_update p i₂ else some i₂
    some (if mask == 0 then i₃ else record i₃ { digital_event_status = true })
