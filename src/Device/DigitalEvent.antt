-- ===== src/Device/DigitalEvent.antt =====
-- src/cgr101.c: digital events, their log and its output. The time of day is an argument.
pub mod Log
use cgr101_scpi.Prelude.{
  ◌≡◌, refl, ℕ, ◌/◌, ◌%◌, ◌^◌, Bool, true, false, Option, none, some, List, [], ◌∷◌, ◌++◌, ltb, leb,
  ◌==◌, if◌then◌else◌, length, codes,
}
use cgr101_scpi.Prelude.Int.{pos}
use cgr101_scpi.Prelude.Fault.{◌>>=◌, ◌>>◌, require}
use cgr101_scpi.Output.{Text}
use cgr101_scpi.Event.{unblock}
use cgr101_scpi.Info.{Info, DigitalEvent}
use cgr101_scpi.Info.Actions.{with_event, send, must_printf, print_int, print_fp}
use cgr101_scpi.Platform.{Platform}

-- The bit of a one based channel in a zero based mask.
abbrev pub has_bit : ℕ → ℕ → Bool
has_bit mask k = (mask / 2 ^ k) % 2 == 1

-- `INTERRUPT_CHANNEL_MASK` and `DIGITAL_DATA_CHANNEL_MASK`
abbrev pub interrupt_bit : ℕ
interrupt_bit = 3

abbrev pub digital_data_bit : ℕ
digital_data_bit = 5

-- `DIGITAL_EVENT_INTERRUPT`
abbrev pub interrupt_data : ℕ
interrupt_data = 256

-- `struct timeval`, as `gettimeofday` fills it.
pub record Time : Type 0 where
  pub sec : ℕ
  pub usec : ℕ

-- What `gettimeofday` answers while a read is handled: the time at which the event that is stored
-- at each index of the log is stored.
abbrev pub Clock : Type 0
Clock = ℕ → Time

-- `cgr101_event_mode_map` without its sentinel.
abbrev pub event_mode_map : List (Text × ℕ)
event_mode_map =
    (codes "NONE", b'D')
    ∷ (codes "POS", b'R')
    ∷ (codes "NEG", b'F')
    ∷ (codes "HIGH", b'H')
    ∷ (codes "LOW", b'L')
    ∷ []

module _ (c : Platform) where
  open c use {F, add, div, of_int, literal, same_text}

  find_mode : List (Text × ℕ) → Text → Option ℕ
  find_mode [] sel = none
  find_mode ((name, mode) ∷ rest) sel = if same_text sel name then some mode else find_mode rest sel

  -- `cgr101_digital_event_mode`. The loop does not stop at the sentinel: on a name that is not in
  -- the table it hands NULL to `strcasecmp`, a fault.
  unfoldable pub digital_event_mode : Text → Option ℕ
  unfolding find_mode
  digital_event_mode sel = find_mode event_mode_map sel

  -- `cgr101_digital_event_pending`
  unfoldable pub digital_event_pending : Info F → Info F
  digital_event_pending i =
      with_event (record i { block_input = true })
        (record (i.device.event) { output_pending = true })

  -- The time stamp of an event, in seconds.
  abbrev pub seconds : DigitalEvent → F
  seconds e = add (of_int (pos e.tv_sec)) (div (of_int (pos e.tv_usec)) (literal (pos 10000000) 1))

  print_events : List DigitalEvent → Info F → Info F
  print_events [] i = i
  print_events (e ∷ es) i = print_events es (print_int c (print_fp c i (seconds e)) (pos e.value))

  -- `cgr101_digital_event_output`
  unfoldable pub digital_event_output : Info F → Info F
  unfolding print_events
  digital_event_output i = print_events i.device.event.log i

  -- `cgr101_interrupt_mode`
  unfoldable pub interrupt_mode : Info F → Option (Info F)
  interrupt_mode i = must_printf c i "D ! %c\n" (pos i.device.event.mode ∷ [])

  -- `cgr101_digital_event_done`
  unfoldable pub digital_event_done : Info F → Option (Info F)
  digital_event_done i =
      send
        (with_event (record i { digital_event_status = false })
          (record (i.device.event) { chan_mask = 0 }))
        unblock

  -- The element that `cgr101_digital_event` stores, and the state with it.
  abbrev pub logged : Time → ℕ → Info F → Info F
  logged t data_in i = with_event i (record (i.device.event) {
    log = i.device.event.log ++ (record { tv_sec = t.sec; tv_usec = t.usec; value = data_in } ∷ []);
  })

  -- `cgr101_digital_event`
  unfoldable pub digital_event : Clock → ℕ → Info F → Option (Info F)
  unfolding digital_event_done interrupt_mode
  digital_event now data_in i = do
    require (ltb (length i.device.event.log) i.device.event.max)
    require (leb data_in interrupt_data)
    let i' = logged (now (length i.device.event.log)) data_in i
    (if length i'.device.event.log == i'.device.event.max
        then digital_event_done
            (if i'.device.event.output_pending then digital_event_output i' else i')
        else if data_in == interrupt_data
        then interrupt_mode i'
        else some i')

  -- `cgr101_digital_auto_update`
  unfoldable pub digital_auto_update : Info F → Option (Info F)
  digital_auto_update i = must_printf c i "D A\n" []

  -- `cgr101_configure_digital_event`; the optional text is a `char *` that may be NULL. `realloc` is
  -- taken to succeed.
  unfoldable pub configure_digital_event : Option Text → ℕ → ℕ → Info F → Option (Info F)
  configure_digital_event int_sel count chan_mask i = do
    let sel = if has_bit chan_mask interrupt_bit then int_sel else some (codes "NONE")
    name ← sel
    mode ← digital_event_mode name
    some (
        with_event i (record {
          chan_mask = chan_mask;
          mode = mode;
          log = [];
          max = count;
          output_pending = false;
        }))

  -- `cgr101_fetch_digital_event`
  unfoldable pub fetch_digital_event : Info F → Info F
  fetch_digital_event i =
      if i.digital_event_status then digital_event_pending i else digital_event_output i

  -- Printing changes the output alone.
  print_events-output :
      (es : List DigitalEvent) (i : Info F)
      → print_events es i ≡ record i { output = (print_events es i).output }
  unfolding print_events print_int print_fp
  print_events-output [] i = refl
  print_events-output (e ∷ es) i =
      print_events-output es (print_int c (print_fp c i (seconds e)) (pos e.value))

  pub digital_event_output-output :
      (i : Info F) → digital_event_output i ≡ record i { output = (digital_event_output i).output }
  unfolding digital_event_output
  digital_event_output-output i = print_events-output i.device.event.log i
