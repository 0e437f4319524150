-- ===== src/Commands/Measure/Answer.antt =====
-- src/scpi_dev.c: `MEASure:DIGital:DATA?`, from the command to its answer.
use cgr101_scpi.Prelude.{◌≡◌, refl, ℕ, true, false, Option, some, [], ◌∷◌, ◌++◌, codes}
use cgr101_scpi.Prelude.Int.{pos}
use cgr101_scpi.Prelude.Fault.{◌>>=◌}
use cgr101_scpi.Event.{event_send, event_code, digital_read_output}
use cgr101_scpi.Info.{Info, RcvState, Progress}
use cgr101_scpi.Info.Actions.{send, must_send, device_send, print, print_int}
use cgr101_scpi.Device.Abort.{abort}
use cgr101_scpi.Device.Completion.{
  initiate, digital_read_completion, digital_read_handler, configure_digital_data,
  fetch_digital_data,
}
use cgr101_scpi.Device.DigitalEvent.{Clock}
use cgr101_scpi.Device.Handlers.{rcv_start}
use cgr101_scpi.Device.Receive.{rcv_data, rcv_sm, rcv_digital_read}
use cgr101_scpi.Commands.Measure.{measure_digital_dataq, read_digital_dataq, fetch_digital_dataq}
use cgr101_scpi.Platform.{Platform}

module _ (c : Platform) where
  open c use {F}

  -- Nothing runs: no sweep, no digital events, no channel of the scope.
  pub record IsQuiet (i : Info F) : Type 0 where
    pub no_sweep : i.sweep_status ≡ false
    pub no_events : i.digital_event_status ≡ false
    pub no_mask : i.device.event.chan_mask ≡ 0
    pub channel_a_off : i.device.scope.channel_a.enable ≡ false
    pub channel_b_off : i.device.scope.channel_b.enable ≡ false

  -- The handler of the event that asks for the output of a digital read.
  abbrev pub output_event : Info F → Option (Info F)
  output_event i = digital_read_handler c i.device.digital_read_state i

  -- The command, and the event that it sends.
  abbrev pub asked : Info F → Option (Info F)
  asked i = measure_digital_dataq c i >>= output_event

  -- The command, its event, the message of the device, and the events that follow.
  abbrev pub answered_read : Clock → ℕ → Info F → Option (Info F)
  answered_read now value i = do
    i₁ ← asked i
    i₂ ← rcv_data c now (b'I' ∷ value ∷ []) i₁
    output_event (digital_read_completion i₂)

  abbrev requested : Info F → Info F
  requested i = record i {
    event = i.event ++ (event_code digital_read_output ∷ []);
    device = record (i.device) { sent = true; digital_read_requested = true };
    written = i.written ++ (codes "D I\n" ∷ []);
  }

  measured :
      (i : Info F) → IsQuiet i → i.link ≡ true → measure_digital_dataq c i ≡ some (requested i)
  unfolding measure_digital_dataq configure_digital_data read_digital_dataq fetch_digital_dataq
      abort initiate must_send device_send fetch_digital_data send event_send
  measured i q link =
      rw (q.no_sweep, q.no_events, q.channel_a_off, q.channel_b_off, q.no_mask, link) refl

  -- Nothing runs, no digital read has been made, the receiver is idle, and the device takes the
  -- command: the device is asked for its input once; when it has sent `I` and the value, and the
  -- events of the read are handled, the output is the one before with that value printed.
  pub measure_answered :
      (now : Clock) (value : ℕ) (i : Info F)
      → IsQuiet i
      → i.device.digital_read_state ≡ Progress.idle
      → i.device.rcv_state ≡ RcvState.idle
      → i.link ≡ true
      → (i' : Info F) × (answered_read now value i ≡ some i')
        × (i'.output ≡ (print_int c i (pos value)).output)
        × (i'.written ≡ i.written ++ (codes "D I\n" ∷ []))
  unfolding digital_read_handler digital_read_completion send event_send print_int print rcv_data
      rcv_sm rcv_start rcv_digital_read
  measure_answered now value i q fresh idle link =
      rw (measured i q link) (rw (fresh, idle, q.no_mask) (_, refl, refl, refl))

  -- The same where a digital read has been made before: the event that the command sends prints the
  -- value of that read, although the device has been asked for another.
  pub measure_stale :
      (i : Info F)
      → IsQuiet i
      → i.device.digital_read_state ≡ Progress.complete
      → i.link ≡ true
      → (i' : Info F) × (asked i ≡ some i')
        × (i'.output ≡ (print_int c i (pos i.device.digital_read_data)).output)
        × (i'.written ≡ i.written ++ (codes "D I\n" ∷ []))
  unfolding digital_read_handler send event_send print_int print
  measure_stale i q done link = rw (measured i q link) (rw done (_, refl, refl, refl))
