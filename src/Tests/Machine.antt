-- ===== src/Tests/Machine.antt =====
-- Runs of the handlers of src/cgr101.c and src/scpi_core.c.
use cgr101_scpi.Prelude.{ℕ, ◌%◌, ◌≡◌, ◌++◌, refl, true, false, some, List, [], ◌∷◌, codes, arith}
use cgr101_scpi.Prelude.Int.{ℤ}
use cgr101_scpi.Info.{Info, RcvState, DigitalEvent}
use cgr101_scpi.Device.DigitalEvent.Log.{stamped, digital_events, digital_events-log}
use cgr101_scpi.Device.Capture.{sample_order}
use cgr101_scpi.Device.Capture.Order.{upwards, sample_order-upwards}
use cgr101_scpi.Device.Receive.{rcv_data}
use cgr101_scpi.Device.Receive.Invariant.{IsValid, Keeps}
use cgr101_scpi.Device.Receive.Steps.{rcv_data-Keeps}
use cgr101_scpi.Device.Receive.Bytes.{data_message}
use cgr101_scpi.Device.Receive.Samples.{rcv_samples}
use cgr101_scpi.Output.{put}
use cgr101_scpi.Device.Completion.{until_nul}
use cgr101_scpi.Device.Completion.Identify.{answered, identify_answered}
use cgr101_scpi.Channels.{channel_num, channel_range}
use cgr101_scpi.Channels.Ranges.{number, masked, channel_range-selected}
use cgr101_scpi.Tests.State.{whole, device, sweeping, noon}

device-IsValid : IsValid device
device-IsValid = record {
  id_in = omega arith;
  msg_in = omega arith;
  addr_in = omega arith;
  count_in = omega arith;
  message = tt;
}

rcv_data-Keeps_example : Keeps (rcv_data whole noon (b'A' ∷ 1 ∷ 2 ∷ b'S' ∷ []) sweeping)
rcv_data-Keeps_example =
    rcv_data-Keeps whole noon (b'A' ∷ 1 ∷ 2 ∷ b'S' ∷ []) sweeping device-IsValid

abbrev ramp : ℕ → ℕ
ramp j = j % 1024

abbrev steady : ℕ → ℕ
steady j = 511

rcv_samples_example :
    (i' : Info ℤ) × (rcv_data whole noon (data_message ramp steady) sweeping ≡ some i')
    × (i'.device.scope.channel_a.samples 300 ≡ 300)
    × (i'.device.scope.channel_b.samples 300 ≡ 511)
    × (i'.device.rcv_state ≡ RcvState.idle)
    × (i'.sweep_status ≡ false)
    × (i'.device.scope.output_pending ≡ false)
    × (i'.event ≡ 7 ∷ [])
rcv_samples_example = rcv_samples whole noon ramp steady sweeping 300 refl refl (omega arith)

sample_order-upwards_example : sample_order 1000 0 1024 ≡ upwards 1001 23 ++ upwards 0 1001
sample_order-upwards_example = sample_order-upwards 1000 (omega arith)

abbrev event_of : ℕ → ℕ → DigitalEvent
event_of k v = record { tv_sec = 43200; tv_usec = k; value = v }

abbrev with_log : List DigitalEvent → Info ℤ
with_log log = record sweeping {
  device = record device { event = record (device.event) { log = log } };
}

digital_events-log_example :
    digital_events whole noon (17 ∷ []) sweeping ≡ some (with_log (event_of 0 17 ∷ []))
unfolding stamped
digital_events-log_example =
    digital_events-log whole noon (17 ∷ []) sweeping (omega arith, tt) (omega arith)

-- The program once `*IDN?` has been handled.
abbrev asked : Info ℤ
asked = record sweeping { device = record device { identify_output_requested = true } }

identify_answered_example :
    (i' : Info ℤ) × (answered whole noon (b'*' ∷ b'i' ∷ b'd' ∷ 13 ∷ 10 ∷ []) asked ≡ some i')
    × (i'.output ≡ (put asked.output (codes "GMP,CGR101-SCPI,1.0,id")).1)
    × (i'.event ≡ 0 ∷ 1 ∷ 8 ∷ [])
unfolding until_nul
identify_answered_example =
    identify_answered whole noon (b'i' ∷ b'd' ∷ []) asked refl
      (omega arith, omega arith, (omega arith, omega arith, tt)) (omega arith) refl

-- The range `1:3` selects the channels 1 and 2.
channel_range-selected_example :
    channel_range (channel_num (number {F = ℤ} 1 (codes "1"))) (channel_num (number 3 (codes "3")))
    ≡ some (masked 3 (codes "1"))
channel_range-selected_example =
    channel_range-selected 1 3 (codes "1") (codes "3") (omega arith) (omega arith) (omega arith)
      (omega arith) (omega arith)
