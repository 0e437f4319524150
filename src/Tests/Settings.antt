-- ===== src/Tests/Settings.antt =====
-- Runs of the settings of src/cgr101.c and of their commands in src/scpi_dev.c.
use cgr101_scpi.Prelude.{
  ℕ, suc, ◌-◌, ◌*◌, ◌≡◌, ◌++◌, refl, true, false, none, some, List, [], ◌∷◌, codes, arith, ◌⊎◌,
  replicate, get_elem?,
}
use cgr101_scpi.Prelude.Int.{ℤ, pos, negsuc, leb_ℤ, ltb_ℤ}
use cgr101_scpi.Info.{Info, RcvState, Progress, shape_squ}
use cgr101_scpi.Info.Actions.{print, print_int, took}
use cgr101_scpi.Input
use cgr101_scpi.Input.{ScpiType}
use cgr101_scpi.Device.Abort.{abort}
use cgr101_scpi.Device.Abort.Stops.{abort-stops, abort_in_data}
use cgr101_scpi.Device.Receive.{rcv_data}
use cgr101_scpi.Device.Settings.{choose_sweep}
use cgr101_scpi.Device.Settings.InRange.{InRange, Stays}
use cgr101_scpi.Device.Settings.Init.{device_init, rst}
use cgr101_scpi.Device.Settings.Sweep.{Chosen, choose_sweep-first}
use cgr101_scpi.Device.Settings.Start.{device_init-InRange, rst-unsent, range_text}
use cgr101_scpi.Device.Convert.{chan_a, chan_b}
use cgr101_scpi.Device.Trigger.{trigger_slope, trigger_slopeq}
use cgr101_scpi.Device.Trigger.Slope.{trigger_slope-inverted, control_text, with_polarity}
use cgr101_scpi.Device.Pwm.{pwm_frequency, pwm_freq, with_pwm}
use cgr101_scpi.Device.Pwm.Table.{pwm_frequency-chosen}
use cgr101_scpi.Device.Waveform
use cgr101_scpi.Device.Waveform.Shape
use cgr101_scpi.Device.Waveform.{waveform_function, waveform_functionq, with_waveform}
use cgr101_scpi.Device.Waveform.Program.{commands, sendable-Sendable}
use cgr101_scpi.Device.Waveform.Names.{waveform_function-query}
use cgr101_scpi.Commands.Measure.Answer.{
  IsQuiet, asked, answered_read, measure_answered, measure_stale,
}
use cgr101_scpi.Commands.Settings
use cgr101_scpi.Commands.Settings.{run}
use cgr101_scpi.Commands.Settings.Runs.{run-Stays}
use cgr101_scpi.Tests.State.{noon, sweeping}
use cgr101_scpi.Tests.Fixed.{fixed, fixed-Constants, fresh, unit}

choose_sweep-first_example : Chosen fixed fresh (pos 50000) (choose_sweep fixed fresh (pos 50000))
choose_sweep-first_example = choose_sweep-first fixed fresh (pos 50000)

device_init-InRange_example :
    (i' : Info ℤ) × (device_init fixed fresh ≡ some i')
    × InRange fixed i'.device
    × (i'.offset_status ≡ true)
    × (i'.written
        ≡ [] ++ (range_text fixed chan_a false ∷ []) ++ (range_text fixed chan_b false ∷ []))
device_init-InRange_example =
    device_init-InRange fixed fixed-Constants fresh refl refl (omega arith) (omega arith) refl

rst-unsent_example :
    (i' : Info ℤ) × (rst fixed sweeping ≡ some i')
    × (i'.device.scope.channel_a.input_low_range ≡ false)
    × (i'.device.scope.channel_b.input_low_range ≡ false)
    × (i'.written ≡ [])
rst-unsent_example = rst-unsent fixed fixed-Constants sweeping

trigger_slope-inverted_example :
    (i' : Info ℤ) × (trigger_slope fixed (codes "NEG") fresh ≡ some i')
    × (i'.device.scope.trigger_polarity ≡ true)
    × (i'.written ≡ fresh.written ++ (control_text fixed (with_polarity fixed fresh true) ∷ []))
    × (trigger_slopeq fixed i' ≡ print i' (codes "POS"))
trigger_slope-inverted_example =
    trigger_slope-inverted fixed (codes "NEG") false fresh refl refl (omega arith) (omega arith)
      refl

-- 50 kHz: the entry is 72 kHz.
pwm_frequency-chosen_example :
    (k : ℕ) × (f : ℤ) × (g : ℤ) × (get_elem? (pwm_freq fixed) k ≡ some f)
    × (get_elem? (pwm_freq fixed) (suc k) ≡ some g)
    × (leb_ℤ (pos (50000 * unit)) f ≡ true)
    × (ltb_ℤ g (pos (50000 * unit)) ≡ true)
    × (pwm_frequency fixed (pos (50000 * unit)) fresh
        ≡ some (
            took
              (with_pwm fixed fresh (record (fresh.device.pwm) { frequency = f }))
              (codes "D F %zu\n")))
pwm_frequency-chosen_example =
    pwm_frequency-chosen fixed (λ x y. ground arith) (pos (50000 * unit)) fresh refl refl
      (λ k. omega arith) refl

abort-stops_example :
    ((abort fixed sweeping ≡ none) × (true ≡ true) × (true ≡ false))
    ⊎ ((i' : Info ℤ) × (abort fixed sweeping ≡ some i')
        × (i'.sweep_status ≡ false)
        × (i'.digital_event_status ≡ false)
        × (i'.event ≡ 7 ∷ 7 ∷ []))
abort-stops_example = abort-stops fixed sweeping

-- The samples of a capture arrive.
abbrev arriving : Info ℤ
arriving = record sweeping { device = record (sweeping.device) { rcv_state = RcvState.scope_data } }

abort_in_data_example :
    (i' : Info ℤ) × (abort fixed arriving ≡ some i')
    × (i'.sweep_status ≡ false)
    × (rcv_data fixed noon (1 ∷ []) i' ≡ none)
abort_in_data_example = abort_in_data fixed noon 1 arriving refl refl refl

fresh-IsQuiet : IsQuiet fixed fresh
fresh-IsQuiet = record {
  no_sweep = refl;
  no_events = refl;
  no_mask = refl;
  channel_a_off = refl;
  channel_b_off = refl;
}

measure_answered_example :
    (i' : Info ℤ) × (answered_read fixed noon 17 fresh ≡ some i')
    × (i'.output ≡ (print_int fixed fresh (pos 17)).output)
    × (i'.written ≡ [] ++ (codes "D I\n" ∷ []))
measure_answered_example = measure_answered fixed noon 17 fresh fresh-IsQuiet refl refl refl

-- A read has been made.
abbrev read_once : Info ℤ
read_once = record fresh {
  device = record (fresh.device) { digital_read_state = Progress.complete; digital_read_data = 5 };
}

read_once-IsQuiet : IsQuiet fixed read_once
read_once-IsQuiet = record {
  no_sweep = refl;
  no_events = refl;
  no_mask = refl;
  channel_a_off = refl;
  channel_b_off = refl;
}

measure_stale_example :
    (i' : Info ℤ) × (asked fixed read_once ≡ some i')
    × (i'.output ≡ (print_int fixed read_once (pos 5)).output)
    × (i'.written ≡ [] ++ (codes "D I\n" ∷ []))
measure_stale_example = measure_stale fixed read_once read_once-IsQuiet refl refl

-- A square wave.
abbrev square : Info ℤ
square = with_waveform fixed fresh (record (fresh.device.waveform) {
  shape = shape_squ;
  user = replicate 128 (pos unit) ++ replicate 128 (negsuc (unit - 1));
})

waveform_function-query_example :
    (i' : Info ℤ) × (waveform_function fixed (codes "SQU") fresh ≡ some i')
    × (i'.written ≡ [] ++ commands fixed 0 square.device.waveform.user ++ (codes "W P\n" ∷ []))
    × (true ≡ true)
    × (waveform_functionq fixed i' ≡ some (print i' (codes "SQU")))
unfolding Waveform.waveform_lookup Waveform.waveform_create Shape.create_fn Shape.fn_squ
    Waveform.waveform_conv
waveform_function-query_example =
    waveform_function-query fixed (codes "SQU") shape_squ fresh square refl tt refl
      (sendable-Sendable fixed 0 square.device.waveform.user refl) (omega arith) refl

-- Both channels in the range of their limits.
abbrev narrow : Info ℤ
narrow = record fresh {
  device = record (fresh.device) {
    scope = record (fresh.device.scope) {
      channel_a = record (fresh.device.scope.channel_a) { input_low_range = true };
      channel_b = record (fresh.device.scope.channel_b) { input_low_range = true };
    };
  };
}

narrow-InRange : InRange fixed narrow.device
narrow-InRange = record {
  divisor_fits = omega arith;
  offset_fits = refl;
  ref_fits = refl;
  amplitude_fits = refl;
  points_fit = refl;
  range_a = refl;
  range_b = refl;
}

abbrev volts : ℕ → ScpiType ℤ
volts n = record { val = Input.float (pos (n * unit)); src = [] }

abbrev both : ScpiType ℤ
both = record { val = Input.chan 3; src = [] }

abbrev session : List (Settings.Command ℤ)
session =
    Settings.sense_voltage_up (volts 10) both
    ∷ Settings.sense_sweep_time (volts 1)
    ∷ Settings.rst
    ∷ Settings.source_waveform_level (volts 1)
    ∷ []

run-Stays_example : Stays fixed (run fixed session narrow)
run-Stays_example = run-Stays fixed fixed-Constants session narrow narrow-InRange
