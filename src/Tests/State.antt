-- ===== src/Tests/State.antt =====
-- A platform and a state of the program for the runs of src/cgr101.c and src/scpi_core.c.
use cgr101_scpi.Prelude.{ℕ, Bool, true, false, List, [], ◌∷◌, codes, ◌==◌, ◌&&◌}
use cgr101_scpi.Prelude.Int.{ℤ, pos, ◌+ℤ◌, ◌-ℤ◌, leb_ℤ, ltb_ℤ}
use cgr101_scpi.ErrorQueue
use cgr101_scpi.ErrorQueue.{hardware_error, data_out_of_range, push}
use cgr101_scpi.Output
use cgr101_scpi.Platform.{Platform}
use cgr101_scpi.Info.{
  Info, Device, Scope, Channel, Reg, RcvState, Progress, ByteState, AddrState, imm, shape_none,
}
use cgr101_scpi.Device.DigitalEvent.{Clock}

abbrev pub same : List ℕ → List ℕ → Bool
same [] [] = true
same (x ∷ xs) (y ∷ ys) = x == y && same xs ys
same _ _ = false

-- Numbers are integers here, and a format stands for its text.
abbrev pub whole : Platform
whole = record {
  F = ℤ;
  add = λ x y. x +ℤ y;
  sub = λ x y. x -ℤ y;
  mul = λ x y. x;
  div = λ x y. x;
  neg = λ x. pos 0 -ℤ x;
  leb = leb_ℤ;
  ltb = ltb_ℤ;
  floor = λ x. x;
  ceil = λ x. x;
  round = λ x. x;
  sin = λ x. x;
  of_int = λ n. n;
  to_int = λ n. n;
  literal = λ n k. n;
  format = λ f args. codes f;
  format_fp = λ x. codes "+1";
  same_text = same;
}

abbrev channel : Channel ℤ
channel = record {
  input_low = pos 0;
  input_high = pos 0;
  input_midpoint = pos 0;
  input_ptp = pos 0;
  input_low_range = false;
  offset_low = pos 0;
  offset_high = pos 0;
  enable = true;
  samples = λ j. 0;
}

abbrev scope : Scope ℤ
scope = record {
  offset_state = ByteState.idle;
  sweep_time = pos 0;
  sample_rate_divisor = 0;
  internal_trigger_source = false;
  trigger_polarity = false;
  trigger_external = false;
  trigger_filter_disable = false;
  status_state = Progress.idle;
  status = 0;
  trigger_level = pos 0;
  trigger_source = imm;
  trigger_offset = pos 0;
  trigger_ref = pos 0;
  addr_state = AddrState.complete;
  addr = 0;
  data_state = ByteState.idle;
  data_count = 0;
  output_pending = true;
  output_mask = 3;
  channel_a = channel;
  channel_b = channel;
}

abbrev pub device : Device ℤ
device = record {
  identify_state = Progress.idle;
  identify_output_requested = false;
  device_id = [];
  rcv_state = RcvState.idle;
  sent = true;
  digital_read_state = Progress.idle;
  digital_read_requested = false;
  digital_read_data = 0;
  error_state = Progress.idle;
  error_msg = [];
  digital_write_data = 0;
  waveform = record { shape = shape_none; user = []; frequency = pos 0; amplitude = pos 0 };
  scope = scope;
  event = record { chan_mask = 32; mode = b'D'; log = []; max = 2; output_pending = true };
  pwm = record { frequency = pos 0; duty_cycle = pos 0 };
}

abbrev no_reg : Reg
no_reg = record { cond = 0; event = 0; enable = 0 }

-- The program while a sweep runs, and its output waits for the data.
abbrev pub sweeping : Info ℤ
sweeping = record {
  quit = false;
  overlapped = true;
  block_input = true;
  enable_flash_writes = false;
  sweep_status = true;
  digital_event_status = true;
  offset_status = false;
  scpi = record {
    ques = no_reg;
    oper = no_reg;
    seser = 0;
    sesr = 1;
    sbr = 0;
    srer = 4;
    opcq = false;
  };
  output = Output.cleared;
  error = ErrorQueue.init;
  event = [];
  device = device;
  link = true;
  written = [];
}

abbrev pub noon : Clock
noon k = record { sec = 43200; usec = k }
