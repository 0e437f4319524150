-- ===== src/Tests/Fixed.antt =====
-- A platform whose numbers are integers that count units of 1e-8, and a state of the program before
-- `cgr101_device_init` and after it.
use cgr101_scpi.Prelude.{
  ℕ, ◌+◌, ◌-◌, ◌*◌, ◌/◌, ◌^◌, Bool, true, false, not, replicate, codes, ◌==◌, refl, if◌then◌else◌,
}
use cgr101_scpi.Prelude.Int.{ℤ, pos, negsuc, ◌+ℤ◌, ◌-ℤ◌, leb_ℤ, ltb_ℤ, pos_part, neg_part}
use cgr101_scpi.Platform.{Platform}
use cgr101_scpi.Info.{Info, Scope, shape_none}
use cgr101_scpi.Device.Settings.Start.{Constants}
use cgr101_scpi.Tests.State.{same, device, sweeping}

abbrev pub unit : ℕ
unit = 100000000

abbrev size : ℤ → ℕ
size x = pos_part x + neg_part x

-- The number of a size, with its sign.
abbrev signed : Bool → ℕ → ℤ
signed minus n = if minus then (if n == 0 then pos 0 else negsuc (n - 1)) else pos n

abbrev minus : ℤ → Bool
minus x = not (neg_part x == 0)

abbrev opposite : Bool → Bool → Bool
opposite true b = not b
opposite false b = b

abbrev times : ℤ → ℤ → ℤ
times x y = signed (opposite (minus x) (minus y)) (size x * size y / unit)

abbrev over : ℤ → ℤ → ℤ
over x y = signed (opposite (minus x) (minus y)) (size x * unit / size y)

-- The largest whole number up to x, and the smallest from x on.
abbrev below : ℤ → ℤ
below (pos n) = pos (n / unit * unit)
below (negsuc n) = negsuc ((n / unit + 1) * unit - 1)

abbrev above : ℤ → ℤ
above x = pos 0 -ℤ below (pos 0 -ℤ x)

abbrev pub fixed : Platform
fixed = record {
  F = ℤ;
  add = λ x y. x +ℤ y;
  sub = λ x y. x -ℤ y;
  mul = times;
  div = over;
  neg = λ x. pos 0 -ℤ x;
  leb = leb_ℤ;
  ltb = ltb_ℤ;
  floor = below;
  ceil = above;
  round = λ x. below (x +ℤ pos 50000000);
  sin = λ x. pos 0;
  of_int = λ n. signed (minus n) (size n * unit);
  to_int = λ x. signed (minus x) (size x / unit);
  literal = λ n k. signed (minus n) (size n * unit / 10 ^ k);
  format = λ f args. codes f;
  format_fp = λ x. codes "+1";
  same_text = same;
}

pub fixed-Constants : Constants fixed
fixed-Constants = record { min_sweep = refl; zero_offset = refl; middle_ref = refl; wide = refl }

abbrev quiet_scope : Scope ℤ
quiet_scope = record (device.scope) {
  channel_a = record (device.scope.channel_a) { enable = false };
  channel_b = record (device.scope.channel_b) { enable = false };
}

-- The memory as it is allocated, and a device that takes commands.
abbrev pub fresh : Info ℤ
fresh = record sweeping {
  overlapped = false;
  block_input = false;
  sweep_status = false;
  digital_event_status = false;
  device = record device {
    scope = quiet_scope;
    event = record (device.event) { chan_mask = 0 };
    waveform = record {
      shape = shape_none;
      user = replicate 256 (pos 0);
      frequency = pos 0;
      amplitude = pos 0;
    };
  };
}
