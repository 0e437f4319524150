-- ===== src/Info/Actions.antt =====
-- The effects that the handlers share: src/cgr101.c `cgr101_device_send` and
-- `cgr101_device_printf`, and calls of the output buffer, the event pipe and the error queue. A
-- handler returns none where an assertion fails.
use cgr101_scpi.Prelude.{
  Bool, true, false, not, Option, some, List, [], ◌∷◌, ◌++◌, ltb, if◌then◌else◌, length, ◌≡◌, ◌∙◌,
  ◌<◌, lt→ltb, refl, none, ◌&&◌,
}
use cgr101_scpi.Prelude.Int.{ℤ}
use cgr101_scpi.Prelude.Fault.{◌>>=◌, ◌>>◌, require}
use cgr101_scpi.ErrorQueue
use cgr101_scpi.ErrorQueue.{ErrNum}
use cgr101_scpi.Output.{Text, put}
use cgr101_scpi.Event
use cgr101_scpi.Event.{EventId}
use cgr101_scpi.Info.{Info, Device, Scope, Events}
use cgr101_scpi.Platform.{Platform}
use Prim.Native.String.{String}

module _ {F : Type 0} where
  abbrev pub with_device : Info F → Device F → Info F
  with_device i d = record i { device = d }

  abbrev pub with_scope : Info F → Scope F → Info F
  with_scope i s = with_device i (record (i.device) { scope = s })

  abbrev pub with_event : Info F → Events → Info F
  with_event i e = with_device i (record (i.device) { event = e })

  -- `event_send(info->event, id)`
  unfoldable pub send : Info F → EventId → Option (Info F)
  send i id = do p ← Event.event_send i.event id; some (record i { event = p })

  -- `scpi_error(info->error, num, syndrome)`
  unfoldable pub raise : Info F → ErrNum → Option Text → Info F
  raise i num s = record i { error = ErrorQueue.push i.error num s }

  -- `scpi_output_printf` and its kin with a text that is made; what they return is ignored.
  unfoldable pub print : Info F → Text → Info F
  print i t = record i { output = (put i.output t).1 }

  -- The state once the device has taken a command.
  abbrev pub took : Info F → Text → Info F
  took i str = record i {
    device = record (i.device) { sent = true };
    written = i.written ++ (str ∷ []);
  }

  -- `cgr101_device_send`: its `err`, and the state. A write that the device does not take in full
  -- counts as no write.
  unfoldable pub device_send : Info F → Text → Bool × Info F
  device_send i str = if i.link then (false, took i str) else (true, i)

  -- A call of it with `assert(!err)` behind.
  unfoldable pub must_send : Info F → Text → Option (Info F)
  unfolding device_send
  must_send i str = do let (err, i') = device_send i str; require (not err); some i'

module _ (c : Platform) where
  open c use {F, format, format_fp}

  -- `cgr101_device_printf`, whose buffer has 32 bytes.
  unfoldable pub device_printf : Info F → String → List ℤ → Option (Bool × Info F)
  unfolding device_send
  device_printf i fmt args = do
    require (ltb (length (format fmt args)) 32)
    some (device_send i (format fmt args))

  -- A call of it with `assert(!err)` behind.
  unfoldable pub must_printf : Info F → String → List ℤ → Option (Info F)
  unfolding device_printf
  must_printf i fmt args = do (err, i') ← device_printf i fmt args; require (not err); some i'

  -- `scpi_output_int`
  unfoldable pub print_int : Info F → ℤ → Info F
  unfolding print
  print_int i n = print i (format "%d" (n ∷ []))

  -- `scpi_output_fp`
  unfoldable pub print_fp : Info F → F → Info F
  unfolding print
  print_fp i x = print i (format_fp x)

  fits_printf :
      (i : Info F) (text : Text) (fits link : Bool)
      → (do
        (err, i') ← (do require fits; some (if link then (false, took i text) else (true, i)))
        require (not err)
        some i')
        ≡ (if fits && link then some (took i text) else none)
  fits_printf i text true true = refl
  fits_printf i text true false = refl
  fits_printf i text false link = refl

  -- A command is taken where it fits in the buffer and the device takes it; else an assertion fails.
  pub must_printf-took :
      (i : Info F) (fmt : String) (args : List ℤ)
      → must_printf i fmt args ≡ (
          if ltb (length (format fmt args)) 32 && i.link
          then some (took i (format fmt args))
          else none)
  unfolding must_printf device_printf device_send
  must_printf-took i fmt args =
      fits_printf i (format fmt args) (ltb (length (format fmt args)) 32) i.link

  pub must_printf-fits :
      (i : Info F) (fmt : String) (args : List ℤ)
      → length (format fmt args) < 32
      → i.link ≡ true
      → must_printf i fmt args ≡ some (took i (format fmt args))
  must_printf-fits i fmt args fits link =
      must_printf-took i fmt args ∙ rw (lt→ltb (length (format fmt args)) 32 fits, link) refl
