-- ===== src/Device/DigitalEvent/Log.antt =====
-- src/cgr101.c: the log of digital events, from the first event to the last one asked for.
use cgr101_scpi.Prelude.{
  ℕ, ◌+◌, ◌≤◌, ◌<◌, ◌≡◌, refl, sym, ap, ◌∙◌, Bool, true, false, Option, some, List, [], ◌∷◌, ◌++◌,
  arith, length, length-append, ltb, leb, ◌==◌, if◌then◌else◌,
}
use mathlib.Core.List.{append_assoc, append-nil}
use cgr101_scpi.Prelude.Fault.{◌>>=◌}
use cgr101_scpi.Output.{Output}
use cgr101_scpi.Event.{unblock, event_code, event_send}
use cgr101_scpi.Info.{Info, DigitalEvent}
use cgr101_scpi.Info.Actions.{with_event, send}
use cgr101_scpi.Device.DigitalEvent.{
  Clock, digital_event, digital_event_done, digital_event_output, digital_event_output-output,
  logged, interrupt_data,
}
use cgr101_scpi.Platform.{Platform}

-- The entries of the log for `values`, from index `k` on.
unfoldable pub stamped : Clock → ℕ → List ℕ → List DigitalEvent
stamped now k [] = []
stamped now k (v ∷ vs) =
    record { tv_sec = (now k).sec; tv_usec = (now k).usec; value = v } ∷ stamped now (k + 1) vs

-- Values of the digital input, none of which is the interrupt's.
abbrev pub AllData : List ℕ → Type 0
AllData [] = Unit
AllData (v ∷ vs) = (v < interrupt_data) × AllData vs

module _ (p : Platform) where
  open p use {F}

  -- The events in order.
  unfoldable pub digital_events : Clock → List ℕ → Info F → Option (Info F)
  digital_events now [] i = some i
  digital_events now (v ∷ vs) i = do i' ← digital_event p now v i; digital_events now vs i'

  abbrev with_log : Info F → List DigitalEvent → Info F
  with_log i log = with_event i (record (i.device.event) { log = log })

  one_event :
      (now : Clock) (v : ℕ) (i : Info F) (log : List DigitalEvent)
      → v < interrupt_data
      → length log + 1 < i.device.event.max
      → digital_event p now v (with_log i log)
        ≡ some (with_log i (log ++ stamped now (length log) (v ∷ [])))
  unfolding digital_event stamped
  one_event now v i log h l =
      let a : ltb (length log) i.device.event.max ≡ true = ground arith in
      let b : leb v interrupt_data ≡ true = ground arith in
      let e : (length (log ++ stamped now (length log) (v ∷ [])) == i.device.event.max) ≡ false =
        ground (arith, length-append log (stamped now (length log) (v ∷ []))) in
      let d : (v == interrupt_data) ≡ false = ground arith in rw a (rw b (rw e (rw d refl)))

  events_from :
      (now : Clock) (vs : List ℕ) (i : Info F) (log : List DigitalEvent)
      → AllData vs
      → length log + length vs < i.device.event.max
      → digital_events now vs (with_log i log)
        ≡ some (with_log i (log ++ stamped now (length log) vs))
  unfolding digital_events stamped
  events_from now [] i log h l = ap (λ x. some (with_log i x)) (sym (append-nil log))
  events_from now (v ∷ vs) i log (hv, h) l =
      let one = stamped now (length log) (v ∷ []) in
      let e : length (log ++ one) ≡ length log + 1 = length-append log one in
      rw (one_event now v i log hv (omega arith)) (
        events_from now vs i (log ++ one) h (omega (arith, e))
        ∙ ap (λ x. some (with_log i x))
            (append_assoc log one (stamped now (length (log ++ one)) vs)
              ∙ ap (λ k. log ++ (one ++ stamped now k vs)) e))

  -- Digital events other than interrupts that do not fill the log are stored in it in the order of
  -- their arrival, behind what it holds and with the time of each, and change nothing else.
  pub digital_events-log :
      (now : Clock) (vs : List ℕ) (i : Info F)
      → AllData vs
      → length i.device.event.log + length vs < i.device.event.max
      → digital_events now vs i
        ≡ some (
            with_event i (record (i.device.event) {
              log = i.device.event.log ++ stamped now (length i.device.event.log) vs;
            }))
  digital_events-log now vs i h l = events_from now vs i i.device.event.log h l

  abbrev shown : Bool → Info F → Info F
  shown b i = if b then digital_event_output p i else i

  shown-output : (b : Bool) (i : Info F) → shown b i ≡ record i { output = (shown b i).output }
  shown-output true i = digital_event_output-output p i
  shown-output false i = refl

  -- The state when the log is full.
  abbrev filled : Clock → ℕ → Info F → Info F
  filled now v i = logged p (now (length i.device.event.log)) v i

  abbrev completed : Info F → Info F
  completed i =
      with_event
        (record i { digital_event_status = false; event = i.event ++ (event_code unblock ∷ []) })
        (record (i.device.event) { chan_mask = 0 })

  fills-done :
      (now : Clock) (v : ℕ) (i : Info F)
      → v ≤ interrupt_data
      → length i.device.event.log + 1 ≡ i.device.event.max
      → digital_event p now v i
        ≡ digital_event_done p (shown i.device.event.output_pending (filled now v i))
  unfolding digital_event
  fills-done now v i h l =
      let log = i.device.event.log in
      let a : ltb (length log) i.device.event.max ≡ true = ground arith in
      let b : leb v interrupt_data ≡ true = ground arith in
      let e : (length (filled now v i).device.event.log == i.device.event.max) ≡ true = ground (
        arith,
        length-append log (
            record { tv_sec = (now (length log)).sec; tv_usec = (now (length log)).usec; value = v }
            ∷ []),
      ) in
      rw a (rw b (rw e refl))

  done-completed :
      (i : Info F) (o : Output)
      → digital_event_done p (record i { output = o }) ≡ some (completed (record i { output = o }))
  unfolding digital_event_done send event_send
  done-completed i o = refl

  -- The event that fills the log, with data that the assertion admits: it is stored behind the
  -- others with its time, no channel is watched any more, the status of the capture is cleared,
  -- and the event that unblocks the input is sent.
  digital_event-last :
      (now : Clock) (v : ℕ) (i : Info F)
      → v ≤ interrupt_data
      → length i.device.event.log + 1 ≡ i.device.event.max
      → (i' : Info F) × (digital_event p now v i ≡ some i')
        × (i'.device.event.chan_mask ≡ 0)
        × (i'.digital_event_status ≡ false)
        × (i'.device.event.log
            ≡ i.device.event.log ++ stamped now (length i.device.event.log) (v ∷ []))
        × (i'.event ≡ i.event ++ (event_code unblock ∷ []))
  unfolding stamped
  digital_event-last now v i h l =
      let b = i.device.event.output_pending in
      let o = (shown b (filled now v i)).output in
      (
        completed (record (filled now v i) { output = o }),
        fills-done now v i h l
            ∙ ap (digital_event_done p) (shown-output b (filled now v i))
            ∙ done-completed (filled now v i) o,
        refl,
        refl,
        refl,
        refl,
      )
