-- ===== src/Commands/Query/Replies.antt =====
-- src/scpi_dev.c: a line of queries prints their answers and changes nothing else.
use cgr101_scpi.Prelude.{
  ℕ, ◌<◌, ◌≡◌, ◌∙◌, refl, ap, Bool, true, false, Option, none, some, List, [], ◌∷◌, length, ◌++◌,
  if◌then◌else◌,
}
use cgr101_scpi.Prelude.Int.{pos}
use cgr101_scpi.Prelude.Fault.{◌>>=◌, >>=-eq-some}
use cgr101_scpi.Info.{Info, Channel}
use cgr101_scpi.Info.Actions.{print, print_fp, print_int}
use cgr101_scpi.Output.{Text, cleared, cmd_sep}
use cgr101_scpi.Output.Response.{put_all, put_rest, respond, response, respond-response}
use cgr101_scpi.Channels.{chan_mask}
use cgr101_scpi.Commands.Query.{Query, ask, ask_rest, ask_line}
use cgr101_scpi.Commands.Query.Answers.{answers, all_answers, selected}
use cgr101_scpi.Commands.Sense
use cgr101_scpi.Commands.Source
use cgr101_scpi.Commands.Measure
use cgr101_scpi.Commands.Trigger
use cgr101_scpi.Device.Abort
use cgr101_scpi.Device.Pwm
use cgr101_scpi.Device.Convert.{Chan, channel}
use cgr101_scpi.Device.DigitalEvent.{has_bit}
use cgr101_scpi.Device.Settings
use cgr101_scpi.Device.Settings.{each_channel}
use cgr101_scpi.Device.Settings.Init
use cgr101_scpi.Device.Settings.Voltage
use cgr101_scpi.Device.Trigger as Driver
use cgr101_scpi.Device.Waveform
use cgr101_scpi.Device.Capture.{bit}
use cgr101_scpi.Device.Waveform.{print_points, waveform_name}
use cgr101_scpi.Platform.{Platform}
use mathlib.Core.List.{map}

module _ (c : Platform) where
  open c use {F, format_fp}

  abbrev printed : Info F → List Text → Info F
  printed i ts = record i { output = put_all i.output ts }

  -- The loop over the channels prints the texts of the selected ones.
  each_channel-print :
      (f : Channel F → Text) (mask : ℕ) (i : Info F)
      → each_channel (λ chan j. some (print j (f (channel j.device.scope chan)))) mask i
        ≡ some (printed i (selected c f mask i.device))
  unfolding each_channel print put_all
  each_channel-print f mask i = both (has_bit mask 0) (has_bit mask 1)
    where
      both :
          (x y : Bool)
          → (do
            i₁ ← if x then some (print i (f (channel i.device.scope Chan.chan_a))) else some i
            if y then some (print i₁ (f (channel i₁.device.scope Chan.chan_b))) else some i₁)
            ≡ some (
                printed i (
                  (if x then f (channel i.device.scope Chan.chan_a) ∷ [] else [])
                  ++ (if y then f (channel i.device.scope Chan.chan_b) ∷ [] else [])))
      both true true = refl
      both true false = refl
      both false true = refl
      both false false = refl

  print_points-map : (xs : List F) (i : Info F) → print_points c xs i ≡ printed i (map format_fp xs)
  unfolding print_points print_fp print put_all
  print_points-map [] i = refl
  print_points-map (x ∷ xs) i = print_points-map xs (print_fp c i x)

  -- The same where the channels stand in a parameter.
  each_mask-print :
      (f : Channel F → Text) (m : Option ℕ) (i : Info F)
      → (do
        mask ← m
        each_channel (λ chan j. some (print j (f (channel j.device.scope chan)))) mask i)
        ≡ (do ts ← (do mask ← m; some (selected c f mask i.device)); some (printed i ts))
  each_mask-print f none i = refl
  each_mask-print f (some mask) i = each_channel-print f mask i

  name-print :
      (name : Option Text) (i : Info F)
      → (do t ← name; some (print i t))
        ≡ (do ts ← (do t ← name; some (t ∷ [])); some (printed i ts))
  unfolding print put_all
  name-print none i = refl
  name-print (some t) i = refl

  -- A query prints its answers.
  ask-answers :
      (q : Query F) (i : Info F) → ask c q i ≡ (do ts ← answers c q i.device; some (printed i ts))
  unfolding ask answers print print_fp print_int put_all Sense.voltage_lowq Sense.voltage_offsetq
      Sense.voltage_ptpq Sense.voltage_upq Sense.function_stateq Voltage.lowq Voltage.offsetq
      Voltage.ptpq Voltage.upq Voltage.channel_stateq Sense.sweep_pointq Sense.sweep_offset_pointq
      Sense.sweep_offset_timeq Sense.sweep_oref_locq Sense.sweep_oref_pointq Sense.sweep_timeq
      Sense.sweep_time_intervalq Settings.sweep_pointq Settings.offset_pointq Settings.offset_timeq
      Settings.oref_locq Settings.oref_pointq Settings.sweep_timeq Settings.sweep_time_intervalq
      Source.digital_dataq Source.waveform_frequencyq Source.waveform_levelq
      Source.waveform_functionq Source.waveform_userq Source.pwm_duty_cycleq Source.pwm_frequencyq
      Abort.source_digital_dataq Waveform.waveform_frequencyq Waveform.waveform_levelq
      Waveform.waveform_functionq Waveform.waveform_userq Pwm.pwm_duty_cycleq Pwm.pwm_frequencyq
      Trigger.levelq Trigger.slopeq Trigger.sourceq Driver.trigger_levelq Driver.trigger_slopeq
      Driver.trigger_sourceq Measure.internal_offsetq Init.input_offsetq
  ask-answers (Query.sense_voltage_lowq v) i =
      each_mask-print (λ x. format_fp x.input_low) (chan_mask v) i
  ask-answers (Query.sense_voltage_offsetq v) i =
      each_mask-print (λ x. format_fp x.input_midpoint) (chan_mask v) i
  ask-answers (Query.sense_voltage_ptpq v) i =
      each_mask-print (λ x. format_fp x.input_ptp) (chan_mask v) i
  ask-answers (Query.sense_voltage_upq v) i =
      each_mask-print (λ x. format_fp x.input_high) (chan_mask v) i
  ask-answers (Query.sense_function_stateq v) i =
      each_mask-print (λ x. c.format "%d" (pos (bit x.enable) ∷ [])) (chan_mask v) i
  ask-answers Query.sense_sweep_pointq i = refl
  ask-answers Query.sense_sweep_offset_pointq i = refl
  ask-answers Query.sense_sweep_offset_timeq i = refl
  ask-answers Query.sense_sweep_oref_locq i = refl
  ask-answers Query.sense_sweep_oref_pointq i = refl
  ask-answers Query.sense_sweep_timeq i = refl
  ask-answers Query.sense_sweep_time_intervalq i = refl
  ask-answers Query.source_digital_dataq i = refl
  ask-answers Query.source_waveform_frequencyq i = refl
  ask-answers Query.source_waveform_levelq i = refl
  ask-answers Query.source_pwm_duty_cycleq i = refl
  ask-answers Query.source_pwm_frequencyq i = refl
  ask-answers Query.trigger_levelq i = refl
  ask-answers Query.trigger_slopeq i = refl
  ask-answers Query.trigger_sourceq i = refl
  ask-answers Query.internal_offsetq i = refl
  ask-answers Query.source_waveform_functionq i =
      name-print (waveform_name i.device.waveform.shape) i
  ask-answers Query.source_waveform_userq i = ap some (print_points-map i.device.waveform.user i)

  -- A query whose answers are ts.
  ask-some :
      (q : Query F) (i : Info F) (ts : List Text)
      → answers c q i.device ≡ some ts
      → ask c q i ≡ some (printed i ts)
  ask-some q i ts e = ask-answers q i ∙ rw e refl

  ask_rest-answers :
      (qs : List (Query F)) (i : Info F) (tss : List (List Text))
      → all_answers c qs i.device ≡ some tss
      → ask_rest c qs i ≡ some (record i { output = put_rest i.output tss })
  unfolding ask_rest all_answers put_rest
  ask_rest-answers [] i tss e = let none_left : tss ≡ [] = cc in rw none_left refl
  ask_rest-answers (q ∷ qs) i tss e =
      let (ts, e₁, e') = >>=-eq-some (answers c q i.device) _ e in
      let (rest, e₂, e₃) = >>=-eq-some (all_answers c qs i.device) _ e' in
      let split : tss ≡ ts ∷ rest = cc in
      let asked = ask-some q (record i { output = cmd_sep i.output }) ts e₁ in
      rw (split, asked)
        (ask_rest-answers qs (printed (record i { output = cmd_sep i.output }) ts) rest e₂)

  -- A line of queries that finds the output empty, where the answers of each are known and all of
  -- them fit in the buffer: it runs to its end, the response is the answers, commas between those
  -- of one query and semicolons between queries, nothing of it is lost, and all else stays as it
  -- was: the device, what is written to it, the events, the errors and the registers.
  pub ask_line-response :
      (q : Query F) (qs : List (Query F)) (i : Info F) (ts : List Text) (tss : List (List Text))
      → i.output ≡ cleared
      → answers c q i.device ≡ some ts
      → all_answers c qs i.device ≡ some tss
      → length (response ts tss) < 32767
      → (i' : Info F) × (ask_line c q qs i ≡ some i')
        × (i' ≡ record i { output = i'.output })
        × (i'.output.buf ≡ response ts tss)
        × (i'.output.overflow ≡ false)
  unfolding ask_line respond
  ask_line-response q qs i ts tss empty e₁ e₂ fits =
      let (same, kept) = respond-response ts tss fits in
      (
        record i { output = put_rest (put_all i.output ts) tss },
        rw (ask-some q i ts e₁) (ask_rest-answers qs (printed i ts) tss e₂),
        refl,
        rw empty same,
        rw empty kept,
      )
