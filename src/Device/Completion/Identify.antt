-- ===== src/Device/Completion/Identify.antt =====
-- src/cgr101.c: the identification, from the device's message to the program's answer.
use cgr101_scpi.Prelude.{
  ℕ, ◌+◌, ◌≤◌, ◌≡◌, refl, ap, ◌∙◌, true, Option, some, List, [], ◌∷◌, ◌++◌, length, codes, ◌<◌,
  arith, length-append, lt→ltb,
}
use cgr101_scpi.Prelude.Fault.{◌>>=◌}
use cgr101_scpi.Event.{event_code, event_send, identify_output, output_flush}
use cgr101_scpi.Output.{put}
use cgr101_scpi.Info.{Info, Progress, RcvState}
use cgr101_scpi.Info.Actions.{send, print}
use cgr101_scpi.Device.DigitalEvent.{Clock}
use cgr101_scpi.Device.Handlers.{id_max}
use cgr101_scpi.Device.Receive.{rcv_data}
use cgr101_scpi.Device.Receive.Messages.{Plain, identified, rcv_identity_lem}
use cgr101_scpi.Device.Completion.{identify_completion, identify_handler, until_nul}
use cgr101_scpi.Platform.{Platform}

length-until_nul : (cs : List ℕ) → length (until_nul cs) ≤ length cs
unfolding until_nul
length-until_nul [] = omega arith
length-until_nul (c ∷ cs) = ground (arith, length-until_nul cs)

module _ (p : Platform) where
  open p use {F}

  abbrev completed : Option (Info F) → Option (Info F)
  completed m = do i₁ ← m; i₂ ← identify_completion i₁; identify_handler i₂.device.identify_state i₂

  -- The message of the device, and then the two events of the identification in their order.
  abbrev pub answered : Clock → List ℕ → Info F → Option (Info F)
  answered now message i = completed (rcv_data p now message i)

  abbrev answer_text : List ℕ → Info F → List ℕ
  answer_text text i = codes "GMP,CGR101-SCPI,1.0," ++ until_nul (i.device.device_id ++ text)

  abbrev answer : List ℕ → Info F → Info F
  answer text i =
      let c = identified p i text in
      record c {
        output = (put i.output (answer_text text i)).1;
        event = (c.event ++ (event_code identify_output ∷ [])) ++ (event_code output_flush ∷ []);
        device = record (c.device) { identify_state = Progress.complete };
      }

  completed-identified :
      (text : List ℕ) (i : Info F)
      → length (i.device.device_id ++ text) < id_max
      → i.device.identify_output_requested ≡ true
      → (i' : Info F) × (completed (some (identified p i text)) ≡ some i')
        × (i'.output ≡ (put i.output (answer_text text i)).1)
        × (i'.event ≡ (answer text i).event)
  unfolding identify_completion identify_handler send event_send print
  completed-identified text i l r = (
    answer text i,
    rw (r, lt→ltb (length (until_nul (i.device.device_id ++ text))) id_max (shorter l)) refl,
    refl,
    refl,
  )
    where
      shorter :
          length (i.device.device_id ++ text) < id_max
          → length (until_nul (i.device.device_id ++ text)) < id_max
      shorter l = omega (arith, length-until_nul (i.device.device_id ++ text))

  -- Where an identification was asked for, and the device sends its text in the idle state,
  -- without a line end and so short that a NUL is left behind it in the array: handling the two
  -- events of the identification then prints the answer with the id, up to the first NUL in it,
  -- and asks for the response to be written.
  pub identify_answered :
      (now : Clock) (text : List ℕ) (i : Info F)
      → i.device.rcv_state ≡ RcvState.idle
      → Plain text
      → length i.device.device_id + length text < id_max
      → i.device.identify_output_requested ≡ true
      → (i' : Info F) × (answered now (b'*' ∷ text ++ (13 ∷ 10 ∷ [])) i ≡ some i')
        × (i'.output
            ≡ (put i.output
                (codes "GMP,CGR101-SCPI,1.0," ++ until_nul (i.device.device_id ++ text))).1)
        × (i'.event
            ≡ ((identified p i text).event ++ (event_code identify_output ∷ []))
              ++ (event_code output_flush ∷ []))
  identify_answered now text i s t l r =
      let (i', e, o, v) =
        completed-identified text i (omega (arith, length-append i.device.device_id text)) r in
      (i', ap completed (rcv_identity_lem p now text i s t (omega arith)) ∙ e, o, v)
