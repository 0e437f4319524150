-- ===== src/Device/Receive/Messages.antt =====
-- src/cgr101.c: whole messages from the device, from the idle state to the idle state.
use cgr101_scpi.Prelude.{
  ℕ, ◌+◌, ◌*◌, ◌≤◌, ◌<◌, ◌≡◌, ◌≢◌, refl, true, false, none, some, List, [], ◌∷◌, ◌++◌, arith, ltb,
  leb, ◌==◌, ap, ◌∙◌, length, length-append, codes, sym,
}
use mathlib.Core.List.{append_assoc, append-nil}
use cgr101_scpi.ErrorQueue.{hardware_error, push}
use cgr101_scpi.Event.{event_code, event_send, identify_complete}
use cgr101_scpi.Info.{Info, RcvState, AddrState, Progress}
use cgr101_scpi.Info.Actions.{with_device, send, must_send, device_send, raise}
use cgr101_scpi.Device.DigitalEvent.{Clock}
use cgr101_scpi.Device.Capture.{num_sample}
use cgr101_scpi.Device.Handlers.{
  rcv_idle, rcv_start, rcv_scope_addr, rcv_ident, rcv_error_msg, id_max, e_max,
}
use cgr101_scpi.Device.Receive.{rcv_sm, rcv_data}
use cgr101_scpi.Platform.{Platform}

-- The bytes of a text that ends neither the line nor a part of it.
abbrev pub Plain : List ℕ → Type 0
Plain [] = Unit
Plain (c ∷ cs) = (c ≢ 10) × (c ≢ 13) × Plain cs

module _ (p : Platform) where
  open p use {F}

  abbrev addr_received : Info F → ℕ → Info F
  addr_received i addr =
      let s = i.device.scope in
      record i {
        device = record (i.device) {
          rcv_state = RcvState.idle;
          sent = true;
          scope = record s { addr = addr; addr_state = AddrState.complete };
        };
        written = i.written ++ (codes "S B\n" ∷ []);
      }

  -- An `A` message that arrives in the idle state with an address inside the buffer, while the
  -- device takes commands: the address is stored, and the data of both channels is asked for.
  pub rcv_addr :
      (now : Clock) (high low : ℕ) (i : Info F)
      → i.device.rcv_state ≡ RcvState.idle
      → i.link ≡ true
      → high ≤ 3
      → low < 256
      → (i' : Info F) × (rcv_data p now (b'A' ∷ high ∷ low ∷ []) i ≡ some i')
        × (i'.device.scope.addr ≡ high * 256 + low)
        × (i'.device.scope.addr_state ≡ AddrState.complete)
        × (i'.device.rcv_state ≡ RcvState.idle)
        × (i'.written ≡ i.written ++ (codes "S B\n" ∷ []))
  unfolding rcv_data rcv_sm rcv_start rcv_scope_addr must_send device_send
  rcv_addr now high low i s k h l =
      let t : leb high 3 ≡ true = ground arith in
      let u : ltb (high * 256 + low) num_sample ≡ true = ground arith in
      (addr_received i (high * 256 + low), rw s (rw t (rw u (rw k refl))), refl, refl, refl, refl)

  abbrev ident_at : Info F → List ℕ → Info F
  ident_at i text = with_device i (record (i.device) {
    rcv_state = RcvState.identify;
    identify_state = Progress.pending;
    device_id = text;
  })

  ident_byte :
      (now : Clock) (c : ℕ) (rest text : List ℕ) (i : Info F)
      → c ≢ 10
      → c ≢ 13
      → length text < id_max
      → rcv_data p now (c ∷ rest) (ident_at i text)
        ≡ rcv_data p now rest (ident_at i (text ++ (c ∷ [])))
  unfolding rcv_data rcv_sm rcv_ident
  ident_byte now c rest text i n r l =
      let t : (c == 10) ≡ false = ground arith in
      let u : (c == 13) ≡ false = ground arith in
      let v : ltb (length text) id_max ≡ true = ground arith in rw t (rw u (rw v refl))

  ident_more :
      (now : Clock) (more rest text : List ℕ) (i : Info F)
      → Plain more
      → length text + length more ≤ id_max
      → rcv_data p now (more ++ rest) (ident_at i text)
        ≡ rcv_data p now rest (ident_at i (text ++ more))
  ident_more now [] rest text i t l =
      ap (λ x. rcv_data p now rest (ident_at i x)) (sym (append-nil text))
  ident_more now (c ∷ more) rest text i (n, r, t) l =
      ident_byte now c (more ++ rest) text i n r (omega arith)
      ∙ ident_more now more rest (text ++ (c ∷ [])) i t (omega (arith, length-append text (c ∷ [])))
      ∙ ap (λ x. rcv_data p now rest (ident_at i x)) (append_assoc text (c ∷ []) more)

  ident_end :
      (now : Clock) (text : List ℕ) (i : Info F)
      → rcv_data p now (13 ∷ 10 ∷ []) (ident_at i text)
        ≡ some (
            rcv_idle
              (record (ident_at i text) { event = i.event ++ (event_code identify_complete ∷ []) }))
  unfolding rcv_data rcv_sm rcv_ident send event_send
  ident_end now text i = refl

  ident_start :
      (now : Clock) (rest : List ℕ) (i : Info F)
      → i.device.rcv_state ≡ RcvState.idle
      → rcv_data p now (b'*' ∷ rest) i ≡ rcv_data p now rest (ident_at i i.device.device_id)
  unfolding rcv_data rcv_sm rcv_start
  ident_start now rest i s = rw s refl

  abbrev pub identified : Info F → List ℕ → Info F
  identified i text = rcv_idle (record (ident_at i (i.device.device_id ++ text)) {
    event = i.event ++ (event_code identify_complete ∷ []);
  })

  pub rcv_identity_lem :
      (now : Clock) (text : List ℕ) (i : Info F)
      → i.device.rcv_state ≡ RcvState.idle
      → Plain text
      → length i.device.device_id + length text ≤ id_max
      → rcv_data p now (b'*' ∷ text ++ (13 ∷ 10 ∷ [])) i ≡ some (identified i text)
  rcv_identity_lem now text i s t l =
      ident_start now (text ++ (13 ∷ 10 ∷ [])) i s
      ∙ ident_more now text (13 ∷ 10 ∷ []) i.device.device_id i t l
      ∙ ident_end now (i.device.device_id ++ text) i

  -- A `*` message that arrives in the idle state, whose text holds no line end and has room behind
  -- the id stored before: the text is appended to that id, the completion of the identification is
  -- signalled, and the receiver is idle again.
  pub rcv_identity :
      (now : Clock) (text : List ℕ) (i : Info F)
      → i.device.rcv_state ≡ RcvState.idle
      → Plain text
      → length i.device.device_id + length text ≤ id_max
      → (i' : Info F) × (rcv_data p now (b'*' ∷ text ++ (13 ∷ 10 ∷ [])) i ≡ some i')
        × (i'.device.device_id ≡ i.device.device_id ++ text)
        × (i'.device.rcv_state ≡ RcvState.idle)
        × (i'.event ≡ i.event ++ (event_code identify_complete ∷ []))
  rcv_identity now text i s t l =
      (identified i text, rcv_identity_lem now text i s t l, refl, refl, refl)

  abbrev error_at : Info F → List ℕ → Info F
  error_at i text = with_device i (record (i.device) {
    rcv_state = RcvState.error_msg;
    error_state = Progress.pending;
    error_msg = text;
  })

  error_byte :
      (now : Clock) (c : ℕ) (rest text : List ℕ) (i : Info F)
      → c ≢ 10
      → c ≢ 13
      → length text < e_max
      → rcv_data p now (c ∷ rest) (error_at i text)
        ≡ rcv_data p now rest (error_at i (text ++ (c ∷ [])))
  unfolding rcv_data rcv_sm rcv_error_msg
  error_byte now c rest text i n r l =
      let t : (c == 10) ≡ false = ground arith in
      let u : (c == 13) ≡ false = ground arith in
      let v : ltb (length text) e_max ≡ true = ground arith in rw t (rw u (rw v refl))

  error_more :
      (now : Clock) (more rest text : List ℕ) (i : Info F)
      → Plain more
      → length text + length more ≤ e_max
      → rcv_data p now (more ++ rest) (error_at i text)
        ≡ rcv_data p now rest (error_at i (text ++ more))
  error_more now [] rest text i t l =
      ap (λ x. rcv_data p now rest (error_at i x)) (sym (append-nil text))
  error_more now (c ∷ more) rest text i (n, r, t) l =
      error_byte now c (more ++ rest) text i n r (omega arith)
      ∙ error_more now more rest (text ++ (c ∷ [])) i t (omega (arith, length-append text (c ∷ [])))
      ∙ ap (λ x. rcv_data p now rest (error_at i x)) (append_assoc text (c ∷ []) more)

  error_end :
      (now : Clock) (text : List ℕ) (i : Info F)
      → length text < e_max
      → rcv_data p now (13 ∷ 10 ∷ []) (error_at i text)
        ≡ some (
            rcv_idle (record (error_at i text) { error = push i.error hardware_error (some text) }))
  unfolding rcv_data rcv_sm rcv_error_msg raise
  error_end now text i l = let v : ltb (length text) e_max ≡ true = ground arith in rw v refl

  error_start :
      (now : Clock) (rest : List ℕ) (i : Info F)
      → i.device.rcv_state ≡ RcvState.idle
      → rcv_data p now (b'E' ∷ rest) i ≡ rcv_data p now rest (error_at i (b'E' ∷ []))
  unfolding rcv_data rcv_sm rcv_start
  error_start now rest i s = rw s refl

  -- An `E` message that arrives in the idle state, whose text holds no line end and has room: the
  -- message, its first letter included, is raised as the syndrome of a hardware error, and the
  -- receiver is idle again.
  pub rcv_error :
      (now : Clock) (text : List ℕ) (i : Info F)
      → i.device.rcv_state ≡ RcvState.idle
      → Plain text
      → length text + 1 < e_max
      → (i' : Info F) × (rcv_data p now (b'E' ∷ text ++ (13 ∷ 10 ∷ [])) i ≡ some i')
        × (i'.error ≡ push i.error hardware_error (some (b'E' ∷ text)))
        × (i'.device.rcv_state ≡ RcvState.idle)
  rcv_error now text i s t l = (
    rcv_idle (record (error_at i (b'E' ∷ text)) {
      error = push i.error hardware_error (some (b'E' ∷ text));
    }),
    error_start now (text ++ (13 ∷ 10 ∷ [])) i s
        ∙ error_more now text (13 ∷ 10 ∷ []) (b'E' ∷ []) i t (omega arith)
        ∙ error_end now (b'E' ∷ text) i (omega arith),
    refl,
    refl,
  )

  ident_overrun :
      (now : Clock) (c : ℕ) (rest text : List ℕ) (i : Info F)
      → c ≢ 10
      → c ≢ 13
      → length text ≡ id_max
      → rcv_data p now (c ∷ rest) (ident_at i text) ≡ none
  unfolding rcv_data rcv_sm rcv_ident
  ident_overrun now c rest text i n r l =
      let t : (c == 10) ≡ false = ground arith in
      let u : (c == 13) ≡ false = ground arith in
      let v : ltb (length text) id_max ≡ false = ground arith in rw t (rw u (rw v refl))

  -- A `*` message that arrives in the idle state, whose text has one byte more than there is room
  -- behind the id stored before: the byte is written past the end of the id.
  rcv_identity_full :
      (now : Clock) (c : ℕ) (text rest : List ℕ) (i : Info F)
      → i.device.rcv_state ≡ RcvState.idle
      → Plain text
      → c ≢ 10
      → c ≢ 13
      → length i.device.device_id + length text ≡ id_max
      → rcv_data p now (b'*' ∷ text ++ (c ∷ rest)) i ≡ none
  rcv_identity_full now c text rest i s t n r l =
      ident_start now (text ++ (c ∷ rest)) i s
      ∙ ident_more now text (c ∷ rest) i.device.device_id i t (omega arith)
      ∙ ident_overrun now c rest (i.device.device_id ++ text) i n r
          (omega (arith, length-append i.device.device_id text))
