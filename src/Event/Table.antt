-- ===== src/Event/Table.antt =====
-- src/event.c: what the table finds, and the order of the pipe.
use cgr101_scpi.Prelude.{
  ℕ, ◌<◌, ◌≡◌, refl, false, some, none, List, [], ◌∷◌, ◌++◌, arith, length, Option, if◌then◌else◌,
  ◌==◌,
}
use cgr101_scpi.Event.{
  EventId, event_code, Slot, Pipe, max_events, event_send, event_add, find, call, event_handler,
}

-- Every event id passes through the one byte of the pipe.
pub event_send_lem : (p : Pipe) (id : EventId) → event_send p id ≡ some (p ++ (event_code id ∷ []))
unfolding event_send
event_send_lem p EventId.identify_complete = refl
event_send_lem p _ = refl

-- The entry of `id` that is found, or the given one where there is none.
abbrev found {ℓ} : {A : Type ℓ} → Option A → A → A
found none d = d
found (some x) d = x

module _ {S : Type 0} where
  find-append :
      (t : List (Slot S)) (x : Slot S) (c : ℕ)
      → find (t ++ (x ∷ [])) c
        ≡ (if event_code x.event_id == c then some (found (find t c) x.func) else find t c)
  unfolding find
  find-append [] x c = ground arith
  find-append (y ∷ t) x c = ground (arith, find-append t x c)

  -- While the table has room a registration succeeds, and takes the events of its id unless an
  -- earlier one has them; the events of other ids go where they went.
  pub event_add-find :
      (t : List (Slot S)) (id : EventId) (f : S → Option S) (c : ℕ)
      → length t < max_events
      → ((event_add t id f).0 ≡ false)
        × (find (event_add t id f).1 c
            ≡ (if event_code id == c then some (found (find t c) f) else find t c))
  unfolding event_add
  event_add-find t id f c h = ground (arith, find-append t (record { event_id = id; func = f }) c)

  -- With an event waiting, a sent event goes behind it: the oldest byte is the one that is handled
  -- next, and the sent one is left in the pipe.
  pub event_handler-send :
      (t : List (Slot S)) (c : ℕ) (p : Pipe) (id : EventId) (state : Pipe → S)
      → ((q : Pipe) × (event_send (c ∷ p) id ≡ some q)
          × (event_handler t q state ≡ call (find t c) (state (p ++ (event_code id ∷ [])))))
  unfolding event_handler
  event_handler-send t c p id state =
      (c ∷ (p ++ (event_code id ∷ [])), event_send_lem (c ∷ p) id, refl)
