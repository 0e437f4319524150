-- ===== src/Event/Registry.antt =====
-- The registrations that the program makes, in order: src/cgr101.c `cgr101_event_init`, then
-- src/parser.c `parser_init` and src/scpi_core.c `scpi_core_init`.
use cgr101_scpi.Prelude.{◌≡◌, refl, true, false, some, none, List, [], ◌∷◌, ◌++◌, Option, map, ap}
use cgr101_scpi.Event.{
  EventId, event_code, Slot, Pipe, event_add, find, call, event_handler, identify_complete,
  identify_output, digital_read_complete, digital_read_output, scope_status_complete,
  scope_status_output, scope_offset_start, process_line, unblock, output_flush,
}

-- `cgr101_event_init`
abbrev pub device_events : List EventId
device_events =
    identify_complete ∷ identify_output ∷ digital_read_complete ∷ digital_read_output
    ∷ scope_status_complete ∷ scope_status_output ∷ scope_offset_start ∷ []

-- The `event_add` calls of `parser_init` and of `scpi_core_init`, which calls it first.
abbrev pub core_events : List EventId
core_events = process_line ∷ unblock ∷ output_flush ∷ []

module _ {S : Type 0} (handler : EventId → S → Option S) where
  -- One `event_add` after another, each with the assertion on its `err`.
  unfoldable pub register : List EventId → List (Slot S) → Option (List (Slot S))
  register [] t = some t
  register (id ∷ ids) t =
      let (err, t') = event_add t id (handler id) in
      elim err [ true ↦ none | false ↦ register ids t' ]

  abbrev registered : List (Slot S)
  registered =
      map (λ id. record { event_id = id; func = handler id }) (device_events ++ core_events)

  find-registered : (id : EventId) → find registered (event_code id) ≡ some (handler id)
  unfolding find
  find-registered identify_complete = refl
  find-registered _ = refl

  -- The ten registrations of the program all succeed, and every event sent is then handled by the
  -- handler that was registered for it.
  register_all :
      (id : EventId) (rest : Pipe) (state : Pipe → S)
      → (t : List (Slot S)) × (register (device_events ++ core_events) [] ≡ some t)
        × (event_handler t (event_code id ∷ rest) state ≡ call (some (handler id)) (state rest))
  unfolding register event_add event_handler
  register_all id rest state =
      (registered, refl, ap (λ f. call f (state rest)) (find-registered id))
