-- ===== src/Event.antt =====
-- src/event.c and src/event.h: the event table and the pipe behind it. Handlers change a state `S`
-- that the table does not look into; a handler that returns none has failed an assertion.
pub mod Table
pub mod Registry
use cgr101_scpi.Prelude.{
  ℕ, ◌%◌, Bool, true, false, Option, none, some, List, [], ◌∷◌, ◌++◌, ltb, ◌==◌, if◌then◌else◌,
  length,
}
use cgr101_scpi.Prelude.Fault.{◌>>=◌, ◌>>◌, require}

-- `enum event_id`
pub data EventId : Type 0 where
  identify_complete identify_output : EventId
  digital_read_complete digital_read_output : EventId
  scope_status_output scope_status_complete scope_offset_start : EventId
  unblock output_flush process_line : EventId

abbrev pub event_code : EventId → ℕ
event_code identify_complete = 0
event_code identify_output = 1
event_code digital_read_complete = 2
event_code digital_read_output = 3
event_code scope_status_output = 4
event_code scope_status_complete = 5
event_code scope_offset_start = 6
event_code unblock = 7
event_code output_flush = 8
event_code process_line = 9

abbrev pub max_events : ℕ
max_events = 20

-- The bytes in the pipe, the oldest first.
abbrev pub Pipe : Type 0
Pipe = List ℕ

-- `event_send`; the write to the pipe is taken to succeed.
unfoldable pub event_send : Pipe → EventId → Option Pipe
event_send pipe id = do
  let c = event_code id % 256
  require (event_code id == c)
  some (pipe ++ (c ∷ []))

-- An entry of `e[]`; `count` is the number of entries.
pub record Slot (S : Type 0) : Type 0 where
  pub event_id : EventId
  pub func : S → Option S

module _ {S : Type 0} where
  -- `event_add`: the `err` that it returns, and the table.
  unfoldable pub event_add : List (Slot S) → EventId → (S → Option S) → Bool × List (Slot S)
  event_add table id func =
      if ltb (length table) max_events
      then (false, table ++ (record { event_id = id; func = func } ∷ []))
      else (true, table)

  -- The loop of `event_handler`: the first entry with that code.
  unfoldable pub find : List (Slot S) → ℕ → Option (S → Option S)
  find [] c = none
  find (x ∷ xs) c = if event_code x.event_id == c then some x.func else find xs c

  abbrev pub call : Option (S → Option S) → S → Option (Bool × S)
  call none s = some (true, s)
  call (some f) s = do s' ← f s; some (false, s')

  -- `event_handler`. `state` puts back what is left in the pipe; the read of an empty pipe waits,
  -- and has no result.
  unfoldable pub event_handler : List (Slot S) → Pipe → (Pipe → S) → Option (Bool × S)
  event_handler table [] state = none
  event_handler table (c ∷ rest) state = call (find table c) (state rest)
