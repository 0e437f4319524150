-- ===== src/World/Turns.antt =====
-- One round of the loop of src/server.c on the program, where one descriptor is ready.
use cgr101_scpi.Prelude.{
  ℕ, ◌≡◌, ◌∙◌, refl, ap, Bool, true, false, Option, some, List, [], ◌∷◌, ◌==◌, ◌||◌, arith,
}
use cgr101_scpi.Prelude.Fault.{◌>>=◌}
use cgr101_scpi.Worker.{Slot}
use cgr101_scpi.Worker.Calls.{call_all}
use cgr101_scpi.Device.DigitalEvent.{Clock}
use cgr101_scpi.Server.{FdSet, Round, ended, server_quit}
use cgr101_scpi.Server.Serve
use cgr101_scpi.Server.Serve.{ready, serve, chosen}
use cgr101_scpi.Start.Whole.{workers}
use cgr101_scpi.World.{World, RunParser, cli_read, event_handler, handlers}
use cgr101_scpi.Platform.{Platform}

-- One descriptor is ready.
abbrev pub only : ℕ → FdSet
only fd x = x == fd

-- Four descriptors that are told apart: the event pipe, the two outputs of the device, the console.
pub record Apart (q o e : ℕ × ℕ) : Type 0 where
  pub q_console : (q.0 == 0) ≡ false
  pub o_console : (o.0 == 0) ≡ false
  pub e_console : (e.0 == 0) ≡ false
  pub o_q : (o.0 == q.0) ≡ false
  pub e_q : (e.0 == q.0) ≡ false
  pub console_q : (0 == q.0) ≡ false

same : (n : ℕ) → (n == n) ≡ true
same n = ground arith

module _ {S : Type 0} where
  serve_round :
      (quit : S → Bool) (xs : List (Slot S)) (r : Round) (fds : FdSet)
      (rs : List (Round × Serve.Event)) (s s' : S)
      → (r.server_exit || quit s) ≡ false
      → call_all (chosen fds xs) s ≡ some (false, s')
      → serve quit xs ((r, ready fds) ∷ rs) s ≡ serve quit xs rs s'
  unfolding serve
  serve_round quit xs r fds rs s s' on called =
      over (server_quit quit r s) (call_all (chosen fds xs) s) on called
    where
      over :
          (q : Bool) (calls : Option (Bool × S))
          → q ≡ false
          → calls ≡ some (false, s')
          → elim q [
            | true ↦ some (ended false, s)
            | false ↦ (do
              (err, s₁) ← calls
              elim err [ true ↦ some (ended true, s₁) | false ↦ serve quit xs rs s₁ ])
          ]
            ≡ serve quit xs rs s'
      over q calls on called = rw (on, called) refl

  call_one :
      (f : S → Option (Bool × S)) (s s' : S)
      → f s ≡ some (false, s')
      → call_all (f ∷ []) s ≡ some (false, s')
  unfolding call_all
  call_one f s s' e = rw e refl

module _ (c : Platform) (now : Clock) where
  open c use {F}

  module _ (run_parser : RunParser F) (q o e : ℕ × ℕ) (a : Apart q o e) where
    abbrev pub program : List (Slot (World F))
    program = workers (handlers c now run_parser) q o e

    abbrev pub quits : World F → Bool
    quits w = w.info.quit

    console_due : chosen (only 0) program ≡ cli_read ∷ []
    unfolding chosen
    console_due = rw (a.q_console, a.o_console, a.e_console) refl

    event_due : chosen (only q.0) program ≡ event_handler c now run_parser ∷ []
    unfolding chosen
    event_due = rw (same q.0, a.o_q, a.e_q, a.console_q) refl

    pub serve_console :
        (r : Round) (rs : List (Round × Serve.Event)) (w w' : World F)
        → r.server_exit ≡ false
        → quits w ≡ false
        → cli_read w ≡ some (false, w')
        → serve quits program ((r, ready (only 0)) ∷ rs) w ≡ serve quits program rs w'
    serve_console r rs w w' go on read =
        serve_round quits program r (only 0) rs w w' (ground arith)
          (ap (λ fs. call_all fs w) console_due ∙ call_one cli_read w w' read)

    pub serve_event :
        (r : Round) (rs : List (Round × Serve.Event)) (w w' : World F)
        → r.server_exit ≡ false
        → quits w ≡ false
        → event_handler c now run_parser w ≡ some (false, w')
        → serve quits program ((r, ready (only q.0)) ∷ rs) w ≡ serve quits program rs w'
    serve_event r rs w w' go on handled =
        serve_round quits program r (only q.0) rs w w' (ground arith) (
          ap (λ fs. call_all fs w) event_due
          ∙ call_one (event_handler c now run_parser) w w' handled)
