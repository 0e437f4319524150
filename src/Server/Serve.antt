-- ===== src/Server/Serve.antt =====
-- src/server.c: `server_loop` against a loop without a table: in each round the workers whose
-- descriptors are ready are called.
use cgr101_scpi.Prelude.{
  ℕ, ◌≡◌, refl, ap, Bool, true, false, not, Option, none, some, List, [], ◌∷◌, ◌++◌, ◌&&◌, ltb,
  ◌==◌, map, arith, length, take, drop, if◌then◌else◌,
}
use cgr101_scpi.Prelude.Fault.{◌>>=◌}
use cgr101_scpi.Worker.{Slot, Worker}
use cgr101_scpi.Worker.Calls.{AllOpen, due, call_all, idle}
use cgr101_scpi.Server.{
  FdSet, Waits, Select, answered, interrupted, failed, Round, Status, ended, running, flags,
  listening, server_select, server_quit,
}
use cgr101_scpi.Server.Table.{at, fd_of, gathered, marked, any_in, gather-gathered, mark-marked}
use cgr101_scpi.Server.Agree.{
  Agree, gathered-Covers, answered-Agree, all-Agree, any_in-Agree, marked-Agree,
}

-- What happens while the loop waits: these descriptors are ready (none after the timeout), a signal
-- arrives, or `select` has another error.
pub data Event : Type 0 where
  ready : FdSet → Event
  signal broken : Event

-- What the manual of `select` says: it leaves in the set those descriptors below the bound that
-- were in it and are ready.
abbrev pub Reports : Select → Event → Type 0
Reports select (ready r) =
    (n : ℕ) (fds : FdSet) → select n fds ≡ answered (λ fd. ltb fd n && (fds fd && r fd))
Reports select signal = (n : ℕ) (fds : FdSet) → select n fds ≡ interrupted
Reports select broken = (n : ℕ) (fds : FdSet) → select n fds ≡ failed

abbrev pub AllReport : List (Round × Event) → Type 0
AllReport [] = Unit
AllReport ((r, e) ∷ rs) = Reports r.select e × AllReport rs

-- The workers that a round calls: those whose descriptors are ready, and all after a signal.
abbrev pub due_set : Event → FdSet
due_set (ready r) = r
due_set signal = λ fd. true
due_set broken = λ fd. false

module _ {S : Type 0} where
  unfoldable pub chosen : FdSet → List (Slot S) → List (S → Option (Bool × S))
  chosen fds [] = []
  chosen fds (x ∷ xs) = if fds (fd_of x) then x.func ∷ chosen fds xs else chosen fds xs

  -- No worker is marked.
  abbrev pub AllIdle : List (Slot S) → Type 0
  AllIdle [] = Unit
  AllIdle (x ∷ xs) = (x.ready ≡ false) × AllIdle xs

  module _ (quit : S → Bool) (xs : List (Slot S)) where
    -- The loop without a table.
    unfoldable pub serve : List (Round × Event) → S → Option (Status × S)
    unfolding chosen call_all
    serve [] s = some (running, s)
    serve ((r, e) ∷ rs) s = elim (server_quit quit r s) [
      | true ↦ some (ended false, s)
      | false ↦ elim e [
        | broken ↦ none
        | other ↦ (do
          (err, s') ← call_all (chosen (due_set other) xs) s
          elim err [ true ↦ some (ended true, s') | false ↦ serve rs s' ])
      ]
    ]

  pub due-marked :
      (fds : FdSet) (xs : List (Slot S)) → AllIdle xs → due (map (marked fds) xs) ≡ chosen fds xs
  unfolding due chosen
  due-marked fds [] h = refl
  due-marked fds (x ∷ xs) h = ground (arith, due-marked fds xs h.1)

  pub idle-marked :
      (fds : FdSet) (xs : List (Slot S)) → AllIdle xs → map idle (map (marked fds) xs) ≡ xs
  idle-marked fds [] h = refl
  idle-marked fds (x ∷ xs) h = ground (arith, idle-marked fds xs h.1)

  pub AllOpen-marked :
      (fds : FdSet) (xs : List (Slot S)) → AllOpen xs → AllOpen (map (marked fds) xs)
  AllOpen-marked fds [] h = tt
  AllOpen-marked fds (x ∷ xs) h = ground (arith, AllOpen-marked fds xs h.1)

  pub take-append :
      (ys zs : List (Slot S)) (f : Slot S → Slot S) → take (length ys) (map f ys ++ zs) ≡ map f ys
  take-append [] zs f = refl
  take-append (y ∷ ys) zs f = ap (λ r. f y ∷ r) (take-append ys zs f)

  pub drop-append :
      (ys zs : List (Slot S)) (f : Slot S → Slot S) → drop (length ys) (map f ys ++ zs) ≡ zs
  drop-append [] zs f = refl
  drop-append (y ∷ ys) zs f = drop-append ys zs f

  -- A table with these slots in use.
  abbrev pub table : List (Slot S) → List (Slot S) → Worker S
  table xs after = at (length xs) [] xs after

  abbrev pub selected : List (Slot S) → List (Slot S) → FdSet → Worker S
  selected xs after b = record { count = length xs; w = map (marked b) xs ++ after }

  flags-table :
      (listen_fd : ℕ) (fds b : FdSet) (xs after : List (Slot S))
      → AllOpen xs
      → Agree fds b xs
      → flags listen_fd fds (table xs after)
        ≡ some (
          some (not (listen_fd == 0) && fds listen_fd, any_in b xs),
          record { count = length xs; w = map (marked b) xs ++ after },
        )
  flags-table listen_fd fds b xs after h a =
      rw
        (
          mark-marked (length xs) [] xs after fds false h (omega arith),
          any_in-Agree xs fds b a,
          marked-Agree xs fds b a,
        )
        refl

  module _ (listen_fd : ℕ) (xs after : List (Slot S)) where
    abbrev waits : Waits
    waits = gathered xs (listening listen_fd)

    -- What `server_select` leaves: the ready workers are marked.
    pub select-ready :
        (select : Select) (r : FdSet)
        → Reports select (ready r)
        → AllOpen xs
        → (accept : Bool) × (server_select listen_fd select (table xs after)
            ≡ some (some (accept, any_in r xs), selected xs after r))
    unfolding server_select
    select-ready select r report h = (
      not (listen_fd == 0) && (ltb listen_fd waits.0 && (waits.1 listen_fd && r listen_fd)),
      rw
          (
            gather-gathered (length xs) [] xs after (listening listen_fd) h (omega arith),
            report waits.0 waits.1,
          )
          (flags-table listen_fd _ r xs after h
            (answered-Agree xs waits r (gathered-Covers xs (listening listen_fd)))),
    )

    pub select-signal :
        (select : Select)
        → Reports select signal
        → AllOpen xs
        → (accept : Bool) × (server_select listen_fd select (table xs after)
            ≡ some (some (accept, any_in (λ fd. true) xs), selected xs after (λ fd. true)))
    unfolding server_select
    select-signal select report h = (
      not (listen_fd == 0) && waits.1 listen_fd,
      rw
          (
            gather-gathered (length xs) [] xs after (listening listen_fd) h (omega arith),
            report waits.0 waits.1,
          )
          (flags-table listen_fd _ (λ fd. true) xs after h
            (all-Agree xs waits (gathered-Covers xs (listening listen_fd)))),
    )

    pub select-broken :
        (select : Select)
        → Reports select broken
        → AllOpen xs
        → server_select listen_fd select (table xs after) ≡ some (none, table xs after)
    unfolding server_select
    select-broken select report h =
        rw
          (
            gather-gathered (length xs) [] xs after (listening listen_fd) h (omega arith),
            report waits.0 waits.1,
          )
          refl
