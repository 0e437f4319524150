-- ===== src/Server/Rounds.antt =====
-- src/server.c: rounds of `server_loop`, with the workers of src/worker.c.
use cgr101_scpi.Prelude.{
  ℕ, ◌≡◌, ◌∙◌, refl, sym, Bool, true, false, Option, none, some, List, [], ◌∷◌, ◌++◌, map, arith,
  length, take, Bool-cases, inl, inr,
}
use cgr101_scpi.Prelude.Fault.{◌>>=◌}
use cgr101_scpi.Worker.{Slot, Worker, worker_run_ready}
use cgr101_scpi.Worker.Calls.{AllOpen, call_all, called, Served, worker_run_ready-due}
use cgr101_scpi.Server.{FdSet, Round, Status, ended, server_action, server_quit, server_loop}
use cgr101_scpi.Server.Table.{marked, any_in}
use cgr101_scpi.Server.Serve.{
  Event, ready, signal, broken, AllReport, chosen, AllIdle, serve, table, selected, due-marked,
  idle-marked, AllOpen-marked, take-append, drop-append, select-ready, select-signal, select-broken,
}

abbrev pub seen {ℓ} : {S : Type ℓ} {K : Type ℓ} → Option (Status × K × S) → Option (Status × S)
seen none = none
seen (some (st, k, s)) = some (st, s)

module _ {S : Type 0} where
  none_marked :
      (b : FdSet) (xs : List (Slot S))
      → any_in b xs ≡ false
      → (chosen b xs ≡ []) × (map (marked b) xs ≡ xs)
  unfolding any_in chosen
  none_marked b [] h = (refl, refl)
  none_marked b (x ∷ xs) h = ground (arith, none_marked b xs)

  module _ (xs after : List (Slot S)) where
    abbrev Kept : Option (Bool × Worker S × S) → Type 0
    Kept none = Unit
    Kept (some (true, k, s)) = Unit
    Kept (some (false, k, s)) = k ≡ table xs after

    Served-Kept :
        (b : FdSet) (r : Option (Bool × Worker S × S))
        → AllIdle xs
        → Served (selected xs after b) r
        → Kept r
    Served-Kept b none i h = tt
    Served-Kept b (some (true, k, s)) i h = tt
    Served-Kept b (some (false, k, s)) i h =
        h
        ∙ rw (take-append xs after (marked b), drop-append xs after (marked b), idle-marked b xs i)
            refl

    run_selected :
        (b : FdSet) (s : S)
        → AllOpen xs
        → AllIdle xs
        → (called (worker_run_ready (selected xs after b) s) ≡ call_all (chosen b xs) s)
          × Kept (worker_run_ready (selected xs after b) s)
    run_selected b s h i =
        let open_slots : AllOpen (take (length xs) (map (marked b) xs ++ after)) =
          rw (take-append xs after (marked b)) (AllOpen-marked b xs h) in
        let (e, served) = worker_run_ready-due (selected xs after b) s open_slots in
        (
          e ∙ rw (take-append xs after (marked b), due-marked b xs i) refl,
          Served-Kept b (worker_run_ready (selected xs after b) s) i served,
        )

    action-chosen :
        (b : FdSet) (accept : Bool) (s : S)
        → AllOpen xs
        → AllIdle xs
        → (called (server_action accept (any_in b xs) (selected xs after b) s)
            ≡ call_all (chosen b xs) s)
          × Kept (server_action accept (any_in b xs) (selected xs after b) s)
    unfolding server_action call_all
    action-chosen b accept s h i = elim (Bool-cases (any_in b xs)) [
      | inl e ↦ rw e (run_selected b s h i)
      | inr e ↦ let (c, m) = none_marked b xs e in rw (e, c, m) (refl, refl)
    ]

    -- What the loop does behind `server_action`, with the table and without it.
    finish :
        (act : Option (Bool × Worker S × S)) (calls : Option (Bool × S))
        (loop : Worker S → S → Option (Status × Worker S × S)) (rest : S → Option (Status × S))
        → called act ≡ calls
        → Kept act
        → ((s : S) → seen (loop (table xs after) s) ≡ rest s)
        → seen
            (do (err, k, s) ← act; elim err [ true ↦ some (ended true, k, s) | false ↦ loop k s ])
          ≡ (do (err, s) ← calls; elim err [ true ↦ some (ended true, s) | false ↦ rest s ])
    finish none calls loop rest e kept ih = rw (sym e) refl
    finish (some (true, k, s)) calls loop rest e kept ih = rw (sym e) refl
    finish (some (false, k, s)) calls loop rest e kept ih = rw (sym e, kept) (ih s)

    ended_or :
        (q : Bool) (s : S) (x : Option (Status × Worker S × S)) (y : Option (Status × S))
        → seen x ≡ y
        → seen (elim q [ true ↦ some (ended false, table xs after, s) | false ↦ x ])
          ≡ elim q [ true ↦ some (ended false, s) | false ↦ y ]
    ended_or true s x y e = refl
    ended_or false s x y e = e

    module _ (listen_fd : ℕ) (quit : S → Bool) where
      abbrev rounds_of : List (Round × Event) → List Round
      rounds_of = map λ x. x.0

      pub server_loop-serve :
          (rs : List (Round × Event)) (s : S)
          → AllReport rs
          → AllOpen xs
          → AllIdle xs
          → seen (server_loop listen_fd quit (rounds_of rs) (table xs after) s) ≡ serve quit xs rs s
      unfolding server_loop serve
      server_loop-serve [] s h o i = refl
      server_loop-serve ((r, ready fds) ∷ rs) s h o i =
          let (accept, se) = select-ready listen_fd xs after r.select fds h.0 o in
          let (c, kept) = action-chosen fds accept s o i in
          ended_or (server_quit quit r s) s _ _ (
            rw se (
              finish _ _ (server_loop listen_fd quit (rounds_of rs)) (serve quit xs rs) c kept
                λ s'. server_loop-serve rs s' h.1 o i))
      server_loop-serve ((r, signal) ∷ rs) s h o i =
          let (accept, se) = select-signal listen_fd xs after r.select h.0 o in
          let (c, kept) = action-chosen (λ fd. true) accept s o i in
          ended_or (server_quit quit r s) s _ _ (
            rw se (
              finish _ _ (server_loop listen_fd quit (rounds_of rs)) (serve quit xs rs) c kept
                λ s'. server_loop-serve rs s' h.1 o i))
      server_loop-serve ((r, broken) ∷ rs) s h o i =
          ended_or (server_quit quit r s) s _ _
            (rw (select-broken listen_fd xs after r.select h.0 o) refl)
