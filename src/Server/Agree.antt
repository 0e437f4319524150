-- ===== src/Server/Agree.antt =====
-- src/server.c: the set that `server_select` hands to `select` holds the descriptor of every worker
-- in use, and the bound is above all of them.
use cgr101_scpi.Prelude.{ℕ, ◌≡◌, refl, true, List, [], ◌∷◌, ◌&&◌, ltb, map, arith}
use cgr101_scpi.Worker.{Slot}
use cgr101_scpi.Server.{FdSet, Waits, add_fd}
use cgr101_scpi.Server.Table.{fd_of, gathered, marked, any_in}

abbrev Holds : ℕ → Waits → Type 0
Holds fd (n, fds) = (ltb fd n ≡ true) × (fds fd ≡ true)

add_fd-Holds : (fd : ℕ) (f : Waits) → Holds fd (add_fd fd f)
add_fd-Holds fd (n, fds) = ground arith

add_fd-keeps : (fd x : ℕ) (f : Waits) → Holds x f → Holds x (add_fd fd f)
add_fd-keeps fd x (n, fds) h = ground arith

module _ {S : Type 0} where
  abbrev pub Covers : Waits → List (Slot S) → Type 0
  Covers f [] = Unit
  Covers f (x ∷ xs) = Holds (fd_of x) f × Covers f xs

  gathered-keeps : (xs : List (Slot S)) (fd : ℕ) (f : Waits) → Holds fd f → Holds fd (gathered xs f)
  unfolding gathered
  gathered-keeps [] fd f h = h
  gathered-keeps (x ∷ xs) fd f h =
      gathered-keeps xs fd (add_fd (fd_of x) f) (add_fd-keeps (fd_of x) fd f h)

  pub gathered-Covers : (xs : List (Slot S)) (f : Waits) → Covers (gathered xs f) xs
  unfolding gathered
  gathered-Covers [] f = tt
  gathered-Covers (x ∷ xs) f = (
    gathered-keeps xs (fd_of x) (add_fd (fd_of x) f) (add_fd-Holds (fd_of x) f),
    gathered-Covers xs (add_fd (fd_of x) f),
  )

  -- Two sets with the same descriptors of these workers.
  abbrev pub Agree : FdSet → FdSet → List (Slot S) → Type 0
  Agree a b [] = Unit
  Agree a b (x ∷ xs) = (a (fd_of x) ≡ b (fd_of x)) × Agree a b xs

  pub answered-Agree :
      (xs : List (Slot S)) (f : Waits) (r : FdSet)
      → Covers f xs
      → Agree (λ fd. ltb fd f.0 && (f.1 fd && r fd)) r xs
  answered-Agree [] f r h = tt
  answered-Agree (x ∷ xs) f r h = (rw (h.0.0, h.0.1) refl, answered-Agree xs f r h.1)

  pub all-Agree : (xs : List (Slot S)) (f : Waits) → Covers f xs → Agree f.1 (λ fd. true) xs
  all-Agree [] f h = tt
  all-Agree (x ∷ xs) f h = (h.0.1, all-Agree xs f h.1)

  pub any_in-Agree : (xs : List (Slot S)) (a b : FdSet) → Agree a b xs → any_in a xs ≡ any_in b xs
  unfolding any_in
  any_in-Agree [] a b h = refl
  any_in-Agree (x ∷ xs) a b h = rw (h.0, any_in-Agree xs a b h.1) refl

  pub marked-Agree :
      (xs : List (Slot S)) (a b : FdSet) → Agree a b xs → map (marked a) xs ≡ map (marked b) xs
  marked-Agree [] a b h = refl
  marked-Agree (x ∷ xs) a b h = rw (h.0, marked-Agree xs a b h.1) refl
