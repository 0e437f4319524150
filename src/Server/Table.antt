-- ===== src/Server/Table.antt =====
-- src/server.c: the two loops of `server_select` over the workers, as functions on the list of the
-- slots in use.
use cgr101_scpi.Prelude.{
  ℕ, ◌+◌, ◌≡◌, ◌∙◌, refl, sym, ap, ap₂, Bool, true, false, some, List, [], ◌∷◌, ◌++◌, ◌||◌, ltb,
  map, arith, length, length-append, get_or, set, if◌then◌else◌,
}
use mathlib.Core.List.{append_assoc}
use cgr101_scpi.Prelude.Int.{pos, pos_part, leb_ℤ}
use cgr101_scpi.Worker.{Slot, Worker, blank, worker_getfd, worker_ready}
use cgr101_scpi.Worker.Calls.{AllOpen}
use cgr101_scpi.Server.{FdSet, Waits, add_fd, gather, set_ready, mark_one, mark}

module _ {ℓ} {A : Type ℓ} where
  get_or-append : (xs ys : List A) (y d : A) → get_or (xs ++ (y ∷ ys)) (length xs) d ≡ y
  get_or-append [] ys y d = refl
  get_or-append (x ∷ xs) ys y d = get_or-append xs ys y d

  set-append : (xs ys : List A) (y z : A) → set (xs ++ (y ∷ ys)) (length xs) z ≡ xs ++ (z ∷ ys)
  set-append [] ys y z = refl
  set-append (x ∷ xs) ys y z = ap (λ zs. x ∷ zs) (set-append xs ys y z)

or-mark :
    (b event any : Bool) → (if b then true else event) || any ≡ event || (if b then true else any)
or-mark b event any = ground arith

module _ {S : Type 0} where
  abbrev pub fd_of : Slot S → ℕ
  fd_of x = pos_part x.fd

  unfoldable pub gathered : List (Slot S) → Waits → Waits
  gathered [] f = f
  gathered (x ∷ xs) f = gathered xs (add_fd (fd_of x) f)

  -- The mark on a slot whose descriptor is in the set.
  abbrev pub marked : FdSet → Slot S → Slot S
  marked fds x = if fds (fd_of x) then record x { ready = true } else x

  unfoldable pub any_in : FdSet → List (Slot S) → Bool
  any_in fds [] = false
  any_in fds (x ∷ xs) = if fds (fd_of x) then true else any_in fds xs

  -- A table whose slots in use are `before` and the slots from `x` on.
  abbrev pub at : ℕ → List (Slot S) → List (Slot S) → List (Slot S) → Worker S
  at count before xs after = record { count = count; w = before ++ (xs ++ after) }

  worker_getfd-at :
      (count : ℕ) (before : List (Slot S)) (x : Slot S) (xs after : List (Slot S))
      → leb_ℤ (pos 0) x.fd ≡ true
      → ltb (length before) count ≡ true
      → worker_getfd (at count before (x ∷ xs) after) (length before) ≡ some x.fd
  unfolding worker_getfd
  worker_getfd-at count before x xs after nonneg below =
      rw (get_or-append before (xs ++ after) x blank, below, nonneg) refl

  worker_ready-at :
      (count : ℕ) (before : List (Slot S)) (x : Slot S) (xs after : List (Slot S))
      → leb_ℤ (pos 0) x.fd ≡ true
      → ltb (length before) count ≡ true
      → worker_ready (at count before (x ∷ xs) after) (length before)
        ≡ some (at count before (record x { ready = true } ∷ xs) after)
  unfolding worker_ready
  worker_ready-at count before x xs after nonneg below =
      rw
        (
          get_or-append before (xs ++ after) x blank,
          below,
          nonneg,
          set-append before (xs ++ after) x (record x { ready = true }),
        )
        refl

  -- The slot behind `before` becomes its last one.
  at-shift :
      (count : ℕ) (before : List (Slot S)) (x : Slot S) (xs after : List (Slot S))
      → at count (before ++ (x ∷ [])) xs after ≡ at count before (x ∷ xs) after
  at-shift count before x xs after =
      ap (λ w. record { count = count; w = w }) (append_assoc before (x ∷ []) (xs ++ after))

  length-shift :
      (before : List (Slot S)) (x : Slot S) → length (before ++ (x ∷ [])) ≡ length before + 1
  length-shift before x = length-append before (x ∷ [])

  pub gather-gathered :
      (count : ℕ) (before xs after : List (Slot S)) (f : Waits)
      → AllOpen xs
      → length before + length xs ≡ count
      → gather (length xs) (length before) (at count before xs after) f ≡ some (gathered xs f)
  unfolding gather gathered
  gather-gathered count before [] after f h e = refl
  gather-gathered count before (x ∷ xs) after f h e =
      rw (worker_getfd-at count before x xs after h.0 (ground arith)) (
        rw (sym (length-shift before x), sym (at-shift count before x xs after))
          (gather-gathered count (before ++ (x ∷ [])) xs after (add_fd (fd_of x) f) h.1
            (omega (arith, e, length-shift before x))))

  mark_one-marked :
      (count : ℕ) (before : List (Slot S)) (x : Slot S) (xs after : List (Slot S)) (fds : FdSet)
      (event : Bool)
      → leb_ℤ (pos 0) x.fd ≡ true
      → ltb (length before) count ≡ true
      → mark_one (length before) fds (event, at count before (x ∷ xs) after)
        ≡ some ((if fds (fd_of x) then true else event), at count before (marked fds x ∷ xs) after)
  mark_one-marked count before x xs after fds event nonneg below =
      rw (worker_getfd-at count before x xs after nonneg below) (either (fds (fd_of x)))
    where
      either :
          (b : Bool)
          → (if b
              then set_ready (length before) (at count before (x ∷ xs) after)
              else some (event, at count before (x ∷ xs) after))
            ≡ some (
              (if b then true else event),
              at count before ((if b then record x { ready = true } else x) ∷ xs) after,
            )
      either true = rw (worker_ready-at count before x xs after nonneg below) refl
      either false = refl

  pub mark-marked :
      (count : ℕ) (before xs after : List (Slot S)) (fds : FdSet) (event : Bool)
      → AllOpen xs
      → length before + length xs ≡ count
      → mark (length xs) (length before) fds (event, at count before xs after)
        ≡ some (event || any_in fds xs, at count before (map (marked fds) xs) after)
  unfolding mark any_in
  mark-marked count before [] after fds event h e = ground arith
  mark-marked count before (x ∷ xs) after fds event h e =
      let y = marked fds x in
      let event' = if fds (fd_of x) then true else event in
      rw (mark_one-marked count before x xs after fds event h.0 (ground arith)) (
        rw (sym (length-shift before y), sym (at-shift count before y xs after))
          (mark-marked count (before ++ (y ∷ [])) xs after fds event' h.1
              (omega (arith, e, length-shift before y))
            ∙ ap₂ (λ (b : Bool) (k : Worker S). some (b, k))
                (or-mark (fds (fd_of x)) event (any_in fds xs))
                (at-shift count before y (map (marked fds) xs) after)))
