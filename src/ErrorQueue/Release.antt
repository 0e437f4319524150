-- ===== src/ErrorQueue/Release.antt =====
-- src/scpi_error.c: `scpi_error_done`, which frees what is still queued.
use cgr101_scpi.Prelude.{
  sym, ℕ, zero, suc, ◌+◌, ◌%◌, ◌<◌, ◌≡◌, refl, ap, List, [], ◌∷◌, some, false, arith, ◌==◌, ==_iff,
}
use cgr101_scpi.ErrorQueue.{ErrQueue, Entry, Text, errq_size, freed, release_from, release}
use cgr101_scpi.ErrorQueue.Invariant.{IsValid, used, window}
use cgr101_scpi.ErrorQueue.Raise.{view, next_lem}

-- The syndromes that entries carry, in order.
abbrev pub syndromes : List Entry → List Text
syndromes [] = []
syndromes (e ∷ es) = freed e.syndrome (syndromes es)

release_from-window :
    (fuel n : ℕ) (r : ErrQueue)
    → r.head < errq_size
    → r.tail < errq_size
    → n ≡ used r
    → n < fuel
    → release_from fuel r ≡ some (syndromes (window r.q r.tail n), record r { tail = r.head })
unfolding release_from window
release_from-window zero n r hh ht e h = elim h [ ]
release_from-window (suc fuel) zero r hh ht e h =
    let m : r.tail ≡ r.head = omega arith in
    rw ((==_iff r.head r.tail).1 (sym m)) (ap (λ t. some ([], record r { tail = t })) m)
release_from-window (suc fuel) (suc n) r hh ht e h = rw (
  apart,
  next_lem r.tail ht,
  release_from-window fuel n (record r { tail = (r.tail + 1) % errq_size }) hh (omega arith)
      (omega arith) (omega arith),
)
  where
    apart : (r.head == r.tail) ≡ false
    apart = ground arith

-- From a valid queue `scpi_error_done` ends, frees the syndrome of each queued error once, in
-- order, and leaves the queue empty.
pub release-view :
    {r : ErrQueue}
    → IsValid r
    → release r ≡ some (syndromes (view r).items, record r { tail = r.head })
unfolding release
release-view {r} v = release_from-window 33 (used r) r v.head_in v.tail_in refl (omega arith)
